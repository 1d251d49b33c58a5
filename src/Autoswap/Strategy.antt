-- ===== src/Autoswap/Strategy.antt =====
-- internal/autoswap/strategy.go: which swap would bring a channel's balance back.
pub mod Amounts
use lightz_client.Base.{
  ℕ, ◌-◌, add64, sub64, String, Bool, true, false, not, ◌==◌, ◌||◌, ◌&&◌, if◌then◌else◌, ltb,
  Option, none, some, List, [], ◌∷◌,
}
use lightz_client.Float.{Float64, Arith, calculate_percentage}
use lightz_client.Lightz.Types.{Currency, SwapType}
use lightz_client.Onchain.Wallets.{Wallet}
use lightz_client.Autoswap.Checks.{Balance, get}

-- `lightning.LightningChannel`, without the peer and the funding output.
pub record Channel : Type 0 where
  pub id : ℕ
  pub outbound_sat : ℕ
  pub inbound_sat : ℕ
  pub capacity : ℕ

-- `LightningConfig`, as `Init` leaves it.
pub record LightningConfig : Type 0 where
  pub reserve : Float64
  pub max_fee_percent : Float64
  pub currency : Currency
  pub swap_type : SwapType
  pub outbound_balance : Balance
  pub inbound_balance : Balance
  pub per_channel : Bool
  pub wallet : Option Wallet
  pub static_address : String
  pub accept_zero_conf : Bool

abbrev pub eq_swap_type : SwapType → SwapType → Bool
eq_swap_type SwapType.normal SwapType.normal = true
eq_swap_type SwapType.reverse SwapType.reverse = true
eq_swap_type SwapType.chain SwapType.chain = true
eq_swap_type SwapType.unset SwapType.unset = true
eq_swap_type _ _ = false

-- `Allowed`
abbrev pub allows : LightningConfig → SwapType → Bool
allows cfg t = eq_swap_type cfg.swap_type t || eq_swap_type cfg.swap_type SwapType.unset

-- `LightningSwap` before its checks, and the recommendation; a threshold of 0 is left out.
pub record Proposal : Type 0 where
  pub swap_type : SwapType
  pub amount : ℕ

pub record Recommendation (S : Type 0) : Type 0 where
  pub swap : Option S
  pub channel : Channel
  pub outbound_threshold : Option ℕ
  pub inbound_threshold : Option ℕ

abbrev threshold : ℕ → Option ℕ
threshold n = if n == 0 then none else some n

-- The sums of `totalBalanceStrategy`; the total has no id.
unfoldable pub add_channel_balances : List Channel → Channel → Channel
add_channel_balances [] total = total
add_channel_balances (c ∷ cs) total = add_channel_balances cs (record {
  id = total.id;
  outbound_sat = add64 total.outbound_sat c.outbound_sat;
  inbound_sat = add64 total.inbound_sat c.inbound_sat;
  capacity = add64 total.capacity c.capacity;
})

abbrev pub no_channel : Channel
no_channel = record { id = 0; outbound_sat = 0; inbound_sat = 0; capacity = 0 }

module _ (a : Arith) (cfg : LightningConfig) where
  -- The type of the swap, and the amount that a configuration for one type of swap starts from.
  unfoldable pub choose : Channel → (outbound inbound : ℕ) → Proposal
  choose channel outbound inbound =
      if ltb channel.outbound_sat outbound
      then record {
        swap_type = SwapType.normal;
        amount = if eq_swap_type cfg.swap_type SwapType.normal then channel.inbound_sat else 0;
      }
      else (if ltb channel.inbound_sat inbound
          then record {
            swap_type = SwapType.reverse;
            amount =
                if eq_swap_type cfg.swap_type SwapType.reverse then channel.outbound_sat else 0;
          }
          else record { swap_type = SwapType.unset; amount = 0 })

  -- Half way between the thresholds, in floats.
  abbrev distance_to_target : Channel → (outbound inbound : ℕ) → ℕ
  distance_to_target channel outbound inbound =
      let target =
        a.div (a.from_uint64 (add64 outbound (sub64 channel.capacity inbound))) (a.ratio 2 1) in
      a.to_uint64 (a.abs (a.sub (a.from_uint64 channel.outbound_sat) target))

  -- A swap of the whole balance leaves the reserve.
  abbrev pub keep_reserve : Channel → Proposal → Option Proposal
  keep_reserve channel p =
      let reserve = calculate_percentage a cfg.reserve channel.capacity in
      if ltb p.amount reserve then none else some (record p { amount = sub64 p.amount reserve })

  unfoldable pub propose : Channel → (outbound inbound : ℕ) → Proposal → Option Proposal
  propose channel outbound inbound p =
      if not (eq_swap_type p.swap_type SwapType.unset) && allows cfg p.swap_type
      then (if p.amount == 0
          then some (record p { amount = distance_to_target channel outbound inbound })
          else keep_reserve channel p)
      else none

  -- `none` is Go's nil.
  unfoldable pub channel_recommendation : Channel → Option (Recommendation Proposal)
  unfolding choose propose get
  channel_recommendation channel =
      let outbound = get a cfg.outbound_balance channel.capacity in
      let inbound = get a cfg.inbound_balance channel.capacity in
      if ltb channel.capacity (add64 outbound inbound)
      then none
      else some (record {
        swap = propose channel outbound inbound (choose channel outbound inbound);
        channel = channel;
        outbound_threshold = threshold outbound;
        inbound_threshold = threshold inbound;
      })

  unfoldable pub total_balance_strategy : List Channel → List (Option (Recommendation Proposal))
  unfolding channel_recommendation add_channel_balances
  total_balance_strategy channels =
      channel_recommendation (add_channel_balances channels no_channel) ∷ []

  unfoldable pub per_channel_strategy : List Channel → List (Option (Recommendation Proposal))
  unfolding channel_recommendation
  per_channel_strategy [] = []
  per_channel_strategy (c ∷ cs) = channel_recommendation c ∷ per_channel_strategy cs

  unfoldable pub strategy : List Channel → List (Option (Recommendation Proposal))
  unfolding total_balance_strategy per_channel_strategy
  strategy channels =
      if cfg.per_channel then per_channel_strategy channels else total_balance_strategy channels
