-- ===== src/Autoswap/Lightning.antt =====
-- internal/autoswap/lightning.go: which of the proposed swaps are recommended, and which are created.
pub mod Execution
pub mod Spending
use lightz_client.Base.{
  ℕ, String, Bool, true, false, not, ◌==◌, ◌&&◌, ◌||◌, if◌then◌else◌, ltb, sub64, Option, none,
  some, List, [], ◌∷◌,
}
use lightz_client.Base.Int.{ℤ, to_int64}
use lightz_client.Float.{Float64, Arith}
use lightz_client.Lightz.Types.{Currency, Pair, SwapType, Error, errorf, Result, ok, err}
use lightz_client.Onchain.Wallets.{Wallet}
use lightz_client.Autoswap.Checks.{
  PairInfo, Checks, CheckParams, check, dismiss_if, reason_pending_swap, reason_failed_swap,
  reason_insufficient_funds, DismissedChannels, lookup_channel, add_channels,
}
use lightz_client.Autoswap.Strategy.{
  Channel, LightningConfig, Proposal, Recommendation, eq_swap_type, strategy,
}

-- `LightningSwap`
pub record LightningSwap : Type 0 where
  pub checks : Checks
  pub swap_type : SwapType

-- What the service sends to the client's own RPC server.
pub record Request : Type 0 where
  pub swap_type : SwapType
  pub amount : ℕ
  pub pair : Pair
  pub chan_ids : List ℕ
  pub address : String
  pub accept_zero_conf : Bool
  pub wallet_id : Option ℕ

-- The RPC server, the queries of the database (a swap's channel ids, `none` for nil), the current
-- budget, and `slices.SortFunc` at the type of the recommendations.
pub record LightningEnv : Type 0 where
  pub arith : Arith
  pub channels : Result (List Channel)
  pub pair_info : SwapType → Pair → Result PairInfo
  pub create : Request → Option Error
  pub pending_swaps : Result (List (Option (List ℕ)))
  pub pending_reverse_swaps : Result (List (Option (List ℕ)))
  pub failed_swaps : Result (List (Option (List ℕ)))
  pub failed_reverse_swaps : Result (List (Option (List ℕ)))
  pub budget : Result ℕ
  pub sort_func :
      (Recommendation Proposal → Recommendation Proposal → ℤ)
      → List (Recommendation Proposal)
      → List (Recommendation Proposal)

unfoldable pub add_swaps : DismissedChannels → List (Option (List ℕ)) → String → DismissedChannels
add_swaps reasons [] reason = reasons
add_swaps reasons (ids ∷ swaps) reason = add_swaps (add_channels reasons ids reason) swaps reason

-- `GetPair`
abbrev pub get_pair : LightningConfig → SwapType → Pair
get_pair cfg SwapType.normal = record { from = cfg.currency; to = Currency.btc }
get_pair cfg SwapType.reverse = record { from = Currency.btc; to = cfg.currency }
get_pair cfg _ = record { from = Currency.btc; to = Currency.btc }

infixl 1 ◌>>=◌
abbrev pub ◌>>=◌ {ℓ κ} : {A : Type ℓ} {B : Type κ} → Result A → (A → Result B) → Result B
ok a >>= f = f a
err e >>= f = err e

module _ (env : LightningEnv) (cfg : LightningConfig) where
  unfoldable pub get_dismissed_channels : Result DismissedChannels
  unfolding add_swaps
  get_dismissed_channels = do
    swaps ← env.pending_swaps
    reverse_swaps ← env.pending_reverse_swaps
    failed ← env.failed_swaps
    failed_reverse ← env.failed_reverse_swaps
    let pending =
        add_swaps (add_swaps [] swaps reason_pending_swap) reverse_swaps reason_pending_swap
    ok (add_swaps (add_swaps pending failed reason_failed_swap) failed_reverse reason_failed_swap)

  -- The wallet's confirmed balance, where there is a wallet.
  abbrev confirmed_balance : Option Wallet → Result (Option ℕ)
  confirmed_balance none = ok none
  confirmed_balance (some wallet) = elim (wallet.get_balance) [
    | ok b ↦ ok (some b.confirmed)
    | err e ↦ err e
  ]

  -- The comparison of the sort, `int(a - b)` on uint64s.
  abbrev pub amount_of : Option Proposal → ℕ
  amount_of none = 0
  amount_of (some p) = p.amount

  abbrev compare_amounts : Recommendation Proposal → Recommendation Proposal → ℤ
  compare_amounts x y = to_int64 (sub64 (amount_of x.swap) (amount_of y.swap))

  abbrev pub is_short : Option ℕ → SwapType → Checks → Bool
  is_short none t c = false
  is_short (some confirmed) t c = eq_swap_type t SwapType.normal && ltb confirmed c.amount

  abbrev pub params_of : PairInfo → List String → CheckParams
  params_of pair reasons = record {
    max_fee_percent = cfg.max_fee_percent;
    pair = pair;
    dismissed_reasons = reasons;
  }

  -- The checks of one swap, and what it leaves of the budget.
  unfoldable pub check_swap : Option ℕ → PairInfo → List String → Proposal → ℕ → LightningSwap × ℕ
  check_swap balance pair reasons p budget =
      let (c, rest) = check env.arith p.amount (params_of pair reasons) budget in
      (
        record {
          checks = dismiss_if (is_short balance p.swap_type c) reason_insufficient_funds c;
          swap_type = p.swap_type;
        },
        rest,
      )

  abbrev with_swap : Recommendation Proposal → Option LightningSwap → Recommendation LightningSwap
  with_swap r swap = record {
    swap = swap;
    channel = r.channel;
    outbound_threshold = r.outbound_threshold;
    inbound_threshold = r.inbound_threshold;
  }

  -- A swap without a pair is skipped; the rest of the loop, `next`, gets what is left of the budget.
  unfoldable pub validate_swap :
      Option ℕ
      → List String
      → Recommendation Proposal
      → Proposal
      → Result PairInfo
      → (ℕ → List (Recommendation LightningSwap))
      → ℕ
      → List (Recommendation LightningSwap)
  unfolding check_swap
  validate_swap balance reasons r p (err e) next budget = next budget
  validate_swap balance reasons r p (ok pair) next budget =
      let (swap, left) = check_swap balance pair reasons p budget in
      with_swap r (some swap) ∷ next left

  unfoldable pub validate_one :
      Option ℕ
      → DismissedChannels
      → Bool
      → Recommendation Proposal
      → Option Proposal
      → (ℕ → List (Recommendation LightningSwap))
      → ℕ
      → List (Recommendation LightningSwap)
  unfolding validate_swap lookup_channel
  validate_one balance reasons include_all r none next budget =
      if include_all then with_swap r none ∷ next budget else next budget
  validate_one balance reasons include_all r (some p) next budget =
      validate_swap balance (lookup_channel r.channel.id reasons) r p
        (env.pair_info p.swap_type (get_pair cfg p.swap_type)) next budget

  -- The loop of `validateRecommendations`.
  unfoldable pub validate_all :
      Option ℕ
      → DismissedChannels
      → Bool
      → List (Recommendation Proposal)
      → ℕ
      → List (Recommendation LightningSwap)
  unfolding validate_one
  validate_all balance reasons include_all [] budget = []
  validate_all balance reasons include_all (r ∷ rs) budget =
      validate_one balance reasons include_all r r.swap
        (validate_all balance reasons include_all rs) budget

  -- The sort and the loop read every recommendation, so that a nil one, `none`, panics.
  abbrev pub read_all :
      List (Option (Recommendation Proposal)) → Option (List (Recommendation Proposal))
  read_all [] = some []
  read_all (none ∷ rs) = none
  read_all (some r ∷ rs) = elim (read_all rs) [ none ↦ none | some rest ↦ some (r ∷ rest) ]

  -- The queries of `validateRecommendations`.
  abbrev pub query_all : Result (DismissedChannels × Option ℕ)
  query_all = do
    reasons ← get_dismissed_channels
    balance ← confirmed_balance cfg.wallet
    ok (reasons, balance)

  -- What the calls return: `none` is a panic.
  abbrev pub Recommended : Type 0
  Recommended = Option (Result (List (Recommendation LightningSwap)))

  unfoldable pub validate_read :
      DismissedChannels × Option ℕ
      → ℕ
      → Bool
      → Option (List (Recommendation Proposal))
      → Recommended
  unfolding validate_all
  validate_read (reasons, balance) budget include_all none = none
  validate_read (reasons, balance) budget include_all (some rs) =
      some (ok (validate_all balance reasons include_all (env.sort_func compare_amounts rs) budget))

  unfoldable pub validate_queried :
      Result (DismissedChannels × Option ℕ)
      → List (Option (Recommendation Proposal))
      → ℕ
      → Bool
      → Recommended
  unfolding validate_read
  validate_queried (err e) recommendations budget include_all = some (err e)
  validate_queried (ok queried) recommendations budget include_all =
      validate_read queried budget include_all (read_all recommendations)

  unfoldable pub validate_recommendations :
      List (Option (Recommendation Proposal)) → ℕ → Bool → Recommended
  unfolding get_dismissed_channels validate_queried
  validate_recommendations recommendations budget include_all =
      validate_queried query_all recommendations budget include_all

  unfoldable pub recommend : Result (List Channel) → Result ℕ → Bool → Recommended
  unfolding validate_recommendations strategy
  recommend (err e) budget include_all = some (err e)
  recommend (ok channels) (err e) include_all = some (err (errorf "Could not get budget"))
  recommend (ok channels) (ok budget) include_all =
      validate_recommendations (strategy env.arith cfg channels) budget include_all

  unfoldable pub get_swap_recommendations : Bool → Recommended
  unfolding recommend
  get_swap_recommendations include_all = recommend env.channels env.budget include_all
