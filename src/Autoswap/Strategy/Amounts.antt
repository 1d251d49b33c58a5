-- ===== src/Autoswap/Strategy/Amounts.antt =====
-- The amounts that the strategies propose.
use lightz_client.Base.{ℕ, ◌+◌, ◌<◌, ◌≡◌, add64, sub64, u64_mod, lt→ltb, none, some, arith}
use lightz_client.Float.{Arith, calculate_percentage}
use lightz_client.Lightz.Types.{SwapType}
use lightz_client.Autoswap.Checks.{get}
use lightz_client.Autoswap.Strategy.{
  Channel, LightningConfig, keep_reserve, Proposal, choose, propose, channel_recommendation,
}

module _ (a : Arith) (cfg : LightningConfig) (channel : Channel) where
  -- Where the thresholds add up, as uint64s, to more than the capacity, there is no recommendation.
  pub channel_recommendation-none :
      channel.capacity
        < add64
            (get a cfg.outbound_balance channel.capacity)
            (get a cfg.inbound_balance channel.capacity)
      → channel_recommendation a cfg channel ≡ none
  unfolding channel_recommendation
  channel_recommendation-none lt = rw (lt→ltb _ _ lt)

  keep_reserve-some :
      (p q : Proposal)
      → p.amount < u64_mod
      → keep_reserve a cfg channel p ≡ some q
      → (q.swap_type ≡ p.swap_type)
        × (q.amount + calculate_percentage a cfg.reserve channel.capacity ≡ p.amount)
  unfolding sub64
  keep_reserve-some p q lt h = ground arith

  -- A configuration for normal swaps: every proposed swap is a normal one, and its amount and the reserve
  -- make up the inbound balance, where that is not 0.
  pub propose-normal :
      (outbound inbound : ℕ) (q : Proposal)
      → cfg.swap_type ≡ SwapType.normal
      → channel.inbound_sat < u64_mod
      → 0 < channel.inbound_sat
      → propose a cfg channel outbound inbound (choose a cfg channel outbound inbound) ≡ some q
      → (q.swap_type ≡ SwapType.normal)
        × (q.amount + calculate_percentage a cfg.reserve channel.capacity ≡ channel.inbound_sat)
  unfolding choose propose sub64
  propose-normal outbound inbound q e lt positive h = ground arith

  -- A configuration for reverse swaps: every proposed swap is a reverse one, and its amount and the
  -- reserve make up the outbound balance, where that is not 0.
  pub propose-reverse :
      (outbound inbound : ℕ) (q : Proposal)
      → cfg.swap_type ≡ SwapType.reverse
      → channel.outbound_sat < u64_mod
      → 0 < channel.outbound_sat
      → propose a cfg channel outbound inbound (choose a cfg channel outbound inbound) ≡ some q
      → (q.swap_type ≡ SwapType.reverse)
        × (q.amount + calculate_percentage a cfg.reserve channel.capacity ≡ channel.outbound_sat)
  unfolding choose propose sub64
  propose-reverse outbound inbound q e lt positive h = ground arith
