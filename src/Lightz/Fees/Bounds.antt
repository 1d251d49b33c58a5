-- ===== src/Lightz/Fees/Bounds.antt =====
-- What the check of the amounts guarantees.
use lightz_client.Base.{
  ℕ, ◌+◌, ◌-◌, ◌≤◌, ◌<◌, ◌≡◌, ◌≢◌, ◌↔◌, inl, inr, refl, Bool, none, some, arith, add64, sub64,
  u64_mod, sub64-eq-sub, Option-cases,
}
use lightz_client.Float.{Float64, Arith}
use lightz_client.Lightz.Types.{Currency, Pair, SwapType}
use lightz_client.Lightz.Fees.{
  FeeEstimations, no_estimation, calc_network_fee, tolerance, check_tolerance, required_estimations,
  missing_estimation, service_fee_of, network_fees, check_amounts,
}

-- Without wrap-around the tolerance check is the comparison that it spells.
pub check_tolerance-none_iff :
    (a : Arith) (expected actual : ℕ)
    → expected + tolerance a expected < u64_mod
    → (check_tolerance a expected actual ≡ none) ↔ (actual ≤ expected + tolerance a expected)
unfolding check_tolerance add64
check_tolerance-none_iff a expected actual fits = grind arith

pub network_fees-eq :
    (a : Arith) (t : SwapType) (send receive : ℕ) (fee : Float64)
    → send < u64_mod
    → receive + service_fee_of a t send receive fee ≤ send
    → network_fees a t send receive fee ≡ send - receive - service_fee_of a t send receive fee
network_fees-eq a t send receive fee fits covers =
    let p : sub64 send receive ≡ send - receive = sub64-eq-sub send receive (omega arith) fits in
    rw p (
      sub64-eq-sub (send - receive) (service_fee_of a t send receive fee) (omega arith)
        (omega arith))

network_fees_wrap :
    (a : Arith) (t : SwapType) (send receive : ℕ) (fee : Float64)
    → send < u64_mod
    → receive < u64_mod
    → service_fee_of a t send receive fee < u64_mod
    → send < receive + service_fee_of a t send receive fee
    → receive + service_fee_of a t send receive fee < u64_mod + send
    → network_fees a t send receive fee + receive + service_fee_of a t send receive fee
      ≡ u64_mod + send
unfolding sub64
network_fees_wrap a t send receive fee sf rf ff under room = omega arith

module _ (a : Arith) (t : SwapType) (pair : Pair) (send receive : ℕ) (fee : Float64)
    (estimations : FeeEstimations) (include_claim : Bool) where
  abbrev pub expected_fee : ℕ
  expected_fee = calc_network_fee a t pair estimations include_claim

  abbrev pub service_fee : ℕ
  service_fee = service_fee_of a t send receive fee

  check_amounts_estimated :
      missing_estimation estimations (required_estimations t pair) ≡ none
      → check_amounts a t pair send receive fee estimations include_claim
        ≡ check_tolerance a expected_fee (network_fees a t send receive fee)
  unfolding check_amounts
  check_amounts_estimated e = ground arith

  check_amounts_missing :
      (c : Currency)
      → missing_estimation estimations (required_estimations t pair) ≡ some c
      → check_amounts a t pair send receive fee estimations include_claim ≡ some (no_estimation c)
  unfolding check_amounts
  check_amounts_missing c e = ground arith

  -- When the server charges at least the service fee, the amounts pass exactly when each required
  -- currency has a fee estimation and the payer loses no more than the service fee, the expected
  -- network fee and the tolerance together. No sum may wrap around.
  pub check_amounts-none_iff :
      send < u64_mod
      → receive + service_fee ≤ send
      → expected_fee + tolerance a expected_fee < u64_mod
      → (check_amounts a t pair send receive fee estimations include_claim ≡ none) ↔ (
          (missing_estimation estimations (required_estimations t pair) ≡ none)
          × (send ≤ receive + service_fee + (expected_fee + tolerance a expected_fee)))
  check_amounts-none_iff fits covers room =
      let same : network_fees a t send receive fee ≡ send - receive - service_fee =
        network_fees-eq a t send receive fee fits covers in
      let checked = check_tolerance-none_iff a expected_fee (send - receive - service_fee) room in
      elim (Option-cases (missing_estimation estimations (required_estimations t pair))) [
        | inl e ↦
            rw (check_amounts_estimated e, same, e)
              ((λ h. (refl, omega (arith, checked.0 h))), (λ h. checked.1 (omega arith)))
        | inr (c, e) ↦ rw (check_amounts_missing c e, e) ((λ h. cc), (λ h. cc))
      ]

  -- When the server charges less than the service fee, the difference wraps around: the amounts are
  -- refused, although the payer would gain, unless the shortfall comes near 2^64.
  pub check_amounts_undercharged :
      send < u64_mod
      → receive < u64_mod
      → service_fee < u64_mod
      → send < receive + service_fee
      → receive + service_fee + (expected_fee + tolerance a expected_fee) < u64_mod + send
      → check_amounts a t pair send receive fee estimations include_claim ≢ none
  unfolding check_amounts check_tolerance add64
  check_amounts_undercharged sf rf ff under room h =
      let wrapped = network_fees_wrap a t send receive fee sf rf ff under (omega arith) in
      ground (arith, wrapped)
