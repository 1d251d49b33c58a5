-- ===== src/Autoswap/Checks/Bounds.antt =====
-- What a swap that passed the checks satisfies.
use lightz_client.Base.{
  not, is_empty, false≢true, sym, ◌∙◌, ◌⊎◌, ℕ, ◌+◌, ◌≤◌, ◌<◌, u64_mod, sub64, ◌≡◌, Bool, true,
  false, ltb, ltb→le, ltb→lt, Bool-cases, inl, inr, String, List, [], ◌∷◌, ◌++◌, arith, refl, ap,
  subst,
}
use lightz_client.Float.{Arith, calculate_percentage}
use lightz_client.Autoswap.Checks.{
  reason_max_fee_percent, reason_amount_below_min, reason_budget_exceeded, Checks, dismiss,
  dismiss_if, dismissed, CheckParams, adjusted_amount, check_limits, charge, check,
  calculate_fee_estimate,
}

snoc-nonempty : (xs : List String) (x : String) → not (is_empty (xs ++ x ∷ [])) ≡ true
snoc-nonempty [] x = refl
snoc-nonempty (y ∷ ys) x = refl

-- A test that would dismiss did not, and the reasons are the older ones.
pub dismiss_if-passed :
    (b : Bool) (reason : String) (c : Checks)
    → dismissed (dismiss_if b reason c) ≡ false
    → (b ≡ false) × (dismissed c ≡ false)
dismiss_if-passed false reason c h = (refl, h)
dismiss_if-passed true reason c h =
    elim (false≢true (sym h ∙ snoc-nonempty c.dismissed_reasons reason)) [ ]

dismiss_if-same :
    (b : Bool) (reason : String) (c : Checks)
    → ((dismiss_if b reason c).amount ≡ c.amount)
      × ((dismiss_if b reason c).fee_estimate ≡ c.fee_estimate)
dismiss_if-same false reason c = (refl, refl)
dismiss_if-same true reason c = (refl, refl)

sub64-restores : (a b : ℕ) → b ≤ a → a < u64_mod → sub64 a b + b ≡ a
unfolding sub64
sub64-restores a b le lt = omega arith

module _ (a : Arith) where
  check_limits-passed :
      (amount : ℕ) (params : CheckParams)
      → dismissed (check_limits a amount params) ≡ false
      → (params.pair.minimal ≤ adjusted_amount a amount params.pair)
        × (calculate_fee_estimate a params.pair (adjusted_amount a amount params.pair)
            ≤ calculate_percentage a params.max_fee_percent (adjusted_amount a amount params.pair))
  unfolding check_limits
  check_limits-passed amount params h =
      let (fee_ok, h') = dismiss_if-passed _ reason_max_fee_percent _ h in
      let (min_ok, h'') = dismiss_if-passed _ reason_amount_below_min _ h' in
      (ltb→le _ _ min_ok, ltb→le _ _ fee_ok)

  check_limits-same :
      (amount : ℕ) (params : CheckParams)
      → ((check_limits a amount params).amount ≡ adjusted_amount a amount params.pair)
        × ((check_limits a amount params).fee_estimate
            ≡ calculate_fee_estimate a params.pair (adjusted_amount a amount params.pair))
  unfolding check_limits
  check_limits-same amount params =
      let outer =
        dismiss_if-same
          (ltb
            (calculate_percentage a params.max_fee_percent (adjusted_amount a amount params.pair))
            (calculate_fee_estimate a params.pair (adjusted_amount a amount params.pair)))
          reason_max_fee_percent _ in
      let inner =
        dismiss_if-same (ltb (adjusted_amount a amount params.pair) params.pair.minimal)
          reason_amount_below_min _ in
      (outer.0 ∙ inner.0, outer.1 ∙ inner.1)

  -- A charge either dismisses and costs nothing, or takes the fee off the budget.
  pub charge-cases :
      (c : Checks) (budget : ℕ)
      → budget < u64_mod
      → ((charge a c budget ≡ (dismiss reason_budget_exceeded c, budget))
          × (budget < c.fee_estimate))
        ⊎ (((charge a c budget).0 ≡ c) × ((charge a c budget).1 + c.fee_estimate ≡ budget))
  unfolding charge
  charge-cases c budget lt = elim (Bool-cases (ltb budget c.fee_estimate)) [
    | inl e ↦ inl (rw e, ltb→lt _ _ e)
    | inr e ↦ inr (rw e, rw e (sub64-restores budget c.fee_estimate (ltb→le _ _ e) lt))
  ]

  charge-passed :
      (c : Checks) (budget : ℕ)
      → budget < u64_mod
      → dismissed (charge a c budget).0 ≡ false
      → ((charge a c budget).0 ≡ c)
        × ((charge a c budget).1 + (charge a c budget).0.fee_estimate ≡ budget)
  charge-passed c budget lt h = elim (charge-cases c budget lt) [
    | inl (e, exceeded) ↦
        elim (false≢true (
          sym h
          ∙ ap (λ (p : Checks × ℕ). dismissed p.0) e
          ∙ snoc-nonempty c.dismissed_reasons reason_budget_exceeded)) [ ]
    | inr (same, rest) ↦ (same, rw same rest)
  ]

  -- The amount is at least the pair's minimum and the fee at most the configured share of it.
  abbrev pub IsAcceptable : CheckParams → Checks → Type 0
  IsAcceptable params c =
      (params.pair.minimal ≤ c.amount)
      × (c.fee_estimate ≤ calculate_percentage a params.max_fee_percent c.amount)

  check_limits-IsAcceptable :
      (amount : ℕ) (params : CheckParams)
      → dismissed (check_limits a amount params) ≡ false
      → IsAcceptable params (check_limits a amount params)
  check_limits-IsAcceptable amount params h =
      let (amount_e, fee_e) = check_limits-same amount params in
      rw (amount_e, fee_e) (check_limits-passed amount params h)

  -- Where the budget is a uint64 and the checks dismiss nothing, the amount is at least the pair's
  -- minimum, the fee is at most the configured share of the amount, and the fee and what is left of the
  -- budget make up the budget.
  pub check-passed :
      (amount : ℕ) (params : CheckParams) (budget : ℕ)
      → budget < u64_mod
      → dismissed (check a amount params budget).0 ≡ false
      → IsAcceptable params (check a amount params budget).0
        × ((check a amount params budget).1 + (check a amount params budget).0.fee_estimate
            ≡ budget)
  unfolding check
  check-passed amount params budget lt h =
      let (same, rest) = charge-passed (check_limits a amount params) budget lt h in
      let passed = subst (λ c. dismissed c ≡ false) same h in
      (
        subst (IsAcceptable params) (sym same) (check_limits-IsAcceptable amount params passed),
        rest,
      )

  -- In terms of the amount alone: the estimated fee is within the share and the budget.
  pub check-fits :
      (amount : ℕ) (params : CheckParams) (budget : ℕ)
      → budget < u64_mod
      → dismissed (check a amount params budget).0 ≡ false
      → (params.pair.minimal ≤ (check a amount params budget).0.amount)
        × (calculate_fee_estimate a params.pair (check a amount params budget).0.amount
            ≤ calculate_percentage a params.max_fee_percent (check a amount params budget).0.amount)
        × (calculate_fee_estimate a params.pair (check a amount params budget).0.amount ≤ budget)
  unfolding check
  check-fits amount params budget lt h =
      let (same, rest) = charge-passed (check_limits a amount params) budget lt h in
      let ((least, share), charged) = check-passed amount params budget lt h in
      let (amount_e, fee_e) = check_limits-same amount params in
      let is_estimate = sym (
        ap (λ (c : Checks). c.fee_estimate) same
        ∙ (fee_e
            ∙ ap (calculate_fee_estimate a params.pair)
                (sym (ap (λ (c : Checks). c.amount) same ∙ amount_e)))) in
      (least, omega (arith, share, is_estimate), omega (arith, rest, is_estimate))
