-- ===== src/Autoswap/Chain/Sending.antt =====
-- Which chain swaps are sent without `force`.
use lightz_client.Base.{
  ℕ, ◌≤◌, ◌<◌, u64_mod, ◌≡◌, refl, sym, subst, inl, inr, Bool, true, false, false≢true, is_empty,
  ltb, Bool-cases, String, Option, none, some, List,
}
use lightz_client.Lightz.Types.{Error, Result, ok, err}
use lightz_client.Float.{calculate_percentage}
use lightz_client.Autoswap.Checks.{
  calculate_fee_estimate, PairInfo, Checks, dismissed, dismiss_if, reason_pending_swap,
}
use lightz_client.Autoswap.Checks.Bounds.{dismiss_if-passed, check-fits}
use lightz_client.Autoswap.Chain.{
  ChainConfig, ChainEnv, ChainRequest, confirmed_of, check_chain, recommend_chain,
  get_recommendation, send_chain, execute_chain, execute_result, check_and_execute_chain,
}

module _ (env : ChainEnv) (cfg : ChainConfig) (budget : ℕ) where
  -- The amount is one that the pair allows, and the fee that is estimated for it is at most the
  -- configured share of it, and within the budget.
  abbrev pub IsFit : PairInfo → ℕ → Type 0
  IsFit pair amount =
      (pair.minimal ≤ amount)
      × (calculate_fee_estimate env.arith pair amount
          ≤ calculate_percentage env.arith cfg.serialized.max_fee_percent amount)
      × (calculate_fee_estimate env.arith pair amount ≤ budget)

  abbrev Recommends : Result PairInfo → Result (Option Checks) → Type 0
  Recommends pairs (err e) = Unit
  Recommends pairs (ok none) = Unit
  Recommends pairs (ok (some c)) =
      dismissed c ≡ false → (pair : PairInfo) × (pairs ≡ ok pair) × IsFit pair c.amount

  dismiss_if-IsFit :
      (b : Bool) (reason : String) (pair : PairInfo) (c : Checks)
      → (dismissed c ≡ false → IsFit pair c.amount)
      → dismissed (dismiss_if b reason c) ≡ false
      → IsFit pair (dismiss_if b reason c).amount
  dismiss_if-IsFit false reason pair c k h = k h
  dismiss_if-IsFit true reason pair c k h =
      elim (false≢true (sym (dismiss_if-passed true reason c h).0)) [ ]

  check_chain-Recommends :
      (pair : PairInfo) (amount pending : Result ℕ)
      → budget < u64_mod
      → Recommends (ok pair) (check_chain env cfg pair budget amount pending)
  unfolding check_chain
  check_chain-Recommends pair (err e) pending lt = tt
  check_chain-Recommends pair (ok amount) (err e) lt = tt
  check_chain-Recommends pair (ok amount) (ok pending) lt = λ h. (
    pair,
    refl,
    dismiss_if-IsFit (ltb 0 pending) reason_pending_swap pair _
        (λ passed. check-fits env.arith amount _ budget lt passed) h,
  )

  recommend_chain-Recommends :
      (confirmed : Result ℕ) (pair : Result PairInfo)
      → budget < u64_mod
      → Recommends pair (recommend_chain env cfg confirmed pair (ok budget))
  unfolding recommend_chain
  recommend_chain-Recommends (err e) pair lt = tt
  recommend_chain-Recommends (ok confirmed) (err e) lt = tt
  recommend_chain-Recommends (ok confirmed) (ok pair) lt =
      elim (Bool-cases (ltb cfg.serialized.max_balance confirmed)) [
        | inl over ↦ rw over (check_chain-Recommends pair _ _ lt)
        | inr under ↦ rw under tt
      ]

  -- The amount of a request passed the checks.
  abbrev IsSentFit : Result PairInfo → Option Error × Option ChainRequest → Type 0
  IsSentFit pairs (e, none) = Unit
  IsSentFit pairs (e, some request) =
      (pair : PairInfo) × (pairs ≡ ok pair) × IsFit pair request.amount

  send_chain-IsSentFit :
      (pairs : Result PairInfo) (c : Checks) (o : Option Error)
      → Recommends pairs (ok (some c))
      → IsSentFit pairs (send_chain env cfg false c o)
  unfolding send_chain
  send_chain-IsSentFit pairs c (some e) k = tt
  send_chain-IsSentFit pairs c none k = elim (Bool-cases (is_empty c.dismissed_reasons)) [
    | inl empty ↦ let (pair, known, fit) = k (rw empty refl) in rw empty (pair, known, fit)
    | inr reasons ↦ rw reasons tt
  ]

  execute_result-IsSentFit :
      (accepted : Option (List String)) (pairs : Result PairInfo) (r : Result (Option Checks))
      → Recommends pairs r
      → IsSentFit pairs (execute_result env cfg accepted false r)
  unfolding execute_result execute_chain
  execute_result-IsSentFit accepted pairs (err e) k = tt
  execute_result-IsSentFit accepted pairs (ok none) k = tt
  execute_result-IsSentFit accepted pairs (ok (some c)) k = send_chain-IsSentFit pairs c _ k

  -- Where the budget left is a uint64, a chain swap that a run without `force` sends to the server has
  -- at least the minimal amount of the pair, and the fee that is estimated for its amount is at most the
  -- configured share of it and at most that budget.
  pub check_and_execute_chain-IsFit :
      (accepted : Option (List String)) (e : Option Error) (request : ChainRequest)
      → env.budget ≡ ok budget
      → budget < u64_mod
      → check_and_execute_chain env cfg accepted false ≡ (e, some request)
      → (pair : PairInfo) × (env.pair_info cfg.pair ≡ ok pair) × IsFit pair request.amount
  unfolding check_and_execute_chain get_recommendation
  check_and_execute_chain-IsFit accepted e request known lt h =
      subst (IsSentFit (env.pair_info cfg.pair)) h (
        execute_result-IsSentFit accepted (env.pair_info cfg.pair) _ (
          subst
            (λ b.
              Recommends (env.pair_info cfg.pair)
                (recommend_chain env cfg (confirmed_of env cfg) (env.pair_info cfg.pair) b))
            (sym known)
            (recommend_chain-Recommends (confirmed_of env cfg) (env.pair_info cfg.pair) lt)))
