-- ===== src/Autoswap/Lightning/Spending.antt =====
-- What automatic swaps may cost.
use lightz_client.Base.{
  String, ℕ, ◌+◌, ◌≤◌, ◌<◌, u64_mod, ◌≡◌, refl, sym, subst, add64, Bool, true, false, if◌then◌else◌,
  is_empty, Option, none, some, List, [], ◌∷◌, ◌++◌, arith, inl, inr,
}
use lightz_client.Lightz.Types.{Error, Result, ok, err}
use lightz_client.Autoswap.Checks.{
  get, reason_insufficient_funds, reason_budget_exceeded, PairInfo, Checks, check, charge,
  check_limits, dismiss_if, DismissedChannels,
}
use lightz_client.Autoswap.Checks.Bounds.{charge-cases}
use lightz_client.Autoswap.Strategy.{
  Channel, LightningConfig, Proposal, Recommendation, strategy, total_balance_strategy,
  add_channel_balances, no_channel,
}
use lightz_client.Autoswap.Strategy.Amounts.{channel_recommendation-none}
use lightz_client.Autoswap.Lightning.{
  LightningSwap, Request, LightningEnv, params_of, is_short, check_swap, validate_swap,
  validate_one, validate_all, validate_read, validate_queried, query_all, Recommended, recommend,
  validate_recommendations, get_swap_recommendations,
}
use lightz_client.Autoswap.Lightning.Execution.{
  request_of, send, execute, execute_accepted, execute_one, Acceptance, accepted, not_in_accepted,
  refused, execute_all, execute_recommended, check_and_execute, Sent,
}

-- The fee of a swap that is not dismissed.
abbrev fee_unless : List String → ℕ → ℕ
fee_unless reasons fee = if is_empty reasons then fee else 0

abbrev checks_fee : Checks → ℕ
checks_fee c = fee_unless c.dismissed_reasons c.fee_estimate

abbrev pub fee_of : LightningSwap → ℕ
fee_of s = checks_fee s.checks

abbrev pub swap_fee : Option LightningSwap → ℕ
swap_fee none = 0
swap_fee (some s) = fee_of s

abbrev pub fees_of : List (Recommendation LightningSwap) → ℕ
fees_of [] = 0
fees_of (r ∷ rs) = swap_fee r.swap + fees_of rs

abbrev pub sent_fees : Sent → ℕ
sent_fees [] = 0
sent_fees ((s, request) ∷ rest) = s.checks.fee_estimate + sent_fees rest

fee_unless-snoc : (xs : List String) (x : String) (fee : ℕ) → fee_unless (xs ++ x ∷ []) fee ≡ 0
fee_unless-snoc [] x fee = refl
fee_unless-snoc (y ∷ ys) x fee = refl

fee_unless-le : (xs : List String) (fee : ℕ) → fee_unless xs fee ≤ fee
fee_unless-le [] fee = omega arith
fee_unless-le (y ∷ ys) fee = omega arith

dismiss_if-fee :
    (b : Bool) (reason : String) (c : Checks) → checks_fee (dismiss_if b reason c) ≤ checks_fee c
dismiss_if-fee false reason c = omega arith
dismiss_if-fee true reason c =
    omega (arith, fee_unless-snoc c.dismissed_reasons reason c.fee_estimate)

module _ (env : LightningEnv) (cfg : LightningConfig) where
  charge-fee :
      (c : Checks) (budget : ℕ)
      → budget < u64_mod
      → checks_fee (charge env.arith c budget).0 + (charge env.arith c budget).1 ≤ budget
  charge-fee c budget lt = elim (charge-cases env.arith c budget lt) [
    | inl (e, exceeded) ↦
        rw e
          (omega (arith, fee_unless-snoc c.dismissed_reasons reason_budget_exceeded c.fee_estimate))
    | inr (same, rest) ↦
        rw same (omega (arith, rest, fee_unless-le c.dismissed_reasons c.fee_estimate))
  ]

  check_swap-fee :
      (balance : Option ℕ) (pair : PairInfo) (reasons : List String) (p : Proposal) (budget : ℕ)
      → budget < u64_mod
      → fee_of (check_swap env cfg balance pair reasons p budget).0
          + (check_swap env cfg balance pair reasons p budget).1
        ≤ budget
  unfolding check_swap check
  check_swap-fee balance pair reasons p budget lt = omega (
    arith,
    dismiss_if-fee
        (is_short env cfg balance p.swap_type
          (check env.arith p.amount (params_of env cfg pair reasons) budget).0)
        reason_insufficient_funds
        (check env.arith p.amount (params_of env cfg pair reasons) budget).0,
    charge-fee (check_limits env.arith p.amount (params_of env cfg pair reasons)) budget lt,
  )

  -- What the rest of the loop keeps to, the loop keeps to.
  abbrev Within : (ℕ → List (Recommendation LightningSwap)) → Type 0
  Within next = (budget : ℕ) → budget < u64_mod → fees_of (next budget) ≤ budget

  validate_swap-Within :
      (balance : Option ℕ) (reasons : List String) (r : Recommendation Proposal) (p : Proposal)
      (pair : Result PairInfo) (next : ℕ → List (Recommendation LightningSwap))
      → Within next
      → Within (validate_swap env cfg balance reasons r p pair next)
  unfolding validate_swap
  validate_swap-Within balance reasons r p (err e) next h budget lt = h budget lt
  validate_swap-Within balance reasons r p (ok pair) next h budget lt =
      let fee = check_swap-fee balance pair reasons p budget lt in
      omega
        (arith, fee, h (check_swap env cfg balance pair reasons p budget).1 (omega (arith, fee)))

  validate_one-Within :
      (balance : Option ℕ) (reasons : DismissedChannels) (include_all : Bool)
      (r : Recommendation Proposal) (swap : Option Proposal)
      (next : ℕ → List (Recommendation LightningSwap))
      → Within next
      → Within (validate_one env cfg balance reasons include_all r swap next)
  unfolding validate_one
  validate_one-Within balance reasons true r none next h budget lt = omega (arith, h budget lt)
  validate_one-Within balance reasons false r none next h budget lt = h budget lt
  validate_one-Within balance reasons include_all r (some p) next h budget lt =
      validate_swap-Within balance _ r p _ next h budget lt

  -- Where the budget is a uint64, the fees of the recommended swaps that are not dismissed add up to at
  -- most the budget, in whatever order they are checked.
  pub validate_all-Within :
      (balance : Option ℕ) (reasons : DismissedChannels) (include_all : Bool)
      (rs : List (Recommendation Proposal)) (budget : ℕ)
      → budget < u64_mod
      → fees_of (validate_all env cfg balance reasons include_all rs budget) ≤ budget
  unfolding validate_all
  validate_all-Within balance reasons include_all [] budget lt = omega arith
  validate_all-Within balance reasons include_all (r ∷ rs) budget lt =
      validate_one-Within balance reasons include_all r r.swap _
        (validate_all-Within balance reasons include_all rs) budget lt

  send-fees :
      (swap : LightningSwap) (request : Option Request) (rest : Option Error × Sent)
      → sent_fees (send env cfg swap request rest).1 ≤ swap.checks.fee_estimate + sent_fees rest.1
  unfolding send
  send-fees swap none rest = omega arith
  send-fees swap (some request) rest = ground arith

  execute-fees :
      (channel : Channel) (swap : LightningSwap) (rest : Option Error × Sent)
      → sent_fees (execute env cfg false channel swap rest).1 ≤ fee_of swap + sent_fees rest.1
  unfolding execute
  execute-fees channel swap rest =
      ground (arith, send-fees swap (request_of env cfg channel swap) rest)

  execute_accepted-fees :
      (channel : Channel) (swap : LightningSwap) (a : Acceptance) (rest : Option Error × Sent)
      → sent_fees (execute_accepted env cfg false channel swap a rest).1
        ≤ fee_of swap + sent_fees rest.1
  unfolding execute_accepted
  execute_accepted-fees channel swap accepted rest = execute-fees channel swap rest
  execute_accepted-fees channel swap not_in_accepted rest = omega arith
  execute_accepted-fees channel swap (refused e) rest = omega arith

  execute_one-fees :
      (accepted_list : List (Recommendation LightningSwap)) (channel : Channel)
      (swap : Option LightningSwap) (rest : Option Error × Sent)
      → sent_fees (execute_one env cfg false accepted_list channel swap rest).1
        ≤ swap_fee swap + sent_fees rest.1
  unfolding execute_one
  execute_one-fees accepted_list channel none rest = omega arith
  execute_one-fees accepted_list channel (some swap) rest =
      execute_accepted-fees channel swap _ rest

  execute_all-fees :
      (accepted_list rs : List (Recommendation LightningSwap))
      → sent_fees (execute_all env cfg false accepted_list rs).1 ≤ fees_of rs
  unfolding execute_all
  execute_all-fees accepted_list [] = omega arith
  execute_all-fees accepted_list (r ∷ rs) = omega (
    arith,
    execute_one-fees accepted_list r.channel r.swap (execute_all env cfg false accepted_list rs),
    execute_all-fees accepted_list rs,
  )

  abbrev RecommendsWithin : ℕ → Recommended env cfg → Type 0
  RecommendsWithin budget none = Unit
  RecommendsWithin budget (some (err e)) = Unit
  RecommendsWithin budget (some (ok rs)) = fees_of rs ≤ budget

  validate_read-Within :
      (queried : DismissedChannels × Option ℕ) (budget : ℕ) (include_all : Bool)
      (rs : Option (List (Recommendation Proposal)))
      → budget < u64_mod
      → RecommendsWithin budget (validate_read env cfg queried budget include_all rs)
  unfolding validate_read
  validate_read-Within (reasons, balance) budget include_all none lt = tt
  validate_read-Within (reasons, balance) budget include_all (some rs) lt =
      validate_all-Within balance reasons include_all _ budget lt

  validate_queried-Within :
      (queried : Result (DismissedChannels × Option ℕ))
      (rs : List (Option (Recommendation Proposal))) (budget : ℕ) (include_all : Bool)
      → budget < u64_mod
      → RecommendsWithin budget (validate_queried env cfg queried rs budget include_all)
  unfolding validate_queried
  validate_queried-Within (err e) rs budget include_all lt = tt
  validate_queried-Within (ok queried) rs budget include_all lt =
      validate_read-Within queried budget include_all _ lt

  recommend-Within :
      (channels : Result (List Channel)) (budget : ℕ) (include_all : Bool)
      → budget < u64_mod
      → RecommendsWithin budget (recommend env cfg channels (ok budget) include_all)
  unfolding recommend validate_recommendations
  recommend-Within (err e) budget include_all lt = tt
  recommend-Within (ok channels) budget include_all lt =
      validate_queried-Within (query_all env cfg) (strategy env.arith cfg channels) budget
        include_all lt

  abbrev SpendsWithin : ℕ → Option (Option Error × Sent) → Type 0
  SpendsWithin budget none = Unit
  SpendsWithin budget (some (e, sent)) = sent_fees sent ≤ budget

  execute_recommended-Within :
      (accepted_list : List (Recommendation LightningSwap)) (budget : ℕ)
      (recommended : Recommended env cfg)
      → RecommendsWithin budget recommended
      → SpendsWithin budget (execute_recommended env cfg accepted_list false recommended)
  unfolding execute_recommended
  execute_recommended-Within accepted_list budget none h = tt
  execute_recommended-Within accepted_list budget (some (err e)) h = omega arith
  execute_recommended-Within accepted_list budget (some (ok rs)) h =
      omega (arith, h, execute_all-fees accepted_list rs)

  -- Where the budget left is a uint64, the swaps that a run without `force` sends to the server have
  -- estimated fees that add up to at most that budget.
  pub check_and_execute-within_budget :
      (accepted_list : List (Recommendation LightningSwap)) (budget : ℕ) (e : Option Error)
      (sent : Sent)
      → env.budget ≡ ok budget
      → budget < u64_mod
      → check_and_execute env cfg accepted_list false ≡ some (e, sent)
      → sent_fees sent ≤ budget
  unfolding check_and_execute get_swap_recommendations
  check_and_execute-within_budget accepted_list budget e sent known lt h =
      subst (SpendsWithin budget) h (
        execute_recommended-Within accepted_list budget
          (recommend env cfg env.channels env.budget false)
          (subst (λ b. RecommendsWithin budget (recommend env cfg env.channels b false)) (sym known)
            (recommend-Within env.channels budget false lt)))

  -- Where a run gets the channels, the budget, the dismissed channels and the balance, and a configuration
  -- for the total balance has thresholds above the capacity of all channels, the run panics.
  pub check_and_execute-panics :
      (accepted_list : List (Recommendation LightningSwap)) (force : Bool) (channels : List Channel)
      (budget : ℕ) (queried : DismissedChannels × Option ℕ)
      → env.channels ≡ ok channels
      → env.budget ≡ ok budget
      → query_all env cfg ≡ ok queried
      → cfg.per_channel ≡ false
      → (add_channel_balances channels no_channel).capacity
        < add64
            (get env.arith cfg.outbound_balance (add_channel_balances channels no_channel).capacity)
            (get env.arith cfg.inbound_balance (add_channel_balances channels no_channel).capacity)
      → check_and_execute env cfg accepted_list force ≡ none
  unfolding check_and_execute get_swap_recommendations recommend validate_recommendations
      validate_queried strategy total_balance_strategy execute_recommended
  check_and_execute-panics accepted_list force channels budget queried cs b q total lt = simp (
    cs,
    b,
    q,
    total,
    channel_recommendation-none env.arith cfg (add_channel_balances channels no_channel) lt,
  )
