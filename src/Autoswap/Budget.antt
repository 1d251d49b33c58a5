-- ===== src/Autoswap/Budget.antt =====
-- internal/autoswap/budget.go, `GetCurrentBudget`: the fees that may still be spent in the current
-- interval. Times and durations are in seconds.
pub mod Interval
use lightz_client.Base.{
  ℕ, zero, suc, ◌+◌, ◌-◌, Bool, true, false, if◌then◌else◌, ltb, Option, none, some,
}
use lightz_client.Base.Int.{ℤ, pos, to_int64, from_int64, sub_int64, ltb_ℤ}
use lightz_client.Lightz.Types.{Error, errorf, Result, ok, err}

-- `database.BudgetInterval`
pub record BudgetInterval : Type 0 where
  pub start_date : ℕ
  pub end_date : ℕ

-- The database and the clock; `past_fees` are the `TotalFees` of the swaps since a date.
pub record BudgetEnv : Type 0 where
  pub now : ℕ
  pub current_interval : Result (Option BudgetInterval)
  pub create_budget : BudgetInterval → Option Error
  pub past_fees : ℕ → Result ℤ

pub record BudgetConfig : Type 0 where
  pub budget : ℕ
  pub budget_interval : ℕ

-- The loop that moves the interval on until it holds `now`; `n` bounds its rounds.
unfoldable pub advance : (n now duration : ℕ) → BudgetInterval → BudgetInterval
advance zero now duration i = i
advance (suc n) now duration i =
    let next =
      advance n now duration
        (record { start_date = i.end_date; end_date = i.end_date + duration }) in
    if ltb i.end_date now then next else i

-- The amount that is left: never below 0.
unfoldable pub remaining : ℕ → ℤ → ℕ
remaining budget fees =
    let left = sub_int64 (to_int64 budget) fees in if ltb_ℤ left (pos 0) then 0 else from_int64 left

module _ (env : BudgetEnv) (cfg : BudgetConfig) where
  -- The interval to start with where the database has none.
  abbrev initial : Option BudgetInterval → BudgetInterval
  initial none = record { start_date = env.now; end_date = env.now + cfg.budget_interval }
  initial (some i) = i

  -- `now` rounds are enough, since each one moves the end on.
  abbrev pub moved : Option BudgetInterval → BudgetInterval
  moved i = advance env.now env.now cfg.budget_interval (initial i)

  abbrev is_over : Option BudgetInterval → Bool
  is_over none = true
  is_over (some i) = ltb i.end_date env.now

  abbrev created : BudgetInterval → Result (Option BudgetInterval)
  created i = elim (env.create_budget i) [
    | some e ↦ err (errorf "Could not create budget period")
    | none ↦ ok (some i)
  ]

  -- The interval of the budget, `none` where there is none and none is to be created.
  unfoldable pub find_interval : Bool → Result (Option BudgetInterval)
  unfolding advance
  find_interval create_if_missing = elim (env.current_interval) [
    | err e ↦ err (errorf "Could not get budget period")
    | ok i ↦ if is_over i then (if create_if_missing then created (moved i) else ok none) else ok i
  ]

  abbrev amount_since : Result (Option BudgetInterval) → Result (Option ℕ)
  amount_since (err e) = err e
  amount_since (ok none) = ok none
  amount_since (ok (some i)) = elim (env.past_fees i.start_date) [
    | err e ↦ err (errorf "Could not get past fees")
    | ok fees ↦ ok (some (remaining cfg.budget fees))
  ]

  -- The `Amount` of the budget.
  unfoldable pub get_current_budget : Bool → Result (Option ℕ)
  unfolding find_interval remaining
  get_current_budget create_if_missing = amount_since (find_interval create_if_missing)
