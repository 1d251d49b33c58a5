-- ===== src/Nursery/Amounts.antt =====
-- internal/nursery/nursery.go: the fee estimations of a swap, and the check of its amounts with them.
use lightz_client.Base.{ℕ, if◌then◌else◌, Option, none, some, List, [], ◌∷◌, false}
use lightz_client.Float.{Float64}
use lightz_client.Lightz.Types.{
  Currency, eq_currency, Pair, SwapType, Error, errorf, Result, ok, err,
}
use lightz_client.Lightz.Fees.{FeeEstimations, required_estimations, check_amounts}
use lightz_client.Onchain.Chain.{estimate_fee}
use lightz_client.Nursery.Transactions.{Env}

-- `fees[currency] = rate`
abbrev set_rate : Currency → Float64 → FeeEstimations → FeeEstimations
set_rate currency rate fees = λ c. if eq_currency c currency then some rate else fees c

module _ (env : Env) where
  -- The loop over the required currencies.
  unfoldable pub estimate_all : List Currency → FeeEstimations → Result FeeEstimations
  estimate_all [] fees = ok fees
  estimate_all (c ∷ cs) fees = elim (estimate_fee env.arith env.onchain c) [
    | err e ↦ err e
    | ok rate ↦ estimate_all cs (set_rate c rate fees)
  ]

  unfoldable pub nursery_fee_estimations : SwapType → Pair → Result FeeEstimations
  unfolding estimate_all
  nursery_fee_estimations swap_type pair =
      estimate_all (required_estimations swap_type pair) (λ c. none)

  -- `nursery.CheckAmounts`: `none` is Go's nil error.
  unfoldable pub nursery_check_amounts : SwapType → Pair → ℕ → ℕ → Float64 → Option Error
  unfolding nursery_fee_estimations
  nursery_check_amounts swap_type pair send receive service_fee =
      elim (nursery_fee_estimations swap_type pair) [
        | err e ↦ some e
        | ok fees ↦
            elim (check_amounts env.arith swap_type pair send receive service_fee fees false) [
              | none ↦ none
              | some e ↦ some (errorf "onchain fee way above expectation")
            ]
      ]
