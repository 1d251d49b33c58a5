-- ===== src/Onchain/Fee.antt =====
-- internal/onchain/onchain.go, `GetTransactionFee`: what a lockup transaction paid to the miners.
-- The code caches the fetched transactions by id, which changes no answer.
use lightz_client.Base.{ℕ, zero, suc, true, false, add64, sub64, Option, none, some, List, [], ◌∷◌}
use lightz_client.Lightz.Types.{Currency, Result, ok, err, errorf}
use lightz_client.Onchain.Chain.{
  Codec, Onchain, OutPoint, LiquidOutput, Transaction, btc_transaction, liquid_transaction,
  get_transaction,
}

abbrev value_at : List ℕ → ℕ → Option ℕ
value_at [] i = none
value_at (v ∷ vs) zero = some v
value_at (v ∷ vs) (suc i) = value_at vs i

-- The value of an output that an input spends: `none` is a panic, by an index out of range or by the
-- type assertion.
unfoldable pub spent_value : Codec → Onchain → OutPoint → Option (Result ℕ)
spent_value codec o point = elim (get_transaction codec o Currency.btc point.hash "" false) [
  | err e ↦ some (err (errorf "could not fetch input tx"))
  | ok (liquid_transaction h outs) ↦ none
  | ok (btc_transaction h ins values) ↦ elim (value_at values point.index) [
    | none ↦ none
    | some v ↦ some (ok v)
  ]
]

-- The loop over the inputs.
pub sum_inputs : Codec → Onchain → ℕ → List OutPoint → Option (Result ℕ)
sum_inputs codec o fee [] = some (ok fee)
sum_inputs codec o fee (point ∷ points) = elim (spent_value codec o point) [
  | none ↦ none
  | some (err e) ↦ some (err e)
  | some (ok v) ↦ sum_inputs codec o (add64 fee v) points
]

-- The loop over the outputs: each is subtracted on uint64.
pub subtract_outputs : ℕ → List ℕ → ℕ
subtract_outputs fee [] = fee
subtract_outputs fee (v ∷ vs) = subtract_outputs (sub64 fee v) vs

pub liquid_fee : List LiquidOutput → Result ℕ
liquid_fee [] = err (errorf "could not find fee output")
liquid_fee (out ∷ outs) = elim (out.unblinded) [
  | none ↦ liquid_fee outs
  | some v ↦ elim (out.script_empty) [ true ↦ ok v | false ↦ liquid_fee outs ]
]

unfoldable pub get_transaction_fee : Codec → Onchain → Transaction → Option (Result ℕ)
unfolding spent_value sum_inputs subtract_outputs liquid_fee
get_transaction_fee codec o (btc_transaction h ins outs) = elim (sum_inputs codec o 0 ins) [
  | none ↦ none
  | some (err e) ↦ some (err e)
  | some (ok fee) ↦ some (ok (subtract_outputs fee outs))
]
get_transaction_fee codec o (liquid_transaction h outs) = some (liquid_fee outs)
