-- ===== src/Nursery/Transactions/OutValues/Conservation.antt =====
-- No satoshi is lost between the outputs of a transaction and its fee.
use lightz_client.Base.{
  ℕ, ◌+◌, ◌-◌, ◌*◌, ◌/◌, ◌%◌, ◌≤◌, ◌<◌, ◌≡◌, ap, ◌∙◌, u64_mod, add64, length, String, le→ltb, List,
  [], ◌∷◌, arith,
}
use native.Mathlib.Nat.{suc-mul, div-add-mod'}
use lightz_client.Lightz.Types.{Result, ok}
use lightz_client.Nursery.Transactions.{OutputDetails, Results}
use lightz_client.Nursery.Transactions.OutValues.{
  OutValues, add_value, spend, divide, get_out_values,
}

abbrev pub total : OutValues → ℕ
total [] = 0
total ((address, v) ∷ rest) = v + total rest

total-add_value :
    (address : String) (value : ℕ) (values : OutValues)
    → total values + value < u64_mod
    → total (add_value address value values) ≡ total values + value
unfolding add_value add64
total-add_value address value [] lt = omega arith
total-add_value address value ((key, v) ∷ rest) lt =
    ground (arith, total-add_value address value rest (omega arith))

module _ (value_of : OutputDetails → Result ℕ) where
  -- Every output is worth at least its share of the fee, and together they are worth `sum`.
  abbrev pub Covers : (per_output remainder : ℕ) → List OutputDetails → (sum : ℕ) → Type 0
  Covers per_output remainder [] sum = sum ≡ 0
  Covers per_output remainder (o ∷ os) sum =
      (value : ℕ) × (rest : ℕ) × (value_of o ≡ ok value)
      × (per_output + remainder ≤ value)
      × (sum ≡ value + rest)
      × Covers per_output 0 os rest

  -- The fees of the outputs.
  abbrev shares : (per_output remainder : ℕ) → List OutputDetails → ℕ
  shares per_output remainder [] = 0
  shares per_output remainder (o ∷ os) = per_output + remainder + shares per_output 0 os

  shares-even :
      (per_output : ℕ) (os : List OutputDetails) → shares per_output 0 os ≡ length os * per_output
  shares-even per_output [] = omega arith
  shares-even per_output (o ∷ os) =
      omega (arith, shares-even per_output os, suc-mul (length os) per_output)

  spend-total :
      (o : OutputDetails) (fee value : ℕ) (acc : OutValues × Results)
      → fee ≤ value
      → total acc.0 + value < u64_mod
      → total (spend value_of o fee (ok value) acc).0 + fee ≡ total acc.0 + value
  unfolding spend
  spend-total o fee value (values, results) enough lt =
      rw (le→ltb value fee enough)
        (omega (arith, total-add_value o.address (value - fee) values (omega arith)))

  add64-small : (a b : ℕ) → a + b < u64_mod → add64 a b ≡ a + b
  unfolding add64
  add64-small a b lt = omega arith

  divide-total :
      (per_output remainder : ℕ) (os : List OutputDetails) (sum : ℕ) (acc : OutValues × Results)
      → Covers per_output remainder os sum
      → total acc.0 + sum < u64_mod
      → total (divide value_of per_output remainder os acc).0 + shares per_output remainder os
        ≡ total acc.0 + sum
  unfolding divide
  divide-total per_output remainder [] sum acc h lt = omega (arith, h)
  divide-total per_output remainder (o ∷ os) sum acc (value, rest, valued, enough, summed, later)
        lt =
      let paid : ℕ → Result ℕ → ℕ =
        λ fee r. total (divide value_of per_output 0 os (spend value_of o fee r acc)).0 in
      let same : paid (add64 per_output remainder) (value_of o)
          ≡ paid (per_output + remainder) (ok value) =
        ap (λ fee. paid fee (value_of o)) (add64-small per_output remainder (omega arith))
        ∙ ap (paid (per_output + remainder)) valued in
      let spent = spend value_of o (per_output + remainder) (ok value) acc in
      let now : total spent.0 + (per_output + remainder) ≡ total acc.0 + value =
        spend-total o (per_output + remainder) value acc enough (omega arith) in
      omega (arith, same, now, divide-total per_output 0 os rest spent later (omega arith))

  -- Where every output is worth at least its share of the fee, there is an output, and together they
  -- are worth less than 2^64, the amounts that are paid out and the fee make up what the outputs are worth.
  pub get_out_values-total :
      (outputs : List OutputDetails) (fee sum : ℕ) (results : Results)
      → 0 < length outputs
      → Covers (fee / length outputs) (fee % length outputs) outputs sum
      → sum < u64_mod
      → total (get_out_values value_of outputs fee results).0 + fee ≡ sum
  unfolding get_out_values
  get_out_values-total (o ∷ os) fee sum results some_output covers lt = omega (
    arith,
    divide-total (fee / length (o ∷ os)) (fee % length (o ∷ os)) (o ∷ os) sum ([], results) covers
        (omega arith),
    shares-even (fee / length (o ∷ os)) os,
    suc-mul (length os) (fee / length (o ∷ os)),
    div-add-mod' fee (length (o ∷ os)),
  )
  get_out_values-total [] fee sum results some_output covers lt = absurd (omega arith)
