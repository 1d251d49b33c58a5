-- ===== src/Nursery/Transactions/OutValues.antt =====
-- pkg/lightz/transaction.go, `getOutValues` of `ConstructTransaction`: how the fee of a transaction is
-- divided among its outputs. `value_of` is `VoutValue`, of the libraries for transactions.
pub mod Conservation
use lightz_client.Base.{
  ℕ, ◌-◌, ◌/◌, ◌%◌, add64, length, String, ◌=ₛ◌, if◌then◌else◌, ltb, is_some, none, some, List, [],
  ◌∷◌,
}
use lightz_client.Lightz.Types.{Error, errorf, Result, ok, err}
use lightz_client.Nursery.Transactions.{OutputDetails, Outcome, Results, put_err}

-- The map from addresses to amounts.
abbrev pub OutValues : Type 0
OutValues = List (String × ℕ)

-- `outValues[address] += value`
unfoldable pub add_value : String → ℕ → OutValues → OutValues
add_value address value [] = (address, value) ∷ []
add_value address value ((key, v) ∷ rest) =
    let later = add_value address value rest in
    if key =ₛ address then (key, add64 v value) ∷ rest else (key, v) ∷ later

module _ (value_of : OutputDetails → Result ℕ) where
  -- One round of the loop, for an output that pays `fee`.
  unfoldable pub spend : OutputDetails → ℕ → Result ℕ → OutValues × Results → OutValues × Results
  unfolding add_value
  spend o fee (err e) (values, results) = (values, put_err o.swap_id (some e) results)
  spend o fee (ok value) (values, results) =
      if ltb value fee
      then (values, put_err o.swap_id (some (errorf "value less than fee")) results)
      else (
        add_value o.address (value - fee) values,
        (o.swap_id, record { error = none; fee = fee }) ∷ results,
      )

  -- The first output pays the remainder too.
  unfoldable pub divide :
      (per_output remainder : ℕ) → List OutputDetails → OutValues × Results → OutValues × Results
  unfolding spend
  divide per_output remainder [] acc = acc
  divide per_output remainder (o ∷ os) acc =
      divide per_output 0 os (spend o (add64 per_output remainder) (value_of o) acc)

  unfoldable pub get_out_values : List OutputDetails → ℕ → Results → OutValues × Results
  unfolding divide
  get_out_values outputs fee results =
      divide (fee / length outputs) (fee % length outputs) outputs ([], results)
