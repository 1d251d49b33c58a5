-- ===== src/Onchain/MultiChain.antt =====
-- internal/onchain/multi_chain.go: several providers as one. The server's own provider is asked
-- about confirmations and heights only when all others fail.
pub mod Trust
use lightz_client.Base.{
  ℕ, ◌==◌, max, String, Bool, true, false, if◌then◌else◌, is_empty, Option, none, some, List, [],
  ◌∷◌, ◌++◌, length, suc,
}
use lightz_client.Float.{Float64}
use lightz_client.Lightz.Types.{Error, errorf, Result, ok, err}
use lightz_client.Onchain.Chain.{ChainProvider, Output}

pub record MultiChainProvider : Type 0 where
  pub providers : List ChainProvider
  pub lightz : Option ChainProvider

abbrev pub all_providers : MultiChainProvider → List ChainProvider
all_providers m = elim (m.lightz) [ none ↦ m.providers | some l ↦ m.providers ++ l ∷ [] ]

-- The loop of `GetRawTransaction`: the first success, else the last error. Without a provider the
-- error is nil and the text empty.
pub first_raw : String → Result String → List ChainProvider → Result String
first_raw tx_id last [] = last
first_raw tx_id last (p ∷ ps) = elim (p.raw_transaction 0 tx_id) [
  | ok hex ↦ ok hex
  | err e ↦ first_raw tx_id (err e) ps
]

unfoldable pub get_raw_transaction : MultiChainProvider → String → Result String
unfolding first_raw
get_raw_transaction m tx_id = first_raw tx_id (ok "") (all_providers m)

-- One round of the loop in `IsTransactionConfirmed`: the result, and the number of errors.
abbrev pub count_vote : Result Bool → Bool × ℕ → Bool × ℕ
count_vote (err e) (result, errors) = (result, suc errors)
count_vote (ok true) (result, errors) = (true, errors)
count_vote (ok false) (result, errors) = (result, errors)

unfoldable pub confirmed_votes : String → Bool × ℕ → List ChainProvider → Bool × ℕ
confirmed_votes tx_id acc [] = acc
confirmed_votes tx_id acc (p ∷ ps) =
    confirmed_votes tx_id (count_vote (p.is_confirmed 0 tx_id) acc) ps

abbrev pub all_failed : Error
all_failed = errorf "all providers failed"

unfoldable pub is_transaction_confirmed : MultiChainProvider → String → Result Bool
is_transaction_confirmed m tx_id =
    let (result, errors) = confirmed_votes tx_id (false, 0) m.providers in
    if errors == length m.providers
    then elim (m.lightz) [ some l ↦ l.is_confirmed 0 tx_id | none ↦ err all_failed ]
    else ok result

-- One round of the loop in `GetBlockHeight`.
abbrev pub count_height : Result ℕ → ℕ × ℕ → ℕ × ℕ
count_height (err e) (result, errors) = (result, suc errors)
count_height (ok height) (result, errors) = (max result height, errors)

unfoldable pub height_votes : ℕ × ℕ → List ChainProvider → ℕ × ℕ
height_votes acc [] = acc
height_votes acc (p ∷ ps) = height_votes (count_height p.block_height acc) ps

unfoldable pub get_block_height : MultiChainProvider → Result ℕ
get_block_height m =
    let (result, errors) = height_votes (0, 0) m.providers in
    if errors == length m.providers
    then elim (m.lightz) [ some l ↦ l.block_height | none ↦ err all_failed ]
    else ok result

pub first_fee : List ChainProvider → Result Float64
first_fee [] = err (errorf "no fee found")
first_fee (p ∷ ps) = elim (p.estimate_fee) [ ok fee ↦ ok fee | err e ↦ first_fee ps ]

unfoldable pub estimate_fee : MultiChainProvider → Result Float64
unfolding first_fee
estimate_fee m = first_fee (all_providers m)

-- The loop of `GetUnspentOutputs`: the first non-empty list, else the number of errors.
pub first_unspent : String → ℕ → List ChainProvider → List Output × ℕ
first_unspent address errors [] = ([], errors)
first_unspent address errors (p ∷ ps) = elim (p.unspent_outputs address) [
  | err e ↦ first_unspent address (suc errors) ps
  | ok [] ↦ first_unspent address errors ps
  | ok (o ∷ os) ↦ (o ∷ os, errors)
]

unfoldable pub get_unspent_outputs : MultiChainProvider → String → Result (List Output)
get_unspent_outputs m address =
    let (outputs, errors) = first_unspent address 0 (all_providers m) in
    if is_empty outputs
    then if errors == length (all_providers m) then err all_failed else ok []
    else ok outputs
