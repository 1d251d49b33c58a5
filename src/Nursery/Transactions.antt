-- ===== src/Nursery/Transactions.antt =====
-- internal/nursery/nursery.go, `populateOutputs` and `createTransaction`: one transaction that claims
-- or refunds the outputs of several swaps. `W` is the state that the callbacks of an output change.
pub mod Failures
pub mod Unfound
pub mod Broadcast
pub mod OutValues
use lightz_client.Base.{
  ℕ, String, Bool, true, false, ◌==◌, ◌=ₛ◌, if◌then◌else◌, is_some, Option, none, some, List, [],
  ◌∷◌, map,
}
use lightz_client.Float.{Float64, Arith}
use lightz_client.Lightz.Types.{Currency, SwapType, Error, errorf, Result, ok, err}
use lightz_client.Onchain.Chain.{
  Codec, Onchain, OutputArgs, OutputResult, Transaction, find_output, estimate_fee,
  broadcast_transaction,
}
use lightz_client.Onchain.Wallets.{Wallet, WalletChecker, get_any_wallet}
use lightz_client.Nursery.Handler.{
  Handler, pure, call, or_crash, branch, on_error, on_result, ◌>>=◌, ◌>>◌,
}

-- `lightz.OutputDetails`; keys and trees are in their stored form.
pub record OutputDetails : Type 0 where
  pub swap_id : String
  pub swap_type : SwapType
  pub address : String
  pub private_key : String
  pub preimage : String
  pub timeout_block_height : ℕ
  pub swap_tree : String
  pub cooperative : Bool
  pub refund_swap_tree : Option String
  pub lockup_transaction : Option Transaction
  pub vout : ℕ

-- A refund carries no preimage.
abbrev pub is_refund : OutputDetails → Bool
is_refund d = d.preimage =ₛ ""

pub record Output (W : Type 0) : Type 0 where
  pub details : OutputDetails
  pub wallet_id : Option ℕ
  pub output_args : OutputArgs
  pub set_transaction : String → ℕ → W → Option Error × W
  pub set_error : Error → W → W

-- `lightz.OutputResult` and the map `lightz.Results`.
pub record Outcome : Type 0 where
  pub error : Option Error
  pub fee : ℕ

abbrev pub Results : Type 0
Results = List (String × Outcome)

unfoldable pub lookup_result : String → Results → Outcome
lookup_result id [] = record { error = none; fee = 0 }
lookup_result id ((key, r) ∷ rest) = if key =ₛ id then r else lookup_result id rest

-- `results.SetErr`, which keeps an older error.
unfoldable pub put_err : String → Option Error → Results → Results
unfolding lookup_result
put_err id e results =
    if is_some (lookup_result id results).error
    then results
    else (id, record { error = e; fee = 0 }) ∷ results

-- A write to a nil map, which is `none` here, panics.
unfoldable pub set_err : String → Option Error → Option Results → Option (Option Results)
unfolding put_err
set_err id e none = none
set_err id e (some results) = some (some (put_err id e results))

abbrev pub read_result : String → Option Results → Outcome
read_result id none = record { error = none; fee = 0 }
read_result id (some results) = lookup_result id results

-- What the nursery uses: the wallets and the chains of `onchain`, and `ConstructTransaction` of
-- pkg/lightz/transaction.go, which gives a transaction, the results (`none` for nil) and an error.
pub record Env : Type 0 where
  pub arith : Arith
  pub codec : Codec
  pub onchain : Onchain
  pub wallets : List Wallet
  pub construct : Currency → List OutputDetails → Float64 → Option Results × Result Transaction
  pub serialize : Transaction → Result String

abbrev by_id : ℕ → WalletChecker
by_id id = record {
  id = some id;
  name = none;
  currency = Currency.unset;
  allow_readonly = true;
  tenant_id = none;
}

-- The address that an output pays, and the cache of wallet addresses.
abbrev lookup_address : ℕ → List (ℕ × String) → Option String
lookup_address id [] = none
lookup_address id ((key, a) ∷ rest) = if key == id then some a else lookup_address id rest

unfoldable pub wallet_address :
    List Wallet → ℕ → List (ℕ × String) → Result String × List (ℕ × String)
wallet_address wallets id cache = elim (lookup_address id cache) [
  | some a ↦ (ok a, cache)
  | none ↦ elim (get_any_wallet wallets (by_id id)) [
    | err e ↦ (err (errorf "wallet could not be found"), cache)
    | ok w ↦ elim (w.new_address) [
      | err e ↦ (err (errorf "could not get address from wallet"), cache)
      | ok a ↦ (ok a, (id, a) ∷ cache)
    ]
  ]
]

unfoldable pub output_address :
    List Wallet → String → Option ℕ → List (ℕ × String) → Result String × List (ℕ × String)
unfolding wallet_address
output_address wallets address wallet_id cache =
    if address =ₛ ""
    then elim wallet_id [
      | none ↦ (err (errorf "no address or wallet set"), cache)
      | some id ↦ wallet_address wallets id cache
    ]
    else (ok address, cache)

-- What `createTransaction` does with the wallet of an output after the broadcast.
unfoldable pub apply_to_wallet : List Wallet → String → Option ℕ → Option Error
apply_to_wallet wallets hex none = none
apply_to_wallet wallets hex (some id) = elim (get_any_wallet wallets (by_id id)) [
  | err e ↦ some (errorf "wallet could not be found")
  | ok wallet ↦ wallet.apply_transaction hex
]

module _ {W : Type 0} (env : Env) where
  abbrev place : Output W → String → Result OutputResult → Result (Output W)
  place o address (err e) = err e
  place o address (ok found) = ok (record o {
    details = record o.details {
      address = address;
      lockup_transaction = some found.transaction;
      vout = found.vout;
    };
  })

  abbrev locate : Output W → Result String → Result (Output W)
  locate o (err e) = err e
  locate o (ok address) = place o address (find_output env.codec env.onchain o.output_args)

  abbrev keep_valid : Output W → Result (Output W) → List (Output W) × W → List (Output W) × W
  keep_valid o (err e) (valid, w) = (valid, w)
  keep_valid o (ok o') (valid, w) = (o' ∷ valid, w)

  abbrev report : Output W → Result (Output W) → W → W
  report o (err e) w = o.set_error e w
  report o (ok o') w = w

  -- The loop of `populateOutputs`, with the valid outputs in order.
  unfoldable pub populate : List (ℕ × String) → List (Output W) → W → List (Output W) × W
  populate cache [] w = ([], w)
  populate cache (o ∷ os) w =
      let (address, cache') = output_address env.wallets o.details.address o.wallet_id cache in
      let located = locate o address in
      keep_valid o located (populate cache' os (report o located w))

  unfoldable pub populate_outputs : List (Output W) → W → List (Output W) × W
  unfolding populate
  populate_outputs outputs w = populate [] outputs w

  abbrev set_error_of : Output W → Option Error → W → W
  set_error_of o none w = w
  set_error_of o (some e) w = o.set_error e w

  -- The loop of the closure `handleErr`.
  unfoldable pub handle_err : Option Error → Option Results → List (Output W) → Handler W Unit
  handle_err e results [] = pure tt
  handle_err e results (o ∷ os) = or_crash (set_err o.details.swap_id e results) (λ results' w.
      handle_err e results' os (set_error_of o (read_result o.details.swap_id results').error w))

  -- The loop over the outputs of the broadcast transaction: the results that it leaves. The state of
  -- an output that failed is left to `handleErr`; a refused UPDATE is only logged.
  unfoldable pub settle :
      String → String → List (Output W) → Option Results → Handler W (Option Results)
  settle id hex [] results = pure results
  settle id hex (o ∷ os) results =
      let result = read_result o.details.swap_id results in
      branch (is_some result.error) (settle id hex os results) (do
        failed ← call (o.set_transaction id result.fee)
        on_error failed (λ e. settle id hex os results)
            (on_error (apply_to_wallet env.wallets hex o.wallet_id)
              (λ e.
                or_crash (set_err o.details.swap_id (some e) results)
                  (λ results'. settle id hex os results'))
              (settle id hex os results)))

  -- What `createTransaction` returns: the id and the error.
  unfoldable pub fail_all :
      String → Error → Option Results → List (Output W) → Handler W (String × Option Error)
  fail_all id e results outputs = handle_err (some e) results outputs >> pure (id, some e)

  unfoldable pub finish :
      String → String → List (Output W) → Option Results → Handler W (String × Option Error)
  finish id hex outputs results = do
    results' ← settle id hex outputs results
    handle_err none results' outputs
    pure (id, none)

  unfoldable pub broadcast_outputs :
      Transaction → List (Output W) → Option Results → Handler W (String × Option Error)
  broadcast_outputs tx outputs results =
      on_result (broadcast_transaction env.codec env.onchain tx)
        (λ e. fail_all "" e results outputs)
        (λ id.
          on_result (env.serialize tx) (λ e. fail_all id e results outputs)
            (λ hex. finish id hex outputs results))

  -- The part behind `populateOutputs`, for the valid outputs.
  unfoldable pub build : Currency → List (Output W) → Handler W (String × Option Error)
  build currency [] = pure ("", some (errorf "all outputs invalid"))
  build currency (o ∷ os) =
      on_result (estimate_fee env.arith env.onchain currency)
        (λ e. fail_all "" e (some []) (o ∷ os))
        (λ rate.
          let built = env.construct currency (map (λ (x : Output W). x.details) (o ∷ os)) rate in
          on_result (built.1) (λ e. fail_all "" e built.0 (o ∷ os))
            (λ tx. broadcast_outputs tx (o ∷ os) built.0))

  unfoldable pub create_transaction : Currency → List (Output W) → Handler W (String × Option Error)
  unfolding populate_outputs
  create_transaction currency outputs w =
      let (valid, w') = populate_outputs outputs w in build currency valid w'
