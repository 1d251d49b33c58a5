-- ===== src/Nursery/Submarine/Lockup.antt =====
-- internal/nursery/swap.go, `handleSwapStatus`: the lockup transaction, and the invoice of a swap
-- that was created without one.
use lightz_client.Base.{ℕ, String, Bool, false, ◌=ₛ◌, not, ◌&&◌, ◌||◌, is_some, Option, none, some}
use Prim.Native.String.{◌++◌ as ◌++ₛ◌}
use lightz_client.Lightz.Types.{Currency, currency_text, SwapType, Error, errorf, Result, ok, err}
use lightz_client.Lightz.Events.{
  SwapUpdateEvent, invoice_set, transaction_mempool, transaction_confirmed, eq_event,
}
use lightz_client.Lightz.Fees.{FeeEstimations, check_amounts}
use lightz_client.Lightz.BlockTime.{calculate_invoice_expiry, sub32}
use lightz_client.Onchain.Chain.{
  Transaction, hash, new_tx_from_hex, find_output, estimate_fee, get_block_height,
}
use lightz_client.Onchain.Fee.{get_transaction_fee}
use lightz_client.Database.Swap.{
  Swap, set_swap_lockup_transaction_id, set_swap_expected_amount, set_swap_onchain_fee,
  set_swap_invoice,
}
use lightz_client.Nursery.Handler.{Handler, crash, or_crash, when, on_result, ◌>>=◌, ◌>>◌}
use lightz_client.Nursery.Submarine.World.{
  World, SwapEnv, invoice_created, invoice_sent, get_swap, emit, run_setter, or_fail, ok_or_fail,
  swap_output_args,
}

-- Whether the lockup transaction is asked for.
abbrev pub needs_lockup : SwapUpdateEvent → Swap → Bool
needs_lockup status swap =
    not (eq_event status invoice_set)
    && (eq_event status transaction_mempool
        || (eq_event status transaction_confirmed || swap.lockup_transaction_id =ₛ ""))

-- `utils.GetSwapMemo` of internal/utils/memo.go.
unfoldable pub get_swap_memo : Currency → String
get_swap_memo currency = "Submarine Swap from " ++ₛ currency_text currency

-- `nursery.lightning == nil`
abbrev pub lightning_node : {A : Type 0} → Option A → Result A
lightning_node none = err (errorf "No lightning node available, can not create invoice for Swap")
lightning_node (some a) = ok a

module _ (env : SwapEnv) where
  open env use {nursery, peers, exec}

  -- The fee of the lockup transaction, if a wallet of the client paid it.
  unfoldable pub record_onchain_fee : Transaction → Handler World Unit
  record_onchain_fee tx = or_crash (get_transaction_fee nursery.codec nursery.onchain tx) (λ answer.
      do
        fee ← ok_or_fail exec answer
        e ← run_setter (λ s. set_swap_onchain_fee exec s fee)
        or_fail exec e)

  unfoldable pub record_lockup : String → Handler World Unit
  record_lockup hex = do
    swap ← get_swap
    tx ← ok_or_fail exec (new_tx_from_hex nursery.codec swap.pair.from hex swap.blinding_key)
    e ← run_setter (λ s. set_swap_lockup_transaction_id exec s (hash tx))
    or_fail exec e
    found ← get_swap
    result ← ok_or_fail exec (find_output nursery.codec nursery.onchain (swap_output_args found))
    e' ← run_setter (λ s. set_swap_expected_amount exec s result.value)
    or_fail exec e'
    when (is_some swap.wallet_id) (record_onchain_fee result.transaction)

  -- On an error the code tests a new, nil `err` and calls its method: a nil dereference.
  unfoldable pub fetch_lockup : Handler World Unit
  fetch_lockup = do
    swap ← get_swap
    on_result (peers.get_swap_transaction swap.id) (λ e. crash) record_lockup

  -- `nursery.CheckAmounts`: the fee estimations are those of the chains.
  abbrev estimation : Currency → Option Error
  estimation c = elim (estimate_fee nursery.arith nursery.onchain c) [
    | ok f ↦ none
    | err e ↦ some e
  ]

  abbrev estimations : FeeEstimations
  estimations c = elim (estimate_fee nursery.arith nursery.onchain c) [
    | ok f ↦ some f
    | err e ↦ none
  ]

  unfoldable pub accepts_invoice_amount : Swap → ℕ → Option Error
  accepts_invoice_amount swap amount = elim (estimation swap.pair.from) [
    | some e ↦ some e
    | none ↦
        elim (check_amounts nursery.arith SwapType.normal swap.pair swap.expected_amount amount
          swap.service_fee_percent estimations false) [
            | none ↦ none
            | some e ↦ some (errorf "not accepting invoice amount")
          ]
  ]

  -- The cases `TransactionMempool` and `TransactionConfirmed` of the switch.
  unfoldable pub provide_invoice : Handler World Unit
  provide_invoice = do
    swap ← get_swap
    when (swap.invoice =ₛ "") (do
      amount ← ok_or_fail exec (peers.get_invoice_amount swap.id)
      or_fail exec (accepts_invoice_amount swap amount)
      height ← ok_or_fail exec ((get_block_height nursery.onchain swap.pair.from).0)
      create ← ok_or_fail exec (lightning_node peers.create_invoice)
      let expiry = calculate_invoice_expiry (sub32 swap.timeout_block_height height) swap.pair.from
      invoice ← ok_or_fail exec (create amount swap.preimage expiry (get_swap_memo swap.pair.from))
      emit (invoice_created swap amount expiry)
      or_fail exec (peers.set_invoice swap.id invoice)
      emit (invoice_sent invoice)
      e ← run_setter (λ s. set_swap_invoice exec s invoice)
      or_fail exec e)
