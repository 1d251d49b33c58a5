-- ===== src/Nursery/Reverse/Status.antt =====
-- internal/nursery/reverse.go, `handleReverseSwapStatus`: one status event of the server.
use lightz_client.Base.{
  ℕ, String, Bool, true, ◌=ₛ◌, ◌||◌, ◌&&◌, if◌then◌else◌, is_some, Option, none, some, [], ◌∷◌,
}
use lightz_client.Lightz.Types.{Currency, eq_currency, SwapState, Error, Result, ok, err}
use lightz_client.Lightz.Events.{
  SwapUpdateEvent, transaction_direct, transaction_mempool, transaction_confirmed, eq_event,
  parse_event, is_failed_status,
}
use lightz_client.Onchain.Chain.{new_tx_from_hex, broadcast_transaction}
use lightz_client.Onchain.Wallets.{Wallet, WalletChecker, get_any_wallet}
use lightz_client.Database.ReverseSwap.{
  set_state, set_status, set_lockup_transaction, set_paid_at, Held,
}
use lightz_client.Nursery.Handler.{Handler, value, pure, stop, when, branch, on_error, ◌>>=◌, ◌>>◌}
use lightz_client.Nursery.Handler.Failing.{or_fail, ok_or_fail}
use lightz_client.Nursery.Transactions.{create_transaction}
use lightz_client.Nursery.Direct.{handle_direct_payments}
use lightz_client.Nursery.Submarine.World.{is_pending}
use lightz_client.Nursery.Reverse.World.{
  ReverseEnv, direct_of, get_reverse_swap, run_update, handle_reverse_swap_error, send_update,
  get_reverse_swap_claim_output,
}

-- `lightz.SwapStatusResponse`
pub record StatusEvent : Type 0 where
  pub status : String
  pub tx_id : String
  pub tx_hex : String

abbrev pub by_wallet : Option ℕ → WalletChecker
by_wallet id = record {
  id = id;
  name = none;
  currency = Currency.unset;
  allow_readonly = true;
  tenant_id = none;
}

-- What a direct transaction is read with: the wallet that it is applied to, and the blinding key.
pub record Reader : Type 0 where
  pub wallet : Option Wallet
  pub blinding_key : String

-- The errors of a broadcast of a transaction that the chain has already.
abbrev is_known : String → Bool
is_known text =
    text =ₛ "transaction already in block chain"
    || text =ₛ "transaction outputs already in utxo set"

abbrev pub broadcast_error : (String → String) → Result String → Option Error
broadcast_error to_lower (ok id) = none
broadcast_error to_lower (err e) = if is_known (to_lower e.text) then none else some e

abbrev pub apply_error : Option Wallet → String → Option Error
apply_error none hex = none
apply_error (some wallet) hex = wallet.apply_transaction hex

module _ (env : ReverseEnv) where
  open env use {nursery, libraries, exec, now}

  -- `none` where another kind of wallet handles direct transactions by itself.
  unfoldable pub derive_reader :
      Wallet → String → Option (String → Result String) → Handler Held (Option Reader)
  derive_reader wallet address none = pure none
  derive_reader wallet address (some derive) = do
    key ← ok_or_fail (handle_reverse_swap_error exec) (derive address)
    pure (some (record { wallet = some wallet; blinding_key = key }))

  unfoldable pub find_reader : Handler Held (Option Reader)
  find_reader = do
    swap ← get_reverse_swap
    branch (eq_currency swap.pair.to Currency.liquid && is_some swap.wallet_id)
        (do
          wallet ←
              ok_or_fail (handle_reverse_swap_error exec)
                (get_any_wallet nursery.wallets (by_wallet swap.wallet_id))
          derive_reader wallet swap.claim_address wallet.derive_blinding_key)
        (pure (some (record { wallet = none; blinding_key = "" })))

  unfoldable pub settle_payment : String → ℕ → Handler Held Unit
  settle_payment tx_id amount h = (
    value tt,
    handle_direct_payments (direct_of env) (record { tx_id = tx_id; value = amount } ∷ []) h,
  )

  -- The case `TransactionDirect` of the switch.
  unfoldable pub take_direct : StatusEvent → Option Reader → Handler Held Unit
  take_direct event none = pure tt
  take_direct event (some reader) = do
    swap ← get_reverse_swap
    tx ←
        ok_or_fail (handle_reverse_swap_error exec)
          (new_tx_from_hex nursery.codec swap.pair.to event.tx_hex reader.blinding_key)
    found ←
        ok_or_fail (handle_reverse_swap_error exec) (nursery.codec.find_vout tx swap.claim_address)
    or_fail (handle_reverse_swap_error exec) (
        broadcast_error libraries.to_lower (broadcast_transaction nursery.codec nursery.onchain tx))
    or_fail (handle_reverse_swap_error exec) (apply_error reader.wallet event.tx_hex)
    settle_payment event.tx_id found.1
    stop

  -- An error of `createTransaction` is logged and ends the handler.
  unfoldable pub claim_reverse_swap : Handler Held Unit
  claim_reverse_swap = do
    swap ← get_reverse_swap
    when swap.accept_zero_conf (do
      result ← create_transaction nursery swap.pair.to (get_reverse_swap_claim_output env swap ∷ [])
      on_error (result.1) (λ e. stop) (pure tt))

  -- The case `TransactionConfirmed`.
  unfoldable pub take_lockup : StatusEvent → Handler Held Unit
  take_lockup event = do
    swap ← get_reverse_swap
    when (swap.claim_transaction_id =ₛ "") (do
      e ← run_update exec (set_lockup_transaction event.tx_id)
      or_fail (handle_reverse_swap_error exec) e
      claim_reverse_swap)

  unfoldable pub on_reverse_event : SwapUpdateEvent → StatusEvent → Handler Held Unit
  on_reverse_event transaction_direct event = find_reader >>= take_direct event
  on_reverse_event transaction_mempool event = do
    e ← run_update exec (set_paid_at now)
    or_fail (handle_reverse_swap_error exec) e
    take_lockup event
  on_reverse_event transaction_confirmed event = take_lockup event
  on_reverse_event _ event = pure tt

  -- The branch for a failed status.
  unfoldable pub fail_reverse_swap : Handler Held Unit
  fail_reverse_swap = do
    swap ← get_reverse_swap
    when (is_pending swap.state) (do
      e ← run_update exec (set_state SwapState.server_error "")
      or_fail (handle_reverse_swap_error exec) e)

  unfoldable pub process_reverse_status : SwapUpdateEvent → StatusEvent → Handler Held Unit
  process_reverse_status status event = do
    on_reverse_event status event
    e ← run_update exec (set_status status)
    or_fail (handle_reverse_swap_error exec) e
    when (is_failed_status status) fail_reverse_swap
    send_update

  unfoldable pub handle_reverse_swap_status : StatusEvent → Handler Held Unit
  handle_reverse_swap_status event = do
    swap ← get_reverse_swap
    branch (eq_event (parse_event event.status) swap.status) stop
        (process_reverse_status (parse_event event.status) event)
