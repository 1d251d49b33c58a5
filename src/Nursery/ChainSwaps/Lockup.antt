-- ===== src/Nursery/ChainSwaps/Lockup.antt =====
-- internal/nursery/chain.go, `setChainSwapLockupTransaction` and its calls in `handleChainSwapStatus`.
use lightz_client.Base.{String, Bool, true, ◌=ₛ◌, ◌||◌, is_some, Option, none, some}
use lightz_client.Lightz.Types.{Error}
use lightz_client.Lightz.Events.{
  SwapUpdateEvent, transaction_mempool, transaction_server_mempool, eq_event,
}
use lightz_client.Onchain.Chain.{Transaction, OutputResult, find_output}
use lightz_client.Onchain.Fee.{get_transaction_fee}
use lightz_client.Database.ChainSwap.{
  ChainSwapData, ChainSwap, Side, data_of, set_lockup_transaction_id, modify,
  set_chain_swap_lockup_transaction_id, add_chain_swap_onchain_fee,
}
use lightz_client.Nursery.Handler.{
  Handler, value, pure, crash, or_crash, branch, on_result, on_error, ◌>>=◌, ◌>>◌,
}
use lightz_client.Nursery.Handler.Failing.{or_fail}
use lightz_client.Nursery.ChainSwaps.World.{
  ChainWorld, ChainEnv, get_chain_swap, run_chain_setter, handle_chain_swap_error, Lockups,
  chain_output_args,
}

-- `data.LockupTransactionId = transactionId`, in memory alone.
unfoldable pub assign_lockup : Side → String → Handler ChainWorld Unit
unfolding modify
assign_lockup side tx w = (
  value tt,
  record w {
    stored = record w.stored { swap = modify side (set_lockup_transaction_id tx) w.stored.swap };
  },
)

abbrev pub is_mempool : SwapUpdateEvent → Bool
is_mempool status =
    eq_event status transaction_mempool || eq_event status transaction_server_mempool

-- Whether the lockup transactions are asked for.
abbrev pub needs_lockups : SwapUpdateEvent → ChainSwap → Bool
needs_lockups status swap =
    is_mempool status
    || (swap.from_data.lockup_transaction_id =ₛ "" || swap.to_data.lockup_transaction_id =ₛ "")

-- `data == swap.ToData || data.WalletId != nil`: the client bears the fee of the transaction.
abbrev pub bears_fee : Side → ChainSwapData → Bool
bears_fee Side.to_side d = true
bears_fee Side.from_side d = is_some d.wallet_id

module _ (env : ChainEnv) where
  open env use {nursery, peers, exec}

  unfoldable pub add_lockup_fee : Transaction → Handler ChainWorld (Option Error)
  add_lockup_fee tx = or_crash (get_transaction_fee nursery.codec nursery.onchain tx) (λ answer.
      on_result answer (λ e. pure (some e))
        (λ fee. run_chain_setter (add_chain_swap_onchain_fee exec fee)))

  unfoldable pub record_chain_lockup :
      Side → String → OutputResult → Handler ChainWorld (Option Error)
  record_chain_lockup side tx found = do
    e ← run_chain_setter (set_chain_swap_lockup_transaction_id exec side tx)
    on_error e (λ e. pure (some e))
        (do
          swap ← get_chain_swap
          branch (bears_fee side (data_of side swap)) (add_lockup_fee found.transaction)
              (pure none))

  unfoldable pub find_chain_lockup : Side → String → Handler ChainWorld (Option Error)
  find_chain_lockup side tx = do
    assign_lockup side tx
    swap ← get_chain_swap
    on_result (find_output nursery.codec nursery.onchain (chain_output_args (data_of side swap)))
        (λ e. pure (some e)) (record_chain_lockup side tx)

  -- The result is the function's error.
  unfoldable pub set_chain_swap_lockup_transaction :
      Side → Option String → Handler ChainWorld (Option Error)
  set_chain_swap_lockup_transaction side none = pure none
  set_chain_swap_lockup_transaction side (some tx) = do
    swap ← get_chain_swap
    branch ((data_of side swap).lockup_transaction_id =ₛ tx) (pure none) (find_chain_lockup side tx)

  unfoldable pub set_lockups : Lockups → Handler ChainWorld Unit
  set_lockups response = do
    e ← set_chain_swap_lockup_transaction Side.from_side response.user_lock
    or_fail (handle_chain_swap_error exec) e
    e' ← set_chain_swap_lockup_transaction Side.to_side response.server_lock
    or_fail (handle_chain_swap_error exec) e'

  -- On an error the code tests a new, nil `err` and calls its method: a nil dereference.
  unfoldable pub fetch_lockups : Handler ChainWorld Unit
  fetch_lockups = do
    swap ← get_chain_swap
    on_result (peers.get_chain_swap_transactions swap.id) (λ e. crash) set_lockups
