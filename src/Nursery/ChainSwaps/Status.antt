-- ===== src/Nursery/ChainSwaps/Status.antt =====
-- internal/nursery/chain.go, `handleChainSwapStatus`: one status event of the server.
use lightz_client.Base.{String, Bool, false, ◌=ₛ◌, not, ◌&&◌, ◌||◌, [], ◌∷◌}
use lightz_client.Lightz.Types.{SwapState}
use lightz_client.Lightz.Events.{
  SwapUpdateEvent, transaction_lockup_failed, transaction_mempool, transaction_server_mempool,
  transaction_server_confirmed, eq_event, parse_event, is_failed_status,
}
use lightz_client.Database.ChainSwap.{ChainSwap, update_chain_swap_state, update_chain_swap_status}
use lightz_client.Nursery.Handler.{Handler, pure, stop, when, branch, ◌>>=◌, ◌>>◌}
use lightz_client.Nursery.Handler.Failing.{or_fail}
use lightz_client.Nursery.Transactions.{create_transaction}
use lightz_client.Nursery.Refunds.{refund_swaps}
use lightz_client.Nursery.ChainSwaps.World.{
  ChainWorld, ChainEnv, get_chain_swap, run_chain_setter, handle_chain_swap_error,
  send_chain_swap_update, get_chain_swap_claim_output, get_chain_swap_refund_output,
}
use lightz_client.Nursery.Submarine.World.{is_pending}
use lightz_client.Nursery.ChainSwaps.Lockup.{is_mempool, needs_lockups, fetch_lockups}
use lightz_client.Nursery.ChainSwaps.Quote.{renew_quote}

-- A status that the swap has already is skipped, except for those of the mempool.
abbrev pub is_repeated_chain : SwapUpdateEvent → ChainSwap → Bool
is_repeated_chain status swap = eq_event status swap.status && not (is_mempool status)

abbrev pub can_claim : ChainSwap → Bool
can_claim swap = swap.accept_zero_conf && swap.to_data.transaction_id =ₛ ""

module _ (env : ChainEnv) where
  open env use {nursery, exec}

  -- The error of `createTransaction` is only logged.
  unfoldable pub claim_chain_swap : Handler ChainWorld Unit
  claim_chain_swap = do
    swap ← get_chain_swap
    when (can_claim swap) (do
      logged ← create_transaction nursery swap.pair.to (get_chain_swap_claim_output env swap ∷ [])
      pure tt)

  -- The switch: its result is `quoteError != nil`.
  unfoldable pub on_chain_event : SwapUpdateEvent → Handler ChainWorld Bool
  on_chain_event transaction_lockup_failed = renew_quote env transaction_lockup_failed
  on_chain_event transaction_mempool = renew_quote env transaction_mempool
  on_chain_event transaction_server_confirmed = claim_chain_swap >> pure false
  on_chain_event transaction_server_mempool = claim_chain_swap >> pure false
  on_chain_event _ = pure false

  unfoldable pub refund_chain_swap : Handler ChainWorld Unit
  refund_chain_swap = do
    swap ← get_chain_swap
    when (not (swap.from_data.lockup_transaction_id =ₛ "")) (do
      result ← refund_swaps nursery swap.pair.from (get_chain_swap_refund_output env swap ∷ [])
      or_fail (handle_chain_swap_error exec) (result.1))

  -- The branch for a failed status.
  unfoldable pub fail_chain_swap : Handler ChainWorld Unit
  fail_chain_swap = do
    swap ← get_chain_swap
    when (is_pending swap.state) (do
      e ← run_chain_setter (update_chain_swap_state exec SwapState.server_error "")
      or_fail (handle_chain_swap_error exec) e)
    refund_chain_swap

  -- A failed lockup alone does not fail the swap: a new quote may save it.
  abbrev pub fails_chain_swap : SwapUpdateEvent → Bool → Bool
  fails_chain_swap status quote_error =
      is_failed_status status && (not (eq_event status transaction_lockup_failed) || quote_error)

  unfoldable pub process_chain_status : SwapUpdateEvent → Handler ChainWorld Unit
  process_chain_status status = do
    swap ← get_chain_swap
    when (needs_lockups status swap) (fetch_lockups env)
    quote_error ← on_chain_event status
    e ← run_chain_setter (update_chain_swap_status exec status)
    or_fail (handle_chain_swap_error exec) e
    when (fails_chain_swap status quote_error) fail_chain_swap
    send_chain_swap_update

  unfoldable pub handle_chain_swap_status : String → Handler ChainWorld Unit
  handle_chain_swap_status text = do
    swap ← get_chain_swap
    branch (is_repeated_chain (parse_event text) swap) stop
        (process_chain_status (parse_event text))
