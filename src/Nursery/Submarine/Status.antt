-- ===== src/Nursery/Submarine/Status.antt =====
-- internal/nursery/swap.go, `handleSwapStatus`: one status event of the server.
use lightz_client.Base.{String, Bool, false, ◌=ₛ◌, not, ◌&&◌, ◌||◌, [], ◌∷◌}
use lightz_client.Lightz.Types.{SwapState}
use lightz_client.Lightz.Events.{
  SwapUpdateEvent, transaction_mempool, transaction_confirmed, transaction_claim_pending, eq_event,
  parse_event, is_completed_status, is_failed_status,
}
use lightz_client.Database.Swap.{Swap, update_swap_state, update_swap_status}
use lightz_client.Nursery.Handler.{Handler, pure, stop, when, branch, ◌>>=◌, ◌>>◌}
use lightz_client.Nursery.Refunds.{refund_swaps}
use lightz_client.Nursery.Submarine.World.{
  World, SwapEnv, get_swap, run_setter, or_fail, send_swap_update, get_refund_output, is_pending,
}
use lightz_client.Nursery.Submarine.Lockup.{needs_lockup, fetch_lockup, provide_invoice}
use lightz_client.Nursery.Submarine.Claim.{claim_pending, complete}

-- A status that the swap has already is skipped, except for `transaction.mempool`.
abbrev pub is_repeated : SwapUpdateEvent → Swap → Bool
is_repeated status swap = eq_event status swap.status && not (eq_event status transaction_mempool)

-- `processUpdate` reads the swap from its row.
abbrev pub load : World → World
load w = record w { stored = record w.stored { swap = w.stored.row } }

module _ (env : SwapEnv) where
  open env use {nursery, exec}

  -- The switch: its result is `batchOnly`.
  unfoldable pub on_event : SwapUpdateEvent → Handler World Bool
  on_event transaction_mempool = provide_invoice env >> pure false
  on_event transaction_confirmed = provide_invoice env >> pure false
  on_event transaction_claim_pending = claim_pending env
  on_event _ = pure false

  -- The branch for a failed status.
  unfoldable pub fail_swap : Handler World Unit
  fail_swap = do
    swap ← get_swap
    when (is_pending swap.state) (do
      e ← run_setter (λ s. update_swap_state exec s SwapState.server_error "")
      or_fail exec e
      now ← get_swap
      when (not (now.lockup_transaction_id =ₛ "")) (do
        result ← refund_swaps nursery now.pair.from (get_refund_output exec now ∷ [])
        or_fail exec (result.1)))

  unfoldable pub conclude : SwapUpdateEvent → Bool → Handler World Unit
  conclude status batch_only =
      branch (is_completed_status status || batch_only) (complete env)
        (when (is_failed_status status) fail_swap)

  unfoldable pub process_status : SwapUpdateEvent → Handler World Unit
  process_status status = do
    swap ← get_swap
    when (needs_lockup status swap) (fetch_lockup env)
    batch_only ← on_event status
    e ← run_setter (λ s. update_swap_status exec s status)
    or_fail exec e
    conclude status batch_only
    send_swap_update

  unfoldable pub handle_swap_status : String → Handler World Unit
  handle_swap_status text = do
    swap ← get_swap
    branch (is_repeated (parse_event text) swap) stop (process_status (parse_event text))
