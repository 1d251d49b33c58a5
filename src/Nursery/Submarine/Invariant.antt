-- ===== src/Nursery/Submarine/Invariant.antt =====
-- internal/nursery/swap.go, `handleSwapStatus`: what holds of a submarine swap after every event.
pub mod Rules
pub mod Steps
use lightz_client.Base.{String, ◌≡◌, ◌⊎◌, refl, Bool, true, false, [], ◌∷◌}
use lightz_client.Lightz.Types.{SwapState, Error, err}
use lightz_client.Lightz.Events.{
  SwapUpdateEvent, swap_created, transaction_mempool, transaction_confirmed,
  transaction_claim_pending, parse_event,
}
use lightz_client.Database.Swap.Sync.{update_swap_state-Syncs, update_swap_status-Syncs}
use lightz_client.Nursery.Handler.{done, panic, crash, branch, when, on_result, ◌>>=◌}
use lightz_client.Nursery.Handler.Rules.{
  Obeys, Obeys-pure, Obeys-branch, Obeys-when, Obeys-weaken, Obeys-bind, stop_or-keeps,
  stop_or-stops,
}
use lightz_client.Nursery.Refunds.Rules.{refund_swaps-Steady}
use lightz_client.Nursery.Transactions.{Output}
use lightz_client.Nursery.Transactions.Failures.{Keeps}
use lightz_client.Nursery.Submarine.World.{World, SwapEnv, get_swap}
use lightz_client.Nursery.Submarine.Lockup.{needs_lockup, fetch_lockup}
use lightz_client.Nursery.Submarine.Status.{
  is_repeated, load, on_event, fail_swap, conclude, process_status, handle_swap_status,
}
use lightz_client.Nursery.Submarine.Invariant.Rules.{
  Inv, HasFailed, Safe, get_swap-Safe, run_setter-Safe, send_swap_update-Safe, or_fail-Safe,
  or_fail-bind-Safe, get_refund_output-Keeps,
}
use lightz_client.Nursery.Submarine.Invariant.Steps.{
  fetch_lockup-Safe, provide_invoice-Safe, claim_pending-Safe, complete-Safe,
}

module _ (env : SwapEnv) where
  on_event-Safe : (status : SwapUpdateEvent) → Safe env (on_event env status)
  unfolding on_event
  on_event-Safe transaction_mempool = Obeys-bind _ _ (provide_invoice-Safe env) (λ x. Obeys-pure _)
  on_event-Safe transaction_confirmed =
      Obeys-bind _ _ (provide_invoice-Safe env) (λ x. Obeys-pure _)
  on_event-Safe transaction_claim_pending = claim_pending-Safe env
  on_event-Safe _ = Obeys-pure _

  fail_swap-Safe : Safe env (fail_swap env)
  unfolding fail_swap
  fail_swap-Safe = Obeys-bind _ _ (get_swap-Safe env) (λ swap. Obeys-when _ _ (λ h.
      Obeys-bind _ _
        (run_setter-Safe env _ (λ q. update_swap_state-Syncs q SwapState.server_error ""))
        (λ e. or_fail-bind-Safe env e _ (λ ok. Obeys-bind _ _ (get_swap-Safe env) (λ now.
          Obeys-when _ _ (λ h'.
            Obeys-bind _ _
              (Obeys-weaken (
                refund_swaps-Steady (Inv env) env.nursery _ _
                  (get_refund_output-Keeps env now, tt)))
              (λ result. or_fail-Safe env result.1)))))))

  conclude-Safe :
      (status : SwapUpdateEvent) (batch_only : Bool) → Safe env (conclude env status batch_only)
  unfolding conclude
  conclude-Safe status batch_only =
      Obeys-branch _ _ _ (λ h. complete-Safe env) (λ h. Obeys-when _ _ (λ h'. fail_swap-Safe))

  process_status-Safe : (status : SwapUpdateEvent) → Safe env (process_status env status)
  unfolding process_status
  process_status-Safe status = Obeys-bind _ _ (get_swap-Safe env) (λ swap.
      Obeys-bind _ _ (Obeys-when _ _ (λ h. fetch_lockup-Safe env)) (λ x.
        Obeys-bind _ _ (on_event-Safe status) (λ batch_only.
          Obeys-bind _ _ (run_setter-Safe env _ (λ q. update_swap_status-Syncs q status)) (λ e.
            or_fail-bind-Safe env e _ (λ ok.
              Obeys-bind _ _ (conclude-Safe status batch_only) (λ x. send_swap_update-Safe env))))))

  pub handle_swap_status-keeps :
      (text : String) (w : World) → Inv env w → Inv env (handle_swap_status env text w).1
  unfolding handle_swap_status get_swap ◌>>=◌
  handle_swap_status-keeps text w =
      stop_or-keeps (process_status env (parse_event text)) (process_status-Safe (parse_event text))
        (is_repeated (parse_event text) w.stored.swap) w

  load-keeps : (w : World) → Inv env w → Inv env (load w)
  load-keeps w h = record { synced = λ q. refl; justified = h.justified }

-- The states of a swap under status events, in any order and number, from `w`: each of them finds the
-- swap in the database.
pub data Reaches (env : SwapEnv) (w : World) : World → Type 0 where
  start : Reaches env w w
  event :
      (text : String) {w' : World}
      → Reaches env w w'
      → Reaches env w (handle_swap_status env text (load w')).1

module _ (env : SwapEnv) where
  -- From a state with the invariant, every sequence of status events leads to one, where each event
  -- reads the swap from its row: if all UPDATEs succeed the row in the database equals the swap in
  -- memory, and also where they fail every final update that was sent is about a swap with a lockup
  -- transaction that succeeded or was refunded, every signature was sent for a preimage of the invoice,
  -- and every invoice was created for an amount that passed the fee check.
  pub Reaches-Inv : {w w' : World} → Inv env w → Reaches env w w' → Inv env w'
  Reaches-Inv h start = h
  Reaches-Inv h (event text r) =
      handle_swap_status-keeps env text _ (load-keeps env _ (Reaches-Inv h r))

  -- From a state with the invariant, where the handling of a status event returns early, either the
  -- status is that of the swap already, other than `transaction.mempool`, and nothing changes, or the
  -- swap in memory is in the error state and the last thing sent is a non-final update about it.
  pub handle_swap_status-HasFailed :
      (text : String) (w : World)
      → Inv env w
      → (handle_swap_status env text w).0 ≡ done
      → ((is_repeated (parse_event text) w.stored.swap ≡ true)
          × ((handle_swap_status env text w).1 ≡ w))
        ⊎ HasFailed (handle_swap_status env text w).1
  unfolding handle_swap_status get_swap ◌>>=◌
  handle_swap_status-HasFailed text w =
      stop_or-stops (process_status env (parse_event text))
        (process_status-Safe env (parse_event text)) (is_repeated (parse_event text) w.stored.swap)
        w
