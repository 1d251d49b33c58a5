-- ===== src/Nursery/ChainSwaps/Invariant.antt =====
-- internal/nursery/chain.go: what holds of a chain swap after every event of the server and every
-- block of its chains.
pub mod Rules
pub mod Lockups
pub mod Steps
use lightz_client.Base.{ℕ, String, ◌≡◌, ◌⊎◌, true, false}
use lightz_client.Lightz.Types.{Currency, Error, err}
use lightz_client.Lightz.Events.{SwapUpdateEvent, parse_event}
use lightz_client.Database.ChainSwap.Located.{Place, update_chain_swap_status-Locates}
use lightz_client.Nursery.Handler.{done, panic, crash, branch, when, on_result, ◌>>=◌}
use lightz_client.Nursery.Handler.Rules.{
  Obeys, Obeys-pure, Obeys-branch, Obeys-when, Obeys-weaken, Obeys-bind, stop_or-keeps,
  stop_or-stops,
}
use lightz_client.Nursery.Handler.Failing.Rules.{or_fail-bind-Obeys}
use lightz_client.Nursery.Transactions.Failures.{create_transaction-Steady}
use lightz_client.Nursery.Refunds.Rules.{refund_swaps-Steady}
use lightz_client.Nursery.ChainSwaps.World.{ChainWorld, ChainEnv, get_chain_swap}
use lightz_client.Nursery.ChainSwaps.Lockup.{needs_lockups, fetch_lockups}
use lightz_client.Nursery.ChainSwaps.Status.{
  is_repeated_chain, process_chain_status, handle_chain_swap_status,
}
use lightz_client.Nursery.ChainSwaps.Blocks.{load, check_refundable_chain, check_claimable_chain}
use lightz_client.Nursery.ChainSwaps.Invariant.Rules.{
  sites_of, Inv, HasFailed, Safe, get_chain_swap-Safe, run_chain_setter-Safe,
  send_chain_swap_update-Safe, handle_chain_swap_error-Fails, get_chain_swap_claim_output-Keeps,
  get_chain_swap_refund_output-Keeps,
}
use lightz_client.Nursery.ChainSwaps.Invariant.Lockups.{fetch_lockups-Safe}
use lightz_client.Nursery.ChainSwaps.Invariant.Steps.{on_chain_event-Safe, fail_chain_swap-Safe}

module _ (env : ChainEnv) (from to : Place) where
  process_chain_status-Safe :
      (status : SwapUpdateEvent) → Safe env from to (process_chain_status env status)
  unfolding process_chain_status
  process_chain_status-Safe status = Obeys-bind _ _ (get_chain_swap-Safe env from to) (λ swap.
      Obeys-bind _ _ (Obeys-when _ _ (λ h. fetch_lockups-Safe env from to)) (λ x.
        Obeys-bind _ _ (on_chain_event-Safe env from to status) (λ quote_error.
          Obeys-bind _ _
            (run_chain_setter-Safe env from to _
              (update_chain_swap_status-Locates (sites_of env from to) env.exec status))
            (λ e. or_fail-bind-Obeys (handle_chain_swap_error-Fails env from to) e _ (λ q.
              Obeys-bind _ _ (Obeys-when _ _ (λ h. fail_chain_swap-Safe env from to))
                (λ x. send_chain_swap_update-Safe env from to))))))

  handle_chain_swap_status-keeps :
      (text : String) (w : ChainWorld)
      → Inv env from to w
      → Inv env from to (handle_chain_swap_status env text w).1
  unfolding handle_chain_swap_status get_chain_swap ◌>>=◌
  handle_chain_swap_status-keeps text w =
      stop_or-keeps (process_chain_status env (parse_event text))
        (process_chain_status-Safe (parse_event text))
        (is_repeated_chain (parse_event text) w.stored.swap) w

  check_refundable_chain-Safe :
      (currency : Currency) (height : ℕ)
      → Safe env from to (check_refundable_chain env currency height)
  unfolding check_refundable_chain
  check_refundable_chain-Safe currency height =
      Obeys-bind _ _ (get_chain_swap-Safe env from to) (λ swap. Obeys-when _ _ (λ h.
        Obeys-bind _ _
          (Obeys-weaken (
            refund_swaps-Steady (Inv env from to) env.nursery _ _
              (get_chain_swap_refund_output-Keeps env from to swap, tt)))
          (λ logged. Obeys-pure tt)))

  check_claimable_chain-Safe :
      (currency : Currency) → Safe env from to (check_claimable_chain env currency)
  unfolding check_claimable_chain
  check_claimable_chain-Safe currency = Obeys-bind _ _ (get_chain_swap-Safe env from to) (λ swap.
      Obeys-when _ _ (λ h.
        Obeys-bind _ _
          (Obeys-weaken (
            create_transaction-Steady env.nursery (Inv env from to) _ _
              (get_chain_swap_claim_output-Keeps env from to swap, tt)))
          (λ logged. Obeys-pure tt)))

  load-keeps : (w : ChainWorld) → Inv env from to w → Inv env from to (load w)
  load-keeps w h = record {
    located = record {
      distinct = h.located.distinct;
      distinct_back = h.located.distinct_back;
      from_at = h.located.row_from_at;
      to_at = h.located.row_to_at;
      row_from_at = h.located.row_from_at;
      row_to_at = h.located.row_to_at;
      from_found = h.located.from_found;
      to_found = h.located.to_found;
    };
    justified = h.justified;
  }

-- The states of a swap under status events and blocks, in any order and number, from `w`: each of them
-- finds the swap in the database.
pub data ReachesChain (env : ChainEnv) (w : ChainWorld) : ChainWorld → Type 0 where
  start : ReachesChain env w w
  event :
      (text : String) {w' : ChainWorld}
      → ReachesChain env w w'
      → ReachesChain env w (handle_chain_swap_status env text (load w')).1
  refund :
      (currency : Currency) (height : ℕ) {w' : ChainWorld}
      → ReachesChain env w w'
      → ReachesChain env w (check_refundable_chain env currency height (load w')).1
  claim :
      (currency : Currency) {w' : ChainWorld}
      → ReachesChain env w w'
      → ReachesChain env w (check_claimable_chain env currency (load w')).1

module _ (env : ChainEnv) (from to : Place) where
  -- From a state with the invariant, every sequence of status events and blocks leads to one, also
  -- where UPDATEs fail: each lockup transaction that the rows name can be found and pays the lockup
  -- address of its side, every final update that was sent is about a swap with a lockup transaction that
  -- succeeded or was refunded, and every quote was accepted for the amount that the lockup holds, at an
  -- amount that passed the fee check.
  pub ReachesChain-Inv :
      {w w' : ChainWorld} → Inv env from to w → ReachesChain env w w' → Inv env from to w'
  ReachesChain-Inv h start = h
  ReachesChain-Inv h (event text r) =
      handle_chain_swap_status-keeps env from to text _
        (load-keeps env from to _ (ReachesChain-Inv h r))
  ReachesChain-Inv h (refund currency height r) =
      (check_refundable_chain-Safe env from to currency height).keeps _
        (load-keeps env from to _ (ReachesChain-Inv h r))
  ReachesChain-Inv h (claim currency r) =
      (check_claimable_chain-Safe env from to currency).keeps _
        (load-keeps env from to _ (ReachesChain-Inv h r))

  -- From a state with the invariant, where the handling of a status event of a chain swap returns
  -- early, either the status is that of the swap already, other than one of the mempool, and nothing
  -- changes, or the swap in memory is in the error state and the last thing sent is a non-final update
  -- about it.
  pub handle_chain_swap_status-HasFailed :
      (text : String) (w : ChainWorld)
      → Inv env from to w
      → (handle_chain_swap_status env text w).0 ≡ done
      → ((is_repeated_chain (parse_event text) w.stored.swap ≡ true)
          × ((handle_chain_swap_status env text w).1 ≡ w))
        ⊎ HasFailed (handle_chain_swap_status env text w).1
  unfolding handle_chain_swap_status get_chain_swap ◌>>=◌
  handle_chain_swap_status-HasFailed text w =
      stop_or-stops (process_chain_status env (parse_event text))
        (process_chain_status-Safe env from to (parse_event text))
        (is_repeated_chain (parse_event text) w.stored.swap) w
