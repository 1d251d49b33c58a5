-- ===== src/Nursery/Reverse/Invariant.antt =====
-- internal/nursery/reverse.go: what holds of a reverse swap after every event of the server, every
-- block, and every failed payment of its invoice.
pub mod Rules
use lightz_client.Base.{
  Memᴰ, subst, sym, ◌&&◌, ℕ, String, ◌≡◌, refl, Bool, true, false, Option, none, some, List, [],
  ◌∷◌,
}
use lightz_client.Lightz.Types.{Currency, eq_currency, SwapState, Error, Result}
use lightz_client.Lightz.Events.{
  SwapUpdateEvent, transaction_direct, transaction_mempool, transaction_confirmed, parse_event,
}
use lightz_client.Onchain.Chain.{Output}
use lightz_client.Onchain.Wallets.{Wallet}
use lightz_client.Database.ReverseSwap.{
  ReverseSwap, set_state, set_status, set_lockup_transaction, set_paid_at, Held, write_all,
}
use lightz_client.Nursery.Handler.{stop, ◌>>=◌}
use lightz_client.Nursery.Handler.Rules.{
  Obeys, Obeys-pure, Obeys-branch, Obeys-when, Obeys-on_result, Obeys-on_error, Obeys-weaken,
  Obeys-bind,
}
use lightz_client.Nursery.Handler.Failing.Rules.{
  or_fail-Obeys, or_fail-bind-Obeys, ok_or_fail-bind-Obeys,
}
use lightz_client.Nursery.Direct.{send_reverse_update}
use lightz_client.Nursery.Direct.ZeroConf.{SortLaw}
use lightz_client.Nursery.Reverse.World.{ReverseEnv, direct_of}
use lightz_client.Nursery.Reverse.Payment.{fail_payment}
use lightz_client.Nursery.Reverse.Status.{
  StatusEvent, Reader, derive_reader, find_reader, settle_payment, take_direct, claim_reverse_swap,
  take_lockup, on_reverse_event, fail_reverse_swap, process_reverse_status,
  handle_reverse_swap_status,
}
use lightz_client.Nursery.Reverse.Blocks.{
  load, awaits_external, check_claimable_reverse, settle_outputs, check_external_reverse,
}
use lightz_client.Nursery.Reverse.Earned.{
  Terms, IsReceived, listed, relayed, Inv, write_all-Inv, send_reverse_update-Inv, load-Inv,
  handle_direct_payments-Inv,
}
use lightz_client.Nursery.Reverse.Invariant.Rules.{
  Safe, get-Safe, run_update-Safe, send_update-Safe, handle_reverse_swap_error-Fails, claim-Steady,
}

-- An element of a list of one.
Memᴰ-only : {A : Type 0} (P : A → Type 0) (a : A) → P a → (b : A) → Memᴰ b (a ∷ []) → P b
Memᴰ-only P a p b (Memᴰ.head same) = subst P (sym same) p
Memᴰ-only P a p b (Memᴰ.tail m) = elim m [ ]

and-left : (a b : Bool) → a && b ≡ true → a ≡ true
and-left true b h = refl
and-left false b h = h

awaits_external-currency :
    (currency : Currency) (s : ReverseSwap)
    → awaits_external currency s ≡ true
    → eq_currency s.pair.to currency ≡ true
unfolding awaits_external
awaits_external-currency currency s h = and-left _ _ h

module _ (env : ReverseEnv) (base : Terms) (sorts : SortLaw (direct_of env)) where
  stop-Safe : {A : Type 0} → Safe env base (stop {A = A})
  unfolding stop
  stop-Safe = record { keeps = λ h k. k; stops = λ h k d. tt }

  derive_reader-Safe :
      (wallet : Wallet) (address : String) (derive : Option (String → Result String))
      → Safe env base (derive_reader env wallet address derive)
  unfolding derive_reader
  derive_reader-Safe wallet address none = Obeys-pure _
  derive_reader-Safe wallet address (some derive) =
      ok_or_fail-bind-Obeys (handle_reverse_swap_error-Fails env base) _ _ (λ key e. Obeys-pure _)

  find_reader-Safe : Safe env base (find_reader env)
  unfolding find_reader
  find_reader-Safe = get-Safe env base _ (λ swap same.
      Obeys-branch _ _ _
        (λ h.
          ok_or_fail-bind-Obeys (handle_reverse_swap_error-Fails env base) _ _
            (λ wallet e. derive_reader-Safe wallet _ _))
        (λ h. Obeys-pure _))

  settle_payment-Safe :
      (tx_id : String) (amount : ℕ)
      → IsReceived env base (record { tx_id = tx_id; value = amount })
      → Safe env base (settle_payment env tx_id amount)
  unfolding settle_payment
  settle_payment-Safe tx_id amount received = record {
    keeps = λ h k. handle_direct_payments-Inv env base sorts _ h (Memᴰ-only _ _ received) k;
    stops = λ h k d. tt;
  }

  take_direct-Safe :
      (event : StatusEvent) (reader : Option Reader) → Safe env base (take_direct env event reader)
  unfolding take_direct
  take_direct-Safe event none = Obeys-pure tt
  take_direct-Safe event (some reader) =
      let f = handle_reverse_swap_error-Fails env base in
      get-Safe env base _ (λ swap same. ok_or_fail-bind-Obeys f _ _ (λ tx parsed.
        ok_or_fail-bind-Obeys f _ _ (λ found paid. or_fail-bind-Obeys f _ _ (λ sent.
          or_fail-bind-Obeys f _ _ (λ e.
            let received =
              subst (λ t. IsReceived env t (record { tx_id = event.tx_id; value = found.1 })) same
                (relayed event.tx_hex reader.blinding_key tx found parsed paid sent refl) in
            Obeys-bind _ _ (settle_payment-Safe event.tx_id found.1 received) (λ x. stop-Safe))))))

  claim_reverse_swap-Safe : Safe env base (claim_reverse_swap env)
  unfolding claim_reverse_swap
  claim_reverse_swap-Safe = get-Safe env base _ (λ swap same. Obeys-when _ _ (λ h.
      Obeys-bind _ _ (Obeys-weaken (claim-Steady env base swap.pair.to swap same))
        (λ result. Obeys-on_error _ _ _ (λ e. stop-Safe) (λ e. Obeys-pure tt))))

  take_lockup-Safe : (event : StatusEvent) → Safe env base (take_lockup env event)
  unfolding take_lockup
  take_lockup-Safe event = get-Safe env base _ (λ swap same. Obeys-when _ _ (λ h.
      Obeys-bind _ _ (run_update-Safe env base (set_lockup_transaction event.tx_id) tt) (λ e.
        or_fail-bind-Obeys (handle_reverse_swap_error-Fails env base) e _
          (λ q. claim_reverse_swap-Safe))))

  on_reverse_event-Safe :
      (status : SwapUpdateEvent) (event : StatusEvent)
      → Safe env base (on_reverse_event env status event)
  unfolding on_reverse_event
  on_reverse_event-Safe transaction_direct event =
      Obeys-bind _ _ find_reader-Safe (take_direct-Safe event)
  on_reverse_event-Safe transaction_mempool event =
      Obeys-bind _ _ (run_update-Safe env base (set_paid_at env.now) tt) (λ e.
        or_fail-bind-Obeys (handle_reverse_swap_error-Fails env base) e _
          (λ q. take_lockup-Safe event))
  on_reverse_event-Safe transaction_confirmed event = take_lockup-Safe event
  on_reverse_event-Safe _ event = Obeys-pure tt

  fail_reverse_swap-Safe : Safe env base (fail_reverse_swap env)
  unfolding fail_reverse_swap
  fail_reverse_swap-Safe = get-Safe env base _ (λ swap same. Obeys-when _ _ (λ h.
      Obeys-bind _ _ (run_update-Safe env base (set_state SwapState.server_error "") tt)
        (or_fail-Obeys (handle_reverse_swap_error-Fails env base))))

  process_reverse_status-Safe :
      (status : SwapUpdateEvent) (event : StatusEvent)
      → Safe env base (process_reverse_status env status event)
  unfolding process_reverse_status
  process_reverse_status-Safe status event =
      Obeys-bind _ _ (on_reverse_event-Safe status event) (λ x.
        Obeys-bind _ _ (run_update-Safe env base (set_status status) tt) (λ e.
          or_fail-bind-Obeys (handle_reverse_swap_error-Fails env base) e _ (λ q.
            Obeys-bind _ _ (Obeys-when _ _ (λ h. fail_reverse_swap-Safe))
              (λ x. send_update-Safe env base))))

  handle_reverse_swap_status-Safe :
      (event : StatusEvent) → Safe env base (handle_reverse_swap_status env event)
  unfolding handle_reverse_swap_status
  handle_reverse_swap_status-Safe event = get-Safe env base _ (λ swap same.
      Obeys-branch _ _ _ (λ h. stop-Safe)
        (λ h. process_reverse_status-Safe (parse_event event.status) event))

  check_claimable_reverse-Safe :
      (currency : Currency) → Safe env base (check_claimable_reverse env currency)
  unfolding check_claimable_reverse
  check_claimable_reverse-Safe currency = get-Safe env base _ (λ swap same. Obeys-when _ _ (λ h.
      Obeys-bind _ _ (Obeys-weaken (claim-Steady env base currency swap same))
        (λ logged. Obeys-pure tt)))

  settle_outputs-Safe :
      (currency : Currency) (outputs : List Output)
      → ((o : Output) → Memᴰ o outputs → IsReceived env base o)
      → Safe env base (settle_outputs env currency outputs)
  unfolding settle_outputs
  settle_outputs-Safe currency [] received = record { keeps = λ h k. k; stops = λ h k d. tt }
  settle_outputs-Safe currency (o ∷ os) received = record {
    keeps = λ h k. handle_direct_payments-Inv env base sorts (o ∷ os) h received k;
    stops = λ h k d. tt;
  }

  check_external_reverse-Safe :
      (currency : Currency) → Safe env base (check_external_reverse env currency)
  unfolding check_external_reverse
  check_external_reverse-Safe currency = get-Safe env base _ (λ swap same. Obeys-when _ _ (λ awaits.
      Obeys-on_result _ _ _ (λ e. Obeys-pure tt)
        (λ wallet known.
          Obeys-on_result _ _ _ (λ e. Obeys-pure tt)
            (λ outputs given. settle_outputs-Safe currency outputs (λ o m.
              subst (λ t. IsReceived env t o) same
                (listed wallet currency outputs known
                  (awaits_external-currency currency swap awaits) given m))))))

  refused-Inv :
      (refused : Option Error) (h : Held)
      → Inv env base h
      → Inv env base (
          let out : Held = elim refused [
            | some e ↦ h
            | none ↦ send_reverse_update (record h { swap = h.row })
          ] in
          out)
  refused-Inv none h k = send_reverse_update-Inv env base _ (load-Inv env base h k)
  refused-Inv (some e) h k = k

  fail_payment-Inv : (e : Error) (h : Held) → Inv env base h → Inv env base (fail_payment env e h)
  unfolding fail_payment
  fail_payment-Inv e h k =
      let (refused, h') = write_all env.exec (set_state SwapState.error e.text ∷ []) h in
      refused-Inv refused h'
        (write_all-Inv env base (set_state SwapState.error e.text ∷ []) h (tt, tt) k)

-- The states of a swap from `h`, under status events, blocks and failed payments, in any order and
-- number: each of them finds the swap in the database.
pub data ReachesReverse (env : ReverseEnv) (h : Held) : Held → Type 0 where
  start : ReachesReverse env h h
  event :
      (e : StatusEvent) {w : Held}
      → ReachesReverse env h w
      → ReachesReverse env h (handle_reverse_swap_status env e (load w)).1
  claim :
      (currency : Currency) {w : Held}
      → ReachesReverse env h w
      → ReachesReverse env h (check_claimable_reverse env currency (load w)).1
  external :
      (currency : Currency) {w : Held}
      → ReachesReverse env h w
      → ReachesReverse env h (check_external_reverse env currency (load w)).1
  unpaid :
      (e : Error) {w : Held}
      → ReachesReverse env h w
      → ReachesReverse env h (fail_payment env e (load w))

module _ (env : ReverseEnv) (base : Terms) (sorts : SortLaw (direct_of env)) where
  -- With a sort that adds no element, from a state with the invariant, every sequence of status events,
  -- blocks and failed payments leads to one, also where UPDATEs fail: the terms of the swap stay the
  -- same, and the swap in memory, its row and every update that was sent are successful only if coins of
  -- at least the onchain amount are locked at the address of its swap tree, or a direct payment settles
  -- it: one that its wallet or the chain lists at the claim address, or that a transaction makes there
  -- which was broadcast or which the chain had already.
  pub ReachesReverse-Inv : {h w : Held} → Inv env base h → ReachesReverse env h w → Inv env base w
  ReachesReverse-Inv k start = k
  ReachesReverse-Inv k (event e r) =
      (handle_reverse_swap_status-Safe env base sorts e).keeps _
        (load-Inv env base _ (ReachesReverse-Inv k r))
  ReachesReverse-Inv k (claim currency r) =
      (check_claimable_reverse-Safe env base sorts currency).keeps _
        (load-Inv env base _ (ReachesReverse-Inv k r))
  ReachesReverse-Inv k (external currency r) =
      (check_external_reverse-Safe env base sorts currency).keeps _
        (load-Inv env base _ (ReachesReverse-Inv k r))
  ReachesReverse-Inv k (unpaid e r) =
      fail_payment-Inv env base sorts e _ (load-Inv env base _ (ReachesReverse-Inv k r))
