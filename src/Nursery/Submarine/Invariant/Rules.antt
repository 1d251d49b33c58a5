-- ===== src/Nursery/Submarine/Invariant/Rules.antt =====
-- The invariant of a submarine swap, and a rule for each step that its handlers are made of.
use lightz_client.Base.{
  ℕ, String, ◌≡◌, refl, ◌⊎◌, true, false, ◌=ₛ◌, Option, none, some, List, ◌∷◌, All, arith,
}
use lightz_client.Lightz.Types.{SwapState, Error, Result, ok, err}
use lightz_client.Database.Swap.{Swap, Stored, update_swap_state, set_swap_refund_transaction_id}
use lightz_client.Database.Swap.Sync.{
  Quiet, IsSynced, Syncs, update_swap_state-Syncs, set_swap_refund_transaction_id-Syncs,
}
use lightz_client.Nursery.Handler.{done, Handler, pure, stop, call, ◌>>=◌}
use lightz_client.Nursery.Handler.Rules.{Obeys, Obeys-pure, Obeys-call, Obeys-bind}
use lightz_client.Nursery.Transactions.Failures.{Keeps}
use lightz_client.Nursery.Submarine.World.{
  Effect, update_sent, signature_sent, invoice_created, invoice_sent, World, DecodedInvoice,
  SwapEnv, get_swap, emit, run_setter, is_final, send_swap_update, handle_swap_error, fail, or_fail,
  ok_or_fail, after_refund, set_refund_transaction, get_refund_output,
}
use lightz_client.Nursery.Submarine.Lockup.{accepts_invoice_amount}

-- A final update is sent only for a swap that has a lockup transaction and succeeded or was refunded;
-- a signature only for a preimage of the paid invoice; an invoice is created only for an amount that
-- passes the fee check.
abbrev pub IsJustified : SwapEnv → Effect → Type 0
IsJustified env (update_sent swap final) =
    final ≡ true
    → ((swap.state ≡ SwapState.successful) ⊎ (swap.state ≡ SwapState.refunded))
      × ((swap.lockup_transaction_id =ₛ "") ≡ false)
IsJustified env (signature_sent invoice preimage) =
    (decoded : DecodedInvoice) × (env.peers.decode_invoice invoice ≡ ok decoded)
    × ((decoded.payment_hash =ₛ env.peers.sha256 preimage) ≡ true)
IsJustified env (invoice_created swap amount expiry) = accepts_invoice_amount env swap amount ≡ none
IsJustified env (invoice_sent invoice) = Unit

pub record Inv (env : SwapEnv) (w : World) : Type 0 where
  pub synced : Quiet env.exec → IsSynced w.stored
  pub justified : All (IsJustified env) w.effects

-- The swap is in the error state, and the last thing sent is a non-final update about it.
pub record HasFailed (w : World) : Type 0 where
  pub state_error : w.stored.swap.state ≡ SwapState.error
  pub reported : (rest : List Effect) × (w.effects ≡ update_sent w.stored.swap false ∷ rest)

module _ (env : SwapEnv) where
  abbrev pub Safe : {A : Type 0} → Handler World A → Type 0
  Safe m = Obeys (Inv env) HasFailed m

  pub get_swap-Safe : Safe get_swap
  unfolding get_swap
  get_swap-Safe = record { keeps = λ w h. h; stops = λ w h e. cc }

  pub emit-Safe : (e : Effect) → IsJustified env e → Safe (emit e)
  unfolding emit
  emit-Safe e j = record {
    keeps = λ w h. record { synced = h.synced; justified = (j, h.justified) };
    stops = λ w h e. cc;
  }

  pub run_setter-Safe :
      (set : Stored → Option Error × Stored) → (Quiet env.exec → Syncs set) → Safe (run_setter set)
  unfolding run_setter
  run_setter-Safe set syncs =
      Obeys-call _
        (λ w h. record { synced = λ q. syncs q w.stored (h.synced q); justified = h.justified })

  is_final-IsJustified : (swap : Swap) → IsJustified env (update_sent swap (is_final swap))
  unfolding is_final
  is_final-IsJustified swap h = ground arith

  pub send_swap_update-Safe : Safe send_swap_update
  unfolding send_swap_update get_swap emit ◌>>=◌
  send_swap_update-Safe = record {
    keeps = λ w h. record {
      synced = h.synced;
      justified = (is_final-IsJustified w.stored.swap, h.justified);
    };
    stops = λ w h e. cc;
  }

  pub handle_swap_error-fails :
      (e : Error) (w : World) → HasFailed (handle_swap_error env.exec e w).1
  unfolding handle_swap_error send_swap_update get_swap emit run_setter call is_final
      update_swap_state ◌>>=◌
  handle_swap_error-fails e w = record { state_error = refl; reported = (w.effects, ground arith) }

  pub handle_swap_error-Safe : (e : Error) → Safe (handle_swap_error env.exec e)
  unfolding handle_swap_error
  handle_swap_error-Safe e =
      Obeys-bind _ _ (run_setter-Safe _ (λ q. update_swap_state-Syncs q SwapState.error e.text))
        (λ logged. send_swap_update-Safe)

  fail_lem :
      {A : Type 0} (e : Error) (w : World)
      → fail {A = A} env.exec e w ≡ (done, (handle_swap_error env.exec e w).1)
  unfolding fail handle_swap_error send_swap_update get_swap emit run_setter call stop ◌>>=◌
  fail_lem e w = refl

  pub fail-Safe : {A : Type 0} (e : Error) → Safe (fail {A = A} env.exec e)
  fail-Safe e = record {
    keeps = λ w h. rw (fail_lem e w) ((handle_swap_error-Safe e).keeps w h);
    stops = λ w h d. rw (fail_lem e w) (handle_swap_error-fails e w);
  }

  pub or_fail-Safe : (o : Option Error) → Safe (or_fail env.exec o)
  unfolding or_fail
  or_fail-Safe none = Obeys-pure tt
  or_fail-Safe (some e) = fail-Safe e

  pub ok_or_fail-Safe : {A : Type 0} (r : Result A) → Safe (ok_or_fail env.exec r)
  unfolding ok_or_fail
  ok_or_fail-Safe (ok a) = Obeys-pure a
  ok_or_fail-Safe (err e) = fail-Safe e

  fail-bind-Safe :
      {A B : Type 0} (e : Error) (f : A → Handler World B) → Safe (fail env.exec e >>= f)
  unfolding fail handle_swap_error send_swap_update get_swap emit run_setter call stop ◌>>=◌
  fail-bind-Safe e f = record {
    keeps = λ w h. (handle_swap_error-Safe e).keeps w h;
    stops = λ w h d. handle_swap_error-fails e w;
  }

  -- What follows may use that there was no error.
  pub or_fail-bind-Safe :
      {B : Type 0} (o : Option Error) (f : Unit {0} → Handler World B)
      → (o ≡ none → Safe (f tt))
      → Safe (or_fail env.exec o >>= f)
  unfolding or_fail
  or_fail-bind-Safe none f kf = Obeys-bind _ _ (Obeys-pure tt) (λ x. kf refl)
  or_fail-bind-Safe (some e) f kf = fail-bind-Safe e f

  pub ok_or_fail-bind-Safe :
      {A B : Type 0} (r : Result A) (f : A → Handler World B)
      → ((a : A) → r ≡ ok a → Safe (f a))
      → Safe (ok_or_fail env.exec r >>= f)
  unfolding ok_or_fail pure ◌>>=◌
  ok_or_fail-bind-Safe (ok a) f kf = kf a refl
  ok_or_fail-bind-Safe (err e) f kf = fail-bind-Safe e f

  after_refund-keeps : (e : Option Error) (w : World) → Inv env w → Inv env (after_refund e w).1
  unfolding after_refund
  after_refund-keeps none w h = send_swap_update-Safe.keeps w h
  after_refund-keeps (some e) w h = h

  pub set_refund_transaction-keeps :
      (tx : String) (fee : ℕ) (w : World)
      → Inv env w
      → Inv env (set_refund_transaction env.exec tx fee w).1
  unfolding set_refund_transaction
  set_refund_transaction-keeps tx fee w h =
      after_refund-keeps (set_swap_refund_transaction_id env.exec w.stored tx fee).0 _ (record {
        synced = λ q. set_swap_refund_transaction_id-Syncs q tx fee w.stored (h.synced q);
        justified = h.justified;
      })

  pub get_refund_output-Keeps : (swap : Swap) → Keeps (Inv env) (get_refund_output env.exec swap)
  unfolding get_refund_output
  get_refund_output-Keeps swap = record {
    on_transaction = set_refund_transaction-keeps;
    on_error = λ e w h. (handle_swap_error-Safe e).keeps w h;
  }
