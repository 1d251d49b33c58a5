-- ===== src/Nursery/Reverse/Invariant/Rules.antt =====
-- The steps of the handlers of a reverse swap keep the invariant: setters, errors and claims.
use lightz_client.Base.{
  ℕ, String, ◌≡◌, refl, inl, Bool, true, false, Option, none, some, [], ◌∷◌, if◌then◌else◌,
}
use lightz_client.Lightz.Types.{SwapState, Currency, Error, Result, ok, err}
use lightz_client.Onchain.Chain.{OutputResult, find_output}
use lightz_client.Onchain.Chain.Lockup.{find_output-ok}
use lightz_client.Database.ReverseSwap.{
  ReverseSwap, ReverseUpdate, set_state, set_claim_transaction, set_routing_fee, service_fee_update,
  Held, write_all,
}
use lightz_client.Nursery.Handler.{Handler, ◌>>=◌}
use lightz_client.Nursery.Handler.Rules.{Obeys, Obeys-call}
use lightz_client.Nursery.Handler.Failing.Rules.{Fails}
use lightz_client.Nursery.Direct.{send_reverse_update}
use lightz_client.Nursery.Transactions.{create_transaction}
use lightz_client.Nursery.Transactions.Failures.{Keeps, create_transaction-Steady}
use lightz_client.Nursery.Transactions.Unfound.{create_transaction-unfound}
use lightz_client.Nursery.Reverse.World.{
  PaymentState, succeeded, failed, pending, PaymentStatus, Node, ReverseEnv, get_reverse_swap,
  run_update, handle_reverse_swap_error, send_update, and_then, record_routing_fee, ask_routing_fee,
  reverse_service_fee, reverse_onchain_fee, settle_reverse_swap, finalize_reverse_swap,
  set_reverse_claim_transaction, reverse_output_args, get_reverse_swap_claim_output,
}
use lightz_client.Nursery.Reverse.Earned.{
  Terms, terms, Earned, Inv, Allowed, write_all-Inv, send_reverse_update-Inv,
}

module _ (env : ReverseEnv) (base : Terms) where
  abbrev pub Safe : {A : Type 0} → Handler Held A → Type 0
  Safe m = Obeys (Inv env base) (λ h. Unit {0}) m

  -- What follows may use the terms of the swap that is read.
  pub get-Safe :
      {A : Type 0} (f : ReverseSwap → Handler Held A)
      → ((s : ReverseSwap) → terms s ≡ base → Safe (f s))
      → Safe (get_reverse_swap >>= f)
  unfolding get_reverse_swap ◌>>=◌
  get-Safe f kf = record { keeps = λ h k. (kf h.swap k.swap_terms).keeps h k; stops = λ h k d. tt }

  pub run_update-Safe : (u : ReverseUpdate) → Allowed env base u → Safe (run_update env.exec u)
  unfolding run_update
  run_update-Safe u a = Obeys-call _ (λ h k. write_all-Inv env base (u ∷ []) h (a, tt) k)

  pub send_update-Safe : Safe send_update
  unfolding send_update
  send_update-Safe = record {
    keeps = λ h k. send_reverse_update-Inv env base h k;
    stops = λ h k d. tt;
  }

  handle_reverse_swap_error-keeps :
      (e : Error) (h : Held)
      → Inv env base h
      → Inv env base (handle_reverse_swap_error env.exec e h).1
  unfolding handle_reverse_swap_error
  handle_reverse_swap_error-keeps e h k =
      send_reverse_update-Inv env base _
        (write_all-Inv env base (set_state SwapState.error e.text ∷ []) h (tt, tt) k)

  pub handle_reverse_swap_error-Fails :
      Fails (Inv env base) (λ h. Unit {0}) (handle_reverse_swap_error env.exec)
  unfolding handle_reverse_swap_error
  handle_reverse_swap_error-Fails = record {
    returns = λ e h. refl;
    keeps = handle_reverse_swap_error-keeps;
    fails = λ e h. tt;
  }

  abbrev KeepsInv : (Held → Option Error × Held) → Type 0
  KeepsInv f = (h : Held) → Inv env base h → Inv env base (f h).1

  and_then-keeps :
      (r : Option Error × Held) (f : Held → Option Error × Held)
      → Inv env base r.1
      → KeepsInv f
      → Inv env base (and_then r f).1
  and_then-keeps (some e, h) f k kf = k
  and_then-keeps (none, h) f k kf = kf h k

  routing_fee_of-keeps :
      (status : PaymentStatus) (state : PaymentState) (h : Held)
      → Inv env base h
      → Inv env base
          (let out : Option Error × Held = elim state [
            | succeeded ↦ write_all env.exec (set_routing_fee status.fee_msat ∷ []) h
            | _ ↦ (none, h)
          ] in
            out).1
  routing_fee_of-keeps status succeeded h k =
      write_all-Inv env base (set_routing_fee status.fee_msat ∷ []) h (tt, tt) k
  routing_fee_of-keeps status failed h k = k
  routing_fee_of-keeps status pending h k = k

  record_routing_fee-keeps : (r : Result PaymentStatus) → KeepsInv (record_routing_fee env r)
  record_routing_fee-keeps (err e) h k = k
  record_routing_fee-keeps (ok status) h k = routing_fee_of-keeps status status.state h k

  unless_external-keeps :
      (external : Bool) (r : Option Error × Held) (h : Held)
      → Inv env base h
      → Inv env base r.1
      → Inv env base (if external then (none, h) else r).1
  unless_external-keeps true r h k q = k
  unless_external-keeps false r h k q = q

  ask_routing_fee-keeps : (node : Option Node) → KeepsInv (ask_routing_fee env node)
  unfolding ask_routing_fee
  ask_routing_fee-keeps none h k = k
  ask_routing_fee-keeps (some node) h k =
      let status = node.payment_status (env.libraries.sha256 h.swap.preimage) in
      unless_external-keeps h.swap.external_pay (record_routing_fee env status h) h k
        (record_routing_fee-keeps status h k)

  -- With the swap earned, its claim may make it successful.
  module _ (earned : Earned env base) where
    mark_successful-keeps : KeepsInv (λ h.
        and_then
          (write_all env.exec (set_state SwapState.successful "" ∷ []) h)
          (λ h. (none, send_reverse_update h)))
    mark_successful-keeps h k =
        and_then-keeps _ (λ h. (none, send_reverse_update h))
          (write_all-Inv env base (set_state SwapState.successful "" ∷ []) h (earned, tt) k)
          (send_reverse_update-Inv env base)

    settle_reverse_swap-keeps : KeepsInv (settle_reverse_swap env)
    unfolding settle_reverse_swap
    settle_reverse_swap-keeps h k =
        let fees =
          service_fee_update (reverse_service_fee env h.swap) (reverse_onchain_fee env h.swap)
            h.swap in
        and_then-keeps (write_all env.exec (fees ∷ []) h) _
          (write_all-Inv env base (fees ∷ []) h (tt, tt) k) mark_successful-keeps

    finalize_reverse_swap-keeps : KeepsInv (finalize_reverse_swap env)
    unfolding finalize_reverse_swap
    finalize_reverse_swap-keeps h k =
        and_then-keeps (ask_routing_fee env env.lightning h) (settle_reverse_swap env)
          (ask_routing_fee-keeps env.lightning h k) settle_reverse_swap-keeps

    set_reverse_claim_transaction-keeps :
        (tx : String) (fee : ℕ) → KeepsInv (set_reverse_claim_transaction env tx fee)
    unfolding set_reverse_claim_transaction
    set_reverse_claim_transaction-keeps tx fee h k =
        and_then-keeps (write_all env.exec (set_claim_transaction tx fee ∷ []) h)
          (finalize_reverse_swap env)
          (write_all-Inv env base (set_claim_transaction tx fee ∷ []) h (tt, tt) k)
          finalize_reverse_swap-keeps

    get_reverse_swap_claim_output-Keeps :
        (s : ReverseSwap) → Keeps (Inv env base) (get_reverse_swap_claim_output env s)
    unfolding get_reverse_swap_claim_output
    get_reverse_swap_claim_output-Keeps s = record {
      on_transaction = set_reverse_claim_transaction-keeps;
      on_error = handle_reverse_swap_error-keeps;
    }

  claim-cases :
      (currency : Currency) (s : ReverseSwap) (found : Result OutputResult)
      → terms s ≡ base
      → find_output env.nursery.codec env.nursery.onchain (reverse_output_args env s) ≡ found
      → Obeys
          (Inv env base)
          (λ h. ⊥)
          (create_transaction env.nursery currency (get_reverse_swap_claim_output env s ∷ []))
  unfolding get_reverse_swap_claim_output
  claim-cases currency s (ok r) same h =
      let enough =
        (find_output-ok env.nursery.codec env.nursery.onchain (reverse_output_args env s) r h).2 in
      create_transaction-Steady env.nursery (Inv env base) currency _
        (get_reverse_swap_claim_output-Keeps (s, same, inl (r, h, enough)) s, tt)
  claim-cases currency s (err e) same h =
      create_transaction-unfound env.nursery (get_reverse_swap_claim_output env s) h currency
        handle_reverse_swap_error-keeps

  -- A claim keeps the invariant, whatever it finds.
  pub claim-Steady :
      (currency : Currency) (s : ReverseSwap)
      → terms s ≡ base
      → Obeys
          (Inv env base)
          (λ h. ⊥)
          (create_transaction env.nursery currency (get_reverse_swap_claim_output env s ∷ []))
  claim-Steady currency s same = claim-cases currency s _ same refl
