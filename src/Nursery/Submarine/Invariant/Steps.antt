-- ===== src/Nursery/Submarine/Invariant/Steps.antt =====
-- The steps of a submarine handler keep the invariant.
use lightz_client.Base.{arith, String, ◌≡◌, Option, none, true, ◌=ₛ◌}
use lightz_client.Lightz.Types.{Error, SwapState}
use lightz_client.Onchain.Chain.{Transaction, hash}
use lightz_client.Database.Swap.{Stored}
use lightz_client.Database.Swap.Sync.{
  Quiet, Syncs, update_swap_state-Syncs, set_swap_invoice-Syncs, set_swap_preimage-Syncs,
  set_swap_lockup_transaction_id-Syncs, set_swap_expected_amount-Syncs, set_swap_onchain_fee-Syncs,
  set_swap_service_fee-Syncs,
}
use lightz_client.Nursery.Handler.{Handler, ◌>>=◌, ◌>>◌}
use lightz_client.Nursery.Handler.Rules.{
  Obeys-pure, Obeys-branch, Obeys-when, Obeys-on_result, Obeys-on_error, Obeys-or_crash, Obeys-bind,
  Obeys-crash,
}
use lightz_client.Nursery.Submarine.World.{
  World, Peers, DecodedInvoice, ClaimDetails, SwapEnv, run_setter, or_fail, signature_sent,
}
use lightz_client.Nursery.Submarine.Lockup.{
  record_onchain_fee, record_lockup, fetch_lockup, provide_invoice,
}
use lightz_client.Nursery.Submarine.Claim.{
  validate_preimage, send_signature, store_and_sign, cooperative_swap_claim, claim_pending,
  ensure_preimage, complete,
}
use lightz_client.Nursery.Submarine.Invariant.Rules.{
  IsJustified, Safe, get_swap-Safe, emit-Safe, run_setter-Safe, or_fail-Safe, or_fail-bind-Safe,
  ok_or_fail-bind-Safe,
}

-- Without an error, the preimage hashes to the payment hash of the invoice.
pub validate_preimage-none :
    (peers : Peers) (preimage : String) (invoice : DecodedInvoice)
    → validate_preimage peers preimage invoice ≡ none
    → (invoice.payment_hash =ₛ peers.sha256 preimage) ≡ true
unfolding validate_preimage
validate_preimage-none peers preimage invoice h = ground arith

module _ (env : SwapEnv) where
  -- The setter is the handler's last step, and its error ends the handler.
  set_last-Safe :
      (set : Stored → Option Error × Stored)
      → (Quiet env.exec → Syncs set)
      → Safe env (run_setter set >>= λ e. or_fail env.exec e)
  set_last-Safe set syncs = Obeys-bind _ _ (run_setter-Safe env set syncs) (or_fail-Safe env)

  set-Safe :
      {B : Type 0} (set : Stored → Option Error × Stored) (m : Handler World B)
      → (Quiet env.exec → Syncs set)
      → Safe env m
      → Safe env (run_setter set >>= λ e. or_fail env.exec e >> m)
  set-Safe set m syncs km =
      Obeys-bind _ _ (run_setter-Safe env set syncs) (λ e. or_fail-bind-Safe env e _ (λ q. km))

  record_onchain_fee-Safe : (tx : Transaction) → Safe env (record_onchain_fee env tx)
  unfolding record_onchain_fee
  record_onchain_fee-Safe tx = Obeys-or_crash _ _ (λ answer.
      ok_or_fail-bind-Safe env answer _
        (λ fee e. set_last-Safe _ (λ q. set_swap_onchain_fee-Syncs q fee)))

  record_lockup-Safe : (hex : String) → Safe env (record_lockup env hex)
  unfolding record_lockup
  record_lockup-Safe hex = Obeys-bind _ _ (get_swap-Safe env) (λ swap.
      ok_or_fail-bind-Safe env _ _ (λ tx e.
        set-Safe _ _ (λ q. set_swap_lockup_transaction_id-Syncs q (hash tx))
          (Obeys-bind _ _ (get_swap-Safe env) (λ found. ok_or_fail-bind-Safe env _ _ (λ result e'.
            set-Safe _ _ (λ q. set_swap_expected_amount-Syncs q result.value)
              (Obeys-when _ _ (λ h. record_onchain_fee-Safe result.transaction)))))))

  pub fetch_lockup-Safe : Safe env (fetch_lockup env)
  unfolding fetch_lockup
  fetch_lockup-Safe =
      Obeys-bind _ _ (get_swap-Safe env)
        (λ swap. Obeys-on_result _ _ _ (λ e. Obeys-crash) (λ hex e. record_lockup-Safe hex))

  pub provide_invoice-Safe : Safe env (provide_invoice env)
  unfolding provide_invoice
  provide_invoice-Safe = Obeys-bind _ _ (get_swap-Safe env) (λ swap. Obeys-when _ _ (λ h.
      ok_or_fail-bind-Safe env _ _ (λ amount e. or_fail-bind-Safe env _ _ (λ accepted.
        ok_or_fail-bind-Safe env _ _ (λ height e. ok_or_fail-bind-Safe env _ _ (λ create e.
          ok_or_fail-bind-Safe env _ _ (λ invoice e. Obeys-bind _ _ (emit-Safe env _ accepted) (λ x.
            or_fail-bind-Safe env _ _ (λ e.
              Obeys-bind _ _ (emit-Safe env _ tt)
                (λ x. set_last-Safe _ (λ q. set_swap_invoice-Syncs q invoice)))))))))))

  send_signature-Safe :
      (invoice : String) (details : ClaimDetails)
      → IsJustified env (signature_sent invoice details.preimage)
      → Safe env (send_signature env invoice details)
  unfolding send_signature
  send_signature-Safe invoice details j = Obeys-bind _ _ (get_swap-Safe env) (λ swap.
      Obeys-on_error _ _ _ (λ e. Obeys-pure _)
        (λ e.
          Obeys-on_result _ _ _ (λ e. Obeys-pure _)
            (λ partial e.
              Obeys-on_error _ _ _ (λ e. Obeys-pure _)
                (λ e. Obeys-bind _ _ (emit-Safe env _ j) (λ x. Obeys-pure _)))))

  store_and_sign-Safe :
      (invoice : String) (details : ClaimDetails)
      → IsJustified env (signature_sent invoice details.preimage)
      → Safe env (store_and_sign env invoice details)
  unfolding store_and_sign
  store_and_sign-Safe invoice details j =
      let signed = send_signature-Safe invoice details j in
      Obeys-bind _ _ (get_swap-Safe env) (λ swap.
        Obeys-branch _ _ _ (λ h. signed)
          (λ h.
            Obeys-bind _ _ (run_setter-Safe env _ (λ q. set_swap_preimage-Syncs q details.preimage))
              (λ failed. Obeys-on_error _ _ _ (λ e. Obeys-pure _) (λ e. signed))))

  cooperative_swap_claim-Safe : Safe env (cooperative_swap_claim env)
  unfolding cooperative_swap_claim
  cooperative_swap_claim-Safe = Obeys-bind _ _ (get_swap-Safe env) (λ swap.
      Obeys-on_result _ _ _ (λ e. Obeys-pure _)
        (λ details e.
          Obeys-on_result _ _ _ (λ e. Obeys-pure _)
            (λ invoice decoded.
              Obeys-on_error _ _ _ (λ e. Obeys-pure _)
                (λ valid. store_and_sign-Safe swap.invoice details (
                  invoice,
                  decoded,
                  validate_preimage-none env.peers details.preimage invoice valid,
                )))))

  pub claim_pending-Safe : Safe env (claim_pending env)
  unfolding claim_pending
  claim_pending-Safe = Obeys-bind _ _ (get_swap-Safe env) (λ swap.
      ok_or_fail-bind-Safe env _ _ (λ pairs e. ok_or_fail-bind-Safe env _ _ (λ minimal e.
        ok_or_fail-bind-Safe env _ _ (λ invoice e.
          Obeys-branch _ _ _ (λ h. Obeys-pure _)
            (λ h. Obeys-bind _ _ cooperative_swap_claim-Safe (λ logged. Obeys-pure _))))))

  ensure_preimage-Safe : (invoice : DecodedInvoice) → Safe env (ensure_preimage env invoice)
  unfolding ensure_preimage
  ensure_preimage-Safe invoice = Obeys-bind _ _ (get_swap-Safe env) (λ swap.
      Obeys-branch _ _ _ (λ h. Obeys-pure tt)
        (λ h. ok_or_fail-bind-Safe env _ _ (λ preimage e.
          or_fail-bind-Safe env _ _
            (λ e. set_last-Safe _ (λ q. set_swap_preimage-Syncs q preimage)))))

  pub complete-Safe : Safe env (complete env)
  unfolding complete
  complete-Safe = Obeys-bind _ _ (get_swap-Safe env) (λ found.
      ok_or_fail-bind-Safe env _ _ (λ invoice e. Obeys-bind _ _ (ensure_preimage-Safe invoice) (λ x.
        Obeys-bind _ _ (get_swap-Safe env) (λ swap.
          set-Safe _ _ (λ q. set_swap_service_fee-Syncs q _ _)
            (set_last-Safe _ (λ q. update_swap_state-Syncs q SwapState.successful ""))))))
