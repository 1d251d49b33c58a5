-- ===== src/Nursery/Submarine/Completion.antt =====
-- internal/nursery/swap.go, `handleSwapStatus`: how a completed swap ends.
use lightz_client.Base.{
  String, ◌≡◌, refl, ap, ◌⊎◌, inl, inr, true, ◌=ₛ◌, is_some, Option, none, some,
}
use lightz_client.Base.Int.{ℤ, to_int64, sub_int64}
use lightz_client.Float.{calculate_percentage_int64}
use lightz_client.Lightz.Types.{SwapState, Error, Result, ok, err}
use lightz_client.Database.Optional.{add_to_optional}
use lightz_client.Database.Swap.{
  Stored, Swap, set_swap_preimage, set_swap_service_fee, update_swap_state, write,
}
use lightz_client.Nursery.Handler.{
  Out, value, done, Handler, pure, stop, call, branch, continue, ◌>>=◌, ◌>>◌,
}
use lightz_client.Nursery.Submarine.World.{
  World, SwapEnv, DecodedInvoice, get_swap, emit, run_setter, fail, or_fail, ok_or_fail,
  handle_swap_error, send_swap_update,
}
use lightz_client.Nursery.Submarine.Claim.{validate_preimage, clamp_fee, ensure_preimage, complete}
use lightz_client.Nursery.Submarine.Invariant.Steps.{validate_preimage-none}
use lightz_client.Nursery.Submarine.Invariant.Rules.{HasFailed, handle_swap_error-fails}

-- It never panics: it gives a value and a state with `Q`, or it stops in the error state.
pub data Ends {A : Type 0} (Q : A → World → Type 0) : Out A × World → Type 0 where
  ended : {a : A} {w : World} → Q a w → Ends Q (value a, w)
  failed : {w : World} → HasFailed w → Ends Q (done, w)

module _ {A B : Type 0} {Q : B → World → Type 0} where
  Ends-bind_lem :
      (r : Out A × World) (f : A → Handler World B)
      → Ends (λ a w. Ends Q (f a w)) r
      → Ends Q (continue r.0 f r.1)
  Ends-bind_lem _ f (ended h) = h
  Ends-bind_lem _ f (failed h) = failed h

  Ends-bind :
      (m : Handler World A) (f : A → Handler World B) (w : World)
      → Ends (λ a w'. Ends Q (f a w')) (m w)
      → Ends Q ((m >>= f) w)
  unfolding ◌>>=◌
  Ends-bind m f w h = Ends-bind_lem (m w) f h

Ends-map :
    {A : Type 0} {Q R : A → World → Type 0} {r : Out A × World}
    → ((a : A) (w : World) → Q a w → R a w)
    → Ends Q r
    → Ends R r
Ends-map k (ended h) = ended (k _ _ h)
Ends-map k (failed h) = failed h

module _ (env : SwapEnv) where
  module _ {A : Type 0} {Q : A → World → Type 0} where
    fail-Ends : (e : Error) (w : World) → Ends Q (fail env.exec e w)
    unfolding fail handle_swap_error send_swap_update get_swap emit run_setter call stop ◌>>=◌
    fail-Ends e w = failed (handle_swap_error-fails env e w)

    ok_or_fail-Ends :
        (r : Result A) (w : World) → ((a : A) → r ≡ ok a → Q a w) → Ends Q (ok_or_fail env.exec r w)
    unfolding ok_or_fail pure
    ok_or_fail-Ends (ok a) w k = ended (k a refl)
    ok_or_fail-Ends (err e) w k = fail-Ends e w

  or_fail-Ends :
      {Q : Unit → World → Type 0} (o : Option Error) (w : World)
      → (o ≡ none → Q tt w)
      → Ends Q (or_fail env.exec o w)
  unfolding or_fail pure
  or_fail-Ends none w k = ended (k refl)
  or_fail-Ends (some e) w k = fail-Ends e w

  run_setter-Ends :
      {Q : Option Error → World → Type 0} (set : Stored → Option Error × Stored) (w : World)
      → Q (set w.stored).0 (record w { stored = (set w.stored).1 })
      → Ends Q (run_setter set w)
  unfolding run_setter call
  run_setter-Ends set w k = ended k

  get_swap-Ends : {Q : Swap → World → Type 0} (w : World) → Q w.stored.swap w → Ends Q (get_swap w)
  unfolding get_swap
  get_swap-Ends w k = ended k

  -- The preimage was stored already, or it hashes to the payment hash of the invoice.
  abbrev pub IsKnown : DecodedInvoice → Swap → String → Type 0
  IsKnown invoice swap preimage =
      (swap.preimage ≡ some preimage) ⊎ ((invoice.payment_hash =ₛ env.peers.sha256 preimage) ≡ true)

  abbrev HasPreimage : DecodedInvoice → World → World → Type 0
  HasPreimage invoice w w' =
      (preimage : String) × IsKnown invoice w.stored.swap preimage
      × (w'.stored.swap ≡ record w.stored.swap { preimage = some preimage })
      × (w'.effects ≡ w.effects)

  fetch_preimage-Ends :
      (invoice : DecodedInvoice) (preimage : String) (w : World)
      → validate_preimage env.peers preimage invoice ≡ none
      → Ends
          (λ x. HasPreimage invoice w)
          ((run_setter (λ s. set_swap_preimage env.exec s preimage) >>= λ e. or_fail env.exec e) w)
  unfolding set_swap_preimage write
  fetch_preimage-Ends invoice preimage w valid = Ends-bind _ _ w (
      run_setter-Ends _ w (
        or_fail-Ends _ _ (λ e.
          (preimage, inr (validate_preimage-none env.peers preimage invoice valid), refl, refl))))

  branch_preimage-Ends :
      (invoice : DecodedInvoice) (w : World) (o : Option String) (m : Handler World Unit)
      → w.stored.swap.preimage ≡ o
      → Ends (λ x. HasPreimage invoice w) (m w)
      → Ends (λ x. HasPreimage invoice w) (branch (is_some o) (pure tt) m w)
  unfolding branch pure
  branch_preimage-Ends invoice w none m e k = k
  branch_preimage-Ends invoice w (some p) m e k =
      ended (p, inl e, ap (λ o. record w.stored.swap { preimage = o }) e, refl)

  ensure_preimage-Ends :
      (invoice : DecodedInvoice) (w : World)
      → Ends (λ x. HasPreimage invoice w) (ensure_preimage env invoice w)
  unfolding ensure_preimage
  ensure_preimage-Ends invoice w = Ends-bind _ _ w (
      get_swap-Ends w (
        branch_preimage-Ends invoice w _ _ refl (
          Ends-bind _ _ w (
            ok_or_fail-Ends _ w (λ preimage e.
              Ends-bind _ _ w
                (or_fail-Ends _ w (λ valid. fetch_preimage-Ends invoice preimage w valid)))))))

  -- The accounts of the completed swap.
  abbrev accounts_fee : DecodedInvoice → Swap → ℤ
  accounts_fee invoice swap =
      calculate_percentage_int64 env.nursery.arith swap.service_fee_percent
        (to_int64 invoice.amount_sat)

  abbrev server_fee : DecodedInvoice → Swap → ℤ
  server_fee invoice swap =
      sub_int64 (sub_int64 (to_int64 swap.expected_amount) (to_int64 invoice.amount_sat))
        (accounts_fee invoice swap)

  abbrev pub completed : DecodedInvoice → Swap → Swap
  completed invoice swap = record swap {
    state = SwapState.successful;
    error = "";
    service_fee = some (accounts_fee invoice swap);
    onchain_fee = add_to_optional swap.onchain_fee (clamp_fee (server_fee invoice swap));
  }

  -- The swap as a completed one, and nothing sent out on the way.
  abbrev pub IsCompleted : World → World → Type 0
  IsCompleted w w' =
      (invoice : DecodedInvoice) × (preimage : String) × (env.peers.decode_invoice
          w.stored.swap.invoice
        ≡ ok invoice)
      × IsKnown invoice w.stored.swap preimage
      × (w'.stored.swap ≡ completed invoice (record w.stored.swap { preimage = some preimage }))
      × (w'.effects ≡ w.effects)

  account-Ends :
      (invoice : DecodedInvoice) (w w' : World)
      → env.peers.decode_invoice w.stored.swap.invoice ≡ ok invoice
      → HasPreimage invoice w w'
      → Ends
          (λ x. IsCompleted w)
          ((get_swap >>= λ swap.
              run_setter (λ s.
                set_swap_service_fee env.exec s
                  (accounts_fee invoice swap)
                  (clamp_fee (server_fee invoice swap)))
              >>= λ e.
                  or_fail env.exec e
                  >> (run_setter (λ s. update_swap_state env.exec s SwapState.successful "")
                      >>= λ e'. or_fail env.exec e'))
            w')
  unfolding set_swap_service_fee update_swap_state write
  account-Ends invoice w w' decoded (preimage, known, same, quiet) = Ends-bind _ _ w' (
      get_swap-Ends w' (
        Ends-bind _ _ w' (
          run_setter-Ends _ w' (
            Ends-bind _ _ _ (
              or_fail-Ends _ _ (λ e. Ends-bind _ _ _ (
                run_setter-Ends _ _ (
                  or_fail-Ends _ _ (λ e'.
                    (invoice, preimage, decoded, known, ap (completed invoice) same, quiet))))))))))

  -- Completing a swap never panics. It stops in the error state, which was reported, or it leaves the
  -- swap successful with a preimage that was stored before or hashes to the payment hash of the decoded
  -- invoice, with the service fee and the onchain fee recorded from the invoice amount and the expected
  -- amount, and nothing else changed or sent.
  pub complete-IsCompleted : (w : World) → Ends (λ x. IsCompleted w) (complete env w)
  unfolding complete
  complete-IsCompleted w = Ends-bind _ _ w (
      get_swap-Ends w (
        Ends-bind _ _ w (
          ok_or_fail-Ends _ w (λ invoice decoded. Ends-bind _ _ w (
            Ends-map (λ x w'. account-Ends invoice w w' decoded)
              (ensure_preimage-Ends invoice w))))))
