-- ===== src/Nursery/Direct/ZeroConf.antt =====
-- When a direct payment settles a reverse swap.
use lightz_client.Base.{
  Memᴰ, ◌≡◌, refl, ap, ◌⊎◌, inl, inr, ◌∙◌, sym, Bool, true, false, String, Option, none, some, List,
  [], ◌∷◌, arith, Bool-cases,
}
use lightz_client.Lightz.Types.{SwapState, Error, ErrorKind, Result, ok, err}
use lightz_client.Lightz.Events.{transaction_direct_mempool}
use lightz_client.Lightz.Fees.{FeeEstimations}
use lightz_client.Onchain.Chain.{Output, is_transaction_confirmed}
use lightz_client.Database.ReverseSwap.{
  ReverseUpdate, set_state, set_status, ReverseSwap, apply_update, Held, write_all,
}
use lightz_client.Nursery.Direct.{
  send_reverse_update, on_failed_check, DirectEnv, compare_values, pays_too_little, is_foreign,
  consider, choose_from, choose_direct_output, must_confirm, pay, wait, on_confirmed, settle_direct,
  on_chosen, in_transaction, end_transaction, run_tx, report_direct, get_fee_estimations,
  handle_direct_payments,
}

module _ (env : DirectEnv) where
  -- The output claims no other swap, and it pays the swap's amount or one that passes the fee check.
  abbrev pub IsPayment : ReverseSwap → FeeEstimations → Output → Type 0
  IsPayment swap rates output =
      ((claim : Option String) × (env.claimed_by output.tx_id ≡ ok claim)
        × (is_foreign env swap claim ≡ false))
      × (pays_too_little env swap rates output ≡ false)

  -- The transaction need not be confirmed, it is, or the provider can not tell.
  abbrev pub IsReliable : ReverseSwap → Output → Type 0
  IsReliable swap output =
      (must_confirm env swap.pair output ≡ false)
      ⊎ ((is_transaction_confirmed env.onchain swap.pair.to output.tx_id true ≡ ok true)
          ⊎ ((e : Error) × (is_transaction_confirmed env.onchain swap.pair.to output.tx_id true
                ≡ err e)
              × (e.kind ≡ ErrorKind.unsupported)))

  -- The output settles the swap.
  abbrev pub Settles : ReverseSwap → Output → Type 0
  Settles swap output =
      (rates : FeeEstimations) × (get_fee_estimations env swap.pair ≡ ok rates)
      × IsPayment swap rates output
      × IsReliable swap output

  -- `slices.SortFunc` adds no element.
  abbrev pub SortLaw : Type 0
  SortLaw =
      (outputs : List Output) (o : Output)
      → Memᴰ o (env.sort_func compare_values outputs)
      → Memᴰ o outputs

  -- The chosen output is one of the outputs, and a payment.
  abbrev ChosenOk : ReverseSwap → FeeEstimations → List Output → Result (Option Output) → Type 0
  ChosenOk swap rates os (err e) = Unit
  ChosenOk swap rates os (ok none) = Unit
  ChosenOk swap rates os (ok (some output)) = Memᴰ output os × IsPayment swap rates output

  ChosenOk-later :
      (swap : ReverseSwap) (rates : FeeEstimations) (o : Output) (os : List Output)
      (r : Result (Option Output))
      → ChosenOk swap rates os r
      → ChosenOk swap rates (o ∷ os) r
  ChosenOk-later swap rates o os (err e) h = tt
  ChosenOk-later swap rates o os (ok none) h = tt
  ChosenOk-later swap rates o os (ok (some output)) (m, h) = (Memᴰ.tail m, h)

  consider-Ok :
      (swap : ReverseSwap) (rates : FeeEstimations) (output : Output) (os : List Output)
      (claim : Result (Option String)) (rest : Result (Option Output))
      → env.claimed_by output.tx_id ≡ claim
      → ChosenOk swap rates os rest
      → ChosenOk swap rates (output ∷ os) (consider env swap rates output claim rest)
  unfolding consider
  consider-Ok swap rates output os (err e) rest same h = tt
  consider-Ok swap rates output os (ok claim) rest same h =
      elim (Bool-cases (is_foreign env swap claim)) [
        | inl foreign ↦ rw foreign (ChosenOk-later swap rates output os rest h)
        | inr own ↦ elim (Bool-cases (pays_too_little env swap rates output)) [
          | inl little ↦ rw (own, little) (ChosenOk-later swap rates output os rest h)
          | inr enough ↦ rw (own, enough) (Memᴰ.head refl, ((claim, same, own), enough))
        ]
      ]

  choose_from-Ok :
      (swap : ReverseSwap) (rates : FeeEstimations) (outputs : List Output)
      → ChosenOk swap rates outputs (choose_from env swap rates outputs)
  unfolding choose_from
  choose_from-Ok swap rates [] = tt
  choose_from-Ok swap rates (o ∷ os) =
      consider-Ok swap rates o os (env.claimed_by o.tx_id) _ refl (choose_from-Ok swap rates os)

  -- What the steps of direct payments to the swap of `h` keep.
  pub record IsClosed (h : Held) (outputs : List Output) (Q : Held → Type 0) : Type 0 where
    pub on_error :
        (text : String) (w : Held)
        → Q w
        → Q (write_all env.exec (set_state SwapState.error text ∷ []) w).1
    pub on_wait : (w : Held) → Q w → Q (wait env w).1
    pub on_pay :
        (output : Output)
        → Memᴰ output outputs
        → Settles h.swap output
        → (w : Held) → Q w
        → Q (pay env output w).1
    pub on_rollback : (w : Held) → Q w → Q (record w { row = h.row })
    pub on_send : (w : Held) → Q w → Q (send_reverse_update w)

  module _ {h : Held} {outputs : List Output} {Q : Held → Type 0} (sorts : SortLaw)
      (k : IsClosed h outputs Q) (q : Q h) where
    on_failed_check-keeps :
        (e : Error) (kind : ErrorKind) (output : Output)
        → Memᴰ output outputs
        → (kind ≡ ErrorKind.unsupported → Settles h.swap output)
        → Q (on_failed_check env e kind output h).1
    on_failed_check-keeps e ErrorKind.unsupported output m s = k.on_pay output m (s refl) h q
    on_failed_check-keeps e ErrorKind.plain output m s = q
    on_failed_check-keeps e ErrorKind.api output m s = q

    on_confirmed-keeps :
        (r : Result Bool) (output : Output)
        → is_transaction_confirmed env.onchain h.swap.pair.to output.tx_id true ≡ r
        → Memᴰ output outputs
        → (IsReliable h.swap output → Settles h.swap output)
        → Q (on_confirmed env r output h).1
    unfolding on_confirmed
    on_confirmed-keeps (ok true) output same m s = k.on_pay output m (s (inr (inl same))) h q
    on_confirmed-keeps (ok false) output same m s = k.on_wait h q
    on_confirmed-keeps (err e) output same m s =
        on_failed_check-keeps e e.kind output m (λ u. s (inr (inr (e, same, u))))

    settle_direct-keeps :
        (b : Bool) (output : Output)
        → must_confirm env h.swap.pair output ≡ b
        → Memᴰ output outputs
        → (IsReliable h.swap output → Settles h.swap output)
        → Q (settle_direct env b output h).1
    unfolding settle_direct
    settle_direct-keeps false output same m s = k.on_pay output m (s (inl same)) h q
    settle_direct-keeps true output same m s = on_confirmed-keeps _ output refl m s

    on_chosen-keeps :
        (r : Result (Option Output)) (rates : FeeEstimations)
        → get_fee_estimations env h.swap.pair ≡ ok rates
        → ChosenOk h.swap rates (env.sort_func compare_values outputs) r
        → Q (on_chosen env r h).1
    unfolding on_chosen
    on_chosen-keeps (err e) rates known chosen = q
    on_chosen-keeps (ok none) rates known chosen = q
    on_chosen-keeps (ok (some output)) rates known (m, chosen) =
        settle_direct-keeps _ output refl (sorts outputs output m)
          (λ reliable. (rates, known, chosen, reliable))

    in_transaction-keeps :
        (r : Result FeeEstimations)
        → get_fee_estimations env h.swap.pair ≡ r
        → Q (in_transaction env r outputs h).1
    unfolding in_transaction choose_direct_output
    in_transaction-keeps (err e) same = q
    in_transaction-keeps (ok rates) same =
        on_chosen-keeps _ rates same (choose_from-Ok h.swap rates _)

    end_transaction-keeps :
        (commit : Option Error) (r : Option Error × Held)
        → Q r.1
        → Q (end_transaction env commit h.row r).1
    unfolding end_transaction
    end_transaction-keeps commit (some e, w) s = k.on_rollback w s
    end_transaction-keeps none (none, w) s = s
    end_transaction-keeps (some e) (none, w) s = k.on_rollback w s

    run_tx-keeps :
        (begin : Option Error) (run : Held → Option Error × Held)
        → Q (run h).1
        → Q (run_tx env begin run h).1
    unfolding run_tx
    run_tx-keeps (some e) run s = q
    run_tx-keeps none run s = end_transaction-keeps env.commit (run h) s

    report_direct-keeps : (r : Option Error × Held) → Q r.1 → Q (report_direct env r)
    unfolding report_direct
    report_direct-keeps (none, w) s = k.on_send w s
    report_direct-keeps (some e, w) s = k.on_send _ (k.on_error e.text w s)

    pub handle_direct_payments-keeps : Q (handle_direct_payments env outputs h)
    unfolding handle_direct_payments
    handle_direct_payments-keeps =
        report_direct-keeps _ (run_tx-keeps env.begin _ (in_transaction-keeps _ refl))

  -- Successful only if it was, or one of the outputs settles it and is recorded as its claim.
  abbrev IsRight : Held → List Output → Held → Type 0
  IsRight h outputs w =
      w.swap.state ≡ SwapState.successful
      → (h.swap.state ≡ SwapState.successful)
        ⊎ ((output : Output) × Memᴰ output outputs
            × Settles h.swap output
            × (w.swap.claim_transaction_id ≡ output.tx_id))

  write_one :
      (u : ReverseUpdate) (h : Held)
      → (write_all env.exec (u ∷ []) h).1.swap ≡ apply_update u h.swap
  unfolding write_all apply_update
  write_one u h = ground arith

  pay-claim :
      (output : Output) (h : Held) → (pay env output h).1.swap.claim_transaction_id ≡ output.tx_id
  unfolding pay write_all apply_update
  pay-claim output h = ground arith

  IsRight-IsClosed : (h : Held) (outputs : List Output) → IsClosed h outputs (IsRight h outputs)
  unfolding wait apply_update
  IsRight-IsClosed h outputs = record {
    on_error = λ text w k s.
        let failed =
          ap (λ (x : ReverseSwap). x.state) (write_one (set_state SwapState.error text) w) in
        cc;
    on_wait = λ w k s.
        let same = write_one (set_status transaction_direct_mempool) w in
        let settled = k (sym (ap (λ (x : ReverseSwap). x.state) same) ∙ s) in
        rw (ap (λ (x : ReverseSwap). x.claim_transaction_id) same) settled;
    on_pay = λ output m settles w k s. inr (output, m, settles, pay-claim output w);
    on_rollback = λ w k. k;
    on_send = λ w k. k;
  }

  -- With a sort that adds no element, where direct payments leave a reverse swap successful that was
  -- not, its claim transaction is that of one of the payments, which claims no other swap, pays the
  -- amount of the swap or one that passes the fee check at the current rates, and is confirmed, unless
  -- it is not on bitcoin and at most the zero-conf limit or the provider can not tell.
  pub handle_direct_payments-IsSettled :
      (outputs : List Output) (h : Held)
      → SortLaw
      → (handle_direct_payments env outputs h).swap.state ≡ SwapState.successful
      → (h.swap.state ≡ SwapState.successful)
        ⊎ ((output : Output) × Memᴰ output outputs
            × Settles h.swap output
            × ((handle_direct_payments env outputs h).swap.claim_transaction_id ≡ output.tx_id))
  handle_direct_payments-IsSettled outputs h sorts =
      handle_direct_payments-keeps sorts (IsRight-IsClosed h outputs) (λ s. inl s)
