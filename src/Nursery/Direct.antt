-- ===== src/Nursery/Direct.antt =====
-- internal/nursery/reverse.go: a payment that goes straight to the claim address of a reverse swap
-- (`chooseDirectOutput`, `handleReverseSwapDirectPayments`), with `RunTx` of internal/database/database.go
-- and the setters of internal/database/reverse.go. Of a reverse swap only what they use is kept.
pub mod ZeroConf
use lightz_client.Base.{
  ℕ, String, Bool, true, false, not, ◌==◌, ◌=ₛ◌, ◌&&◌, ◌||◌, if◌then◌else◌, ltb, Option, none, some,
  List, [], ◌∷◌,
}
use lightz_client.Base.Int.{ℤ, pos, negsuc}
use lightz_client.Float.{Float64, Arith}
use lightz_client.Lightz.Types.{
  Currency, eq_currency, Pair, SwapType, SwapState, Error, ErrorKind, errorf, Result, ok, err,
}
use lightz_client.Lightz.Events.{SwapUpdateEvent, transaction_direct, transaction_direct_mempool}
use lightz_client.Database.ReverseSwap.{
  ReverseSwap, set_state, set_status, set_claim_transaction, set_paid_at, Held, ReverseExec,
  write_all,
}
use lightz_client.Lightz.Fees.{FeeEstimations, FeeError, check_amounts}
use lightz_client.Onchain.Chain.{Onchain, Output, estimate_fee, is_transaction_confirmed}

-- `claimed_by` is the id of the reverse swap with a claim transaction, if there is one; `begin` and
-- `commit` are SQLite's answers, and `sort_func` is `slices.SortFunc`.
pub record DirectEnv : Type 0 where
  pub arith : Arith
  pub onchain : Onchain
  pub max_zero_conf : ℕ
  pub now : ℕ
  pub claimed_by : String → Result (Option String)
  pub sort_func : (Output → Output → ℤ) → List Output → List Output
  pub begin : Option Error
  pub commit : Option Error
  pub exec : ReverseExec

abbrev pub compare_values : Output → Output → ℤ
compare_values a b =
    if ltb a.value b.value then negsuc 0 else (if a.value == b.value then pos 0 else pos 1)

-- `sendReverseSwapUpdate`: its `IsFinal` is a function of the state of the swap that it sends.
abbrev pub send_reverse_update : Held → Held
send_reverse_update h = record h { sent = h.swap ∷ h.sent }

module _ (env : DirectEnv) where
  abbrev rates_of : Currency → Result Float64 → Result FeeEstimations
  rates_of currency (err e) = err e
  rates_of currency (ok rate) = ok (λ c. if eq_currency c currency then some rate else none)

  -- `GetFeeEstimations` of a reverse swap, which needs the rate of one chain.
  unfoldable pub get_fee_estimations : Pair → Result FeeEstimations
  get_fee_estimations pair = rates_of pair.to (estimate_fee env.arith env.onchain pair.to)

  abbrev pub amounts_error : ReverseSwap → FeeEstimations → Output → Option FeeError
  amounts_error swap rates output =
      check_amounts env.arith SwapType.reverse swap.pair swap.invoice_amount output.value
        swap.service_fee_percent rates true

  abbrev fails : Option FeeError → Bool
  fails none = false
  fails (some e) = true

  abbrev pub pays_too_little : ReverseSwap → FeeEstimations → Output → Bool
  pays_too_little swap rates output =
      ltb output.value swap.onchain_amount && fails (amounts_error swap rates output)

  abbrev pub is_foreign : ReverseSwap → Option String → Bool
  is_foreign swap none = false
  is_foreign swap (some id) = not (id =ₛ swap.id)

  -- One round of the loop of `chooseDirectOutput`; `rest` is what the later rounds give.
  unfoldable pub consider :
      ReverseSwap
      → FeeEstimations
      → Output
      → Result (Option String)
      → Result (Option Output)
      → Result (Option Output)
  consider swap rates output (err e) rest = err e
  consider swap rates output (ok claim) rest =
      if is_foreign swap claim || pays_too_little swap rates output then rest else ok (some output)

  unfoldable pub choose_from : ReverseSwap → FeeEstimations → List Output → Result (Option Output)
  unfolding consider
  choose_from swap rates [] = ok none
  choose_from swap rates (o ∷ os) =
      consider swap rates o (env.claimed_by o.tx_id) (choose_from swap rates os)

  unfoldable pub choose_direct_output :
      ReverseSwap → FeeEstimations → List Output → Result (Option Output)
  unfolding choose_from
  choose_direct_output swap rates outputs =
      choose_from swap rates (env.sort_func compare_values outputs)

  -- Whether the transaction may be relied on: bitcoin and large outputs have to be confirmed, where
  -- the chain's provider can tell.
  abbrev pub must_confirm : Pair → Output → Bool
  must_confirm pair output = eq_currency pair.to Currency.btc || ltb env.max_zero_conf output.value

  unfoldable pub pay : Output → Held → Option Error × Held
  unfolding write_all
  pay output h =
      write_all env.exec
        (set_claim_transaction output.tx_id 0
          ∷ set_paid_at env.now
          ∷ set_state SwapState.successful ""
          ∷ set_status transaction_direct
          ∷ [])
        h

  unfoldable pub wait : Held → Option Error × Held
  unfolding write_all
  wait h = write_all env.exec (set_status transaction_direct_mempool ∷ []) h

  abbrev pub on_failed_check : Error → ErrorKind → Output → Held → Option Error × Held
  on_failed_check e ErrorKind.unsupported output h = pay output h
  on_failed_check e _ output h = (some e, h)

  unfoldable pub on_confirmed : Result Bool → Output → Held → Option Error × Held
  unfolding pay wait
  on_confirmed (ok true) output h = pay output h
  on_confirmed (ok false) output h = wait h
  on_confirmed (err e) output h = on_failed_check e e.kind output h

  unfoldable pub settle_direct : Bool → Output → Held → Option Error × Held
  unfolding on_confirmed
  settle_direct false output h = pay output h
  settle_direct true output h =
      on_confirmed (is_transaction_confirmed env.onchain h.swap.pair.to output.tx_id true) output h

  unfoldable pub on_chosen : Result (Option Output) → Held → Option Error × Held
  unfolding settle_direct
  on_chosen (err e) h = (some e, h)
  on_chosen (ok none) h = (none, h)
  on_chosen (ok (some output)) h = settle_direct (must_confirm h.swap.pair output) output h

  -- The function that runs in the transaction.
  unfoldable pub in_transaction : Result FeeEstimations → List Output → Held → Option Error × Held
  unfolding choose_direct_output on_chosen
  in_transaction (err e) outputs h = (some (errorf "get fee estimations"), h)
  in_transaction (ok rates) outputs h = on_chosen (choose_direct_output h.swap rates outputs) h

  -- `RunTx`, behind a begun transaction: an error takes the row back, but not the record in memory.
  unfoldable pub end_transaction :
      Option Error → ReverseSwap → Option Error × Held → Option Error × Held
  end_transaction commit row (some e, h) = (some e, record h { row = row })
  end_transaction none row (none, h) = (none, h)
  end_transaction (some e) row (none, h) = (some e, record h { row = row })

  unfoldable pub run_tx : Option Error → (Held → Option Error × Held) → Held → Option Error × Held
  unfolding end_transaction
  run_tx (some e) run h = (some e, h)
  run_tx none run h = end_transaction env.commit h.row (run h)

  unfoldable pub report_direct : Option Error × Held → Held
  unfolding write_all
  report_direct (none, h) = send_reverse_update h
  report_direct (some e, h) =
      send_reverse_update (write_all env.exec (set_state SwapState.error e.text ∷ []) h).1

  unfoldable pub handle_direct_payments : List Output → Held → Held
  unfolding get_fee_estimations in_transaction run_tx report_direct
  handle_direct_payments outputs h =
      report_direct (run_tx env.begin (in_transaction (get_fee_estimations h.swap.pair) outputs) h)
