-- ===== src/Nursery/Reverse/Payment.antt =====
-- internal/nursery/reverse.go, `payReverseSwap`, with `CalculateFeeLimit` of
-- internal/lightning/payment_fee.go: whether the invoice of a reverse swap is paid, and at which fee.
use lightz_client.Base.{ℕ, String, Bool, true, false, max, Option, none, some, [], ◌∷◌}
use lightz_client.Lightz.Types.{SwapState, Error, errorf, Result, ok, err}
use lightz_client.Database.ReverseSwap.{ReverseSwap, set_state, Held, write_all}
use lightz_client.Nursery.Handler.{Handler, value, pure, branch, on_result, or_crash, ◌>>=◌, ◌>>◌}
use lightz_client.Nursery.Direct.{send_reverse_update}
use lightz_client.Nursery.Reverse.World.{failed, PaymentStatus, Node, ReverseEnv, get_reverse_swap}

abbrev min_payment_fee : ℕ
min_payment_fee = 5

-- In sat; `none` is a panic, at an invoice without an amount.
unfoldable pub calculate_fee_limit : ReverseEnv → String → ℕ → Option (Result ℕ)
calculate_fee_limit env invoice ppm = elim (env.libraries.decode_msat invoice) [
  | err e ↦ some (err e)
  | ok none ↦ none
  | ok (some msat) ↦
      let share =
        env.nursery.arith.div (env.nursery.arith.from_uint64 ppm)
          (env.nursery.arith.ratio 1_000_000 1) in
      some (ok (max (env.libraries.mul_f64 (env.libraries.to_sat msat) share) min_payment_fee))
]

-- A payment that the node knows, and that did not fail.
abbrev pub is_being_paid : Result PaymentStatus → Bool
is_being_paid (err e) = false
is_being_paid (ok status) = elim (status.state) [ failed ↦ false | _ ↦ true ]

abbrev pub limit_ppm : ℕ → Option ℕ → ℕ
limit_ppm default none = default
limit_ppm default (some ppm) = ppm

-- The call of `PayInvoice` in a new goroutine.
unfoldable pub start_payment : String → ℕ → Handler Held Unit
start_payment invoice limit h = (value tt, record h { paid = (invoice, limit) ∷ h.paid })

-- The end of the goroutine, where `PayInvoice` fails and the nursery still runs: the swap is read
-- again before it is sent.
unfoldable pub fail_payment : ReverseEnv → Error → Held → Held
fail_payment env e h =
    let (refused, h') = write_all env.exec (set_state SwapState.error e.text ∷ []) h in
    elim refused [ some e' ↦ h' | none ↦ send_reverse_update (record h' { swap = h'.row }) ]

module _ (env : ReverseEnv) where
  open env use {libraries, lightning, max_routing_fee_ppm}

  unfoldable pub pay_with : Node → ReverseSwap → Handler Held (Option Error)
  pay_with node swap =
      or_crash
        (calculate_fee_limit env swap.invoice
          (limit_ppm max_routing_fee_ppm swap.routing_fee_limit_ppm))
        (λ answer.
          on_result answer (λ e. pure (some e))
            (λ limit.
              branch (is_being_paid (node.payment_status (libraries.sha256 swap.preimage)))
                (pure none) (start_payment swap.invoice limit >> pure none)))

  unfoldable pub pay_on : Option Node → ReverseSwap → Handler Held (Option Error)
  pay_on none swap = pure (some (errorf "no lightning node available to pay invoice"))
  pay_on (some node) swap = pay_with node swap

  -- The result is the function's error.
  unfoldable pub pay_reverse_swap : Handler Held (Option Error)
  pay_reverse_swap = do
    swap ← get_reverse_swap
    branch swap.external_pay (pure none) (pay_on lightning swap)
