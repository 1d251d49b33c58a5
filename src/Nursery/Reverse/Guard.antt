-- ===== src/Nursery/Reverse/Guard.antt =====
-- internal/nursery/reverse.go, `payReverseSwap`: when a payment of the invoice is started.
use lightz_client.Base.{
  ℕ, ◌≡◌, refl, ◌⊎◌, inl, inr, Bool, true, false, Option, none, some, ◌∷◌, Bool-cases,
}
use lightz_client.Lightz.Types.{Error, Result, ok, err}
use lightz_client.Database.ReverseSwap.{Held}
use lightz_client.Nursery.Handler.{
  Out, value, pure, crash, branch, on_result, or_crash, ◌>>=◌, ◌>>◌, Handler,
}
use lightz_client.Nursery.Reverse.World.{
  PaymentState, succeeded, failed, pending, PaymentStatus, Node, ReverseEnv, get_reverse_swap,
}
use lightz_client.Nursery.Reverse.Payment.{
  calculate_fee_limit, is_being_paid, limit_ppm, start_payment, pay_with, pay_on, pay_reverse_swap,
}

module _ (env : ReverseEnv) (h : Held) where
  abbrev payment_of : Node → Result PaymentStatus
  payment_of node = node.payment_status (env.libraries.sha256 h.swap.preimage)

  -- A payment of the swap's invoice was started, and nothing else: the client's node is to pay it, knows
  -- no payment of it but a failed one, and keeps to the fee limit of the invoice and the swap.
  pub record IsStarted (r : Out (Option Error) × Held) : Type 0 where
    pub internal : h.swap.external_pay ≡ false
    pub node : Node
    pub on_node : env.lightning ≡ some node
    pub free : (status : PaymentStatus) → payment_of node ≡ ok status → status.state ≡ failed
    pub limit : ℕ
    pub limit_of :
        calculate_fee_limit env h.swap.invoice
          (limit_ppm env.max_routing_fee_ppm h.swap.routing_fee_limit_ppm)
        ≡ some (ok limit)
    pub result : r ≡ (value none, record h { paid = (h.swap.invoice, limit) ∷ h.paid })

  abbrev pub IsGuarded : Out (Option Error) × Held → Type 0
  IsGuarded r = (r.1 ≡ h) ⊎ IsStarted r

  failed_of :
      (state : PaymentState)
      → (let b : Bool = elim state [ failed ↦ false | _ ↦ true ] in b) ≡ false
      → state ≡ failed
  failed_of succeeded e = cc
  failed_of failed e = refl
  failed_of pending e = cc

  free_of :
      (answer : Result PaymentStatus)
      → is_being_paid answer ≡ false
      → (status : PaymentStatus) → answer ≡ ok status
      → status.state ≡ failed
  free_of (err e) b status a = cc
  free_of (ok s) b status a = let same : s ≡ status = cc in rw (← same) (failed_of s.state b)

  abbrev limit_answer : Option (Result ℕ)
  limit_answer =
      calculate_fee_limit env h.swap.invoice
        (limit_ppm env.max_routing_fee_ppm h.swap.routing_fee_limit_ppm)

  abbrev go_on : Node → Result ℕ → Handler Held (Option Error)
  go_on node answer =
      on_result answer (λ e. pure (some e))
        (λ limit.
          branch (is_being_paid (payment_of node)) (pure none)
            (start_payment h.swap.invoice limit >> pure none))

  module _ (internal : h.swap.external_pay ≡ false) where
    pay_with-cases :
        (node : Node) (answer : Option (Result ℕ))
        → env.lightning ≡ some node
        → limit_answer ≡ answer
        → IsGuarded (or_crash answer (go_on node) h)
    unfolding or_crash crash on_result pure branch start_payment ◌>>=◌
    pay_with-cases node none on same = inl refl
    pay_with-cases node (some (err e)) on same = inl refl
    pay_with-cases node (some (ok limit)) on same =
        elim (Bool-cases (is_being_paid (payment_of node))) [
          | inl paying ↦ rw paying (inl refl)
          | inr free ↦ rw free (
              inr (record {
                internal = internal;
                node = node;
                on_node = on;
                free = free_of (payment_of node) free;
                limit = limit;
                limit_of = same;
                result = refl;
              }))
        ]

    pay_on-cases :
        (node : Option Node) → env.lightning ≡ node → IsGuarded (pay_on env node h.swap h)
    unfolding pay_on pay_with pure
    pay_on-cases none on = inl refl
    pay_on-cases (some node) on = pay_with-cases node limit_answer on refl

  external-cases :
      (external : Bool)
      → h.swap.external_pay ≡ external
      → IsGuarded (branch external (pure none) (pay_on env env.lightning h.swap) h)
  unfolding branch pure
  external-cases true same = inl refl
  external-cases false same = pay_on-cases same env.lightning refl

  -- A payment of the invoice is started only where the client's node is to pay it, knows no payment of
  -- it but a failed one, and the invoice has a fee limit, which the payment keeps to; in every other
  -- case nothing changes.
  pub pay_reverse_swap-IsGuarded : IsGuarded (pay_reverse_swap env h)
  unfolding pay_reverse_swap get_reverse_swap ◌>>=◌
  pay_reverse_swap-IsGuarded = external-cases h.swap.external_pay refl
