-- ===== src/Nursery/Refunds/Rules.antt =====
-- A refund keeps what the callbacks of its outputs keep.
use lightz_client.Base.{ℕ, Bool, true, false, if◌then◌else◌, List, [], ◌∷◌, map, All}
use lightz_client.Lightz.Types.{Currency}
use lightz_client.Nursery.Handler.Rules.{Obeys, Obeys-pure, Obeys-on_result}
use lightz_client.Nursery.Transactions.{Output, Env}
use lightz_client.Nursery.Transactions.Failures.{Keeps, create_transaction-Steady}
use lightz_client.Nursery.Refunds.{
  can_refund, refundable_outputs, set_cooperative, create_refund, refund_swaps,
}

module _ {W : Type 0} (P : W → Type 0) where
  kept-All :
      (b : Bool) (o : Output W) (os : List (Output W))
      → Keeps P o
      → All (Keeps P) os
      → All (Keeps P) (if b then o ∷ os else os)
  kept-All true o os k ks = (k, ks)
  kept-All false o os k ks = ks

  refundable_outputs-All :
      (os : List (Output W)) → All (Keeps P) os → All (Keeps P) (refundable_outputs os)
  unfolding refundable_outputs
  refundable_outputs-All [] ks = tt
  refundable_outputs-All (o ∷ os) (k, ks) =
      kept-All (can_refund o) o (refundable_outputs os) k (refundable_outputs-All os ks)

  set_cooperative-All :
      (height : ℕ) (os : List (Output W))
      → All (Keeps P) os
      → All (Keeps P) (map (set_cooperative height) os)
  set_cooperative-All height [] ks = tt
  set_cooperative-All height (o ∷ os) (k, ks) = (
    record { on_transaction = k.on_transaction; on_error = k.on_error },
    set_cooperative-All height os ks,
  )

  create_refund-Steady :
      (env : Env) (currency : Currency) (os : List (Output W))
      → All (Keeps P) os
      → Obeys P (λ w. ⊥) (create_refund env currency os)
  unfolding create_refund
  create_refund-Steady env currency [] ks = Obeys-pure _
  create_refund-Steady env currency (o ∷ os) ks =
      create_transaction-Steady env P currency (o ∷ os) ks

  pub refund_swaps-Steady :
      (env : Env) (currency : Currency) (os : List (Output W))
      → All (Keeps P) os
      → Obeys P (λ w. ⊥) (refund_swaps env currency os)
  unfolding refund_swaps
  refund_swaps-Steady env currency os ks =
      Obeys-on_result _ _ _ (λ e. Obeys-pure _)
        (λ height e.
          create_refund-Steady env currency _
            (set_cooperative-All height _ (refundable_outputs-All os ks)))
