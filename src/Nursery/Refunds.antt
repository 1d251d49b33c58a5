-- ===== src/Nursery/Refunds.antt =====
-- internal/nursery/listener.go, `RefundSwaps`.
pub mod Rules
use lightz_client.Base.{
  ℕ, String, Bool, ltb, ◌=ₛ◌, if◌then◌else◌, not, ◌&&◌, is_some, Option, none, some, List, [], ◌∷◌,
  map,
}
use lightz_client.Lightz.Types.{Currency, Error}
use lightz_client.Onchain.Chain.{get_block_height}
use lightz_client.Nursery.Handler.{Handler, pure, on_result}
use lightz_client.Nursery.Transactions.{Output, Env, create_transaction}

-- A swap with neither a refund address nor a wallet has to be refunded by hand.
abbrev pub can_refund : {W : Type 0} → Output W → Bool
can_refund o = not (o.details.address =ₛ "" && not (is_some o.wallet_id))

unfoldable pub refundable_outputs : {W : Type 0} → List (Output W) → List (Output W)
refundable_outputs [] = []
refundable_outputs (o ∷ os) =
    let rest = refundable_outputs os in if can_refund o then o ∷ rest else rest

-- Before the timeout a refund needs the server's signature, from then on it does not.
abbrev pub set_cooperative : {W : Type 0} → ℕ → Output W → Output W
set_cooperative height o = record o {
  details = record o.details { cooperative = ltb height o.details.timeout_block_height };
}

unfoldable pub create_refund :
    {W : Type 0} → Env → Currency → List (Output W) → Handler W (String × Option Error)
create_refund env currency [] = pure ("", none)
create_refund env currency (o ∷ os) = create_transaction env currency (o ∷ os)

-- `candidates` are the outputs that `getRefundOutput` and `getChainSwapRefundOutput` give.
unfoldable pub refund_swaps :
    {W : Type 0} → Env → Currency → List (Output W) → Handler W (String × Option Error)
refund_swaps env currency candidates =
    on_result ((get_block_height env.onchain currency).0) (λ e. pure ("", some e))
      (λ height.
        create_refund env currency (map (set_cooperative height) (refundable_outputs candidates)))
