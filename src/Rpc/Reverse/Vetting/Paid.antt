-- ===== src/Rpc/Reverse/Vetting/Paid.antt =====
-- A reverse swap whose checks pass is paid, where the client's node can pay.
use lightz_client.Base.{ℕ, ◌≡◌, false, some}
use lightz_client.Lightz.Types.{ok}
use lightz_client.Lightz.SwapTree.{SwapTree}
use lightz_client.Database.ReverseSwap.{ReverseSwap}
use lightz_client.Nursery.Handler.{◌>>=◌}
use lightz_client.Nursery.Reverse.World.{ReverseEnv, Node}
use lightz_client.Nursery.Reverse.Payment.{calculate_fee_limit, is_being_paid, limit_ppm}
use lightz_client.Rpc.Request.{◌>>=◌ as ◌>>>=◌}

-- The client is to pay, its node knows no payment of the invoice but a failed one, and the invoice has a
-- fee limit.
pub record CanPay (env : ReverseEnv) (s : ReverseSwap) (node : Node) (limit : ℕ) : Type 0 where
  pub internal : s.external_pay ≡ false
  pub on_node : env.lightning ≡ some node
  pub free : is_being_paid (node.payment_status (env.libraries.sha256 s.preimage)) ≡ false
  pub limit_of :
      calculate_fee_limit env s.invoice (limit_ppm env.max_routing_fee_ppm s.routing_fee_limit_ppm)
      ≡ some (ok limit)
