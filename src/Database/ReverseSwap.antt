-- ===== src/Database/ReverseSwap.antt =====
-- internal/database/reverse.go: reverse swaps, and their setters: each one changes the record in memory
-- before it runs its UPDATE.
use lightz_client.Base.{ℕ, String, Bool, Option, none, some, List, [], ◌∷◌}
use lightz_client.Base.Int.{ℤ}
use lightz_client.Float.{Float64}
use lightz_client.Lightz.Types.{Pair, SwapState, Error}
use lightz_client.Lightz.Events.{SwapUpdateEvent}
use lightz_client.Database.Optional.{add_to_optional}

-- `database.ReverseSwap`. Keys, trees and byte strings are in the stored form; times are Unix seconds.
pub record ReverseSwap : Type 0 where
  pub id : String
  pub pair : Pair
  pub chan_ids : List ℕ
  pub state : SwapState
  pub error : String
  pub created_at : ℕ
  pub paid_at : ℕ
  pub status : SwapUpdateEvent
  pub accept_zero_conf : Bool
  pub private_key : String
  pub refund_pub_key : String
  pub swap_tree : String
  pub preimage : String
  pub redeem_script : String
  pub invoice : String
  pub claim_address : String
  pub onchain_amount : ℕ
  pub invoice_amount : ℕ
  pub timeout_block_height : ℕ
  pub lockup_transaction_id : String
  pub claim_transaction_id : String
  pub blinding_key : String
  pub is_auto : Bool
  pub routing_fee_msat : Option ℕ
  pub service_fee : Option ℤ
  pub service_fee_percent : Float64
  pub onchain_fee : Option ℕ
  pub external_pay : Bool
  pub wallet_id : Option ℕ
  pub tenant_id : ℕ
  pub routing_fee_limit_ppm : Option ℕ

pub data ReverseUpdate : Type 0 where
  set_state : SwapState → String → ReverseUpdate
  set_status : SwapUpdateEvent → ReverseUpdate
  set_lockup_transaction : String → ReverseUpdate
  set_claim_transaction : String → ℕ → ReverseUpdate
  set_claim_address : String → ReverseUpdate
  set_wallet_id : ℕ → ReverseUpdate
  set_routing_fee : ℕ → ReverseUpdate
  set_service_fee : ℤ → Option ℕ → ReverseUpdate
  set_paid_at : ℕ → ReverseUpdate

unfoldable pub apply_update : ReverseUpdate → ReverseSwap → ReverseSwap
apply_update (set_state state error) s = record s { state = state; error = error }
apply_update (set_status status) s = record s { status = status }
apply_update (set_lockup_transaction tx) s = record s { lockup_transaction_id = tx }
apply_update (set_claim_transaction tx fee) s = record s {
  claim_transaction_id = tx;
  onchain_fee = some fee;
}
apply_update (set_claim_address address) s = record s { claim_address = address }
apply_update (set_wallet_id id) s = record s { wallet_id = some id }
apply_update (set_routing_fee fee) s = record s { routing_fee_msat = some fee }
apply_update (set_service_fee fee onchain) s = record s {
  service_fee = some fee;
  onchain_fee = onchain;
}
apply_update (set_paid_at now) s = record s { paid_at = now }

-- A swap in memory, its row, the updates that were sent about it, and the payments of its invoice that
-- were started, with their fee limits.
pub record Held : Type 0 where
  pub swap : ReverseSwap
  pub row : ReverseSwap
  pub sent : List ReverseSwap
  pub paid : List (String × ℕ)

-- SQLite's answer to a statement: `none` where it succeeds.
abbrev pub ReverseExec : Type 0
ReverseExec = ReverseUpdate → Option Error

-- Statements, up to the first that fails.
unfoldable pub write_all : ReverseExec → List ReverseUpdate → Held → Option Error × Held
unfolding apply_update
write_all exec [] h = (none, h)
write_all exec (u ∷ us) h =
    let changed = record h { swap = apply_update u h.swap } in
    let later = write_all exec us (record changed { row = apply_update u h.row }) in
    elim (exec u) [ some e ↦ (some e, changed) | none ↦ later ]

-- `SetReverseSwapServiceFee`, which writes the fee that the record in memory adds up to.
abbrev pub service_fee_update : ℤ → ℕ → ReverseSwap → ReverseUpdate
service_fee_update fee onchain swap = set_service_fee fee (add_to_optional swap.onchain_fee onchain)
