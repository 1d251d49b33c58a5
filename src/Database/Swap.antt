-- ===== src/Database/Swap.antt =====
-- internal/database/swap.go: submarine swaps. A setter changes the record in memory and then runs an
-- UPDATE on the swap's row, which SQLite may refuse.
pub mod Sync
use lightz_client.Base.{ℕ, String, Bool, Option, none, some, List}
use lightz_client.Base.Int.{ℤ}
use lightz_client.Float.{Float64}
use lightz_client.Lightz.Types.{Pair, SwapState, Error}
use lightz_client.Lightz.Events.{SwapUpdateEvent}
use lightz_client.Database.Optional.{add_to_optional}

-- `database.Swap`. Keys, trees and byte strings are in the stored form; times are Unix seconds.
pub record Swap : Type 0 where
  pub id : String
  pub pair : Pair
  pub chan_ids : List ℕ
  pub state : SwapState
  pub created_at : ℕ
  pub error : String
  pub status : SwapUpdateEvent
  pub private_key : String
  pub swap_tree : String
  pub claim_pub_key : String
  pub preimage : Option String
  pub redeem_script : String
  pub invoice : String
  pub payment_hash : String
  pub address : String
  pub expected_amount : ℕ
  pub timeout_block_height : ℕ
  pub lockup_transaction_id : String
  pub refund_transaction_id : String
  pub refund_address : String
  pub blinding_key : String
  pub is_auto : Bool
  pub service_fee : Option ℤ
  pub service_fee_percent : Float64
  pub onchain_fee : Option ℕ
  pub wallet_id : Option ℕ
  pub tenant_id : ℕ

-- The UPDATE statements of the setters.
pub data Update : Type 0 where
  set_state : SwapState → String → Update
  set_status : SwapUpdateEvent → Update
  set_invoice : String → Update
  set_preimage : String → Update
  set_lockup_transaction_id : String → Update
  set_expected_amount : ℕ → Update
  set_refund : SwapState → String → Option ℕ → Update
  set_refund_address : String → Update
  set_wallet_id : ℕ → Update
  set_onchain_fee : Option ℕ → Update
  set_service_fee : ℤ → Option ℕ → Update

-- What a statement does to the row.
unfoldable pub run_update : Update → Swap → Swap
run_update (set_state state error) r = record r { state = state; error = error }
run_update (set_status status) r = record r { status = status }
run_update (set_invoice invoice) r = record r { invoice = invoice }
run_update (set_preimage preimage) r = record r { preimage = some preimage }
run_update (set_lockup_transaction_id tx) r = record r { lockup_transaction_id = tx }
run_update (set_expected_amount amount) r = record r { expected_amount = amount }
run_update (set_refund state tx fee) r = record r {
  state = state;
  refund_transaction_id = tx;
  onchain_fee = fee;
}
run_update (set_refund_address address) r = record r { refund_address = address }
run_update (set_wallet_id id) r = record r { wallet_id = some id }
run_update (set_onchain_fee fee) r = record r { onchain_fee = fee }
run_update (set_service_fee fee onchain) r = record r {
  service_fee = some fee;
  onchain_fee = onchain;
}

-- A swap in memory, and its row.
pub record Stored : Type 0 where
  pub swap : Swap
  pub row : Swap

-- SQLite's answer to a statement: `none` where it succeeds.
abbrev pub Exec : Type 0
Exec = Update → Option Error

abbrev run_row : Option Error → Update → Swap → Swap
run_row none u r = run_update u r
run_row (some e) u r = r

-- A setter writes the record in memory before it runs the statement.
unfoldable pub write : Exec → Update → Swap → Stored → Option Error × Stored
unfolding run_update
write exec u swap s = (exec u, record { swap = swap; row = run_row (exec u) u s.row })

module _ (exec : Exec) (s : Stored) where
  unfoldable pub update_swap_state : SwapState → String → Option Error × Stored
  unfolding write
  update_swap_state state error =
      write exec (set_state state error) (record s.swap { state = state; error = error }) s

  unfoldable pub update_swap_status : SwapUpdateEvent → Option Error × Stored
  unfolding write
  update_swap_status status = write exec (set_status status) (record s.swap { status = status }) s

  unfoldable pub set_swap_invoice : String → Option Error × Stored
  unfolding write
  set_swap_invoice invoice =
      write exec (set_invoice invoice) (record s.swap { invoice = invoice }) s

  unfoldable pub set_swap_preimage : String → Option Error × Stored
  unfolding write
  set_swap_preimage preimage =
      write exec (set_preimage preimage) (record s.swap { preimage = some preimage }) s

  unfoldable pub set_swap_lockup_transaction_id : String → Option Error × Stored
  unfolding write
  set_swap_lockup_transaction_id tx =
      write exec (set_lockup_transaction_id tx) (record s.swap { lockup_transaction_id = tx }) s

  unfoldable pub set_swap_expected_amount : ℕ → Option Error × Stored
  unfolding write
  set_swap_expected_amount amount =
      write exec (set_expected_amount amount) (record s.swap { expected_amount = amount }) s

  unfoldable pub set_swap_refund_transaction_id : String → ℕ → Option Error × Stored
  unfolding write add_to_optional
  set_swap_refund_transaction_id tx fee =
      let onchain_fee = add_to_optional s.swap.onchain_fee fee in
      write exec (set_refund SwapState.refunded tx onchain_fee)
        (record s.swap {
          state = SwapState.refunded;
          refund_transaction_id = tx;
          onchain_fee = onchain_fee;
        })
        s

  unfoldable pub set_swap_refund_address : String → Option Error × Stored
  unfolding write
  set_swap_refund_address address =
      write exec (set_refund_address address) (record s.swap { refund_address = address }) s

  unfoldable pub set_swap_refund_wallet : ℕ → Option Error × Stored
  unfolding write
  set_swap_refund_wallet id =
      write exec (set_wallet_id id) (record s.swap { wallet_id = some id }) s

  unfoldable pub set_swap_onchain_fee : ℕ → Option Error × Stored
  unfolding write
  set_swap_onchain_fee fee =
      write exec (set_onchain_fee (some fee)) (record s.swap { onchain_fee = some fee }) s

  unfoldable pub set_swap_service_fee : ℤ → ℕ → Option Error × Stored
  unfolding write add_to_optional
  set_swap_service_fee service_fee fee =
      let onchain_fee = add_to_optional s.swap.onchain_fee fee in
      write exec (set_service_fee service_fee onchain_fee)
        (record s.swap { service_fee = some service_fee; onchain_fee = onchain_fee }) s
