-- ===== src/Database/ChainSwap.antt =====
-- internal/database/chain.go: chain swaps. A swap holds the data of its two chains, and a setter
-- changes the record in memory before it runs an UPDATE, on the row of the swap or on the row of the
-- data that has its currency.
pub mod Located
use lightz_client.Base.{ℕ, String, Bool, if◌then◌else◌, Option, none, some}
use lightz_client.Base.Int.{ℤ}
use lightz_client.Float.{Float64}
use lightz_client.Lightz.Types.{Currency, eq_currency, Pair, SwapState, Error}
use lightz_client.Lightz.Events.{SwapUpdateEvent}
use lightz_client.Database.Optional.{add_to_optional}

-- `database.ChainSwapData`: keys and trees are in the stored form.
pub record ChainSwapData : Type 0 where
  pub id : String
  pub currency : Currency
  pub private_key : String
  pub their_public_key : String
  pub blinding_key : String
  pub tree : String
  pub amount : ℕ
  pub timeout_block_height : ℕ
  pub lockup_transaction_id : String
  pub transaction_id : String
  pub refund_transaction_id : String
  pub wallet_id : Option ℕ
  pub address : String
  pub lockup_address : String

-- `database.ChainSwap`.
pub record ChainSwap : Type 0 where
  pub id : String
  pub pair : Pair
  pub state : SwapState
  pub error : String
  pub status : SwapUpdateEvent
  pub accept_zero_conf : Bool
  pub preimage : String
  pub is_auto : Bool
  pub service_fee : Option ℤ
  pub service_fee_percent : Float64
  pub onchain_fee : Option ℕ
  pub created_at : ℕ
  pub tenant_id : ℕ
  pub from_data : ChainSwapData
  pub to_data : ChainSwapData

-- The two pointers to data that a swap has.
pub data Side : Type 0 where
  from_side to_side : Side

abbrev pub data_of : Side → ChainSwap → ChainSwapData
data_of Side.from_side swap = swap.from_data
data_of Side.to_side swap = swap.to_data

pub data DataUpdate : Type 0 where
  set_lockup_transaction_id : String → DataUpdate
  set_address : String → DataUpdate
  set_wallet : ℕ → DataUpdate
  set_amount : ℕ → DataUpdate
  set_transaction_id : String → DataUpdate

pub data ChainUpdate : Type 0 where
  set_state : SwapState → String → ChainUpdate
  set_status : SwapUpdateEvent → ChainUpdate
  set_onchain_fee : Option ℕ → ChainUpdate
  set_service_fee : ℤ → ChainUpdate
  on_data : Currency → DataUpdate → ChainUpdate

unfoldable pub apply_data : DataUpdate → ChainSwapData → ChainSwapData
apply_data (set_lockup_transaction_id tx) d = record d { lockup_transaction_id = tx }
apply_data (set_address a) d = record d { address = a }
apply_data (set_wallet id) d = record d { wallet_id = some id }
apply_data (set_amount n) d = record d { amount = n }
apply_data (set_transaction_id tx) d = record d { transaction_id = tx }

-- `WHERE id = ? AND currency = ?`
abbrev pub apply_where : Currency → DataUpdate → ChainSwapData → ChainSwapData
apply_where c u d = if eq_currency d.currency c then apply_data u d else d

-- What a statement does to the rows of the swap.
unfoldable pub run_chain_update : ChainUpdate → ChainSwap → ChainSwap
unfolding apply_data
run_chain_update (set_state state error) r = record r { state = state; error = error }
run_chain_update (set_status status) r = record r { status = status }
run_chain_update (set_onchain_fee fee) r = record r { onchain_fee = fee }
run_chain_update (set_service_fee fee) r = record r { service_fee = some fee }
run_chain_update (on_data c u) r = record r {
  from_data = apply_where c u r.from_data;
  to_data = apply_where c u r.to_data;
}

-- A swap in memory, and its rows.
pub record StoredChain : Type 0 where
  pub swap : ChainSwap
  pub row : ChainSwap

-- SQLite's answer to a statement: `none` where it succeeds.
abbrev pub ChainExec : Type 0
ChainExec = ChainUpdate → Option Error

abbrev pub ChainSetter : Type 0
ChainSetter = StoredChain → Option Error × StoredChain

abbrev run_rows : Option Error → ChainUpdate → ChainSwap → ChainSwap
run_rows none u r = run_chain_update u r
run_rows (some e) u r = r

unfoldable pub write_chain : ChainExec → ChainUpdate → ChainSwap → ChainSetter
unfolding run_chain_update
write_chain exec u swap s = (exec u, record { swap = swap; row = run_rows (exec u) u s.row })

-- A write to the data behind one of the swap's pointers.
unfoldable pub modify : Side → DataUpdate → ChainSwap → ChainSwap
unfolding apply_data
modify Side.from_side u swap = record swap { from_data = apply_data u swap.from_data }
modify Side.to_side u swap = record swap { to_data = apply_data u swap.to_data }

module _ (exec : ChainExec) where
  unfoldable pub update_chain_swap_state : SwapState → String → ChainSetter
  unfolding write_chain
  update_chain_swap_state state error s =
      write_chain exec (set_state state error) (record s.swap { state = state; error = error }) s

  unfoldable pub update_chain_swap_status : SwapUpdateEvent → ChainSetter
  unfolding write_chain
  update_chain_swap_status status s =
      write_chain exec (set_status status) (record s.swap { status = status }) s

  unfoldable pub add_chain_swap_onchain_fee : ℕ → ChainSetter
  unfolding write_chain add_to_optional
  add_chain_swap_onchain_fee fee s =
      let onchain_fee = add_to_optional s.swap.onchain_fee fee in
      write_chain exec (set_onchain_fee onchain_fee) (record s.swap { onchain_fee = onchain_fee }) s

  unfoldable pub set_chain_swap_service_fee : ℤ → ChainSetter
  unfolding write_chain
  set_chain_swap_service_fee fee s =
      write_chain exec (set_service_fee fee) (record s.swap { service_fee = some fee }) s

  module _ (side : Side) where
    unfoldable pub write_data : DataUpdate → ChainSetter
    unfolding write_chain modify
    write_data u s =
        write_chain exec (on_data (data_of side s.swap).currency u) (modify side u s.swap) s

    unfoldable pub set_chain_swap_lockup_transaction_id : String → ChainSetter
    unfolding write_data
    set_chain_swap_lockup_transaction_id tx = write_data (set_lockup_transaction_id tx)

    unfoldable pub set_chain_swap_address : String → ChainSetter
    unfolding write_data
    set_chain_swap_address address = write_data (set_address address)

    unfoldable pub set_chain_swap_wallet : ℕ → ChainSetter
    unfolding write_data
    set_chain_swap_wallet id = write_data (set_wallet id)

    unfoldable pub set_chain_swap_amount : ℕ → ChainSetter
    unfolding write_data
    set_chain_swap_amount amount = write_data (set_amount amount)

    unfoldable pub set_chain_swap_transaction_id : String → ChainSetter
    unfolding write_data
    set_chain_swap_transaction_id tx = write_data (set_transaction_id tx)
