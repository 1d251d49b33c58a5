-- ===== src/Database/Swap/Sync.antt =====
-- A record in memory and its row agree as long as the statements succeed.
use lightz_client.Base.{ℕ, String, ◌≡◌, none, Option}
use lightz_client.Base.Int.{ℤ}
use lightz_client.Lightz.Types.{SwapState, Error}
use lightz_client.Lightz.Events.{SwapUpdateEvent}
use lightz_client.Database.Optional.{add_to_optional}
use lightz_client.Database.Swap.{
  Update, set_state, set_status, set_invoice, set_preimage, set_lockup_transaction_id,
  set_expected_amount, set_refund, set_onchain_fee, set_service_fee, Stored, Exec,
  update_swap_state, update_swap_status, set_swap_invoice, set_swap_preimage,
  set_swap_lockup_transaction_id, set_swap_expected_amount, set_swap_refund_transaction_id,
  set_swap_onchain_fee, set_swap_service_fee,
}

-- Every statement succeeds.
abbrev pub Quiet : Exec → Type 0
Quiet exec = (u : Update) → exec u ≡ none

abbrev pub IsSynced : Stored → Type 0
IsSynced s = s.row ≡ s.swap

-- The setter writes to the row what it writes to the record.
abbrev pub Syncs : (Stored → Option Error × Stored) → Type 0
Syncs set = (s : Stored) → IsSynced s → IsSynced (set s).1

module _ {exec : Exec} (quiet : Quiet exec) where
  pub update_swap_state-Syncs :
      (state : SwapState) (error : String) → Syncs (λ s. update_swap_state exec s state error)
  unfolding update_swap_state
  update_swap_state-Syncs state error s h = rw (quiet (set_state state error), h)

  pub update_swap_status-Syncs :
      (status : SwapUpdateEvent) → Syncs (λ s. update_swap_status exec s status)
  unfolding update_swap_status
  update_swap_status-Syncs status s h = rw (quiet (set_status status), h)

  pub set_swap_invoice-Syncs : (invoice : String) → Syncs (λ s. set_swap_invoice exec s invoice)
  unfolding set_swap_invoice
  set_swap_invoice-Syncs invoice s h = rw (quiet (set_invoice invoice), h)

  pub set_swap_preimage-Syncs : (preimage : String) → Syncs (λ s. set_swap_preimage exec s preimage)
  unfolding set_swap_preimage
  set_swap_preimage-Syncs preimage s h = rw (quiet (set_preimage preimage), h)

  pub set_swap_lockup_transaction_id-Syncs :
      (tx : String) → Syncs (λ s. set_swap_lockup_transaction_id exec s tx)
  unfolding set_swap_lockup_transaction_id
  set_swap_lockup_transaction_id-Syncs tx s h = rw (quiet (set_lockup_transaction_id tx), h)

  pub set_swap_expected_amount-Syncs :
      (amount : ℕ) → Syncs (λ s. set_swap_expected_amount exec s amount)
  unfolding set_swap_expected_amount
  set_swap_expected_amount-Syncs amount s h = rw (quiet (set_expected_amount amount), h)

  pub set_swap_refund_transaction_id-Syncs :
      (tx : String) (fee : ℕ) → Syncs (λ s. set_swap_refund_transaction_id exec s tx fee)
  unfolding set_swap_refund_transaction_id
  set_swap_refund_transaction_id-Syncs tx fee s h =
      rw (quiet (set_refund SwapState.refunded tx (add_to_optional s.swap.onchain_fee fee)), h)

  pub set_swap_onchain_fee-Syncs : (fee : ℕ) → Syncs (λ s. set_swap_onchain_fee exec s fee)
  unfolding set_swap_onchain_fee
  set_swap_onchain_fee-Syncs fee s h = rw (quiet (set_onchain_fee (Option.some fee)), h)

  pub set_swap_service_fee-Syncs :
      (service_fee : ℤ) (fee : ℕ) → Syncs (λ s. set_swap_service_fee exec s service_fee fee)
  unfolding set_swap_service_fee
  set_swap_service_fee-Syncs service_fee fee s h =
      rw (quiet (set_service_fee service_fee (add_to_optional s.swap.onchain_fee fee)), h)

  pub ruleset syncs_rules = (
    update_swap_state-Syncs, update_swap_status-Syncs, set_swap_invoice-Syncs,
    set_swap_preimage-Syncs, set_swap_lockup_transaction_id-Syncs, set_swap_expected_amount-Syncs,
    set_swap_refund_transaction_id-Syncs, set_swap_onchain_fee-Syncs, set_swap_service_fee-Syncs,
  )
