-- ===== src/Nursery/Submarine/Claim.antt =====
-- internal/nursery/swap.go: the cooperative claim, and the accounts of a completed swap.
use lightz_client.Base.{
  ℕ, String, Bool, true, false, ◌=ₛ◌, if◌then◌else◌, ltb, is_some, Option, none, some,
}
use lightz_client.Base.Int.{ℤ, pos, to_int64, from_int64, sub_int64, ltb_ℤ}
use lightz_client.Float.{calculate_percentage_int64}
use lightz_client.Lightz.Types.{SwapState, Error, errorf}
use lightz_client.Lightz.Pairs.{find_pair}
use lightz_client.Database.Swap.{set_swap_preimage, set_swap_service_fee, update_swap_state}
use lightz_client.Nursery.Handler.{Handler, pure, branch, on_result, on_error, ◌>>=◌, ◌>>◌}
use lightz_client.Nursery.Submarine.World.{
  World, SwapEnv, Peers, ClaimDetails, DecodedInvoice, signature_sent, get_swap, emit, run_setter,
  or_fail, ok_or_fail,
}

-- `bytes.Equal` on the hash of the preimage.
unfoldable pub validate_preimage : Peers → String → DecodedInvoice → Option Error
validate_preimage peers preimage invoice =
    if invoice.payment_hash =ₛ peers.sha256 preimage
    then none
    else some (errorf "lightzd returned wrong preimage")

-- A negative onchain fee counts as 0.
abbrev pub clamp_fee : ℤ → ℕ
clamp_fee fee = if ltb_ℤ fee (pos 0) then 0 else from_int64 fee

module _ (env : SwapEnv) where
  open env use {nursery, peers, exec}

  -- Signing and sending, once the preimage is stored. The result is the function's error; `invoice` is
  -- the one that the preimage was checked against.
  unfoldable pub send_signature : String → ClaimDetails → Handler World (Option Error)
  send_signature invoice details = do
    swap ← get_swap
    on_error (peers.new_session swap.swap_tree) (λ e. pure (some e))
        (on_result (peers.sign swap.swap_tree details.transaction_hash details.pub_nonce)
          (λ e. pure (some e))
          (λ partial.
            on_error (peers.send_swap_claim_signature swap.id partial) (λ e. pure (some e))
              (emit (signature_sent invoice details.preimage) >> pure none)))

  unfoldable pub store_and_sign : String → ClaimDetails → Handler World (Option Error)
  store_and_sign invoice details = do
    swap ← get_swap
    branch (is_some swap.preimage) (send_signature invoice details) (do
      failed ← run_setter (λ s. set_swap_preimage exec s details.preimage)
      on_error failed (λ e. pure (some e)) (send_signature invoice details))

  unfoldable pub cooperative_swap_claim : Handler World (Option Error)
  cooperative_swap_claim = do
    swap ← get_swap
    on_result (peers.get_swap_claim_details swap.id) (λ e. pure (some e))
        (λ details.
          on_result (peers.decode_invoice swap.invoice) (λ e. pure (some e))
            (λ invoice.
              on_error (validate_preimage peers details.preimage invoice) (λ e. pure (some e))
                (store_and_sign swap.invoice details)))

  -- The case `TransactionClaimPending`: the result is `batchOnly`.
  unfoldable pub claim_pending : Handler World Bool
  claim_pending = do
    swap ← get_swap
    pairs ← ok_or_fail exec peers.get_submarine_pairs
    minimal ← ok_or_fail exec (find_pair swap.pair pairs)
    invoice ← ok_or_fail exec (peers.decode_invoice swap.invoice)
    branch (ltb invoice.amount_sat minimal) (pure true)
        (do logged ← cooperative_swap_claim; pure false)

  -- The preimage of a swap that was claimed in a batch comes from the server.
  unfoldable pub ensure_preimage : DecodedInvoice → Handler World Unit
  ensure_preimage invoice = do
    swap ← get_swap
    branch (is_some swap.preimage) (pure tt) (do
      preimage ← ok_or_fail exec (peers.get_swap_preimage swap.id)
      or_fail exec (validate_preimage peers preimage invoice)
      e ← run_setter (λ s. set_swap_preimage exec s preimage)
      or_fail exec e)

  unfoldable pub complete : Handler World Unit
  complete = do
    found ← get_swap
    invoice ← ok_or_fail exec (peers.decode_invoice found.invoice)
    ensure_preimage invoice
    swap ← get_swap
    let amount = to_int64 invoice.amount_sat
    let service_fee = calculate_percentage_int64 nursery.arith swap.service_fee_percent amount
    let onchain_fee = sub_int64 (sub_int64 (to_int64 swap.expected_amount) amount) service_fee
    e ← run_setter (λ s. set_swap_service_fee exec s service_fee (clamp_fee onchain_fee))
    or_fail exec e
    e' ← run_setter (λ s. update_swap_state exec s SwapState.successful "")
    or_fail exec e'
