-- ===== src/Nursery/ChainSwaps/Claim.antt =====
-- internal/nursery/chain.go: what a claim leaves behind.
use lightz_client.Base.{ℕ, String, ◌≡◌, refl, Option, none, some, List, [], ◌∷◌, ap}
use lightz_client.Lightz.Types.{SwapState, Error}
use lightz_client.Database.Optional.{add_to_optional}
use lightz_client.Database.ChainSwap.{
  ChainSwap, Side, ChainUpdate, set_state, set_service_fee, set_onchain_fee, on_data,
  set_transaction_id, modify, apply_data, run_chain_update, update_chain_swap_state,
  add_chain_swap_onchain_fee, set_chain_swap_service_fee, write_data, set_chain_swap_transaction_id,
}
use lightz_client.Nursery.Handler.{◌>>=◌}
use lightz_client.Nursery.ChainSwaps.World.{
  and_then, update_sent, ChainWorld, ChainEnv, get_chain_swap, emit_chain, is_final_chain,
  send_chain_swap_update, chain_service_fee, mark_successful, sent_update, on_stored_chain,
  finalize_chain_swap, set_chain_claim_transaction,
}

-- The swap after its claim by a transaction with a fee.
abbrev pub claimed : ChainEnv → String → ℕ → ChainSwap → ChainSwap
claimed env tx fee swap = record swap {
  state = SwapState.successful;
  error = "";
  service_fee = some (chain_service_fee env swap);
  onchain_fee = add_to_optional swap.onchain_fee fee;
  to_data = record swap.to_data { transaction_id = tx };
}

-- The statements of a claim, in order.
abbrev pub claim_updates : ChainEnv → String → ℕ → ChainSwap → List ChainUpdate
claim_updates env tx fee swap =
    on_data swap.to_data.currency (set_transaction_id tx)
    ∷ set_onchain_fee (add_to_optional swap.onchain_fee fee)
    ∷ set_service_fee (chain_service_fee env swap)
    ∷ set_state SwapState.successful ""
    ∷ []

abbrev pub run_all : List ChainUpdate → ChainSwap → ChainSwap
run_all [] r = r
run_all (u ∷ us) r = run_all us (run_chain_update u r)

pub record IsClaimed (env : ChainEnv) (tx : String) (fee : ℕ) (w w' : ChainWorld) : Type 0 where
  pub in_memory : w'.stored.swap ≡ claimed env tx fee w.stored.swap
  pub in_rows : w'.stored.row ≡ run_all (claim_updates env tx fee w.stored.swap) w.stored.row
  pub reported :
      w'.effects
      ≡ update_sent
          (claimed env tx fee w.stored.swap)
          (is_final_chain (claimed env tx fee w.stored.swap))
        ∷ w.effects

and_then-none :
    (r : Option Error × ChainWorld) (f : ChainWorld → Option Error × ChainWorld) {w' : ChainWorld}
    → and_then r f ≡ (none, w')
    → (r.0 ≡ none) × (f r.1 ≡ (none, w'))
and_then-none (some e, w) f h = cc
and_then-none (none, w) f h = (refl, h)

module _ (env : ChainEnv) where
  -- Where the callback of a claim reports no error, the swap in memory is successful, with the claim
  -- transaction, its fee added to the onchain fee and the service fee of the sent amount, the rows have
  -- the four updates that say so, and the last thing sent is an update about this swap.
  pub set_chain_claim_transaction-IsClaimed :
      (tx : String) (fee : ℕ) (w w' : ChainWorld)
      → set_chain_claim_transaction env tx fee w ≡ (none, w')
      → IsClaimed env tx fee w w'
  unfolding set_chain_claim_transaction finalize_chain_swap send_chain_swap_update get_chain_swap
      emit_chain update_chain_swap_state add_chain_swap_onchain_fee set_chain_swap_service_fee
      set_chain_swap_transaction_id write_data modify apply_data ◌>>=◌
  set_chain_claim_transaction-IsClaimed tx fee w w' h =
      let set1 = set_chain_swap_transaction_id env.exec Side.to_side tx in
      let set2 = add_chain_swap_onchain_fee env.exec fee in
      let set3 = set_chain_swap_service_fee env.exec (chain_service_fee env w.stored.swap) in
      let set4 = update_chain_swap_state env.exec SwapState.successful "" in
      let w1 = (on_stored_chain set1 w).1 in
      let w2 = (on_stored_chain set2 w1).1 in
      let w3 = (on_stored_chain set3 w2).1 in
      let (e1, h1) =
        and_then-none (on_stored_chain set1 w)
          (λ w. and_then (on_stored_chain set2 w) (finalize_chain_swap env)) h in
      let (e2, h2) = and_then-none (on_stored_chain set2 w1) (finalize_chain_swap env) h1 in
      let (e3, h3) = and_then-none (on_stored_chain set3 w2) (mark_successful env) h2 in
      let (e4, h4) = and_then-none (on_stored_chain set4 w3) sent_update h3 in
      let ended = ap (λ (x : Option Error × ChainWorld). x.1) h4 in
      rw (← ended) (record { in_memory = refl; in_rows = rw (e1, e2, e3, e4); reported = refl })
