-- ===== src/Nursery/Reverse/Earned.antt =====
-- When a reverse swap counts as successful: the steps of its handlers keep the invariant.
use lightz_client.Base.{
  Memᴰ, true, ℕ, String, ◌≡◌, refl, ◌∙◌, ◌≤◌, ◌⊎◌, inr, Option, none, some, List, [], ◌∷◌, All,
}
use lightz_client.Float.{Float64}
use lightz_client.Lightz.Types.{Currency, eq_currency, Pair, SwapState, Error, ok}
use lightz_client.Lightz.Events.{transaction_direct, transaction_direct_mempool}
use lightz_client.Onchain.Chain.{
  Output, OutputResult, Transaction, find_output, new_tx_from_hex, broadcast_transaction,
  get_unspent_outputs,
}
use lightz_client.Onchain.Wallets.{Wallet, get_any_wallet}
use lightz_client.Database.ReverseSwap.{
  ReverseSwap, ReverseUpdate, set_state, set_status, set_lockup_transaction, set_claim_transaction,
  set_claim_address, set_wallet_id, set_routing_fee, set_service_fee, set_paid_at, apply_update,
  Held, write_all,
}
use lightz_client.Nursery.Direct.{send_reverse_update, pay, wait, handle_direct_payments}
use lightz_client.Nursery.Direct.ZeroConf.{SortLaw, Settles, IsClosed, handle_direct_payments-keeps}
use lightz_client.Nursery.Reverse.Status.{by_wallet, broadcast_error}
use lightz_client.Nursery.Reverse.Blocks.{or_chain}
use lightz_client.Nursery.Reverse.World.{ReverseEnv, direct_of, reverse_output_args}

-- What a reverse swap is about: the steps of its handlers do not change it.
pub record Terms : Type 0 where
  pub id : String
  pub pair : Pair
  pub onchain_amount : ℕ
  pub invoice_amount : ℕ
  pub service_fee_percent : Float64
  pub swap_tree : String
  pub blinding_key : String
  pub claim_address : String
  pub wallet_id : Option ℕ

abbrev pub terms : ReverseSwap → Terms
terms s = record {
  id = s.id;
  pair = s.pair;
  onchain_amount = s.onchain_amount;
  invoice_amount = s.invoice_amount;
  service_fee_percent = s.service_fee_percent;
  swap_tree = s.swap_tree;
  blinding_key = s.blinding_key;
  claim_address = s.claim_address;
  wallet_id = s.wallet_id;
}

-- What the swap's wallet lists at the claim address, or where it can not tell, the chain does; or what a
-- transaction pays there that was broadcast, or that the chain had already.
pub data IsReceived (env : ReverseEnv) (base : Terms) (output : Output) : Type 0 where
  listed :
      (wallet : Wallet) (currency : Currency) (outputs : List Output)
      → get_any_wallet env.nursery.wallets (by_wallet base.wallet_id) ≡ ok wallet
      → eq_currency base.pair.to currency ≡ true
      → or_chain
          (get_unspent_outputs env.nursery.onchain currency base.claim_address)
          currency
          (wallet.get_outputs base.claim_address)
        ≡ ok outputs
      → Memᴰ output outputs
      → IsReceived env base output
  relayed :
      (hex key : String) (tx : Transaction) (found : ℕ × ℕ)
      → new_tx_from_hex env.nursery.codec base.pair.to hex key ≡ ok tx
      → env.nursery.codec.find_vout tx base.claim_address ≡ ok found
      → broadcast_error env.libraries.to_lower
          (broadcast_transaction env.nursery.codec env.nursery.onchain tx)
        ≡ none
      → output.value ≡ found.1
      → IsReceived env base output

module _ (env : ReverseEnv) (base : Terms) where
  -- Coins of at least the onchain amount are locked for the swap, or a payment that was received at its
  -- claim address settles it.
  abbrev pub Earned : Type 0
  Earned =
      (s : ReverseSwap) × (terms s ≡ base)
      × (((r : OutputResult) × (find_output env.nursery.codec env.nursery.onchain
                (reverse_output_args env s)
              ≡ ok r)
            × (s.onchain_amount ≤ r.value))
          ⊎ ((output : Output) × IsReceived env base output × Settles (direct_of env) s output))

  abbrev pub IsRight : ReverseSwap → Type 0
  IsRight s = s.state ≡ SwapState.successful → Earned

  -- The swap in memory, its row and every update that was sent count as successful only if the swap is
  -- earned.
  pub record Inv (h : Held) : Type 0 where
    pub swap_terms : terms h.swap ≡ base
    pub row_terms : terms h.row ≡ base
    pub swap_right : IsRight h.swap
    pub row_right : IsRight h.row
    pub sent_right : All IsRight h.sent

  -- Success is written only where the swap is earned, and the claim address and wallet stay.
  abbrev pub Allowed : ReverseUpdate → Type 0
  Allowed (set_state SwapState.successful error) = Earned
  Allowed (set_claim_address address) = ⊥
  Allowed (set_wallet_id id) = ⊥
  Allowed _ = Unit

  apply_update-terms :
      (u : ReverseUpdate) (s : ReverseSwap) → Allowed u → terms (apply_update u s) ≡ terms s
  unfolding apply_update
  apply_update-terms (set_state state error) s a = refl
  apply_update-terms (set_claim_address address) s a = elim a [ ]
  apply_update-terms (set_status status) s a = refl
  apply_update-terms (set_lockup_transaction tx) s a = refl
  apply_update-terms (set_claim_transaction tx fee) s a = refl
  apply_update-terms (set_wallet_id id) s a = elim a [ ]
  apply_update-terms (set_routing_fee fee) s a = refl
  apply_update-terms (set_service_fee fee onchain) s a = refl
  apply_update-terms (set_paid_at now) s a = refl

  apply_update-IsRight :
      (u : ReverseUpdate) (s : ReverseSwap) → Allowed u → IsRight s → IsRight (apply_update u s)
  unfolding apply_update
  apply_update-IsRight (set_state SwapState.successful error) s a k e = a
  apply_update-IsRight (set_state SwapState.pending error) s a k e = cc
  apply_update-IsRight (set_state SwapState.error error) s a k e = cc
  apply_update-IsRight (set_state SwapState.server_error error) s a k e = cc
  apply_update-IsRight (set_state SwapState.refunded error) s a k e = cc
  apply_update-IsRight (set_state SwapState.abandoned error) s a k e = cc
  apply_update-IsRight (set_status status) s a k e = k e
  apply_update-IsRight (set_lockup_transaction tx) s a k e = k e
  apply_update-IsRight (set_claim_transaction tx fee) s a k e = k e
  apply_update-IsRight (set_claim_address address) s a k e = elim a [ ]
  apply_update-IsRight (set_wallet_id id) s a k e = elim a [ ]
  apply_update-IsRight (set_routing_fee fee) s a k e = k e
  apply_update-IsRight (set_service_fee fee onchain) s a k e = k e
  apply_update-IsRight (set_paid_at now) s a k e = k e

  in_memory-Inv :
      (u : ReverseUpdate) (h : Held)
      → Allowed u
      → Inv h
      → Inv (record h { swap = apply_update u h.swap })
  in_memory-Inv u h a k = record {
    swap_terms = apply_update-terms u h.swap a ∙ k.swap_terms;
    row_terms = k.row_terms;
    swap_right = apply_update-IsRight u h.swap a k.swap_right;
    row_right = k.row_right;
    sent_right = k.sent_right;
  }

  in_row-Inv :
      (u : ReverseUpdate) (h : Held)
      → Allowed u
      → Inv h
      → Inv (record h { row = apply_update u h.row })
  in_row-Inv u h a k = record {
    swap_terms = k.swap_terms;
    row_terms = apply_update-terms u h.row a ∙ k.row_terms;
    swap_right = k.swap_right;
    row_right = apply_update-IsRight u h.row a k.row_right;
    sent_right = k.sent_right;
  }

  answered-Inv :
      (o : Option Error) (changed : Held) (later : Option Error × Held)
      → Inv changed
      → Inv later.1
      → Inv
          (let out : Option Error × Held = elim o [ some e ↦ (some e, changed) | none ↦ later ] in
            out).1
  answered-Inv none changed later c l = l
  answered-Inv (some e) changed later c l = c

  pub write_all-Inv :
      (us : List ReverseUpdate) (h : Held)
      → All Allowed us
      → Inv h
      → Inv (write_all env.exec us h).1
  unfolding write_all
  write_all-Inv [] h a k = k
  write_all-Inv (u ∷ us) h (a, rest) k =
      let changed = record h { swap = apply_update u h.swap } in
      let written = record changed { row = apply_update u h.row } in
      let kept = in_memory-Inv u h a k in
      answered-Inv (env.exec u) changed (write_all env.exec us written) kept
        (write_all-Inv us written rest (in_row-Inv u changed a kept))

  pub send_reverse_update-Inv : (h : Held) → Inv h → Inv (send_reverse_update h)
  send_reverse_update-Inv h k = record {
    swap_terms = k.swap_terms;
    row_terms = k.row_terms;
    swap_right = k.swap_right;
    row_right = k.row_right;
    sent_right = (k.swap_right, k.sent_right);
  }

  pub load-Inv : (h : Held) → Inv h → Inv (record h { swap = h.row })
  load-Inv h k = record {
    swap_terms = k.row_terms;
    row_terms = k.row_terms;
    swap_right = k.row_right;
    row_right = k.row_right;
    sent_right = k.sent_right;
  }

  Inv-IsClosed :
      (outputs : List Output) (h : Held)
      → ((o : Output) → Memᴰ o outputs → IsReceived env base o)
      → Inv h
      → IsClosed (direct_of env) h outputs Inv
  unfolding wait pay
  Inv-IsClosed outputs h received k = record {
    on_error = λ text w q. write_all-Inv (set_state SwapState.error text ∷ []) w (tt, tt) q;
    on_wait = λ w q. write_all-Inv (set_status transaction_direct_mempool ∷ []) w (tt, tt) q;
    on_pay = λ output m settles w q.
        let earned : Earned = (h.swap, k.swap_terms, inr (output, received output m, settles)) in
        write_all-Inv
          (set_claim_transaction output.tx_id 0
            ∷ set_paid_at env.now
            ∷ set_state SwapState.successful ""
            ∷ set_status transaction_direct
            ∷ [])
          w (tt, (tt, (earned, (tt, tt)))) q;
    on_rollback = λ w q. record {
      swap_terms = q.swap_terms;
      row_terms = k.row_terms;
      swap_right = q.swap_right;
      row_right = k.row_right;
      sent_right = q.sent_right;
    };
    on_send = send_reverse_update-Inv;
  }

  pub handle_direct_payments-Inv :
      SortLaw (direct_of env)
      → (outputs : List Output) (h : Held) → ((o : Output) → Memᴰ o outputs → IsReceived env base o)
      → Inv h
      → Inv (handle_direct_payments (direct_of env) outputs h)
  handle_direct_payments-Inv sorts outputs h received k =
      handle_direct_payments-keeps (direct_of env) sorts (Inv-IsClosed outputs h received k) k
