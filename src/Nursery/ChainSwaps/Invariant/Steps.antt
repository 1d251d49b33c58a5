-- ===== src/Nursery/ChainSwaps/Invariant/Steps.antt =====
-- The quotes, claims and refunds of the handler of a chain swap keep the invariant.
use lightz_client.Base.{ℕ, refl, Option, none, some}
use lightz_client.Lightz.Types.{Error, SwapState}
use lightz_client.Lightz.Events.{
  SwapUpdateEvent, transaction_lockup_failed, transaction_mempool, transaction_server_mempool,
  transaction_server_confirmed,
}
use lightz_client.Database.ChainSwap.{Side, set_chain_swap_amount}
use lightz_client.Database.ChainSwap.Located.{
  Place, Sites, set_chain_swap_amount-Locates, update_chain_swap_state-Locates,
}
use lightz_client.Nursery.Handler.Rules.{
  Obeys-pure, Obeys-call, Obeys-branch, Obeys-when, Obeys-bind, Obeys-weaken,
}
use lightz_client.Nursery.Handler.Failing.Rules.{
  or_fail-Obeys, or_fail-bind-Obeys, ok_or_fail-bind-Obeys,
}
use lightz_client.Nursery.Transactions.Failures.{create_transaction-Steady}
use lightz_client.Nursery.Refunds.Rules.{refund_swaps-Steady}
use lightz_client.Nursery.ChainSwaps.World.{ChainWorld, ChainEnv, Quote, on_stored_chain}
use lightz_client.Nursery.ChainSwaps.Quote.{
  get_chain_swap_quote, write_amounts, end_chain_tx, store_amounts, accept_quote, on_quote,
  request_quote, renew_quote,
}
use lightz_client.Nursery.ChainSwaps.Status.{
  claim_chain_swap, on_chain_event, refund_chain_swap, fail_chain_swap,
}
use lightz_client.Nursery.ChainSwaps.Invariant.Rules.{
  sites_of, Inv, Safe, KeepsInv, get_chain_swap-Safe, emit_chain-Safe, run_chain_setter-Safe,
  handle_chain_swap_error-Fails, set-keeps, on_stored_chain-keeps,
  get_chain_swap_claim_output-Keeps, get_chain_swap_refund_output-Keeps,
}

module _ (env : ChainEnv) (from to : Place) where
  abbrev sites : Sites
  sites = sites_of env from to

  -- A rollback: the rows of before, and the record of after.
  rolled_back :
      (before after : ChainWorld)
      → Inv env from to before
      → Inv env from to after
      → Inv env from to (record after { stored = record after.stored { row = before.stored.row } })
  rolled_back before after h h' = record {
    located = record {
      distinct = h.located.distinct;
      distinct_back = h.located.distinct_back;
      from_at = h'.located.from_at;
      to_at = h'.located.to_at;
      row_from_at = h.located.row_from_at;
      row_to_at = h.located.row_to_at;
      from_found = h.located.from_found;
      to_found = h.located.to_found;
    };
    justified = h'.justified;
  }

  end_chain_tx-keeps :
      (commit : Option Error) (before : ChainWorld) (r : Option Error × ChainWorld)
      → Inv env from to before
      → Inv env from to r.1
      → Inv env from to (end_chain_tx commit before r).1
  unfolding end_chain_tx
  end_chain_tx-keeps commit before (some e, w) h h' = rolled_back before w h h'
  end_chain_tx-keeps none before (none, w) h h' = h'
  end_chain_tx-keeps (some e) before (none, w) h h' = rolled_back before w h h'

  write_amounts-keeps : (a b : ℕ) → KeepsInv env from to (write_amounts env.exec a b)
  unfolding write_amounts
  write_amounts-keeps a b =
      set-keeps env from to (set_chain_swap_amount env.exec Side.to_side a)
        (on_stored_chain (set_chain_swap_amount env.exec Side.from_side b))
        (set_chain_swap_amount-Locates sites env.exec Side.to_side a)
        (on_stored_chain-keeps env from to (set_chain_swap_amount env.exec Side.from_side b)
          (set_chain_swap_amount-Locates sites env.exec Side.from_side b))

  begun-keeps :
      (begin : Option Error) (r : Option Error × ChainWorld) (w : ChainWorld)
      → Inv env from to w
      → Inv env from to r.1
      → Inv env from to
          (let out : Option Error × ChainWorld = elim begin [ some e ↦ (some e, w) | none ↦ r ] in
            out).1
  begun-keeps none r w h k = k
  begun-keeps (some e) r w h k = h

  store_amounts-keeps : (a b : ℕ) → KeepsInv env from to (store_amounts env a b)
  unfolding store_amounts
  store_amounts-keeps a b w h =
      begun-keeps env.begin (end_chain_tx env.commit w (write_amounts env.exec a b w)) w h (
        end_chain_tx-keeps env.commit w (write_amounts env.exec a b w) h
          (write_amounts-keeps a b w h))

  accept_quote-Safe : (quote : Quote) → Safe env from to (accept_quote env quote)
  unfolding accept_quote
  accept_quote-Safe quote =
      let f = handle_chain_swap_error-Fails env from to in
      Obeys-bind _ _ (get_chain_swap-Safe env from to) (λ swap.
        ok_or_fail-bind-Obeys f _ _ (λ result found. or_fail-bind-Obeys f _ _ (λ checked.
          or_fail-bind-Obeys f _ _ (λ e.
            Obeys-bind _ _ (emit_chain-Safe env from to _ (checked, result, found, refl)) (λ x.
              Obeys-bind _ _ (Obeys-call _ (store_amounts-keeps quote.amount result.value))
                (or_fail-Obeys f))))))

  on_quote-Safe : (quote : Option Quote) → Safe env from to (on_quote env quote)
  unfolding on_quote
  on_quote-Safe none = Obeys-pure tt
  on_quote-Safe (some quote) = accept_quote-Safe quote

  request_quote-Safe : Safe env from to (request_quote env)
  unfolding request_quote
  request_quote-Safe = Obeys-bind _ _ (get_chain_swap-Safe env from to) (λ swap.
      Obeys-bind _ _ (on_quote-Safe (get_chain_swap_quote (env.peers.quote_request swap.id)).0)
        (λ x. Obeys-pure _))

  renew_quote-Safe : (status : SwapUpdateEvent) → Safe env from to (renew_quote env status)
  unfolding renew_quote
  renew_quote-Safe status =
      Obeys-bind _ _ (get_chain_swap-Safe env from to)
        (λ swap. Obeys-branch _ _ _ (λ h. request_quote-Safe) (λ h. Obeys-pure _))

  claim_chain_swap-Safe : Safe env from to (claim_chain_swap env)
  unfolding claim_chain_swap
  claim_chain_swap-Safe = Obeys-bind _ _ (get_chain_swap-Safe env from to) (λ swap.
      Obeys-when _ _ (λ h.
        Obeys-bind _ _
          (Obeys-weaken (
            create_transaction-Steady env.nursery (Inv env from to) _ _
              (get_chain_swap_claim_output-Keeps env from to swap, tt)))
          (λ logged. Obeys-pure tt)))

  pub on_chain_event-Safe :
      (status : SwapUpdateEvent) → Safe env from to (on_chain_event env status)
  unfolding on_chain_event
  on_chain_event-Safe transaction_lockup_failed = renew_quote-Safe transaction_lockup_failed
  on_chain_event-Safe transaction_mempool = renew_quote-Safe transaction_mempool
  on_chain_event-Safe transaction_server_confirmed =
      Obeys-bind _ _ claim_chain_swap-Safe (λ x. Obeys-pure _)
  on_chain_event-Safe transaction_server_mempool =
      Obeys-bind _ _ claim_chain_swap-Safe (λ x. Obeys-pure _)
  on_chain_event-Safe _ = Obeys-pure _

  refund_chain_swap-Safe : Safe env from to (refund_chain_swap env)
  unfolding refund_chain_swap
  refund_chain_swap-Safe = Obeys-bind _ _ (get_chain_swap-Safe env from to) (λ swap.
      Obeys-when _ _ (λ h.
        Obeys-bind _ _
          (Obeys-weaken (
            refund_swaps-Steady (Inv env from to) env.nursery _ _
              (get_chain_swap_refund_output-Keeps env from to swap, tt)))
          (λ result. or_fail-Obeys (handle_chain_swap_error-Fails env from to) result.1)))

  pub fail_chain_swap-Safe : Safe env from to (fail_chain_swap env)
  unfolding fail_chain_swap
  fail_chain_swap-Safe = Obeys-bind _ _ (get_chain_swap-Safe env from to) (λ swap.
      Obeys-bind _ _
        (Obeys-when _ _ (λ h.
          Obeys-bind _ _
            (run_chain_setter-Safe env from to _
              (update_chain_swap_state-Locates sites env.exec SwapState.server_error ""))
            (or_fail-Obeys (handle_chain_swap_error-Fails env from to))))
        (λ x. refund_chain_swap-Safe))
