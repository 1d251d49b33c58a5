-- ===== src/Nursery/ChainSwaps/Invariant/Rules.antt =====
-- The invariant of a chain swap, and a rule for each step that its handlers are made of.
use lightz_client.Base.{
  ℕ, String, ◌≡◌, refl, ◌⊎◌, true, false, ◌=ₛ◌, Option, none, some, List, ◌∷◌, All, arith,
}
use lightz_client.Lightz.Types.{SwapType, SwapState, Error, ok}
use lightz_client.Onchain.Chain.{OutputResult, find_output}
use lightz_client.Database.ChainSwap.{
  ChainSwap, Side, ChainSetter, update_chain_swap_state, add_chain_swap_onchain_fee,
  set_chain_swap_service_fee, set_chain_swap_transaction_id,
}
use lightz_client.Database.ChainSwap.Located.{
  Place, Sites, IsLocated, Locates, update_chain_swap_state-Locates,
  add_chain_swap_onchain_fee-Locates, set_chain_swap_service_fee-Locates,
  set_chain_swap_transaction_id-Locates,
}
use lightz_client.Nursery.Handler.{Handler, call, ◌>>=◌}
use lightz_client.Nursery.Handler.Rules.{Obeys, Obeys-call, Obeys-bind}
use lightz_client.Nursery.Handler.Failing.Rules.{Fails}
use lightz_client.Nursery.Amounts.{nursery_check_amounts}
use lightz_client.Nursery.Transactions.Failures.{Keeps}
use lightz_client.Nursery.ChainSwaps.World.{
  ChainEffect, update_sent, quote_accepted, ChainWorld, ChainEnv, get_chain_swap, emit_chain,
  on_stored_chain, run_chain_setter, is_final_chain, send_chain_swap_update,
  handle_chain_swap_error, chain_output_args, and_then, sent_update, chain_service_fee,
  mark_successful, finalize_chain_swap, set_chain_claim_transaction, set_chain_refund_transaction,
  get_chain_swap_claim_output, get_chain_swap_refund_output,
}

-- A final update is sent only for a swap that has a lockup transaction and succeeded or was refunded;
-- a quote is accepted only for what the lockup holds, at an amount that passes the fee check.
abbrev pub IsJustified : ChainEnv → ChainEffect → Type 0
IsJustified env (update_sent swap final) =
    final ≡ true
    → ((swap.state ≡ SwapState.successful) ⊎ (swap.state ≡ SwapState.refunded))
      × ((swap.from_data.lockup_transaction_id =ₛ "") ≡ false)
IsJustified env (quote_accepted swap locked amount) =
    (nursery_check_amounts env.nursery SwapType.chain swap.pair locked amount
        swap.service_fee_percent
      ≡ none)
    × (r : OutputResult) × (find_output env.nursery.codec env.nursery.onchain
          (chain_output_args swap.from_data)
        ≡ ok r)
    × (r.value ≡ locked)

-- The transactions are looked up through the nursery.
abbrev pub sites_of : ChainEnv → Place → Place → Sites
sites_of env from to = record {
  codec = env.nursery.codec;
  onchain = env.nursery.onchain;
  from = from;
  to = to;
}

pub record Inv (env : ChainEnv) (from to : Place) (w : ChainWorld) : Type 0 where
  pub located : IsLocated (sites_of env from to) w.stored
  pub justified : All (IsJustified env) w.effects

-- The swap is in the error state, and the last thing sent is a non-final update about it.
pub record HasFailed (w : ChainWorld) : Type 0 where
  pub state_error : w.stored.swap.state ≡ SwapState.error
  pub reported : (rest : List ChainEffect) × (w.effects ≡ update_sent w.stored.swap false ∷ rest)

module _ (env : ChainEnv) (from to : Place) where
  abbrev pub Safe : {A : Type 0} → Handler ChainWorld A → Type 0
  Safe m = Obeys (Inv env from to) HasFailed m

  abbrev sites : Sites
  sites = sites_of env from to

  pub get_chain_swap-Safe : Safe get_chain_swap
  unfolding get_chain_swap
  get_chain_swap-Safe = record { keeps = λ w h. h; stops = λ w h e. cc }

  pub emit_chain-Safe : (e : ChainEffect) → IsJustified env e → Safe (emit_chain e)
  unfolding emit_chain
  emit_chain-Safe e j = record {
    keeps = λ w h. record { located = h.located; justified = (j, h.justified) };
    stops = λ w h e. cc;
  }

  pub on_stored_chain-keeps :
      (set : ChainSetter)
      → Locates sites set
      → (w : ChainWorld) → Inv env from to w
      → Inv env from to (on_stored_chain set w).1
  on_stored_chain-keeps set k w h = record {
    located = k w.stored h.located;
    justified = h.justified;
  }

  pub run_chain_setter-Safe : (set : ChainSetter) → Locates sites set → Safe (run_chain_setter set)
  unfolding run_chain_setter
  run_chain_setter-Safe set k = Obeys-call _ (on_stored_chain-keeps set k)

  is_final_chain-IsJustified :
      (swap : ChainSwap) → IsJustified env (update_sent swap (is_final_chain swap))
  unfolding is_final_chain
  is_final_chain-IsJustified swap h = ground arith

  pub send_chain_swap_update-Safe : Safe send_chain_swap_update
  unfolding send_chain_swap_update get_chain_swap emit_chain ◌>>=◌
  send_chain_swap_update-Safe = record {
    keeps = λ w h. record {
      located = h.located;
      justified = (is_final_chain-IsJustified w.stored.swap, h.justified);
    };
    stops = λ w h e. cc;
  }

  handle_chain_swap_error-fails :
      (e : Error) (w : ChainWorld) → HasFailed (handle_chain_swap_error env.exec e w).1
  unfolding handle_chain_swap_error send_chain_swap_update get_chain_swap emit_chain
      run_chain_setter call is_final_chain update_chain_swap_state ◌>>=◌
  handle_chain_swap_error-fails e w = record {
    state_error = refl;
    reported = (w.effects, ground arith);
  }

  handle_chain_swap_error-Safe : (e : Error) → Safe (handle_chain_swap_error env.exec e)
  unfolding handle_chain_swap_error
  handle_chain_swap_error-Safe e =
      Obeys-bind _ _
        (run_chain_setter-Safe _
          (update_chain_swap_state-Locates sites env.exec SwapState.error e.text))
        (λ logged. send_chain_swap_update-Safe)

  pub handle_chain_swap_error-Fails :
      Fails (Inv env from to) HasFailed (handle_chain_swap_error env.exec)
  unfolding handle_chain_swap_error send_chain_swap_update get_chain_swap emit_chain
      run_chain_setter call ◌>>=◌
  handle_chain_swap_error-Fails = record {
    returns = λ e w. refl;
    keeps = λ e. (handle_chain_swap_error-Safe e).keeps;
    fails = handle_chain_swap_error-fails;
  }

  -- A callback keeps the invariant.
  abbrev pub KeepsInv : (ChainWorld → Option Error × ChainWorld) → Type 0
  KeepsInv f = (w : ChainWorld) → Inv env from to w → Inv env from to (f w).1

  and_then-keeps :
      (r : Option Error × ChainWorld) (f : ChainWorld → Option Error × ChainWorld)
      → Inv env from to r.1
      → KeepsInv f
      → Inv env from to (and_then r f).1
  and_then-keeps (some e, w) f h k = h
  and_then-keeps (none, w) f h k = k w h

  pub set-keeps :
      (set : ChainSetter) (f : ChainWorld → Option Error × ChainWorld)
      → Locates sites set
      → KeepsInv f
      → KeepsInv (λ w. and_then (on_stored_chain set w) f)
  set-keeps set f ks kf w h =
      and_then-keeps (on_stored_chain set w) f (on_stored_chain-keeps set ks w h) kf

  sent_update-keeps : KeepsInv sent_update
  sent_update-keeps = send_chain_swap_update-Safe.keeps

  finalize_chain_swap-keeps : KeepsInv (finalize_chain_swap env)
  unfolding finalize_chain_swap
  finalize_chain_swap-keeps w =
      let fee = chain_service_fee env w.stored.swap in
      set-keeps (set_chain_swap_service_fee env.exec fee) (mark_successful env)
        (set_chain_swap_service_fee-Locates sites env.exec fee)
        (set-keeps (update_chain_swap_state env.exec SwapState.successful "") sent_update
          (update_chain_swap_state-Locates sites env.exec SwapState.successful "")
          sent_update-keeps)
        w

  set_chain_claim_transaction-keeps :
      (tx : String) (fee : ℕ) → KeepsInv (set_chain_claim_transaction env tx fee)
  unfolding set_chain_claim_transaction
  set_chain_claim_transaction-keeps tx fee =
      set-keeps (set_chain_swap_transaction_id env.exec Side.to_side tx)
        (λ w.
          and_then (on_stored_chain (add_chain_swap_onchain_fee env.exec fee) w)
            (finalize_chain_swap env))
        (set_chain_swap_transaction_id-Locates sites env.exec Side.to_side tx)
        (set-keeps (add_chain_swap_onchain_fee env.exec fee) (finalize_chain_swap env)
          (add_chain_swap_onchain_fee-Locates sites env.exec fee) finalize_chain_swap-keeps)

  set_chain_refund_transaction-keeps :
      (tx : String) (fee : ℕ) → KeepsInv (set_chain_refund_transaction env tx fee)
  unfolding set_chain_refund_transaction
  set_chain_refund_transaction-keeps tx fee =
      let add =
        set-keeps (add_chain_swap_onchain_fee env.exec fee) sent_update
          (add_chain_swap_onchain_fee-Locates sites env.exec fee) sent_update-keeps in
      set-keeps (set_chain_swap_transaction_id env.exec Side.from_side tx)
        (λ w.
          and_then (on_stored_chain (update_chain_swap_state env.exec SwapState.refunded "") w)
            (λ w.
              and_then (on_stored_chain (add_chain_swap_onchain_fee env.exec fee) w) sent_update))
        (set_chain_swap_transaction_id-Locates sites env.exec Side.from_side tx)
        (set-keeps (update_chain_swap_state env.exec SwapState.refunded "")
          (λ w. and_then (on_stored_chain (add_chain_swap_onchain_fee env.exec fee) w) sent_update)
          (update_chain_swap_state-Locates sites env.exec SwapState.refunded "") add)

  pub get_chain_swap_claim_output-Keeps :
      (swap : ChainSwap) → Keeps (Inv env from to) (get_chain_swap_claim_output env swap)
  unfolding get_chain_swap_claim_output
  get_chain_swap_claim_output-Keeps swap = record {
    on_transaction = set_chain_claim_transaction-keeps;
    on_error = λ e. (handle_chain_swap_error-Safe e).keeps;
  }

  pub get_chain_swap_refund_output-Keeps :
      (swap : ChainSwap) → Keeps (Inv env from to) (get_chain_swap_refund_output env swap)
  unfolding get_chain_swap_refund_output
  get_chain_swap_refund_output-Keeps swap = record {
    on_transaction = set_chain_refund_transaction-keeps;
    on_error = λ e. (handle_chain_swap_error-Safe e).keeps;
  }
