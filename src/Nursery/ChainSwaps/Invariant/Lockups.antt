-- ===== src/Nursery/ChainSwaps/Invariant/Lockups.antt =====
-- The lookups of the lockup transactions of a chain swap keep the invariant.
use lightz_client.Base.{String, ◌≡◌, inr, subst, Option, none, some}
use lightz_client.Lightz.Types.{Error, ok}
use lightz_client.Onchain.Chain.{Transaction, OutputArgs, OutputResult, find_output}
use lightz_client.Database.ChainSwap.{Side, data_of, set_lockup_transaction_id, modify, StoredChain}
use lightz_client.Database.ChainSwap.Located.{
  Place, args_at, Sites, place_of, IsFound, IsLocated, modify-IsLocated,
  add_chain_swap_onchain_fee-Locates, set_chain_swap_lockup_transaction_id-Locates,
}
use lightz_client.Nursery.Handler.{Handler, pure, ◌>>=◌, on_result}
use lightz_client.Nursery.Handler.Rules.{
  Obeys-pure, Obeys-branch, Obeys-on_result, Obeys-on_error, Obeys-or_crash, Obeys-bind,
  Obeys-crash,
}
use lightz_client.Nursery.Handler.Failing.Rules.{or_fail-Obeys, or_fail-bind-Obeys}
use lightz_client.Nursery.ChainSwaps.World.{
  ChainWorld, ChainEnv, Lockups, get_chain_swap, chain_output_args,
}
use lightz_client.Nursery.ChainSwaps.Lockup.{
  assign_lockup, add_lockup_fee, record_chain_lockup, find_chain_lockup,
  set_chain_swap_lockup_transaction, set_lockups, fetch_lockups,
}
use lightz_client.Nursery.ChainSwaps.Invariant.Rules.{
  sites_of, Safe, get_chain_swap-Safe, run_chain_setter-Safe, handle_chain_swap_error-Fails,
}

module _ (env : ChainEnv) (from to : Place) where
  abbrev sites : Sites
  sites = sites_of env from to

  add_lockup_fee-Safe : (tx : Transaction) → Safe env from to (add_lockup_fee env tx)
  unfolding add_lockup_fee
  add_lockup_fee-Safe tx = Obeys-or_crash _ _ (λ answer.
      Obeys-on_result _ _ _ (λ e. Obeys-pure _)
        (λ fee e.
          run_chain_setter-Safe env from to _
            (add_chain_swap_onchain_fee-Locates sites env.exec fee)))

  record_chain_lockup-Safe :
      (side : Side) (tx : String) (found : OutputResult)
      → IsFound sites (place_of side sites) tx
      → Safe env from to (record_chain_lockup env side tx found)
  unfolding record_chain_lockup
  record_chain_lockup-Safe side tx found f =
      Obeys-bind _ _
        (run_chain_setter-Safe env from to _
          (set_chain_swap_lockup_transaction_id-Locates sites env.exec side tx f))
        (λ e.
          Obeys-on_error _ _ _ (λ e. Obeys-pure _)
            (λ e. Obeys-bind _ _ (get_chain_swap-Safe env from to) (λ swap.
              Obeys-branch _ _ _ (λ h. add_lockup_fee-Safe found.transaction) (λ h. Obeys-pure _))))

  -- The lookup of a lockup that was assigned is one at the place of its side.
  args-assigned :
      (side : Side) (tx : String) (s : StoredChain)
      → IsLocated sites s
      → chain_output_args (data_of side (modify side (set_lockup_transaction_id tx) s.swap))
        ≡ args_at (place_of side sites) tx
  unfolding modify
  args-assigned Side.from_side tx s h = rw (h.from_at.0, h.from_at.1, h.from_at.2)
  args-assigned Side.to_side tx s h = rw (h.to_at.0, h.to_at.1, h.to_at.2)

  -- What follows the assignment.
  abbrev look_up : Side → String → StoredChain → Handler ChainWorld (Option Error)
  look_up side tx s =
      let swap = modify side (set_lockup_transaction_id tx) s.swap in
      on_result
        (find_output env.nursery.codec env.nursery.onchain (chain_output_args (data_of side swap)))
        (λ e. pure (some e)) (record_chain_lockup env side tx)

  look_up-Safe :
      (side : Side) (tx : String) (s : StoredChain)
      → IsLocated sites s
      → Safe env from to (look_up side tx s)
  look_up-Safe side tx s h =
      let IsGiven : OutputResult → OutputArgs → Type 0 =
        λ r a. find_output env.nursery.codec env.nursery.onchain a ≡ ok r in
      Obeys-on_result _ _ _ (λ e. Obeys-pure _)
        (λ r e.
          record_chain_lockup-Safe side tx r
            (inr (r, subst (IsGiven r) (args-assigned side tx s h) e)))

  find_chain_lockup-Safe :
      (side : Side) (tx : String) → Safe env from to (find_chain_lockup env side tx)
  unfolding find_chain_lockup assign_lockup get_chain_swap ◌>>=◌
  find_chain_lockup-Safe side tx = record {
    keeps = λ w h. (look_up-Safe side tx w.stored h.located).keeps _ (record {
      located = modify-IsLocated sites side tx w.stored h.located;
      justified = h.justified;
    });
    stops = λ w h. (look_up-Safe side tx w.stored h.located).stops _ (record {
      located = modify-IsLocated sites side tx w.stored h.located;
      justified = h.justified;
    });
  }

  set_chain_swap_lockup_transaction-Safe :
      (side : Side) (tx : Option String)
      → Safe env from to (set_chain_swap_lockup_transaction env side tx)
  unfolding set_chain_swap_lockup_transaction
  set_chain_swap_lockup_transaction-Safe side none = Obeys-pure _
  set_chain_swap_lockup_transaction-Safe side (some tx) =
      Obeys-bind _ _ (get_chain_swap-Safe env from to)
        (λ swap. Obeys-branch _ _ _ (λ h. Obeys-pure _) (λ h. find_chain_lockup-Safe side tx))

  set_lockups-Safe : (response : Lockups) → Safe env from to (set_lockups env response)
  unfolding set_lockups
  set_lockups-Safe response =
      Obeys-bind _ _ (set_chain_swap_lockup_transaction-Safe Side.from_side response.user_lock)
        (λ e. or_fail-bind-Obeys (handle_chain_swap_error-Fails env from to) e _ (λ q.
          Obeys-bind _ _ (set_chain_swap_lockup_transaction-Safe Side.to_side response.server_lock)
            (or_fail-Obeys (handle_chain_swap_error-Fails env from to))))

  pub fetch_lockups-Safe : Safe env from to (fetch_lockups env)
  unfolding fetch_lockups
  fetch_lockups-Safe =
      Obeys-bind _ _ (get_chain_swap-Safe env from to)
        (λ swap. Obeys-on_result _ _ _ (λ e. Obeys-crash) (λ r e. set_lockups-Safe r))
