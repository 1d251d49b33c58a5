-- ===== src/Nursery/ChainSwaps/World.antt =====
-- internal/nursery/chain.go: what the handler of a chain swap can call and change, its updates and
-- errors, and the outputs that it claims and refunds. An error keeps its own text.
use lightz_client.Base.{
  ℕ, String, Bool, true, false, ◌=ₛ◌, if◌then◌else◌, not, ◌&&◌, Option, none, some, List, ◌∷◌,
}
use lightz_client.Base.Int.{ℤ, to_int64}
use lightz_client.Float.{calculate_percentage_int64}
use lightz_client.Lightz.Types.{SwapType, SwapState, Error, Result}
use lightz_client.Onchain.Chain.{OutputArgs}
use lightz_client.Database.ChainSwap.{
  ChainSwapData, ChainSwap, Side, StoredChain, ChainExec, ChainSetter, update_chain_swap_state,
  add_chain_swap_onchain_fee, set_chain_swap_service_fee, set_chain_swap_transaction_id,
}
use lightz_client.Nursery.Handler.{value, Handler, call, ◌>>=◌}
use lightz_client.Nursery.Transactions.{Output, Env}
use lightz_client.Nursery.Submarine.World.{is_final_state, is_pending}

-- What others see of the handler, the latest first.
pub data ChainEffect : Type 0 where
  update_sent : ChainSwap → (is_final : Bool) → ChainEffect
  quote_accepted : ChainSwap → (locked : ℕ) → (amount : ℕ) → ChainEffect

pub record ChainWorld : Type 0 where
  pub stored : StoredChain
  pub effects : List ChainEffect

-- `lightz.GetChainSwapTransactionsResponse`: the ids of the transactions, where there are any.
pub record Lockups : Type 0 where
  pub user_lock : Option String
  pub server_lock : Option String

-- `lightz.Quote`
pub record Quote : Type 0 where
  pub amount : ℕ
  pub error : String

-- The server. `quote_request` is the response that a request fills, and the error of the request.
pub record ChainPeers : Type 0 where
  pub get_chain_swap_transactions : String → Result Lockups
  pub quote_request : String → Quote × Option Error
  pub accept_quote : String → Quote → Option Error

pub record ChainEnv : Type 0 where
  pub nursery : Env
  pub peers : ChainPeers
  pub exec : ChainExec
  pub begin : Option Error
  pub commit : Option Error

unfoldable pub get_chain_swap : Handler ChainWorld ChainSwap
get_chain_swap w = (value w.stored.swap, w)

unfoldable pub emit_chain : ChainEffect → Handler ChainWorld Unit
emit_chain e w = (value tt, record w { effects = e ∷ w.effects })

abbrev pub on_stored_chain : ChainSetter → ChainWorld → Option Error × ChainWorld
on_stored_chain set w = let (e, s) = set w.stored in (e, record w { stored = s })

unfoldable pub run_chain_setter : ChainSetter → Handler ChainWorld (Option Error)
run_chain_setter set = call (on_stored_chain set)

-- The `IsFinal` of `sendChainSwapUpdate`.
unfoldable pub is_final_chain : ChainSwap → Bool
is_final_chain swap =
    if swap.from_data.lockup_transaction_id =ₛ "" && not (is_pending swap.state)
    then false
    else is_final_state swap.state

unfoldable pub send_chain_swap_update : Handler ChainWorld Unit
send_chain_swap_update = do
  swap ← get_chain_swap
  emit_chain (update_sent swap (is_final_chain swap))

-- The result of the UPDATE is only logged.
unfoldable pub handle_chain_swap_error : ChainExec → Error → Handler ChainWorld Unit
handle_chain_swap_error exec e = do
  logged ← run_chain_setter (update_chain_swap_state exec SwapState.error e.text)
  send_chain_swap_update

abbrev pub chain_output_args : ChainSwapData → OutputArgs
chain_output_args data' = record {
  transaction_id = data'.lockup_transaction_id;
  currency = data'.currency;
  address = data'.lockup_address;
  blinding_key = data'.blinding_key;
  expected_amount = 0;
}

-- `if err := …; err != nil { return err }` in a callback.
abbrev pub and_then :
    Option Error × ChainWorld → (ChainWorld → Option Error × ChainWorld) → Option Error × ChainWorld
and_then (some e, w) f = (some e, w)
and_then (none, w) f = f w

abbrev pub sent_update : ChainWorld → Option Error × ChainWorld
sent_update w = (none, (send_chain_swap_update w).1)

module _ (env : ChainEnv) where
  open env use {nursery, exec}

  abbrev pub chain_service_fee : ChainSwap → ℤ
  chain_service_fee swap =
      calculate_percentage_int64 nursery.arith swap.service_fee_percent
        (to_int64 swap.from_data.amount)

  abbrev pub mark_successful : ChainWorld → Option Error × ChainWorld
  mark_successful w =
      and_then (on_stored_chain (update_chain_swap_state exec SwapState.successful "") w)
        sent_update

  unfoldable pub finalize_chain_swap : ChainWorld → Option Error × ChainWorld
  finalize_chain_swap w =
      and_then
        (on_stored_chain (set_chain_swap_service_fee exec (chain_service_fee w.stored.swap)) w)
        mark_successful

  -- The callback `setTransaction` of a claim. The log line of `finalizeChainSwap` reads `*OnchainFee`,
  -- which `AddChainSwapOnchainFee` has set by then.
  unfoldable pub set_chain_claim_transaction : String → ℕ → ChainWorld → Option Error × ChainWorld
  unfolding finalize_chain_swap
  set_chain_claim_transaction tx fee w =
      and_then (on_stored_chain (set_chain_swap_transaction_id exec Side.to_side tx) w) (λ w.
        and_then (on_stored_chain (add_chain_swap_onchain_fee exec fee) w) finalize_chain_swap)

  -- The callback `setTransaction` of a refund.
  unfoldable pub set_chain_refund_transaction : String → ℕ → ChainWorld → Option Error × ChainWorld
  set_chain_refund_transaction tx fee w =
      and_then (on_stored_chain (set_chain_swap_transaction_id exec Side.from_side tx) w) (λ w.
        and_then (on_stored_chain (update_chain_swap_state exec SwapState.refunded "") w)
          (λ w. and_then (on_stored_chain (add_chain_swap_onchain_fee exec fee) w) sent_update))

  unfoldable pub get_chain_swap_claim_output : ChainSwap → Output ChainWorld
  unfolding set_chain_claim_transaction
  get_chain_swap_claim_output swap = record {
    details = record {
      swap_id = swap.id;
      swap_type = SwapType.chain;
      address = swap.to_data.address;
      private_key = swap.to_data.private_key;
      preimage = swap.preimage;
      timeout_block_height = 0;
      swap_tree = swap.to_data.tree;
      cooperative = true;
      refund_swap_tree = some swap.from_data.tree;
      lockup_transaction = none;
      vout = 0;
    };
    wallet_id = swap.to_data.wallet_id;
    output_args = record (chain_output_args swap.to_data) { expected_amount = swap.to_data.amount };
    set_transaction = set_chain_claim_transaction;
    set_error = λ e w. (handle_chain_swap_error exec e w).1;
  }

  unfoldable pub get_chain_swap_refund_output : ChainSwap → Output ChainWorld
  unfolding set_chain_refund_transaction
  get_chain_swap_refund_output swap = record {
    details = record {
      swap_id = swap.id;
      swap_type = SwapType.chain;
      address = swap.from_data.address;
      private_key = swap.from_data.private_key;
      preimage = "";
      timeout_block_height = swap.from_data.timeout_block_height;
      swap_tree = swap.from_data.tree;
      cooperative = true;
      refund_swap_tree = none;
      lockup_transaction = none;
      vout = 0;
    };
    wallet_id = swap.from_data.wallet_id;
    output_args = chain_output_args swap.from_data;
    set_transaction = set_chain_refund_transaction;
    set_error = λ e w. (handle_chain_swap_error exec e w).1;
  }
