-- ===== src/Tests/ChainSwaps.antt =====
-- Concrete inputs of the theorems on chain swaps.
use lightz_client.Base.{◌≡◌, refl, inl, ◌⊎◌, true, false, none, some, []}
use lightz_client.Lightz.Types.{Currency, SwapState, ok}
use lightz_client.Lightz.Events.{swap_created, swap_expired, parse_event}
use lightz_client.Onchain.Chain.{Onchain}
use lightz_client.Database.ChainSwap.{
  ChainSwapData, ChainSwap, update_chain_swap_status, update_chain_swap_state,
  set_chain_swap_transaction_id, add_chain_swap_onchain_fee, set_chain_swap_service_fee,
}
use lightz_client.Database.ChainSwap.Located.{Place}
use lightz_client.Nursery.Handler.{done, pure, stop, call, when, branch, on_result, ◌>>=◌}
use lightz_client.Nursery.Handler.Failing.{fail, or_fail}
use lightz_client.Nursery.ChainSwaps.World.{
  ChainWorld, ChainEnv, get_chain_swap, emit_chain, run_chain_setter, send_chain_swap_update,
  handle_chain_swap_error, set_chain_claim_transaction,
}
use lightz_client.Nursery.ChainSwaps.Lockup.{
  fetch_lockups, set_lockups, set_chain_swap_lockup_transaction,
}
use lightz_client.Nursery.ChainSwaps.Status.{
  is_repeated_chain, on_chain_event, process_chain_status, handle_chain_swap_status,
}
use lightz_client.Nursery.ChainSwaps.Blocks.{load, check_claimable_chain}
use lightz_client.Nursery.ChainSwaps.Claim.{IsClaimed, set_chain_claim_transaction-IsClaimed}
use lightz_client.Nursery.ChainSwaps.Invariant.{
  start, event, claim, ReachesChain-Inv, handle_chain_swap_status-HasFailed,
}
use lightz_client.Nursery.ChainSwaps.Invariant.Rules.{Inv, HasFailed}
use lightz_client.Tests.Fixtures.{percent, broken, provider, env}

abbrev both_chains : Onchain
both_chains = record {
  btc = some (record { provider = provider; height = 100 });
  liquid = some (record { provider = provider; height = 900 });
}

abbrev from_data : ChainSwapData
from_data = record {
  id = "c1";
  currency = Currency.btc;
  private_key = "key";
  their_public_key = "pub";
  blinding_key = "";
  tree = "tree";
  amount = 50000;
  timeout_block_height = 144;
  lockup_transaction_id = "";
  transaction_id = "";
  refund_transaction_id = "";
  wallet_id = none;
  address = "bc1refund";
  lockup_address = "bc1lockup";
}

abbrev to_data : ChainSwapData
to_data = record from_data {
  currency = Currency.liquid;
  blinding_key = "blind";
  amount = 49000;
  address = "lq1claim";
  lockup_address = "lq1lockup";
}

abbrev chain_swap : ChainSwap
chain_swap = record {
  id = "c1";
  pair = record { from = Currency.btc; to = Currency.liquid };
  state = SwapState.pending;
  error = "";
  status = swap_created;
  accept_zero_conf = true;
  preimage = "preimage";
  is_auto = false;
  service_fee = none;
  service_fee_percent = percent 1;
  onchain_fee = none;
  created_at = 0;
  tenant_id = 1;
  from_data = from_data;
  to_data = to_data;
}

abbrev chain_world : ChainWorld
chain_world = record { stored = record { swap = chain_swap; row = chain_swap }; effects = [] }

abbrev chain_env : ChainEnv
chain_env = record {
  nursery = record env { onchain = both_chains };
  peers = record {
    get_chain_swap_transactions =
        λ id. ok (record { user_lock = some "lockup"; server_lock = some "serverlock" });
    quote_request = λ id. (record { amount = 48000; error = "" }, none);
    accept_quote = λ id quote. none;
  };
  exec = λ u. none;
  begin = none;
  commit = none;
}

abbrev from_place : Place
from_place = record { currency = Currency.btc; address = "bc1lockup"; blinding_key = "" }

abbrev to_place : Place
to_place = record { currency = Currency.liquid; address = "lq1lockup"; blinding_key = "blind" }

chain_world-Inv : (e : ChainEnv) → Inv e from_place to_place chain_world
chain_world-Inv e = record {
  located = record {
    distinct = refl;
    distinct_back = refl;
    from_at = (refl, refl, refl);
    to_at = (refl, refl, refl);
    row_from_at = (refl, refl, refl);
    row_to_at = (refl, refl, refl);
    from_found = inl refl;
    to_found = inl refl;
  };
  justified = tt;
}

-- The lockup fails, the swap gets a new quote, the server locks, and the next block claims.
abbrev after_quote : ChainWorld
after_quote = (handle_chain_swap_status chain_env "transaction.lockupFailed" (load chain_world)).1

abbrev after_lock : ChainWorld
after_lock = (handle_chain_swap_status chain_env "transaction.server.mempool" (load after_quote)).1

abbrev after_block : ChainWorld
after_block = (check_claimable_chain chain_env Currency.liquid (load after_lock)).1

ReachesChain-Inv_example : Inv chain_env from_place to_place after_block
ReachesChain-Inv_example =
    ReachesChain-Inv chain_env from_place to_place (chain_world-Inv chain_env) (
      claim Currency.liquid
        (event "transaction.server.mempool" (event "transaction.lockupFailed" start)))

-- SQLite refuses every statement.
abbrev readonly_env : ChainEnv
readonly_env = record chain_env {
  peers = record chain_env.peers {
    get_chain_swap_transactions = λ id. ok (record { user_lock = none; server_lock = none });
  };
  exec = λ u. some broken;
}

expired-stops : (handle_chain_swap_status readonly_env "swap.expired" chain_world).0 ≡ done
unfolding handle_chain_swap_status process_chain_status get_chain_swap branch when fetch_lockups
    set_lockups set_chain_swap_lockup_transaction on_result on_chain_event ◌>>=◌ parse_event pure
    stop fail or_fail handle_chain_swap_error run_chain_setter call send_chain_swap_update
    emit_chain update_chain_swap_status
expired-stops = refl

handle_chain_swap_status-HasFailed_example :
    ((is_repeated_chain swap_expired chain_swap ≡ true)
      × ((handle_chain_swap_status readonly_env "swap.expired" chain_world).1 ≡ chain_world))
    ⊎ HasFailed (handle_chain_swap_status readonly_env "swap.expired" chain_world).1
unfolding parse_event
handle_chain_swap_status-HasFailed_example =
    handle_chain_swap_status-HasFailed readonly_env from_place to_place "swap.expired" chain_world
      (chain_world-Inv readonly_env) expired-stops

abbrev after_claim : ChainWorld
after_claim = (set_chain_claim_transaction chain_env "claim" 300 chain_world).1

claim-succeeds : set_chain_claim_transaction chain_env "claim" 300 chain_world ≡ (none, after_claim)
unfolding set_chain_claim_transaction set_chain_swap_transaction_id add_chain_swap_onchain_fee
    set_chain_swap_service_fee update_chain_swap_state
claim-succeeds = refl

set_chain_claim_transaction-IsClaimed_example :
    IsClaimed chain_env "claim" 300 chain_world after_claim
set_chain_claim_transaction-IsClaimed_example =
    set_chain_claim_transaction-IsClaimed chain_env "claim" 300 chain_world after_claim
      claim-succeeds
