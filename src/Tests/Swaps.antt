-- ===== src/Tests/Swaps.antt =====
-- Concrete inputs of the theorems on submarine swaps and their transactions.
use lightz_client.Base.{true, ◌⊎◌, ◌+◌, add64, arith, ℕ, map, ◌≡◌, refl, none, some, List, [], ◌∷◌}
use lightz_client.Float.{millionths}
use lightz_client.Lightz.Types.{Currency, Result, ok, err}
use lightz_client.Lightz.Events.{transaction_claim_pending, parse_event}
use lightz_client.Onchain.Chain.{
  Transaction, fetch, get_currency, get_transaction, new_tx_from_hex, find_output, estimate_fee,
  broadcast_transaction,
}
use lightz_client.Nursery.Handler.{
  value, done, panic, pure, stop, call, when, branch, on_result, on_error, or_crash, ◌>>=◌,
}
use lightz_client.Nursery.Transactions.{
  OutputDetails, Output, Env, set_err, apply_to_wallet, output_address, populate, populate_outputs,
  handle_err, settle, finish, broadcast_outputs, build, create_transaction,
}
use lightz_client.Nursery.Transactions.OutValues.{add_value, spend, divide, get_out_values}
use lightz_client.Nursery.Transactions.OutValues.Conservation.{total, get_out_values-total}
use lightz_client.Nursery.Transactions.Broadcast.{
  IsBuilt, create_transaction-IsBroadcast, create_transaction-panics,
}
use lightz_client.Nursery.Submarine.World.{
  World, get_swap, emit, run_setter, send_swap_update, handle_swap_error, fail, ok_or_fail,
}
use lightz_client.Nursery.Submarine.Claim.{claim_pending, complete}
use lightz_client.Nursery.Submarine.Status.{
  load, is_repeated, on_event, process_status, handle_swap_status,
}
use lightz_client.Nursery.Submarine.Invariant.{
  start, event, Reaches-Inv, handle_swap_status-HasFailed,
}
use lightz_client.Nursery.Submarine.Invariant.Rules.{Inv, HasFailed}
use lightz_client.Nursery.Submarine.Completion.{Ends, IsCompleted, complete-IsCompleted}
use lightz_client.Tests.Fixtures.{broken, lockup_tx, env, counting_output, world, swap_env}

world-Inv : Inv swap_env world
world-Inv = record { synced = λ q. refl; justified = tt }

-- The server reports the lockup, and then that it claimed.
abbrev after_mempool : World
after_mempool = (handle_swap_status swap_env "transaction.mempool" (load world)).1

abbrev after_claim : World
after_claim = (handle_swap_status swap_env "transaction.claimed" (load after_mempool)).1

Reaches-Inv_example : Inv swap_env after_claim
Reaches-Inv_example =
    Reaches-Inv swap_env world-Inv (event "transaction.claimed" (event "transaction.mempool" start))

-- The fixture's server gives no pairs.
claim_pending-stops : (handle_swap_status swap_env "transaction.claim.pending" world).0 ≡ done
unfolding handle_swap_status process_status on_event claim_pending get_swap when branch ok_or_fail
    fail handle_swap_error run_setter call send_swap_update emit stop pure ◌>>=◌ parse_event
claim_pending-stops = refl

handle_swap_status-HasFailed_example :
    ((is_repeated transaction_claim_pending world.stored.swap ≡ true)
      × ((handle_swap_status swap_env "transaction.claim.pending" world).1 ≡ world))
    ⊎ HasFailed (handle_swap_status swap_env "transaction.claim.pending" world).1
unfolding parse_event
handle_swap_status-HasFailed_example =
    handle_swap_status-HasFailed swap_env "transaction.claim.pending" world world-Inv
      claim_pending-stops

complete-IsCompleted_example : Ends (λ x. IsCompleted swap_env world) (complete swap_env world)
complete-IsCompleted_example = complete-IsCompleted swap_env world

created : (create_transaction env Currency.btc (counting_output ∷ []) 0).0 ≡ value ("txid", none)
unfolding create_transaction build broadcast_outputs finish settle handle_err populate_outputs
    populate output_address find_output get_transaction fetch get_currency new_tx_from_hex
    estimate_fee broadcast_transaction set_err apply_to_wallet pure call branch on_result on_error
    or_crash ◌>>=◌
created = refl

abbrev valid_details : List OutputDetails
valid_details = map (λ (x : Output ℕ). x.details) (populate_outputs env (counting_output ∷ []) 0).0

create_transaction-IsBroadcast_example :
    (tx : Transaction) × IsBuilt env Currency.btc valid_details tx
    × (broadcast_transaction env.codec env.onchain tx ≡ ok "txid")
create_transaction-IsBroadcast_example =
    create_transaction-IsBroadcast env Currency.btc (counting_output ∷ []) 0 "txid" created

-- `ConstructTransaction` as the source has it: an error comes without results.
abbrev unbuilt_env : Env
unbuilt_env = record env { construct = λ currency outputs rate. (none, err broken) }

abbrev located_output : Output ℕ
located_output = record counting_output {
  details = record counting_output.details { lockup_transaction = some lockup_tx; vout = 0 };
}

located : (populate_outputs unbuilt_env (counting_output ∷ []) 0).0 ≡ located_output ∷ []
unfolding populate_outputs populate output_address find_output get_transaction fetch get_currency
    new_tx_from_hex
located = refl

estimated : estimate_fee millionths unbuilt_env.onchain Currency.btc ≡ ok (millionths.ratio 3 1)
unfolding estimate_fee get_currency
estimated = refl

create_transaction-panics_example :
    create_transaction unbuilt_env Currency.btc (counting_output ∷ []) 0
    ≡ (panic, (populate_outputs unbuilt_env (counting_output ∷ []) 0).1)
create_transaction-panics_example =
    create_transaction-panics unbuilt_env Currency.btc (counting_output ∷ []) 0 located_output []
      (millionths.ratio 3 1) broken located estimated refl

-- Two outputs of 50000 to one address share a fee of 1001.
abbrev two_outputs : List OutputDetails
two_outputs = counting_output.details ∷ record counting_output.details { swap_id = "s2" } ∷ []

abbrev worth : OutputDetails → Result ℕ
worth o = ok 50000

out_values-two : (get_out_values worth two_outputs 1001 []).0 ≡ ("bc1refund", 98999) ∷ []
unfolding get_out_values divide spend add_value add64
out_values-two = refl

get_out_values-total_example : total (get_out_values worth two_outputs 1001 []).0 + 1001 ≡ 100000
get_out_values-total_example =
    get_out_values-total worth two_outputs 1001 100000 [] (omega arith)
      (
        50000,
        50000,
        refl,
        omega arith,
        omega arith,
        (50000, 0, refl, omega arith, omega arith, omega arith),
      )
      (omega arith)
