-- ===== src/Tests/Queries.antt =====
-- Concrete inputs of the theorems on queries.
use lightz_client.Base.{◌≡◌, refl, true, false, none, some, [], ◌∷◌}
use lightz_client.Lightz.Types.{Currency, SwapState}
use lightz_client.Database.Query.{
  IncludeSwaps, SwapQuery, Row, query_all_swaps, query_swaps_by_transactions,
}
use lightz_client.Database.Query.Tenants.{
  meets_query, query_all_swaps-exact, query_swaps_by_transactions-leaks,
}

abbrev pending_of_two : SwapQuery
pending_of_two = record {
  from = some Currency.btc;
  to = none;
  states = some (SwapState.pending ∷ []);
  include = IncludeSwaps.manual;
  since = none;
  tenant_id = some 2;
}

-- A swap of the first tenant.
abbrev row_of_one : Row
row_of_one = record {
  from_currency = Currency.btc;
  to_currency = Currency.liquid;
  state = SwapState.pending;
  is_auto = false;
  created_at = 5;
  tenant_id = 1;
  lockup_transaction_id = "lockup";
  claim_transaction_id = "";
  refund_transaction_id = "";
}

query_all_swaps-exact_example :
    query_all_swaps pending_of_two row_of_one ≡ meets_query pending_of_two row_of_one
query_all_swaps-exact_example = query_all_swaps-exact pending_of_two row_of_one

query_swaps_by_transactions-leaks_example :
    query_swaps_by_transactions pending_of_two ("lockup" ∷ []) row_of_one ≡ true
query_swaps_by_transactions-leaks_example =
    query_swaps_by_transactions-leaks pending_of_two ("lockup" ∷ []) row_of_one refl
