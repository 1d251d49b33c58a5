-- ===== src/Database/Query.antt =====
-- internal/database/database.go, `SwapQuery`, and internal/database/any.go: which rows a query selects.
-- A clause is the text that `ToWhereClauseWithExisting` builds, read as SQL reads it: AND binds tighter
-- than OR.
pub mod Tenants
use lightz_client.Base.{
  ℕ, String, Bool, true, false, ◌==◌, ◌=ₛ◌, ◌||◌, ◌&&◌, leb, any, Option, none, some, List, [], ◌∷◌,
  ◌++◌,
}
use lightz_client.Lightz.Types.{Currency, eq_currency, SwapState}

-- `lightzrpc.IncludeSwaps`
pub data IncludeSwaps : Type 0 where
  all manual auto : IncludeSwaps

-- `states` is nil (`none`) or a list; a zero time is `none`, another is in seconds, as `created_at` is.
-- The limit and the offset cut the result and select no row.
pub record SwapQuery : Type 0 where
  pub from : Option Currency
  pub to : Option Currency
  pub states : Option (List SwapState)
  pub include : IncludeSwaps
  pub since : Option ℕ
  pub tenant_id : Option ℕ

-- The columns of `allSwaps` that the conditions read.
pub record Row : Type 0 where
  pub from_currency : Currency
  pub to_currency : Currency
  pub state : SwapState
  pub is_auto : Bool
  pub created_at : ℕ
  pub tenant_id : ℕ
  pub lockup_transaction_id : String
  pub claim_transaction_id : String
  pub refund_transaction_id : String

-- One comparison of a clause.
pub data Comparison : Type 0 where
  from_is : Currency → Comparison
  to_is : Currency → Comparison
  state_in : List SwapState → Comparison
  auto_is : Bool → Comparison
  created_since : ℕ → Comparison
  tenant_is : ℕ → Comparison
  lockup_in : List String → Comparison
  claim_in : List String → Comparison
  refund_in : List String → Comparison

abbrev state_number : SwapState → ℕ
state_number SwapState.pending = 0
state_number SwapState.successful = 1
state_number SwapState.error = 2
state_number SwapState.server_error = 3
state_number SwapState.refunded = 4
state_number SwapState.abandoned = 5

abbrev pub eq_state : SwapState → SwapState → Bool
eq_state a b = state_number a == state_number b

abbrev pub eq_bool : Bool → Bool → Bool
eq_bool true b = b
eq_bool false true = false
eq_bool false false = true

unfoldable pub holds : Row → Comparison → Bool
holds r (from_is c) = eq_currency r.from_currency c
holds r (to_is c) = eq_currency r.to_currency c
holds r (state_in states) = any (eq_state r.state) states
holds r (auto_is b) = eq_bool r.is_auto b
holds r (created_since t) = leb t r.created_at
holds r (tenant_is id) = r.tenant_id == id
holds r (lockup_in txs) = any (λ tx. r.lockup_transaction_id =ₛ tx) txs
holds r (claim_in txs) = any (λ tx. r.claim_transaction_id =ₛ tx) txs
holds r (refund_in txs) = any (λ tx. r.refund_transaction_id =ₛ tx) txs

-- A condition is the text of comparisons with OR between them.
abbrev pub Condition : Type 0
Condition = List Comparison

abbrev pub optional {ℓ} : {A : Type ℓ} → (A → Comparison) → Option A → List Condition
optional f none = []
optional f (some a) = (f a ∷ []) ∷ []

abbrev pub include_conditions : IncludeSwaps → List Condition
include_conditions IncludeSwaps.all = []
include_conditions IncludeSwaps.manual = (auto_is false ∷ []) ∷ []
include_conditions IncludeSwaps.auto = (auto_is true ∷ []) ∷ []

-- The conditions of `ToWhereClauseWithExisting`, in order.
unfoldable pub conditions : SwapQuery → List Condition → List Condition
conditions q existing =
    existing
    ++ (optional from_is q.from
        ++ (optional to_is q.to
            ++ (optional state_in q.states
                ++ (include_conditions q.include
                    ++ (optional created_since q.since ++ optional tenant_is q.tenant_id)))))

-- A condition, AND, and the rest of the clause: its last comparison joins the first conjunction of the
-- rest. The result are the conjunctions that SQL finds between the ORs.
abbrev join : Condition → List (List Comparison) → List (List Comparison)
join [] rest = rest
join (c ∷ []) [] = (c ∷ []) ∷ []
join (c ∷ []) (group ∷ rest) = (c ∷ group) ∷ rest
join (c ∷ c' ∷ cs) rest = (c ∷ []) ∷ join (c' ∷ cs) rest

abbrev pub all_hold : Row → List Comparison → Bool
all_hold r [] = true
all_hold r (c ∷ cs) = holds r c && all_hold r cs

unfoldable pub conjunctions : List Condition → List (List Comparison)
conjunctions [] = []
conjunctions (c ∷ cs) = join c (conjunctions cs)

-- Without conditions there is no WHERE.
abbrev selected_by : Row → List (List Comparison) → Bool
selected_by r [] = true
selected_by r (group ∷ rest) = any (all_hold r) (group ∷ rest)

unfoldable pub selects : SwapQuery → List Condition → Row → Bool
unfolding conditions conjunctions
selects q existing r = selected_by r (conjunctions (conditions q existing))

-- `QueryAllSwaps`, before the rows are ordered and cut.
unfoldable pub query_all_swaps : SwapQuery → Row → Bool
unfolding selects
query_all_swaps q = selects q []

-- `QuerySwapsByTransactions`: its condition holds three comparisons.
unfoldable pub query_swaps_by_transactions : SwapQuery → List String → Row → Bool
unfolding selects
query_swaps_by_transactions q txs =
    selects q ((lockup_in txs ∷ claim_in txs ∷ refund_in txs ∷ []) ∷ [])
