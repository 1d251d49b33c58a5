-- ===== src/Database/Query/Tenants.antt =====
-- Which rows a query on swaps selects, and of which tenants.
use lightz_client.Base.{
  String, ◌≡◌, refl, ◌∙◌, Bool, true, false, ◌==◌, ◌=ₛ◌, ◌&&◌, ◌||◌, leb, any, Option, none, some,
  List, [], ◌∷◌, ◌++◌, arith,
}
use lightz_client.Lightz.Types.{eq_currency}
use lightz_client.Database.Query.{
  IncludeSwaps, SwapQuery, Row, Comparison, eq_state, eq_bool, holds, Condition, optional,
  include_conditions, conditions, join, conjunctions, selected_by, query_all_swaps,
  query_swaps_by_transactions,
}

abbrev meets {ℓ} : {A : Type ℓ} → (A → Bool) → Option A → Bool
meets p none = true
meets p (some a) = p a

abbrev is_included : IncludeSwaps → Bool → Bool
is_included IncludeSwaps.all b = true
is_included IncludeSwaps.manual b = eq_bool b false
is_included IncludeSwaps.auto b = eq_bool b true

-- What the query asks for.
abbrev pub meets_query : SwapQuery → Row → Bool
meets_query q r =
    meets (eq_currency r.from_currency) q.from
    && (meets (eq_currency r.to_currency) q.to
        && (meets (any (eq_state r.state)) q.states
            && (is_included q.include r.is_auto
                && (meets (λ t. leb t r.created_at) q.since
                    && meets (λ id. r.tenant_id == id) q.tenant_id))))

-- Each condition is a single comparison.
abbrev AreSingle : List Condition → Type 0
AreSingle [] = Unit
AreSingle ((c ∷ []) ∷ cs) = AreSingle cs
AreSingle _ = ⊥

module _ (r : Row) where
  -- What the conditions mean to say.
  abbrev satisfied : List Condition → Bool
  satisfied [] = true
  satisfied (c ∷ cs) = any (holds r) c && satisfied cs

  -- At most one conjunction.
  abbrev IsShort : List (List Comparison) → Type 0
  IsShort [] = Unit
  IsShort (g ∷ []) = Unit
  IsShort _ = ⊥

  joined-satisfied :
      (c : Comparison) (rest : List (List Comparison)) (b : Bool)
      → IsShort rest
      → selected_by r rest ≡ b
      → IsShort (join (c ∷ []) rest)
        × (selected_by r (join (c ∷ []) rest) ≡ ((holds r c || false) && b))
  joined-satisfied c [] b short h = (tt, ground arith)
  joined-satisfied c (g ∷ []) b short h = (tt, ground arith)
  joined-satisfied c (g ∷ g' ∷ gs) b short h = elim short [ ]

  conjunctions-satisfied :
      (cs : List Condition)
      → AreSingle cs
      → IsShort (conjunctions cs) × (selected_by r (conjunctions cs) ≡ satisfied cs)
  unfolding conjunctions
  conjunctions-satisfied [] single = (tt, refl)
  conjunctions-satisfied ([] ∷ cs) single = elim single [ ]
  conjunctions-satisfied ((c ∷ []) ∷ cs) single =
      let (short, h) = conjunctions-satisfied cs single in
      joined-satisfied c (conjunctions cs) (satisfied cs) short h
  conjunctions-satisfied ((c ∷ c' ∷ more) ∷ cs) single = elim single [ ]

  satisfied-append :
      (cs ds : List Condition) → satisfied (cs ++ ds) ≡ (satisfied cs && satisfied ds)
  satisfied-append [] ds = refl
  satisfied-append (c ∷ cs) ds = ground (arith, satisfied-append cs ds)

  satisfied-optional :
      {A : Type 0} (f : A → Comparison) (o : Option A)
      → satisfied (optional f o) ≡ meets (λ a. holds r (f a)) o
  satisfied-optional f none = refl
  satisfied-optional f (some a) = ground arith

  satisfied-include :
      (include : IncludeSwaps)
      → satisfied (include_conditions include) ≡ is_included include r.is_auto
  unfolding holds
  satisfied-include IncludeSwaps.all = refl
  satisfied-include IncludeSwaps.manual = ground arith
  satisfied-include IncludeSwaps.auto = ground arith

AreSingle-append : (cs ds : List Condition) → AreSingle cs → AreSingle ds → AreSingle (cs ++ ds)
AreSingle-append [] ds p q = q
AreSingle-append ([] ∷ cs) ds p q = elim p [ ]
AreSingle-append ((c ∷ []) ∷ cs) ds p q = AreSingle-append cs ds p q
AreSingle-append ((c ∷ c' ∷ more) ∷ cs) ds p q = elim p [ ]

AreSingle-optional : {A : Type 0} (f : A → Comparison) (o : Option A) → AreSingle (optional f o)
AreSingle-optional f none = tt
AreSingle-optional f (some a) = tt

AreSingle-include : (include : IncludeSwaps) → AreSingle (include_conditions include)
AreSingle-include IncludeSwaps.all = tt
AreSingle-include IncludeSwaps.manual = tt
AreSingle-include IncludeSwaps.auto = tt

AreSingle-conditions : (q : SwapQuery) → AreSingle (conditions q [])
unfolding conditions
AreSingle-conditions q = search (AreSingle-append, AreSingle-optional, AreSingle-include) depth 16

satisfied-conditions : (q : SwapQuery) (r : Row) → satisfied r (conditions q []) ≡ meets_query q r
unfolding conditions holds
satisfied-conditions q r = simp (satisfied-append, satisfied-optional, satisfied-include)

-- A query on all swaps selects the rows that meet every filter that it has, and no other: in particular
-- only those of its tenant.
pub query_all_swaps-exact : (q : SwapQuery) (r : Row) → query_all_swaps q r ≡ meets_query q r
unfolding query_all_swaps
query_all_swaps-exact q r =
    (conjunctions-satisfied r (conditions q []) (AreSingle-conditions q)).1
    ∙ satisfied-conditions q r

-- A conjunction of one comparison that holds selects the row.
selected_by-head :
    (r : Row) (a b : Comparison) (rest : List (List Comparison))
    → (holds r a || holds r b) ≡ true
    → selected_by r ((a ∷ []) ∷ (b ∷ []) ∷ rest) ≡ true
selected_by-head r a b rest h = ground arith

-- A query by transactions selects every row whose lockup or claim transaction is one of them, whatever
-- filters it has, the tenant among them.
pub query_swaps_by_transactions-leaks :
    (q : SwapQuery) (txs : List String) (r : Row)
    → (any (λ tx. r.lockup_transaction_id =ₛ tx) txs
        || any (λ tx. r.claim_transaction_id =ₛ tx) txs)
      ≡ true
    → query_swaps_by_transactions q txs r ≡ true
unfolding query_swaps_by_transactions conditions conjunctions holds
query_swaps_by_transactions-leaks q txs r h = search selected_by-head
