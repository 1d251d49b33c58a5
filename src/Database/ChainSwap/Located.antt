-- ===== src/Database/ChainSwap/Located.antt =====
-- The lockup transactions that the rows of a chain swap name can be found on their chains.
use lightz_client.Base.{ℕ, String, ◌≡◌, ◌⊎◌, refl, true, false, ◌=ₛ◌, Option, none, some}
use lightz_client.Base.Int.{ℤ}
use lightz_client.Lightz.Types.{Currency, eq_currency, SwapState, Error, ok}
use lightz_client.Lightz.Events.{SwapUpdateEvent}
use lightz_client.Onchain.Chain.{Codec, Onchain, OutputArgs, OutputResult, find_output}
use lightz_client.Database.ChainSwap.{
  ChainSwapData, ChainSwap, Side, data_of, DataUpdate, set_lockup_transaction_id, set_address,
  set_amount, set_transaction_id, ChainUpdate, apply_data, set_state, set_status, set_onchain_fee,
  set_service_fee, on_data, run_chain_update, StoredChain, ChainExec, ChainSetter, run_rows, modify,
  update_chain_swap_state, update_chain_swap_status, add_chain_swap_onchain_fee,
  set_chain_swap_service_fee, write_data, set_chain_swap_amount, set_chain_swap_transaction_id,
  set_chain_swap_lockup_transaction_id,
}

-- Where the coins of one side are locked: no setter changes it.
pub record Place : Type 0 where
  pub currency : Currency
  pub address : String
  pub blinding_key : String

abbrev pub args_at : Place → String → OutputArgs
args_at p tx = record {
  transaction_id = tx;
  currency = p.currency;
  address = p.address;
  blinding_key = p.blinding_key;
  expected_amount = 0;
}

abbrev pub IsAt : Place → ChainSwapData → Type 0
IsAt p d =
    (d.currency ≡ p.currency) × (d.lockup_address ≡ p.address) × (d.blinding_key ≡ p.blinding_key)

apply_data-IsAt :
    {p : Place} (u : DataUpdate) (d : ChainSwapData) → IsAt p d → IsAt p (apply_data u d)
unfolding apply_data
apply_data-IsAt (set_address a) d h = h
apply_data-IsAt _ d h = h

eq_currency_self : (c : Currency) → eq_currency c c ≡ true
eq_currency_self Currency.btc = refl
eq_currency_self _ = refl

-- The codec and the chains that the transactions are looked up with, and the places of both sides.
pub record Sites : Type 0 where
  pub codec : Codec
  pub onchain : Onchain
  pub from : Place
  pub to : Place

-- No lockup transaction, or one that pays the address of the place.
abbrev pub IsFound : Sites → Place → String → Type 0
IsFound sites p tx =
    ((tx =ₛ "") ≡ true)
    ⊎ ((r : OutputResult) × (find_output sites.codec sites.onchain (args_at p tx) ≡ ok r))

-- Both sides are at their places, in memory and in the rows, and the lockups of the rows are found.
pub record AreLocated (sites : Sites) (mf mt rf rt : ChainSwapData) : Type 0 where
  pub distinct : eq_currency sites.from.currency sites.to.currency ≡ false
  pub distinct_back : eq_currency sites.to.currency sites.from.currency ≡ false
  pub from_at : IsAt sites.from mf
  pub to_at : IsAt sites.to mt
  pub row_from_at : IsAt sites.from rf
  pub row_to_at : IsAt sites.to rt
  pub from_found : IsFound sites sites.from rf.lockup_transaction_id
  pub to_found : IsFound sites sites.to rt.lockup_transaction_id

abbrev pub IsLocated : Sites → StoredChain → Type 0
IsLocated sites s = AreLocated sites s.swap.from_data s.swap.to_data s.row.from_data s.row.to_data

abbrev pub Locates : Sites → ChainSetter → Type 0
Locates sites set = (s : StoredChain) → IsLocated sites s → IsLocated sites (set s).1

abbrev IsPlain : ChainUpdate → Type 0
IsPlain (on_data c u) = ⊥
IsPlain _ = Unit

abbrev pub place_of : Side → Sites → Place
place_of Side.from_side sites = sites.from
place_of Side.to_side sites = sites.to

-- The update of one side keeps its lockup transaction found.
abbrev pub KeepsFound : Sites → Side → DataUpdate → ChainSwapData → Type 0
KeepsFound sites side u d =
    IsFound sites (place_of side sites) d.lockup_transaction_id
    → IsFound sites (place_of side sites) (apply_data u d).lockup_transaction_id

module _ (sites : Sites) where
  plain-AreLocated :
      (o : Option Error) (u : ChainUpdate) (r : ChainSwap) {mf mt : ChainSwapData}
      → IsPlain u
      → AreLocated sites mf mt r.from_data r.to_data
      → AreLocated sites mf mt (run_rows o u r).from_data (run_rows o u r).to_data
  unfolding run_chain_update
  plain-AreLocated (some e) u r p h = h
  plain-AreLocated none (on_data c u) r p h = elim p [ ]
  plain-AreLocated none (set_state state error) r p h = h
  plain-AreLocated none (set_status status) r p h = h
  plain-AreLocated none (set_onchain_fee fee) r p h = h
  plain-AreLocated none (set_service_fee fee) r p h = h

  from-AreLocated :
      (o : Option Error) (u : DataUpdate) (r : ChainSwap) (mf mt : ChainSwapData)
      → KeepsFound sites Side.from_side u r.from_data
      → AreLocated sites mf mt r.from_data r.to_data
      → AreLocated sites
          (apply_data u mf)
          mt
          (run_rows o (on_data mf.currency u) r).from_data
          (run_rows o (on_data mf.currency u) r).to_data
  unfolding run_chain_update
  from-AreLocated (some e) u r mf mt k h = record {
    distinct = h.distinct;
    distinct_back = h.distinct_back;
    from_at = apply_data-IsAt u mf h.from_at;
    to_at = h.to_at;
    row_from_at = h.row_from_at;
    row_to_at = h.row_to_at;
    from_found = h.from_found;
    to_found = h.to_found;
  }
  from-AreLocated none u r mf mt k h =
      let hit : eq_currency r.from_data.currency mf.currency ≡ true =
        rw (h.row_from_at.0, h.from_at.0) (eq_currency_self _) in
      let miss : eq_currency r.to_data.currency mf.currency ≡ false =
        rw (h.row_to_at.0, h.from_at.0) h.distinct_back in
      rw (hit, miss)
        (record {
          distinct = h.distinct;
          distinct_back = h.distinct_back;
          from_at = apply_data-IsAt u mf h.from_at;
          to_at = h.to_at;
          row_from_at = apply_data-IsAt u r.from_data h.row_from_at;
          row_to_at = h.row_to_at;
          from_found = k h.from_found;
          to_found = h.to_found;
        })

  to-AreLocated :
      (o : Option Error) (u : DataUpdate) (r : ChainSwap) (mf mt : ChainSwapData)
      → KeepsFound sites Side.to_side u r.to_data
      → AreLocated sites mf mt r.from_data r.to_data
      → AreLocated sites mf
          (apply_data u mt)
          (run_rows o (on_data mt.currency u) r).from_data
          (run_rows o (on_data mt.currency u) r).to_data
  unfolding run_chain_update
  to-AreLocated (some e) u r mf mt k h = record {
    distinct = h.distinct;
    distinct_back = h.distinct_back;
    from_at = h.from_at;
    to_at = apply_data-IsAt u mt h.to_at;
    row_from_at = h.row_from_at;
    row_to_at = h.row_to_at;
    from_found = h.from_found;
    to_found = h.to_found;
  }
  to-AreLocated none u r mf mt k h =
      let hit : eq_currency r.to_data.currency mt.currency ≡ true =
        rw (h.row_to_at.0, h.to_at.0) (eq_currency_self _) in
      let miss : eq_currency r.from_data.currency mt.currency ≡ false =
        rw (h.row_from_at.0, h.to_at.0) h.distinct in
      rw (hit, miss)
        (record {
          distinct = h.distinct;
          distinct_back = h.distinct_back;
          from_at = h.from_at;
          to_at = apply_data-IsAt u mt h.to_at;
          row_from_at = h.row_from_at;
          row_to_at = apply_data-IsAt u r.to_data h.row_to_at;
          from_found = h.from_found;
          to_found = k h.to_found;
        })

  -- An assignment in memory alone.
  pub modify-IsLocated :
      (side : Side) (tx : String) (s : StoredChain)
      → IsLocated sites s
      → IsLocated sites (record s { swap = modify side (set_lockup_transaction_id tx) s.swap })
  unfolding modify apply_data
  modify-IsLocated Side.from_side tx s h = record {
    distinct = h.distinct;
    distinct_back = h.distinct_back;
    from_at = h.from_at;
    to_at = h.to_at;
    row_from_at = h.row_from_at;
    row_to_at = h.row_to_at;
    from_found = h.from_found;
    to_found = h.to_found;
  }
  modify-IsLocated Side.to_side tx s h = record {
    distinct = h.distinct;
    distinct_back = h.distinct_back;
    from_at = h.from_at;
    to_at = h.to_at;
    row_from_at = h.row_from_at;
    row_to_at = h.row_to_at;
    from_found = h.from_found;
    to_found = h.to_found;
  }

  module _ (exec : ChainExec) where
    pub update_chain_swap_state-Locates :
        (state : SwapState) (error : String)
        → Locates sites (update_chain_swap_state exec state error)
    unfolding update_chain_swap_state
    update_chain_swap_state-Locates state error s =
        plain-AreLocated (exec (set_state state error)) (set_state state error) s.row tt

    pub update_chain_swap_status-Locates :
        (status : SwapUpdateEvent) → Locates sites (update_chain_swap_status exec status)
    unfolding update_chain_swap_status
    update_chain_swap_status-Locates status s =
        plain-AreLocated (exec (set_status status)) (set_status status) s.row tt

    pub add_chain_swap_onchain_fee-Locates :
        (fee : ℕ) → Locates sites (add_chain_swap_onchain_fee exec fee)
    unfolding add_chain_swap_onchain_fee
    add_chain_swap_onchain_fee-Locates fee s =
        plain-AreLocated (exec _) (set_onchain_fee _) s.row tt

    pub set_chain_swap_service_fee-Locates :
        (fee : ℤ) → Locates sites (set_chain_swap_service_fee exec fee)
    unfolding set_chain_swap_service_fee
    set_chain_swap_service_fee-Locates fee s =
        plain-AreLocated (exec (set_service_fee fee)) (set_service_fee fee) s.row tt

    write_data-IsLocated :
        (side : Side) (u : DataUpdate) (s : StoredChain)
        → KeepsFound sites side u (data_of side s.row)
        → IsLocated sites s
        → IsLocated sites (write_data exec side u s).1
    unfolding write_data
    write_data-IsLocated Side.from_side u s k h =
        from-AreLocated (exec (on_data s.swap.from_data.currency u)) u s.row s.swap.from_data
          s.swap.to_data k h
    write_data-IsLocated Side.to_side u s k h =
        to-AreLocated (exec (on_data s.swap.to_data.currency u)) u s.row s.swap.from_data
          s.swap.to_data k h

    pub set_chain_swap_amount-Locates :
        (side : Side) (amount : ℕ) → Locates sites (set_chain_swap_amount exec side amount)
    unfolding set_chain_swap_amount apply_data
    set_chain_swap_amount-Locates side amount s =
        write_data-IsLocated side (set_amount amount) s (λ f. f)

    pub set_chain_swap_transaction_id-Locates :
        (side : Side) (tx : String) → Locates sites (set_chain_swap_transaction_id exec side tx)
    unfolding set_chain_swap_transaction_id apply_data
    set_chain_swap_transaction_id-Locates side tx s =
        write_data-IsLocated side (set_transaction_id tx) s (λ f. f)

    pub set_chain_swap_lockup_transaction_id-Locates :
        (side : Side) (tx : String)
        → IsFound sites (place_of side sites) tx
        → Locates sites (set_chain_swap_lockup_transaction_id exec side tx)
    unfolding set_chain_swap_lockup_transaction_id apply_data
    set_chain_swap_lockup_transaction_id-Locates side tx found s =
        write_data-IsLocated side (set_lockup_transaction_id tx) s (λ f. found)
