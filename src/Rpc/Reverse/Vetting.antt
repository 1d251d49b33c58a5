-- ===== src/Rpc/Reverse/Vetting.antt =====
-- A reverse swap is stored only if what the server answered passed every check.
pub mod Outcomes
pub mod Paid
pub mod Repriced
use lightz_client.Base.{
  ℕ, String, Bool, ◌≡◌, refl, ap, ◌≢◌, if◌then◌else◌, true, false, ◌=ₛ◌, Option, none, some, ◌∷◌,
  inl, inr, ◌⊎◌, arith, eq_iff, List,
}
use lightz_client.Lightz.Types.{Pair, Error, errorf, Result, ok, err, SwapType, Currency}
use lightz_client.Lightz.SwapTree.{SwapTree, init_tree, check_tree}
use lightz_client.Lightz.SwapTree.Spending.{IsSafe, check_tree-IsSafe}
use lightz_client.Database.ReverseSwap.{ReverseSwap, Held}
use lightz_client.Nursery.Amounts.{nursery_check_amounts}
use lightz_client.Nursery.Reverse.Payment.{pay_reverse_swap}
use lightz_client.Rpc.Request.{
  Request, Answer, answer, fails, panics, follow, Leads, bind-Leads, require-Leads, give-Leads,
  need-Leads, ◌>>=◌, ◌>>◌, pure, give, require, need,
}
use lightz_client.Rpc.Reverse.{
  Proposal, Destination, deserialize, SerializedTree, PairInfo, CreateReverseSwapRequest, Response,
  Invoice, ServerEnv, Server, check_payment_hash, invoice_msat,
}
use lightz_client.Rpc.Reverse.Steps.{
  new_keys, accept_pair, get_reverse_pair, choose_destination, send_proposal, row_of, check_address,
  insert_row, announced, insert_answer, register_answer, register_reverse_swap, blinding_of,
}
use lightz_client.Rpc.Reverse.Creation.{
  Draft, swap_of, store_swap, vet, agree, respond, conclude, waits, create_reverse_swap,
}

-- The response answers a proposal for the amount of the request and the hash of the preimage.
pub record IsAnswer (env : ServerEnv) (request : CreateReverseSwapRequest) (response : Response)
    (preimage : String) : Type 0 where
  pub asked : Proposal
  pub answered : env.propose asked ≡ ok response
  pub amount : asked.invoice_amount ≡ request.amount
  pub preimage_hash : asked.preimage_hash ≡ env.reverse.libraries.sha256 preimage

-- What the checks find out: the tree is ours and safe, the lockup address is its address, the amounts
-- pass, and the invoice is paid by the preimage.
pub record IsVetted (env : ServerEnv) (request : CreateReverseSwapRequest) (response : Response)
    (s : ReverseSwap) : Type 0 where
  pub answers : IsAnswer env request response s.preimage
  pub tree : SwapTree
  pub stored : s.swap_tree ≡ env.format_tree tree
  pub safe :
      IsSafe env.scripts tree SwapType.reverse s.timeout_block_height
        (env.reverse.libraries.sha256 s.preimage)
  pub claims : tree.is_claim ≡ true
  pub our_key : tree.our_key ≡ env.public_key s.private_key
  pub address : env.tree_address tree s.blinding_key ≡ ok response.lockup_address
  pub amounts :
      nursery_check_amounts env.reverse.nursery SwapType.reverse s.pair request.amount
        s.onchain_amount s.service_fee_percent
      ≡ none
  pub decoded : Invoice
  pub is_decoded : env.decode_invoice s.invoice ≡ ok decoded
  pub hash : decoded.payment_hash ≡ env.reverse.libraries.sha256 s.preimage
  pub msat : ℕ
  pub has_amount : decoded.milli_sat ≡ some msat
  pub invoice_amount : s.invoice_amount ≡ env.reverse.libraries.to_sat msat
  pub named : s.id ≡ response.id

init_tree-ours :
    (currency : Currency) (our theirs : String) (sent tree : SwapTree)
    → init_tree currency true our theirs sent ≡ ok tree
    → (tree.is_claim ≡ true) × (tree.our_key ≡ our)
unfolding init_tree
init_tree-ours Currency.btc our theirs sent tree h = (cc, cc)
init_tree-ours Currency.liquid our theirs sent tree h = (cc, cc)
init_tree-ours Currency.rootstock our theirs sent tree h = cc
init_tree-ours Currency.unset our theirs sent tree h = cc

check_address-none :
    (env : ServerEnv) (tree : SwapTree) (blinding expected : String)
    → check_address env tree blinding expected ≡ none
    → env.tree_address tree blinding ≡ ok expected
unfolding check_address
check_address-none env tree blinding expected h = found (env.tree_address tree blinding) h
  where
    found :
        (r : Result String)
        → (elim r [
          | err e ↦ some e
          | ok encoded ↦ if encoded =ₛ expected then none else some (errorf "unexpected address")
        ])
          ≡ none
        → r ≡ ok expected
    found (err e) h = cc
    found (ok encoded) h = ground (arith, eq_iff encoded expected)

check_payment_hash-none :
    (invoice : Invoice) (hash : String)
    → check_payment_hash invoice hash ≡ none
    → invoice.payment_hash ≡ hash
unfolding check_payment_hash
check_payment_hash-none invoice hash h = ground (arith, eq_iff hash invoice.payment_hash)

invoice_msat-ok :
    (invoice : Invoice) (msat : ℕ) → invoice_msat invoice ≡ ok msat → invoice.milli_sat ≡ some msat
unfolding invoice_msat
invoice_msat-ok invoice msat h = ground arith

module _ (env : ServerEnv) (request : CreateReverseSwapRequest) (rows : List ReverseSwap)
    (handed : List Held) where
  -- Nothing is stored or handed to the nursery yet.
  pub record IsUntouched (w : Server) : Type 0 where
    pub rows_same : w.rows ≡ rows
    pub handed_same : w.handed ≡ handed

  -- A vetted swap is stored, and it may have been handed to the nursery, which was told of it and
  -- registered it to be paid.
  pub record IsStored (w : Server) : Type 0 where
    pub swap : ReverseSwap
    pub response : Response
    pub vetted : IsVetted env request response swap
    pub rows_grown : w.rows ≡ row_of env.reverse.now swap ∷ rows
    pub handed_grown :
        (w.handed ≡ handed)
        ⊎ (w.handed ≡ (pay_reverse_swap env.reverse (announced env swap)).1 ∷ handed)

  abbrev pub Outcome : Server → Type 0
  Outcome w = IsUntouched w ⊎ IsStored w

  pub untouched : (w : Server) → IsUntouched w → Outcome w
  untouched w p = inl p

  register-stores :
      (response : Response) (s : ReverseSwap) (o : Option Error) (w : Server)
      → IsVetted env request response s
      → w.rows ≡ row_of env.reverse.now s ∷ rows
      → w.handed ≡ handed
      → IsStored (register_answer env o s w).1
  register-stores response s (some e) w v grown same = record {
    swap = s;
    response = response;
    vetted = v;
    rows_grown = grown;
    handed_grown = inl same;
  }
  register-stores response s none w v grown same = record {
    swap = s;
    response = response;
    vetted = v;
    rows_grown = grown;
    handed_grown = inr (ap (λ hs. (pay_reverse_swap env.reverse (announced env s)).1 ∷ hs) same);
  }

  insert-stores :
      (response : Response) (s : ReverseSwap) (o : Option Error)
      → IsVetted env request response s
      → Leads IsUntouched Outcome (insert_answer env o s >> register_reverse_swap env s)
  unfolding register_reverse_swap ◌>>=◌
  insert-stores response s (some e) v w p = inl p
  insert-stores response s none v w p = inr (
      register-stores response s env.register _ v
        (ap (λ rs. row_of env.reverse.now s ∷ rs) p.rows_same) p.handed_same)

  store_swap-Leads :
      (response : Response) (s : ReverseSwap)
      → IsVetted env request response s
      → Leads IsUntouched Outcome (store_swap env s)
  unfolding store_swap insert_row
  store_swap-Leads response s = insert-stores response s env.insert

reverse-IsSet : SwapType.reverse ≢ SwapType.unset
reverse-IsSet = ground arith

module _ (env : ServerEnv) (d : Draft) where
  swap_of-IsVetted :
      IsAnswer env d.request d.response d.preimage
      → (sent tree : SwapTree) (invoice : Invoice) (msat : ℕ)
      → init_tree d.pair.to true (env.public_key d.key) d.their_key sent ≡ ok tree
      → check_tree env.scripts tree SwapType.reverse d.response.timeout_block_height
          (env.reverse.libraries.sha256 d.preimage)
        ≡ none
      → check_address env tree (blinding_of env d.pair d.response) d.response.lockup_address ≡ none
      → nursery_check_amounts env.reverse.nursery SwapType.reverse d.pair d.request.amount
          d.response.onchain_amount d.percentage
        ≡ none
      → env.decode_invoice d.response.invoice ≡ ok invoice
      → check_payment_hash invoice (env.reverse.libraries.sha256 d.preimage) ≡ none
      → invoice_msat invoice ≡ ok msat
      → IsVetted env d.request d.response (swap_of env d tree (env.reverse.libraries.to_sat msat))
  unfolding swap_of
  swap_of-IsVetted answers sent tree invoice msat is_tree safe address amounts is_invoice hash
        is_msat =
      let (claims, ours) = init_tree-ours d.pair.to _ d.their_key sent tree is_tree in
      record {
        answers = answers;
        tree = tree;
        stored = refl;
        safe = check_tree-IsSafe env.scripts tree SwapType.reverse _ _ reverse-IsSet safe;
        claims = claims;
        our_key = ours;
        address = check_address-none env tree _ _ address;
        amounts = amounts;
        decoded = invoice;
        is_decoded = is_invoice;
        hash = check_payment_hash-none invoice _ hash;
        msat = msat;
        has_amount = invoice_msat-ok invoice msat is_msat;
        invoice_amount = refl;
        named = refl;
      }

  module _ (rows : List ReverseSwap) (handed : List Held) where
    pub vet-Leads :
        IsAnswer env d.request d.response d.preimage
        → (sent : SwapTree)
        → Leads
            (IsUntouched env d.request rows handed)
            (Outcome env d.request rows handed)
            (vet env d sent)
    unfolding vet
    vet-Leads answers sent = give-Leads (untouched env d.request rows handed) _ _ (λ tree is_tree.
        require-Leads (untouched env d.request rows handed) _ _ (λ safe.
          require-Leads (untouched env d.request rows handed) _ _ (λ address.
            require-Leads (untouched env d.request rows handed) _ _ (λ amounts.
              give-Leads (untouched env d.request rows handed) _ _ (λ invoice is_invoice.
                require-Leads (untouched env d.request rows handed) _ _ (λ hash.
                  give-Leads (untouched env d.request rows handed) _ _ (λ msat is_msat.
                    store_swap-Leads env d.request rows handed d.response _ (
                      swap_of-IsVetted answers sent tree invoice msat is_tree safe address amounts
                        is_invoice hash is_msat))))))))

-- Where every check passes, the request goes on to store the swap.
pub vet_lem :
    (env : ServerEnv) (d : Draft) (sent tree : SwapTree) (invoice : Invoice) (msat : ℕ) (w : Server)
    → init_tree d.pair.to true (env.public_key d.key) d.their_key sent ≡ ok tree
    → check_tree env.scripts tree SwapType.reverse d.response.timeout_block_height
        (env.reverse.libraries.sha256 d.preimage)
      ≡ none
    → check_address env tree (blinding_of env d.pair d.response) d.response.lockup_address ≡ none
    → nursery_check_amounts env.reverse.nursery SwapType.reverse d.pair d.request.amount
        d.response.onchain_amount d.percentage
      ≡ none
    → env.decode_invoice d.response.invoice ≡ ok invoice
    → check_payment_hash invoice (env.reverse.libraries.sha256 d.preimage) ≡ none
    → invoice_msat invoice ≡ ok msat
    → vet env d sent w ≡ store_swap env (swap_of env d tree (env.reverse.libraries.to_sat msat)) w
unfolding vet give require ◌>>=◌
vet_lem env d sent tree invoice msat w is_tree safe address amounts is_invoice hash is_msat =
    rw (is_tree, safe, address, amounts, is_invoice, hash, is_msat) refl
