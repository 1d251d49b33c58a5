-- ===== src/Lightz/SwapTree/Spending.antt =====
-- What a checked swap tree promises: an abstract contract of who may spend the coins, which the scripts
-- implement. The meaning of the script language is that of BIP 342 and BIP 65, for the operations that
-- the scripts use, with the elements of the stack apart as numbers and byte strings.
use lightz_client.Base.{
  ℕ, String, ◌≡◌, refl, ap, ◌∙◌, Bool, true, false, ◌==◌, ◌=ₛ◌, leb, not, Option, none, some, List,
  [], ◌∷◌, arith, ◌&&◌, ◌≢◌, eq_iff,
}
use lightz_client.Lightz.Types.{SwapType, Error, Result, ok, err}
use lightz_client.Lightz.SwapTree.{
  ScriptOp, op_size, op_equalverify, op_hash160, op_checksig, op_checksigverify,
  op_checklocktimeverify, push_int, push_data, SwapTree, ScriptLibrary, leaf_version,
  check_leaf_versions, claim_pub_key, refund_pub_key, claim_ops, refund_ops, compare_script,
  check_script, or_else, check_tree,
}

pub data Item : Type 0 where
  bytes : String → Item
  number : ℕ → Item

-- What a spending transaction shows: its lock time, a block height that is in force, and which keys it
-- is signed with; and the hash and the size that the language computes.
pub record Spender : Type 0 where
  pub lock_time : ℕ
  pub signed : (key : String) → (signature : String) → Bool
  pub hash160 : String → String
  pub size : String → ℕ

abbrev when_true : Bool → List Item → Option (List Item)
when_true true stack = some stack
when_true false stack = none

abbrev bit : Bool → Item
bit true = number 1
bit false = number 0

-- The top of the stack is the head of the list.
unfoldable pub step : Spender → ScriptOp → List Item → Option (List Item)
step s op_size (bytes x ∷ stack) = some (number (s.size x) ∷ bytes x ∷ stack)
step s op_equalverify (number a ∷ number b ∷ stack) = when_true (a == b) stack
step s op_equalverify (bytes a ∷ bytes b ∷ stack) = when_true (a =ₛ b) stack
step s op_hash160 (bytes x ∷ stack) = some (bytes (s.hash160 x) ∷ stack)
step s op_checksig (bytes key ∷ bytes signature ∷ stack) =
    some (bit (s.signed key signature) ∷ stack)
step s op_checksigverify (bytes key ∷ bytes signature ∷ stack) =
    when_true (s.signed key signature) stack
step s op_checklocktimeverify (number n ∷ stack) = when_true (leb n s.lock_time) (number n ∷ stack)
step s (push_int n) stack = some (number n ∷ stack)
step s (push_data x) stack = some (bytes x ∷ stack)
step s _ _ = none

unfoldable pub run : Spender → List ScriptOp → List Item → Option (List Item)
unfolding step
run s [] stack = some stack
run s (op ∷ ops) stack = elim (step s op stack) [ none ↦ none | some stack' ↦ run s ops stack' ]

-- A single element that is not false is left.
abbrev pub is_accepted : Option (List Item) → Bool
is_accepted (some (number n ∷ [])) = not (n == 0)
is_accepted (some (bytes x ∷ [])) = not (x =ₛ "")
is_accepted _ = false

unfoldable pub spends : Spender → List ScriptOp → List Item → Bool
unfolding run
spends s ops witness = is_accepted (run s ops witness)

-- The key of the client, or of the server.
abbrev key_of : SwapTree → (ours : Bool) → String
key_of tree true = tree.our_key
key_of tree false = tree.lightz_key

claim_pub_key-owner : (tree : SwapTree) → claim_pub_key tree ≡ key_of tree tree.is_claim
unfolding claim_pub_key
claim_pub_key-owner tree = ground arith

refund_pub_key-owner : (tree : SwapTree) → refund_pub_key tree ≡ key_of tree (not tree.is_claim)
unfolding refund_pub_key
refund_pub_key-owner tree = ground arith

module _ (lib : ScriptLibrary) (s : Spender) where
  abbrev knows_preimage : SwapType → String → String → Bool
  knows_preimage SwapType.normal preimage_hash preimage =
      lib.ripemd160 preimage_hash =ₛ s.hash160 preimage
  knows_preimage _ preimage_hash preimage =
      32 == s.size preimage && lib.ripemd160 preimage_hash =ₛ s.hash160 preimage

  -- The contract: who claims knows the preimage, of 32 bytes but in a submarine swap, and signs with
  -- the key.
  unfoldable pub may_claim : (key : String) → SwapType → String → List Item → Bool
  may_claim key swap_type preimage_hash (bytes preimage ∷ bytes signature ∷ []) =
      knows_preimage swap_type preimage_hash preimage && s.signed (lib.x_only key) signature
  may_claim key swap_type preimage_hash _ = false

  -- Who refunds signs with the key, from the timeout on.
  unfoldable pub may_refund : (key : String) → ℕ → List Item → Bool
  may_refund key timeout (bytes signature ∷ []) =
      s.signed (lib.x_only key) signature && (leb timeout s.lock_time && not (timeout == 0))
  may_refund key timeout _ = false

module _ (lib : ScriptLibrary) (tree : SwapTree) (s : Spender) where
  spends-refund :
      (timeout : ℕ) (witness : List Item)
      → spends s (refund_ops lib tree timeout) witness
        ≡ may_refund lib s (refund_pub_key tree) timeout witness
  unfolding spends refund_ops may_refund run step
  spends-refund timeout [] = refl
  spends-refund timeout (number n ∷ w) = refl
  spends-refund timeout (bytes x ∷ []) = ground arith
  spends-refund timeout (bytes x ∷ i ∷ w) = ground arith

  spends-claim_normal :
      (preimage_hash : String) (witness : List Item)
      → spends s (claim_ops lib tree SwapType.normal preimage_hash) witness
        ≡ may_claim lib s (claim_pub_key tree) SwapType.normal preimage_hash witness
  unfolding spends claim_ops may_claim run step
  spends-claim_normal preimage_hash [] = refl
  spends-claim_normal preimage_hash (number n ∷ w) = refl
  spends-claim_normal preimage_hash (bytes x ∷ []) = ground arith
  spends-claim_normal preimage_hash (bytes x ∷ number n ∷ w) = ground arith
  spends-claim_normal preimage_hash (bytes x ∷ bytes y ∷ []) = ground arith
  spends-claim_normal preimage_hash (bytes x ∷ bytes y ∷ i ∷ w) = ground arith

  -- The claim script of reverse and chain swaps.
  spends-claim_sized :
      (preimage_hash : String) (witness : List Item)
      → spends s (claim_ops lib tree SwapType.reverse preimage_hash) witness
        ≡ may_claim lib s (claim_pub_key tree) SwapType.reverse preimage_hash witness
  unfolding spends claim_ops may_claim run step
  spends-claim_sized preimage_hash [] = refl
  spends-claim_sized preimage_hash (number n ∷ w) = refl
  spends-claim_sized preimage_hash (bytes x ∷ []) = ground arith
  spends-claim_sized preimage_hash (bytes x ∷ number n ∷ w) = ground arith
  spends-claim_sized preimage_hash (bytes x ∷ bytes y ∷ []) = ground arith
  spends-claim_sized preimage_hash (bytes x ∷ bytes y ∷ i ∷ w) = ground arith

  spends-claim :
      (swap_type : SwapType) (preimage_hash : String) (witness : List Item)
      → swap_type ≢ SwapType.unset
      → spends s (claim_ops lib tree swap_type preimage_hash) witness
        ≡ may_claim lib s (claim_pub_key tree) swap_type preimage_hash witness
  unfolding claim_ops may_claim
  spends-claim SwapType.normal preimage_hash witness set = spends-claim_normal preimage_hash witness
  spends-claim SwapType.reverse preimage_hash witness set = spends-claim_sized preimage_hash witness
  spends-claim SwapType.chain preimage_hash witness set = spends-claim_sized preimage_hash witness
  spends-claim SwapType.unset preimage_hash witness set = absurd (set refl)

-- The leaves of the tree are the scripts of the two operation lists, and these implement the contract.
pub record IsSafe (lib : ScriptLibrary) (tree : SwapTree) (swap_type : SwapType) (timeout : ℕ)
    (preimage_hash : String) : Type 0 where
  pub claim_version : tree.claim_leaf.version ≡ leaf_version tree.is_liquid
  pub refund_version : tree.refund_leaf.version ≡ leaf_version tree.is_liquid
  pub claim_script :
      lib.build (claim_ops lib tree swap_type preimage_hash) ≡ ok tree.claim_leaf.script
  pub refund_script : lib.build (refund_ops lib tree timeout) ≡ ok tree.refund_leaf.script
  pub claim_contract :
      (s : Spender) (witness : List Item)
      → spends s (claim_ops lib tree swap_type preimage_hash) witness
        ≡ may_claim lib s (key_of tree tree.is_claim) swap_type preimage_hash witness
  pub refund_contract :
      (s : Spender) (witness : List Item)
      → spends s (refund_ops lib tree timeout) witness
        ≡ may_refund lib s (key_of tree (not tree.is_claim)) timeout witness

or_else-none :
    (lib : ScriptLibrary) (a b : Option Error) → or_else lib a b ≡ none → (a ≡ none) × (b ≡ none)
or_else-none lib (some e) b h = cc
or_else-none lib none b h = (refl, h)

check_script-none :
    (lib : ScriptLibrary) (actual : String) (ops : List ScriptOp)
    → check_script lib actual ops ≡ none
    → lib.build ops ≡ ok actual
unfolding check_script
check_script-none lib actual ops h = built (lib.build ops) h
  where
    built : (r : Result String) → compare_script lib actual r ≡ none → r ≡ ok actual
    built (err e) h = cc
    built (ok x) h = ground (arith, eq_iff actual x)

check_leaf_versions-none :
    (tree : SwapTree)
    → check_leaf_versions tree ≡ none
    → (tree.refund_leaf.version ≡ leaf_version tree.is_liquid)
      × (tree.claim_leaf.version ≡ leaf_version tree.is_liquid)
unfolding check_leaf_versions
check_leaf_versions-none tree h = ground arith

-- Where the check of a swap tree for a type of swap passes, its leaves have the version of the chain and
-- are the scripts for its keys, the hash and the timeout; and these scripts are spent exactly as the
-- contract says: the claim by who knows the preimage and signs with the key of the claiming side (the
-- client's where the client claims, else the server's), the refund by who signs with the other side's
-- key at a lock time from the timeout on, where that is not 0, and by no other witness.
pub check_tree-IsSafe :
    (lib : ScriptLibrary) (tree : SwapTree) (swap_type : SwapType) (timeout : ℕ)
    (preimage_hash : String)
    → swap_type ≢ SwapType.unset
    → check_tree lib tree swap_type timeout preimage_hash ≡ none
    → IsSafe lib tree swap_type timeout preimage_hash
unfolding check_tree
check_tree-IsSafe lib tree swap_type timeout preimage_hash set h =
    let (versions, scripts) = or_else-none lib (check_leaf_versions tree) _ h in
    let (claim, refund) =
      or_else-none lib
        (check_script lib tree.claim_leaf.script (claim_ops lib tree swap_type preimage_hash))
        (check_script lib tree.refund_leaf.script (refund_ops lib tree timeout)) scripts in
    let (refund_version, claim_version) = check_leaf_versions-none tree versions in
    record {
      claim_version = claim_version;
      refund_version = refund_version;
      claim_script = check_script-none lib _ _ claim;
      refund_script = check_script-none lib _ _ refund;
      claim_contract = λ s w.
          spends-claim lib tree s swap_type preimage_hash w set
          ∙ ap (λ key. may_claim lib s key swap_type preimage_hash w) (claim_pub_key-owner tree);
      refund_contract = λ s w.
          spends-refund lib tree s timeout w
          ∙ ap (λ key. may_refund lib s key timeout w) (refund_pub_key-owner tree);
    }
