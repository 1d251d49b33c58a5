-- ===== src/Lightz/SwapTree.antt =====
-- pkg/lightz/swaptree.go: the check of the scripts that the server proposes for a swap.
pub mod Spending
use lightz_client.Base.{
  ℕ, String, Bool, true, false, ◌==◌, ◌=ₛ◌, ◌||◌, not, if◌then◌else◌, Option, none, some, List, [],
  ◌∷◌,
}
use lightz_client.Lightz.Types.{Currency, SwapType, Error, errorf, Result, ok, err}

-- What the code gives to a script builder.
pub data ScriptOp : Type 0 where
  op_size op_equalverify op_hash160 op_checksig op_checksigverify op_checklocktimeverify : ScriptOp
  push_int : ℕ → ScriptOp
  push_data : String → ScriptOp

-- `txscript.TapLeaf`
pub record TapLeaf : Type 0 where
  pub version : ℕ
  pub script : String

-- `SwapTree`: keys are in their serialized form, ours by its public key.
pub record SwapTree : Type 0 where
  pub claim_leaf : TapLeaf
  pub refund_leaf : TapLeaf
  pub is_liquid : Bool
  pub is_claim : Bool
  pub our_key : String
  pub lightz_key : String

-- The libraries: the bytes that a builder gives, RIPEMD-160, and the 32 bytes of a key behind its sign.
pub record ScriptLibrary : Type 0 where
  pub build : List ScriptOp → Result String
  pub ripemd160 : String → String
  pub x_only : String → String

unfoldable pub leaf_version : Bool → ℕ
leaf_version true = 196
leaf_version false = 192

unfoldable pub check_leaf_versions : SwapTree → Option Error
unfolding leaf_version
check_leaf_versions tree =
    let version = leaf_version tree.is_liquid in
    if not (tree.refund_leaf.version == version) || not (tree.claim_leaf.version == version)
    then some (errorf "invalid leaf version")
    else none

unfoldable pub claim_pub_key : SwapTree → String
claim_pub_key tree = if tree.is_claim then tree.our_key else tree.lightz_key

unfoldable pub refund_pub_key : SwapTree → String
refund_pub_key tree = if tree.is_claim then tree.lightz_key else tree.our_key

unfoldable pub get_leaf : SwapTree → Bool → TapLeaf
get_leaf tree true = tree.refund_leaf
get_leaf tree false = tree.claim_leaf

-- `Init` keeps the keys and the chain, where the currency has scripts; what it computes from them is
-- the libraries'.
unfoldable pub init_tree : Currency → Bool → String → String → SwapTree → Result SwapTree
init_tree Currency.btc is_claim our theirs tree =
    ok (record tree { is_liquid = false; is_claim = is_claim; our_key = our; lightz_key = theirs })
init_tree Currency.liquid is_claim our theirs tree =
    ok (record tree { is_liquid = true; is_claim = is_claim; our_key = our; lightz_key = theirs })
init_tree _ is_claim our theirs tree = err (errorf "invalid currency")

module _ (lib : ScriptLibrary) where
  unfoldable pub claim_ops : SwapTree → SwapType → String → List ScriptOp
  unfolding claim_pub_key
  claim_ops tree SwapType.normal preimage_hash =
      op_hash160
      ∷ push_data (lib.ripemd160 preimage_hash)
      ∷ op_equalverify
      ∷ push_data (lib.x_only (claim_pub_key tree))
      ∷ op_checksig
      ∷ []
  claim_ops tree SwapType.unset preimage_hash = []
  claim_ops tree _ preimage_hash =
      op_size
      ∷ push_int 32
      ∷ op_equalverify
      ∷ op_hash160
      ∷ push_data (lib.ripemd160 preimage_hash)
      ∷ op_equalverify
      ∷ push_data (lib.x_only (claim_pub_key tree))
      ∷ op_checksig
      ∷ []

  unfoldable pub refund_ops : SwapTree → ℕ → List ScriptOp
  unfolding refund_pub_key
  refund_ops tree timeout =
      push_data (lib.x_only (refund_pub_key tree))
      ∷ op_checksigverify
      ∷ push_int timeout
      ∷ op_checklocktimeverify
      ∷ []

  abbrev compare_script : String → Result String → Option Error
  compare_script actual (err e) = some (errorf "expected script is invalid")
  compare_script actual (ok expected) =
      if actual =ₛ expected then none else some (errorf "invalid script")

  unfoldable pub check_script : String → List ScriptOp → Option Error
  check_script actual ops = compare_script actual (lib.build ops)

  -- `if err := …; err != nil { return err }`
  abbrev or_else : Option Error → Option Error → Option Error
  or_else (some e) next = some e
  or_else none next = next

  -- `SwapTree.Check`: `none` is Go's nil error.
  unfoldable pub check_tree : SwapTree → SwapType → ℕ → String → Option Error
  unfolding check_leaf_versions claim_ops refund_ops check_script
  check_tree tree swap_type timeout preimage_hash = or_else (check_leaf_versions tree) (
      or_else (check_script tree.claim_leaf.script (claim_ops tree swap_type preimage_hash))
        (check_script tree.refund_leaf.script (refund_ops tree timeout)))
