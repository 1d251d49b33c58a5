-- ===== src/Tests/Trees.antt =====
-- Concrete inputs of the theorems on swap trees.
use lightz_client.Base.{String, ◌≡◌, ◌≢◌, refl, true, none, List, ◌∷◌, arith}
use lightz_client.Lightz.Types.{SwapType, ok}
use lightz_client.Lightz.SwapTree.{
  ScriptOp, op_size, op_hash160, SwapTree, ScriptLibrary, leaf_version, check_leaf_versions,
  claim_ops, refund_ops, check_script, check_tree,
}
use lightz_client.Lightz.SwapTree.Spending.{IsSafe, check_tree-IsSafe}

-- A builder that tells the three kinds of scripts apart.
abbrev text : List ScriptOp → String
text (op_size ∷ ops) = "sized claim"
text (op_hash160 ∷ ops) = "claim"
text _ = "refund"

abbrev pub scripts : ScriptLibrary
scripts = record { build = λ ops. ok (text ops); ripemd160 = λ hash. hash; x_only = λ key. key }

abbrev reverse_tree : SwapTree
reverse_tree = record {
  claim_leaf = record { version = 196; script = "sized claim" };
  refund_leaf = record { version = 196; script = "refund" };
  is_liquid = true;
  is_claim = true;
  our_key = "ours";
  lightz_key = "theirs";
}

reverse_tree-passes : check_tree scripts reverse_tree SwapType.reverse 900 "hash" ≡ none
unfolding check_tree check_leaf_versions leaf_version claim_ops refund_ops check_script
reverse_tree-passes = refl

reverse-set : SwapType.reverse ≢ SwapType.unset
reverse-set = ground arith

check_tree-IsSafe_example : IsSafe scripts reverse_tree SwapType.reverse 900 "hash"
check_tree-IsSafe_example =
    check_tree-IsSafe scripts reverse_tree SwapType.reverse 900 "hash" reverse-set
      reverse_tree-passes
