-- ===== src/Tests/Requests.antt =====
-- Concrete inputs of the theorems on requests.
use lightz_client.Base.{◌*◌, ◌∷◌, ◌≡◌, refl, add64, sub64, true, false, none, some, []}
use lightz_client.Lightz.Types.{Currency, ok, err}
use lightz_client.Lightz.SwapTree.{
  SwapTree, init_tree, leaf_version, check_leaf_versions, claim_ops, refund_ops, check_script,
  check_tree,
}
use lightz_client.Float.{calculate_percentage, percent_ratio}
use lightz_client.Lightz.Fees.{check_amounts, calc_network_fee}
use lightz_client.Onchain.Chain.{estimate_fee}
use lightz_client.Nursery.Amounts.{nursery_check_amounts}
use lightz_client.Rpc.Reverse.{
  CreateReverseSwapRequest, Response, Invoice, ServerEnv, Server, deserialize, SerializedTree,
  check_payment_hash, invoice_msat,
}
use lightz_client.Rpc.Reverse.Steps.{check_address}
use lightz_client.Rpc.Reverse.Creation.{Draft, swap_of, store_swap, vet, create_reverse_swap}
use lightz_client.Rpc.Reverse.Vetting.{Outcome}
use lightz_client.Rpc.Reverse.Vetting.Repriced.{repriced, IsSame, vet-ignores_invoice_amount}
use lightz_client.Nursery.Reverse.World.{Node}
use lightz_client.Rpc.Reverse.Steps.{row_of}
use lightz_client.Rpc.Reverse.Vetting.Outcomes.{create_reverse_swap-IsVetted}
use lightz_client.Rpc.Request.{◌>>=◌, give, pure, require, need}
use lightz_client.Rpc.Reverse.{pays_externally, returns_immediately, parse_pair, is_admin}
use lightz_client.Rpc.Reverse.Steps.{
  new_keys, accept_pair, check_hint, choose_destination, wallet_query, send_proposal, insert_row,
  parse_chan_ids, register_reverse_swap,
}
use lightz_client.Rpc.Reverse.Creation.{lightning_available, agree, conclude, respond, waits}
use lightz_client.Onchain.Wallets.{get_any_wallet, first_allowed, allowed}
use lightz_client.Nursery.Reverse.Payment.{pay_reverse_swap}
use lightz_client.Nursery.Reverse.World.{get_reverse_swap}
use lightz_client.Nursery.Handler.{branch}
use lightz_client.Tests.Fixtures.{percent, broken}
use lightz_client.Tests.Reverses.{reverse_env}
use lightz_client.Tests.Trees.{scripts}

abbrev sent_tree : SerializedTree
sent_tree = record {
  claim_leaf = record { version = 192; script = "sized claim" };
  refund_leaf = record { version = 192; script = "refund" };
}

abbrev response : Response
response = record {
  id = "r1";
  invoice = "lnbc1";
  swap_tree = some sent_tree;
  refund_public_key = "theirs";
  lockup_address = "bc1lockup";
  timeout_block_height = 900;
  onchain_amount = 50000;
  blinding_key = "";
}

abbrev request : CreateReverseSwapRequest
request = record {
  amount = 51000;
  address = "";
  accept_zero_conf = false;
  pair = none;
  chan_ids = [];
  wallet_id = none;
  return_immediately = none;
  external_pay = some true;
  description = "";
  description_hash = "";
  invoice_expiry = 0;
  accepted_pair = some (record { hash = "pair"; percentage = some (percent 1) });
  routing_fee_limit_ppm = none;
  add_magic_routing_hint = true;
}

-- The invoice asks for a thousand times the amount of the request.
abbrev server_env : ServerEnv
server_env = record {
  reverse = reverse_env;
  scripts = scripts;
  tenant_id = some 1;
  referral_id = "client";
  new_preimage = ok "preimage";
  mnemonic = ok "words";
  derive_key = λ mnemonic index. ok "key";
  increment = none;
  public_key = λ key. "ours";
  sign = λ key hash. ok "signature";
  validate_address = λ address currency. none;
  get_reverse_pairs = err broken;
  propose = λ proposal. ok response;
  parse_pub_key = λ bytes. ok bytes;
  parse_chan_id = λ text. err broken;
  blinding_from_bytes = λ bytes. bytes;
  format_tree = λ tree. "tree";
  tree_address = λ tree key. ok "bc1lockup";
  decode_invoice = λ text. ok (record { payment_hash = "hash"; milli_sat = some 51_000_000_000 });
  insert = none;
  register = none;
  updates = [];
}

abbrev server : Server
server = record { key_index = 0; proposed = []; rows = []; handed = [] }

create_reverse_swap-IsVetted_example :
    Outcome server_env request [] [] (create_reverse_swap server_env false request server).1
create_reverse_swap-IsVetted_example =
    create_reverse_swap-IsVetted server_env request [] [] false server refl refl

abbrev draft : Draft
draft = record {
  request = request;
  pair = record { from = Currency.btc; to = Currency.btc };
  external = true;
  is_auto = false;
  preimage = "preimage";
  key = "key";
  their_key = "theirs";
  percentage = percent 1;
  chan_ids = [];
  destination = record {
    claim_address = "bc1wallet";
    wallet_id = some 1;
    hint_address = "bc1wallet";
    hint_signature = "signature";
  };
  response = response;
}

abbrev tree : SwapTree
tree = record {
  claim_leaf = sent_tree.claim_leaf;
  refund_leaf = sent_tree.refund_leaf;
  is_liquid = false;
  is_claim = true;
  our_key = "ours";
  lightz_key = "theirs";
}

-- The request, for 51000 satoshis, stores a swap whose invoice asks for 51000000.
create_reverse_swap-stores :
    (create_reverse_swap server_env false request server).1.rows
    ≡ row_of 7 (swap_of server_env draft tree 51_000_000) ∷ []
unfolding create_reverse_swap ◌>>=◌ give pays_externally lightning_available returns_immediately
    new_keys accept_pair pure require need check_hint choose_destination get_any_wallet
    first_allowed allowed wallet_query parse_pair agree send_proposal add64 sub64
    calculate_percentage percent_ratio calc_network_fee check_amounts check_leaf_versions
    check_script check_tree claim_ops init_tree leaf_version refund_ops nursery_check_amounts
    estimate_fee conclude respond store_swap vet waits check_address insert_row parse_chan_ids
    register_reverse_swap check_payment_hash deserialize invoice_msat is_admin pay_reverse_swap
    get_reverse_swap branch swap_of lightz_client.Nursery.Handler.◌>>=◌
create_reverse_swap-stores = refl

abbrev invoice : Invoice
invoice = record { payment_hash = "hash"; milli_sat = some 51_000_000_000 }

-- The same holds where every invoice asks for twice as much.
vet-ignores_invoice_amount_example :
    IsSame
      (vet (repriced (λ n. 2 * n) server_env) draft (deserialize sent_tree) server)
      (vet server_env draft (deserialize sent_tree) server)
vet-ignores_invoice_amount_example =
    vet-ignores_invoice_amount (λ n. 2 * n) server_env draft (deserialize sent_tree) server

-- The client's node is to pay.
abbrev paid_draft : Draft
paid_draft = record draft { external = false }

abbrev node : Node
node = record { payment_status = λ hash. err broken }
