-- ===== src/Tests/Fixtures.antt =====
-- Values that the tests share: providers, wallets, swaps and peers.
use lightz_client.Base.{ℕ, suc, ltb, if◌then◌else◌, String, true, false, none, some, [], ◌∷◌}
use lightz_client.Float.{Float64, millionths}
use lightz_client.Lightz.Types.{Currency, SwapType, SwapState, Error, errorf, Result, ok, err}
use lightz_client.Lightz.Events.{swap_created}
use lightz_client.Onchain.Chain.{
  ChainProvider, Onchain, Codec, Transaction, btc_transaction, OutputArgs,
}
use lightz_client.Onchain.Wallets.{Wallet}
use lightz_client.Database.Swap.{Swap}
use lightz_client.Nursery.Transactions.{Env, Output}
use lightz_client.Nursery.Submarine.World.{World, Peers, SwapEnv}

abbrev pub percent : ℕ → Float64
percent n = millionths.ratio n 1

abbrev pub broken : Error
broken = errorf "broken"

-- It answers from the third attempt on.
abbrev pub slow_answer : ℕ → Result String
slow_answer attempt = if ltb attempt 2 then err broken else ok "beef"

abbrev pub provider : ChainProvider
provider = record {
  estimate_fee = ok (millionths.ratio 3 1);
  block_height = ok 100;
  raw_transaction = λ attempt tx. slow_answer attempt;
  broadcast = λ hex. ok "txid";
  is_confirmed = λ attempt tx. ok true;
  unspent_outputs = λ address. ok [];
}

abbrev pub deaf_provider : ChainProvider
deaf_provider = record provider {
  is_confirmed = λ attempt tx. err broken;
  block_height = err broken;
}

abbrev pub onchain : Onchain
onchain = record { btc = some (record { provider = provider; height = 100 }); liquid = none }

abbrev pub lockup_tx : Transaction
lockup_tx = btc_transaction "lockup" [] (50000 ∷ [])

abbrev pub codec : Codec
codec = record {
  liquid_from_hex = λ hex key. err broken;
  btc_from_hex = λ hex. ok lockup_tx;
  find_vout = λ tx address. ok (0, 50000);
  serialize = λ tx. ok "beef";
}

abbrev pub wallet : Wallet
wallet = record {
  info = record { id = 1; name = "main"; currency = Currency.btc; readonly = false; tenant_id = 1 };
  ready = true;
  new_address = ok "bc1wallet";
  get_balance = ok (record { total = 900000; confirmed = 900000; unconfirmed = 0 });
  get_outputs = λ address. ok [];
  apply_transaction = λ hex. none;
  derive_blinding_key = none;
}

abbrev pub env : Env
env = record {
  arith = millionths;
  codec = codec;
  onchain = onchain;
  wallets = wallet ∷ [];
  construct = λ currency outputs rate. (some [], ok lockup_tx);
  serialize = λ tx. ok "beef";
}

abbrev pub output_args : OutputArgs
output_args = record {
  transaction_id = "lockup";
  currency = Currency.btc;
  address = "bc1lockup";
  blinding_key = "";
  expected_amount = 40000;
}

-- An output whose callbacks count the transactions.
abbrev pub counting_output : Output ℕ
counting_output = record {
  details = record {
    swap_id = "s1";
    swap_type = SwapType.normal;
    address = "bc1refund";
    private_key = "key";
    preimage = "";
    timeout_block_height = 144;
    swap_tree = "tree";
    cooperative = true;
    refund_swap_tree = none;
    lockup_transaction = none;
    vout = 0;
  };
  wallet_id = none;
  output_args = output_args;
  set_transaction = λ tx fee w. (none, suc w);
  set_error = λ e w. w;
}

abbrev pub swap : Swap
swap = record {
  id = "s1";
  pair = record { from = Currency.btc; to = Currency.btc };
  chan_ids = [];
  state = SwapState.pending;
  created_at = 0;
  error = "";
  status = swap_created;
  private_key = "key";
  swap_tree = "tree";
  claim_pub_key = "pub";
  preimage = none;
  redeem_script = "";
  invoice = "lnbc1";
  payment_hash = "hash";
  address = "bc1lockup";
  expected_amount = 50000;
  timeout_block_height = 144;
  lockup_transaction_id = "lockup";
  refund_transaction_id = "";
  refund_address = "bc1refund";
  blinding_key = "";
  is_auto = false;
  service_fee = none;
  service_fee_percent = percent 1;
  onchain_fee = none;
  wallet_id = none;
  tenant_id = 1;
}

abbrev pub world : World
world = record { stored = record { swap = swap; row = swap }; effects = [] }

abbrev pub peers : Peers
peers = record {
  get_swap_transaction = λ id. ok "beef";
  get_invoice_amount = λ id. ok 49000;
  set_invoice = λ id invoice. none;
  get_submarine_pairs = err broken;
  get_swap_claim_details = λ id. err broken;
  send_swap_claim_signature = λ id signature. none;
  get_swap_preimage = λ id. ok "preimage";
  create_invoice = none;
  decode_invoice = λ invoice. ok (record { amount_sat = 49000; payment_hash = "hash" });
  sha256 = λ preimage. "hash";
  new_session = λ tree. none;
  sign = λ tree hash nonce. ok "signature";
}

abbrev pub swap_env : SwapEnv
swap_env = record { nursery = env; peers = peers; exec = λ u. none }
