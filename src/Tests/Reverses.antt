-- ===== src/Tests/Reverses.antt =====
-- Concrete inputs of the theorems on reverse swaps and their direct payments.
use lightz_client.Base.{Memᴰ, ◌/◌, ◌≡◌, ◌⊎◌, refl, true, false, none, some, List, [], ◌∷◌}
use lightz_client.Float.{millionths, raw}
use lightz_client.Lightz.Types.{Currency, SwapState, ok, err}
use lightz_client.Lightz.Events.{swap_created}
use lightz_client.Onchain.Chain.{
  get_currency, poll_confirmed, is_transaction_confirmed, estimate_fee, Output,
}
use lightz_client.Database.ReverseSwap.{ReverseSwap, apply_update, Held, write_all}
use lightz_client.Nursery.Direct.{
  DirectEnv, get_fee_estimations, consider, choose_from, choose_direct_output, pay, on_confirmed,
  settle_direct, on_chosen, in_transaction, end_transaction, run_tx, report_direct,
  handle_direct_payments,
}
use lightz_client.Nursery.Direct.ZeroConf.{SortLaw, Settles, handle_direct_payments-IsSettled}
use lightz_client.Nursery.Reverse.World.{ReverseEnv, direct_of}
use lightz_client.Nursery.Reverse.Payment.{pay_reverse_swap}
use lightz_client.Nursery.Reverse.Guard.{IsGuarded, pay_reverse_swap-IsGuarded}
use lightz_client.Nursery.Reverse.Status.{StatusEvent, handle_reverse_swap_status}
use lightz_client.Nursery.Reverse.Blocks.{load, check_claimable_reverse}
use lightz_client.Nursery.Reverse.Payment.{fail_payment}
use lightz_client.Nursery.Reverse.Earned.{terms, Inv}
use lightz_client.Nursery.Reverse.Invariant.{start, event, claim, unpaid, ReachesReverse-Inv}
use lightz_client.Tests.Fixtures.{percent, broken, env}

abbrev pub reverse_env : ReverseEnv
reverse_env = record {
  nursery = env;
  libraries = record {
    decode_msat = λ invoice. ok (some 51_000_000);
    to_sat = λ msat. msat / 1000;
    mul_f64 = λ amount x. raw (millionths.mul (millionths.from_uint64 amount) x) / 1_000_000;
    sha256 = λ preimage. "hash";
    tree_address = λ tree key. "bc1lockup";
    to_lower = λ text. text;
  };
  lightning = some (record { payment_status = λ hash. err broken });
  max_routing_fee_ppm = 2500;
  max_zero_conf = 100000;
  now = 7;
  claimed_by = λ tx. ok none;
  sort_func = λ compare outputs. outputs;
  begin = none;
  commit = none;
  exec = λ u. none;
}

abbrev direct_env : DirectEnv
direct_env = direct_of reverse_env

abbrev reverse_swap : ReverseSwap
reverse_swap = record {
  id = "r1";
  pair = record { from = Currency.btc; to = Currency.btc };
  chan_ids = [];
  state = SwapState.pending;
  error = "";
  created_at = 0;
  paid_at = 0;
  status = swap_created;
  accept_zero_conf = true;
  private_key = "key";
  refund_pub_key = "pub";
  swap_tree = "tree";
  preimage = "preimage";
  redeem_script = "";
  invoice = "lnbc1";
  claim_address = "bc1claim";
  onchain_amount = 50000;
  invoice_amount = 51000;
  timeout_block_height = 144;
  lockup_transaction_id = "";
  claim_transaction_id = "";
  blinding_key = "";
  is_auto = false;
  routing_fee_msat = none;
  service_fee = none;
  service_fee_percent = percent 1;
  onchain_fee = none;
  external_pay = false;
  wallet_id = none;
  tenant_id = 1;
  routing_fee_limit_ppm = none;
}

abbrev held : Held
held = record { swap = reverse_swap; row = reverse_swap; sent = []; paid = [] }

abbrev payments : List Output
payments = record { tx_id = "direct"; value = 50000 } ∷ []

settled : (handle_direct_payments direct_env payments held).swap.state ≡ SwapState.successful
unfolding handle_direct_payments get_fee_estimations in_transaction run_tx report_direct
    choose_direct_output on_chosen choose_from consider settle_direct on_confirmed pay write_all
    apply_update end_transaction is_transaction_confirmed poll_confirmed get_currency estimate_fee
settled = refl

-- The concrete sort gives the list back.
sorts : SortLaw direct_env
sorts outputs o m = m

handle_direct_payments-IsSettled_example :
    (SwapState.pending ≡ SwapState.successful)
    ⊎ ((output : Output) × Memᴰ output payments
        × Settles direct_env reverse_swap output
        × ((handle_direct_payments direct_env payments held).swap.claim_transaction_id
            ≡ output.tx_id))
handle_direct_payments-IsSettled_example =
    handle_direct_payments-IsSettled direct_env payments held sorts settled

held-Inv : Inv reverse_env (terms reverse_swap) held
held-Inv = record {
  swap_terms = refl;
  row_terms = refl;
  swap_right = λ e. cc;
  row_right = λ e. cc;
  sent_right = tt;
}

-- The server locks, the swap is claimed at once, and then the payment of the invoice is reported as
-- failed, and the next block looks for swaps to claim.
abbrev mempool : StatusEvent
mempool = record { status = "transaction.mempool"; tx_id = "lockup"; tx_hex = "beef" }

abbrev after_mempool : Held
after_mempool = (handle_reverse_swap_status reverse_env mempool (load held)).1

abbrev after_failure : Held
after_failure = fail_payment reverse_env broken (load after_mempool)

abbrev after_block : Held
after_block = (check_claimable_reverse reverse_env Currency.btc (load after_failure)).1

ReachesReverse-Inv_example : Inv reverse_env (terms reverse_swap) after_block
ReachesReverse-Inv_example =
    ReachesReverse-Inv reverse_env (terms reverse_swap) sorts held-Inv
      (claim Currency.btc (unpaid broken (event mempool start)))

pay_reverse_swap-IsGuarded_example : IsGuarded reverse_env held (pay_reverse_swap reverse_env held)
pay_reverse_swap-IsGuarded_example = pay_reverse_swap-IsGuarded reverse_env held
