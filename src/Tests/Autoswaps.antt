-- ===== src/Tests/Autoswaps.antt =====
-- Concrete inputs of the theorems on automatic swaps.
use lightz_client.Base.{
  true, ℕ, ◌+◌, ◌≤◌, ◌<◌, ◌≡◌, refl, add64, sub64, false, none, some, [], ◌∷◌, arith,
}
use lightz_client.Base.Int.{pos}
use lightz_client.Float.{millionths, calculate_percentage, percent_ratio}
use lightz_client.Lightz.Types.{Currency, SwapType, ok, err}
use lightz_client.Onchain.Wallets.{get_any_wallet, allowed, first_allowed}
use lightz_client.Autoswap.Checks.{
  get, PairInfo, CheckParams, lookup_channel, dismissed, check, check_limits, charge,
  calculate_fee_estimate,
}
use lightz_client.Autoswap.Checks.Bounds.{IsAcceptable, check-passed}
use lightz_client.Autoswap.Budget.{BudgetInterval, advance, remaining}
use lightz_client.Autoswap.Budget.Interval.{IsCurrent, advance-IsCurrent, remaining-lem}
use lightz_client.Autoswap.Strategy.{
  Channel, LightningConfig, choose, propose, channel_recommendation, strategy,
  total_balance_strategy, add_channel_balances, no_channel,
}
use lightz_client.Autoswap.Strategy.Amounts.{propose-normal, propose-reverse}
use lightz_client.Autoswap.Lightning.{
  LightningSwap, LightningEnv, Request, get_swap_recommendations, recommend,
  validate_recommendations, validate_queried, validate_read, validate_all, validate_one,
  validate_swap, check_swap, get_dismissed_channels, add_swaps, query_all,
}
use lightz_client.Autoswap.Lightning.Execution.{
  execute_recommended, execute_all, execute_one, execute_accepted, execute, send, check_accepted,
  check_and_execute,
}
use lightz_client.Autoswap.Lightning.Spending.{
  sent_fees, check_and_execute-within_budget, check_and_execute-panics,
}
use lightz_client.Autoswap.Chain.{
  ChainRequest, sends, check_and_execute_chain, get_recommendation, recommend_chain, check_chain,
  execute_result, execute_chain, send_chain, SerializedChainConfig, ChainConfig, ChainEnv,
  invalid_argument, swap_amount, wanted, init, init_tenant, init_wallets, finish_init, find_target,
}
use lightz_client.Autoswap.Chain.Sending.{IsFit, check_and_execute_chain-IsFit}
use lightz_client.Autoswap.Chain.Rules.{IsValid, init-IsValid, swap_amount-wraps}
use lightz_client.Autoswap.Config.{SerializedLnConfig, ConfigEnv}
use lightz_client.Tests.Fixtures.{percent, broken, wallet}

abbrev pair_info : PairInfo
pair_info = record { minimal = 50000; maximal = 1000000; percentage = percent 1; miner_fees = 300 }

abbrev params : CheckParams
params = record { max_fee_percent = percent 2; pair = pair_info; dismissed_reasons = [] }

check-passes : dismissed (check millionths 100000 params 5000).0 ≡ false
unfolding check check_limits charge calculate_fee_estimate calculate_percentage percent_ratio add64
check-passes = refl

check-passed_example :
    IsAcceptable millionths params (check millionths 100000 params 5000).0
    × ((check millionths 100000 params 5000).1
          + (check millionths 100000 params 5000).0.fee_estimate
        ≡ 5000)
check-passed_example = check-passed millionths 100000 params 5000 (omega arith) check-passes

abbrev interval : BudgetInterval
interval = record { start_date = 0; end_date = 100 }

-- 350 lies in the third interval of 100 after it.
advance-interval : advance 350 350 100 interval ≡ record { start_date = 300; end_date = 400 }
unfolding advance
advance-interval = refl

advance-IsCurrent_example : IsCurrent 350 100 interval (advance 350 350 100 interval)
advance-IsCurrent_example = advance-IsCurrent 350 350 100 interval (omega arith) (omega arith)

remaining-lem_example : remaining 1000 (pos 1500) ≡ 0
remaining-lem_example = remaining-lem 1000 (pos 1500) (omega arith) (omega arith) (omega arith)

abbrev config : LightningConfig
config = record {
  reserve = percent 5;
  max_fee_percent = percent 2;
  currency = Currency.btc;
  swap_type = SwapType.normal;
  outbound_balance = record { absolute = 400000; relative = percent 0 };
  inbound_balance = record { absolute = 400000; relative = percent 0 };
  per_channel = false;
  wallet = some wallet;
  static_address = "";
  accept_zero_conf = false;
}

abbrev channel : Channel
channel = record { id = 7; outbound_sat = 200000; inbound_sat = 800000; capacity = 1000000 }

proposed :
    propose millionths config channel 400000 400000 (choose millionths config channel 400000 400000)
    ≡ some (record { swap_type = SwapType.normal; amount = 750000 })
unfolding propose choose calculate_percentage percent_ratio sub64
proposed = refl

propose-normal_example :
    (SwapType.normal ≡ SwapType.normal)
    × (750000 + calculate_percentage millionths (percent 5) 1000000 ≡ 800000)
propose-normal_example =
    propose-normal millionths config channel 400000 400000
      (record { swap_type = SwapType.normal; amount = 750000 }) refl (omega arith) (omega arith)
      proposed

abbrev reverse_config : LightningConfig
reverse_config = record config { swap_type = SwapType.reverse }

-- The example of a single threshold in docs/autoswap.md, which gives 400000: the code leaves the
-- reserve of 5%.
abbrev full_channel : Channel
full_channel = record { id = 7; outbound_sat = 400000; inbound_sat = 100000; capacity = 500000 }

proposed-reverse :
    propose millionths reverse_config full_channel 0 200000
      (choose millionths reverse_config full_channel 0 200000)
    ≡ some (record { swap_type = SwapType.reverse; amount = 375000 })
unfolding propose choose calculate_percentage percent_ratio sub64
proposed-reverse = refl

propose-reverse_example :
    (SwapType.reverse ≡ SwapType.reverse)
    × (375000 + calculate_percentage millionths (percent 5) 500000 ≡ 400000)
propose-reverse_example =
    propose-reverse millionths reverse_config full_channel 0 200000
      (record { swap_type = SwapType.reverse; amount = 375000 }) refl (omega arith) (omega arith)
      proposed-reverse

abbrev lightning_env : LightningEnv
lightning_env = record {
  arith = millionths;
  channels = ok (channel ∷ []);
  pair_info = λ t p. ok pair_info;
  create = λ request. none;
  pending_swaps = ok [];
  pending_reverse_swaps = ok [];
  failed_swaps = ok [];
  failed_reverse_swaps = ok [];
  budget = ok 10000;
  sort_func = λ compare rs. rs;
}

abbrev sent_swap : LightningSwap
sent_swap = record {
  checks = record { amount = 750000; fee_estimate = 7800; dismissed_reasons = [] };
  swap_type = SwapType.normal;
}

abbrev request : Request
request = record {
  swap_type = SwapType.normal;
  amount = 750000;
  pair = record { from = Currency.btc; to = Currency.btc };
  chan_ids = [];
  address = "";
  accept_zero_conf = false;
  wallet_id = some 1;
}

executed : check_and_execute lightning_env config [] false ≡ some (none, (sent_swap, request) ∷ [])
unfolding check_and_execute get_swap_recommendations recommend validate_recommendations
    validate_queried validate_read validate_all validate_one validate_swap check_swap
    get_dismissed_channels add_swaps strategy total_balance_strategy channel_recommendation
    add_channel_balances lookup_channel get propose choose execute_recommended execute_all
    execute_one execute_accepted execute send check_accepted check check_limits charge
    calculate_fee_estimate calculate_percentage percent_ratio add64 sub64
executed = refl

check_and_execute-within_budget_example : sent_fees ((sent_swap, request) ∷ []) ≤ 10000
check_and_execute-within_budget_example =
    check_and_execute-within_budget lightning_env config [] 10000 none ((sent_swap, request) ∷ [])
      refl (omega arith) executed

-- The thresholds add up to 800000, and the channel holds 500000.
abbrev small_env : LightningEnv
small_env = record lightning_env { channels = ok (record channel { capacity = 500000 } ∷ []) }

queried : query_all small_env config ≡ ok ([], some 900000)
unfolding get_dismissed_channels add_swaps
queried = refl

too_high :
    (add_channel_balances (record channel { capacity = 500000 } ∷ []) no_channel).capacity
    < add64
        (get millionths config.outbound_balance 500000)
        (get millionths config.inbound_balance 500000)
unfolding add_channel_balances get add64
too_high = omega arith

check_and_execute-panics_example : check_and_execute small_env config [] false ≡ none
unfolding add_channel_balances add64
check_and_execute-panics_example =
    check_and_execute-panics small_env config [] false (record channel { capacity = 500000 } ∷ [])
      10000 ([], some 900000) refl refl queried refl too_high

abbrev stored_config : SerializedChainConfig
stored_config = record {
  max_balance = 5000;
  reserve_balance = 0;
  max_fee_percent = percent 1;
  from_wallet = "main";
  to_wallet = "";
  to_address = "lq1";
  tenant = none;
}

abbrev chain_env : ChainEnv
chain_env = record {
  arith = millionths;
  wallets = wallet ∷ [];
  tenant_by_name = λ name. err broken;
  default_tenant = 1;
  address_currency = λ address. ok Currency.liquid;
  pair_info = λ p. ok pair_info;
  budget = ok 10000;
  send_fee = λ all amount id. invalid_argument;
  pending_swaps = λ tenant. ok 0;
  create = λ request. none;
}

abbrev chain_config : ChainConfig
chain_config = record {
  serialized = stored_config;
  tenant_id = 1;
  from = wallet;
  to = none;
  pair = record { from = Currency.btc; to = Currency.liquid };
}

initialized : init chain_env stored_config ≡ ok chain_config
unfolding init init_tenant init_wallets finish_init find_target get_any_wallet first_allowed allowed
initialized = refl

init-IsValid_example : IsValid chain_config
init-IsValid_example = init-IsValid chain_env stored_config chain_config initialized

swap_amount-wraps_example :
    (amount : ℕ) × (swap_amount chain_env chain_config
        (wanted chain_env chain_config 6000)
        invalid_argument
      ≡ ok amount)
    × (6000 < amount)
swap_amount-wraps_example = swap_amount-wraps chain_env chain_config 6000 refl (omega arith)

abbrev serialized : SerializedLnConfig
serialized = record {
  enabled = true;
  swap_type = "normal";
  currency = Currency.btc;
  max_fee_percent = percent 1;
  outbound_balance = 0;
  inbound_balance = 0;
  outbound_balance_percent = percent 25;
  inbound_balance_percent = percent 25;
  per_channel = false;
  wallet = "main";
  static_address = "";
  accept_zero_conf = false;
}

abbrev config_env : ConfigEnv
config_env = record {
  arith = millionths;
  wallets = some (wallet ∷ []);
  validate_address = λ address currency. none;
  to_lower = λ text. text;
}

abbrev accepted_config : LightningConfig
accepted_config = record {
  reserve = percent 5;
  max_fee_percent = percent 1;
  currency = Currency.btc;
  swap_type = SwapType.normal;
  outbound_balance = record { absolute = 0; relative = percent 25 };
  inbound_balance = record { absolute = 0; relative = percent 25 };
  per_channel = false;
  wallet = some wallet;
  static_address = "";
  accept_zero_conf = false;
}

abbrev sends_env : ChainEnv
sends_env = record chain_env { send_fee = λ all amount id. sends 799000 }

abbrev chain_sent : ChainRequest
chain_sent = record {
  amount = 799000;
  pair = record { from = Currency.btc; to = Currency.liquid };
  from_wallet_id = 1;
  to_address = some "lq1";
  to_wallet_id = none;
}

abbrev generous_config : ChainConfig
generous_config = record chain_config {
  serialized = record stored_config { reserve_balance = 100000; max_fee_percent = percent 2 };
}

chain_executed :
    check_and_execute_chain sends_env generous_config none false ≡ (none, some chain_sent)
unfolding check_and_execute_chain get_recommendation recommend_chain swap_amount check_chain
    execute_result execute_chain send_chain check check_limits charge calculate_fee_estimate
    calculate_percentage percent_ratio add64 sub64
chain_executed = refl

check_and_execute_chain-IsFit_example :
    (pair : PairInfo) × (sends_env.pair_info generous_config.pair ≡ ok pair)
    × IsFit sends_env generous_config 10000 pair 799000
check_and_execute_chain-IsFit_example =
    check_and_execute_chain-IsFit sends_env generous_config 10000 none none chain_sent refl
      (omega arith) chain_executed
