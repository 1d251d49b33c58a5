-- ===== src/Autoswap/Chain.antt =====
-- internal/autoswap/chain.go: the chain swap that empties a wallet whose balance is too high.
pub mod Rules
pub mod Sending
use lightz_client.Base.{
  ℕ, sub64, String, Bool, true, false, not, ◌==◌, ◌=ₛ◌, ◌&&◌, if◌then◌else◌, ltb, is_empty, is_some,
  Option, none, some, List, [],
}
use lightz_client.Float.{Float64, Arith}
use lightz_client.Lightz.Types.{Currency, Pair, eq_currency, Error, errorf, Result, ok, err}
use lightz_client.Onchain.Wallets.{Wallet, WalletChecker, get_any_wallet}
use lightz_client.Autoswap.Checks.{
  PairInfo, Checks, CheckParams, check, dismiss_if, reason_pending_swap, check_accepted_reasons,
}

-- The configuration as it is stored.
pub record SerializedChainConfig : Type 0 where
  pub max_balance : ℕ
  pub reserve_balance : ℕ
  pub max_fee_percent : Float64
  pub from_wallet : String
  pub to_wallet : String
  pub to_address : String
  pub tenant : Option String

-- What `Init` adds: the tenant, the wallets and the pair.
pub record ChainConfig : Type 0 where
  pub serialized : SerializedChainConfig
  pub tenant_id : ℕ
  pub from : Wallet
  pub to : Option Wallet
  pub pair : Pair

-- `WalletSendFee`: the error with the code InvalidArgument is told apart.
pub data SendFee : Type 0 where
  sends : (amount : ℕ) → SendFee
  invalid_argument : SendFee
  fails : Error → SendFee

pub record ChainRequest : Type 0 where
  pub amount : ℕ
  pub pair : Pair
  pub from_wallet_id : ℕ
  pub to_address : Option String
  pub to_wallet_id : Option ℕ

pub record ChainEnv : Type 0 where
  pub arith : Arith
  pub wallets : List Wallet
  pub tenant_by_name : String → Result ℕ
  pub default_tenant : ℕ
  pub address_currency : String → Result Currency
  pub pair_info : Pair → Result PairInfo
  pub budget : Result ℕ
  pub send_fee : (send_all : Bool) → ℕ → ℕ → SendFee
  pub pending_swaps : ℕ → Result ℕ
  pub create : ChainRequest → Option Error

abbrev pub min_reserve : ℕ
min_reserve = 10000

-- The checkers of `Init`.
abbrev pub wallet_query : String → Bool → ℕ → WalletChecker
wallet_query name readonly tenant_id = record {
  id = none;
  name = some name;
  currency = Currency.unset;
  allow_readonly = readonly;
  tenant_id = some tenant_id;
}

module _ (env : ChainEnv) where
  abbrev pub tenant_of : Option String → Result ℕ
  tenant_of none = ok env.default_tenant
  tenant_of (some name) = env.tenant_by_name name

  -- Where the swap goes to: the wallet, if it is one, and the currency.
  unfoldable pub find_target : SerializedChainConfig → ℕ → Result (Option Wallet × Currency)
  find_target cfg tenant_id =
      if not (cfg.to_address =ₛ "")
      then elim (env.address_currency cfg.to_address) [
        | err e ↦ err (errorf "configured ToAddress is not a valid BTC or Liquid address")
        | ok currency ↦ ok (none, currency)
      ]
      else (if not (cfg.to_wallet =ₛ "")
          then elim (get_any_wallet env.wallets (wallet_query cfg.to_wallet true tenant_id)) [
            | err e ↦ err (errorf "could not get to wallet")
            | ok w ↦ ok (some w, w.info.currency)
          ]
          else err (errorf "one of ToAddress or ToWallet must be set"))

  unfoldable pub finish_init :
      SerializedChainConfig → ℕ → Wallet → Result (Option Wallet × Currency) → Result ChainConfig
  finish_init cfg tenant_id from (err e) = err e
  finish_init cfg tenant_id from (ok (to, currency)) =
      if eq_currency from.info.currency currency
      then err (errorf "from and to currency must be different")
      else ok (record {
        serialized = cfg;
        tenant_id = tenant_id;
        from = from;
        to = to;
        pair = record { from = from.info.currency; to = currency };
      })

  unfoldable pub init_wallets : SerializedChainConfig → ℕ → Result Wallet → Result ChainConfig
  unfolding find_target finish_init
  init_wallets cfg tenant_id (err e) = err (errorf "could not get from wallet")
  init_wallets cfg tenant_id (ok from) = finish_init cfg tenant_id from (find_target cfg tenant_id)

  unfoldable pub init_tenant : SerializedChainConfig → Result ℕ → Result ChainConfig
  unfolding init_wallets
  init_tenant cfg (err e) = err (errorf "could not get tenant")
  init_tenant cfg (ok tenant_id) =
      if cfg.max_balance == 0
      then err (errorf "MaxBalance must be set")
      else (if ltb cfg.max_balance cfg.reserve_balance
          then err (errorf "reserve balance is greater than max balance")
          else init_wallets cfg tenant_id
              (get_any_wallet env.wallets (wallet_query cfg.from_wallet false tenant_id)))

  unfoldable pub init : SerializedChainConfig → Result ChainConfig
  unfolding init_tenant
  init cfg = init_tenant cfg (tenant_of cfg.tenant)

module _ (env : ChainEnv) (cfg : ChainConfig) where
  -- The amount that is asked for: all of the balance but the reserve.
  abbrev pub wanted : ℕ → ℕ
  wanted confirmed = sub64 confirmed cfg.serialized.reserve_balance

  abbrev pub send_all : Bool
  send_all = cfg.serialized.reserve_balance == 0

  -- The amount of the swap; with too little for the fee, sending all leaves `MinReserve`.
  unfoldable pub swap_amount : ℕ → SendFee → Result ℕ
  swap_amount amount (sends n) = ok n
  swap_amount amount invalid_argument = ok (if send_all then sub64 amount min_reserve else amount)
  swap_amount amount (fails e) = err (errorf "could not get send fee")

  unfoldable pub check_chain : PairInfo → ℕ → Result ℕ → Result ℕ → Result (Option Checks)
  check_chain pair budget (err e) pending = err e
  check_chain pair budget (ok amount) (err e) = err (errorf "could not query pending swaps")
  check_chain pair budget (ok amount) (ok pending) =
      let params : CheckParams = record {
        max_fee_percent = cfg.serialized.max_fee_percent;
        pair = pair;
        dismissed_reasons = [];
      } in
      ok (
        some
          (dismiss_if (ltb 0 pending) reason_pending_swap (check env.arith amount params budget).0))

  unfoldable pub recommend_chain : Result ℕ → Result PairInfo → Result ℕ → Result (Option Checks)
  unfolding swap_amount check_chain
  recommend_chain (err e) pair budget = err (errorf "could not get wallet balance")
  recommend_chain (ok confirmed) (err e) budget = err (errorf "could not get pair info")
  recommend_chain (ok confirmed) (ok pair) (err e) = err (errorf "could not get current budget")
  recommend_chain (ok confirmed) (ok pair) (ok budget) =
      if ltb cfg.serialized.max_balance confirmed
      then check_chain pair budget
          (swap_amount (wanted confirmed)
            (env.send_fee send_all (wanted confirmed) cfg.from.info.id))
          (env.pending_swaps cfg.tenant_id)
      else ok none

  abbrev pub confirmed_of : Result ℕ
  confirmed_of = elim (cfg.from.get_balance) [ ok b ↦ ok b.confirmed | err e ↦ err e ]

  -- The `Swap` of `getRecommendation`.
  unfoldable pub get_recommendation : Result (Option Checks)
  unfolding recommend_chain
  get_recommendation = recommend_chain confirmed_of (env.pair_info cfg.pair) env.budget

  abbrev to_id : Option Wallet → Option ℕ
  to_id none = none
  to_id (some w) = some w.info.id

  abbrev chain_request : Checks → ChainRequest
  chain_request swap = record {
    amount = swap.amount;
    pair = cfg.pair;
    from_wallet_id = cfg.from.info.id;
    to_address =
        if not (cfg.serialized.to_address =ₛ "") then some cfg.serialized.to_address else none;
    to_wallet_id = if not (cfg.serialized.to_address =ₛ "") then none else to_id cfg.to;
  }

  abbrev accept : Option (List String) → Checks → Option Error
  accept none swap = none
  accept (some reasons) swap = check_accepted_reasons reasons swap.dismissed_reasons

  unfoldable pub send_chain : Bool → Checks → Option Error → Option Error × Option ChainRequest
  send_chain force swap (some e) = (some e, none)
  send_chain force swap none =
      if not force && not (is_empty swap.dismissed_reasons)
      then (none, none)
      else (env.create (chain_request swap), some (chain_request swap))

  -- `execute`: the error, and what was sent.
  unfoldable pub execute_chain :
      Option (List String) → Bool → Option Checks → Option Error × Option ChainRequest
  unfolding send_chain
  execute_chain accepted force none = (none, none)
  execute_chain accepted force (some swap) = send_chain force swap (accept accepted swap)

  unfoldable pub execute_result :
      Option (List String) → Bool → Result (Option Checks) → Option Error × Option ChainRequest
  unfolding execute_chain
  execute_result accepted force (err e) = (some (errorf "could not get swap recommendation"), none)
  execute_result accepted force (ok swap) = execute_chain accepted force swap

  unfoldable pub check_and_execute_chain :
      Option (List String) → Bool → Option Error × Option ChainRequest
  unfolding get_recommendation execute_result
  check_and_execute_chain accepted force = execute_result accepted force get_recommendation
