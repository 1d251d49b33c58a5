-- ===== src/Autoswap/Config.antt =====
-- internal/autoswap/lightning.go, `Init` and `InitWallet`, and `ParseSwapType` of pkg/lightz/api.go: the
-- configurations that are accepted.
pub mod Accepted
use lightz_client.Base.{
  ℕ, String, Bool, true, false, not, ◌&&◌, ◌==◌, ◌=ₛ◌, if◌then◌else◌, Option, none, some, List,
}
use lightz_client.Float.{Float64, Arith}
use lightz_client.Lightz.Types.{Currency, SwapType, Error, errorf, Result, ok, err}
use lightz_client.Onchain.Wallets.{Wallet, WalletChecker, get_any_wallet}
use lightz_client.Autoswap.Checks.{Balance, is_absolute, is_zero}
use lightz_client.Autoswap.Strategy.{LightningConfig, allows}

-- `SerializedLnConfig`, with the currency parsed.
pub record SerializedLnConfig : Type 0 where
  pub enabled : Bool
  pub swap_type : String
  pub currency : Currency
  pub max_fee_percent : Float64
  pub outbound_balance : ℕ
  pub inbound_balance : ℕ
  pub outbound_balance_percent : Float64
  pub inbound_balance_percent : Float64
  pub per_channel : Bool
  pub wallet : String
  pub static_address : String
  pub accept_zero_conf : Bool

-- The wallets (`none` where there is no onchain service), the check of addresses, and
-- `strings.ToLower`.
pub record ConfigEnv : Type 0 where
  pub arith : Arith
  pub wallets : Option (List Wallet)
  pub validate_address : String → Currency → Option Error
  pub to_lower : String → String

abbrev parse_lower : String → Result SwapType
parse_lower text =
    if text =ₛ "submarine"
    then ok SwapType.normal
    else (if text =ₛ "normal"
        then ok SwapType.normal
        else (if text =ₛ "reverse"
            then ok SwapType.reverse
            else (if text =ₛ "" then ok SwapType.unset else err (errorf "invalid swap type"))))

module _ (env : ConfigEnv) where
  open env use {arith}

  unfoldable pub parse_swap_type : String → Result SwapType
  parse_swap_type text = parse_lower (env.to_lower text)

  -- Shares of the capacity count only where no absolute threshold is set.
  abbrev pub uses_relative : SerializedLnConfig → Bool
  uses_relative s = s.inbound_balance == 0 && s.outbound_balance == 0

  abbrev relative_of : Bool → Float64 → Float64
  relative_of true percent = percent
  relative_of false percent = arith.ratio 0 1

  -- The fields that `Init` sets before its checks.
  unfoldable pub with_fields :
      SerializedLnConfig → Float64 → SwapType → Option Wallet → LightningConfig
  with_fields s reserve swap_type wallet = record {
    reserve = reserve;
    max_fee_percent = s.max_fee_percent;
    currency = s.currency;
    swap_type = swap_type;
    outbound_balance = record {
      absolute = s.outbound_balance;
      relative = relative_of (uses_relative s) s.outbound_balance_percent;
    };
    inbound_balance = record {
      absolute = s.inbound_balance;
      relative = relative_of (uses_relative s) s.inbound_balance_percent;
    };
    per_channel = s.per_channel;
    wallet = wallet;
    static_address = s.static_address;
    accept_zero_conf = s.accept_zero_conf;
  }

  abbrev pub max_percent : Float64 → Float64
  max_percent reserve = arith.sub (arith.ratio 100 1) (arith.mul (arith.ratio 2 1) reserve)

  -- `if c { return errors.New(message) }`, and the checks behind it.
  abbrev pub guard : Bool → String → Option Error → Option Error
  guard true message rest = some (errorf message)
  guard false message rest = rest

  abbrev pub zero_outbound : LightningConfig → Bool
  zero_outbound cfg = is_zero arith cfg.outbound_balance

  abbrev pub zero_inbound : LightningConfig → Bool
  zero_inbound cfg = is_zero arith cfg.inbound_balance

  -- The checks of `Init`, in its order.
  unfoldable pub check_config : SerializedLnConfig → LightningConfig → Option Error
  check_config s cfg =
      guard
        (uses_relative s
          && arith.gt (arith.add cfg.outbound_balance.relative cfg.inbound_balance.relative)
              (max_percent cfg.reserve))
        "sum of thresholds too high"
        (guard (zero_inbound cfg && zero_outbound cfg) "no balance threshold set" (
          guard (cfg.per_channel && is_absolute cfg.inbound_balance)
            "absolute balance threshold not supported for per channel rebalancing"
            (guard (cfg.per_channel && allows cfg SwapType.normal)
              "per channel rebalancing only supported for reverse swaps"
              (guard (zero_outbound cfg && allows cfg SwapType.normal)
                "outbound balance must be set for normal swaps"
                (guard
                  ((not (zero_outbound cfg) && zero_inbound cfg) && allows cfg SwapType.reverse)
                  "inbound balance must be set for reverse swaps" none)))))

  -- The checker of `InitWallet`: normal swaps need a wallet that can send.
  abbrev pub wallet_query : SerializedLnConfig → LightningConfig → WalletChecker
  wallet_query s cfg = record {
    id = none;
    name = some s.wallet;
    currency = cfg.currency;
    allow_readonly = not (allows cfg SwapType.normal);
    tenant_id = none;
  }

  abbrev check_address : SerializedLnConfig → Option Error → Result (Option Wallet)
  check_address s none = ok none
  check_address s (some e) = err (errorf "invalid static address")

  abbrev pub found_wallet : Result Wallet → Result (Option Wallet)
  found_wallet (ok w) = ok (some w)
  found_wallet (err e) = err (errorf "could not find wallet")

  -- `InitWallet`: the wallet, if any.
  unfoldable pub init_wallet :
      SerializedLnConfig → LightningConfig → Option (List Wallet) → Result (Option Wallet)
  init_wallet s cfg none = err (errorf "can not initialize wallet without onchain")
  init_wallet s cfg (some wallets) =
      if not (s.wallet =ₛ "")
      then found_wallet (get_any_wallet wallets (wallet_query s cfg))
      else (if allows cfg SwapType.normal
          then err (errorf "wallet name must be set for normal swaps")
          else (if not (s.static_address =ₛ "")
              then check_address s (env.validate_address s.static_address cfg.currency)
              else err (errorf "static address or wallet must be set")))

  -- An error of the wallet counts only where the configuration is enabled.
  unfoldable pub finish_config :
      Bool → LightningConfig → Result (Option Wallet) → Result LightningConfig
  finish_config enabled cfg (ok wallet) = ok (record cfg { wallet = wallet })
  finish_config true cfg (err e) = err e
  finish_config false cfg (err e) = ok cfg

  unfoldable pub checked_config :
      SerializedLnConfig → LightningConfig → Option Error → Result LightningConfig
  unfolding init_wallet finish_config
  checked_config s cfg (some e) = err e
  checked_config s cfg none = finish_config s.enabled cfg (init_wallet s cfg env.wallets)

  unfoldable pub parsed_config :
      SerializedLnConfig → Float64 → Result SwapType → Result LightningConfig
  unfolding with_fields check_config checked_config
  parsed_config s reserve (err e) = err (errorf "invalid swap type")
  parsed_config s reserve (ok swap_type) =
      let cfg = with_fields s reserve swap_type none in checked_config s cfg (check_config s cfg)

  -- `Init`, on a configuration with the reserve that `NewLightningConfig` sets.
  unfoldable pub init_config : SerializedLnConfig → Float64 → Result LightningConfig
  unfolding parse_swap_type parsed_config
  init_config s reserve = parsed_config s reserve (parse_swap_type s.swap_type)
