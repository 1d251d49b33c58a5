-- ===== src/Autoswap/Config/Accepted.antt =====
-- What an accepted configuration satisfies.
use lightz_client.Base.{◌≡◌, true, false, ◌&&◌, Option, some, arith}
use lightz_client.Lightz.Types.{SwapType, Result, ok, err}
use lightz_client.Onchain.Wallets.{Wallet}
use lightz_client.Onchain.Wallets.Selection.{Suits}
use lightz_client.Autoswap.Checks.{is_absolute}
use lightz_client.Autoswap.Strategy.{LightningConfig, allows}
use lightz_client.Autoswap.Config.{
  SerializedLnConfig, ConfigEnv, zero_outbound, zero_inbound, wallet_query,
}

-- The thresholds and the types of swaps that the configuration allows fit.
pub record HasThresholds (env : ConfigEnv) (cfg : LightningConfig) : Type 0 where
  pub some_threshold : (zero_inbound env cfg && zero_outbound env cfg) ≡ false
  pub relative_per_channel :
      cfg.per_channel ≡ true
      → (is_absolute cfg.inbound_balance ≡ false) × (is_absolute cfg.outbound_balance ≡ false)
  pub reverse_per_channel : cfg.per_channel ≡ true → allows cfg SwapType.normal ≡ false
  pub outbound_for_normal : allows cfg SwapType.normal ≡ true → zero_outbound env cfg ≡ false
  pub inbound_for_reverse : allows cfg SwapType.reverse ≡ true → zero_inbound env cfg ≡ false

-- 0 is nought, as a float64.
abbrev pub NoughtLaw : ConfigEnv → Type 0
NoughtLaw env = env.arith.is_nought (env.arith.ratio 0 1) ≡ true

module _ (env : ConfigEnv) where
  -- For normal swaps there is the named wallet, which is ready, of the right currency and can send.
  abbrev pub HasWallet : SerializedLnConfig → LightningConfig → Option Wallet → Type 0
  HasWallet s cfg wallet =
      allows cfg SwapType.normal ≡ true
      → (w : Wallet) × (wallet ≡ some w) × Suits (wallet_query env s cfg) w

  abbrev WalletOk : SerializedLnConfig → LightningConfig → Result (Option Wallet) → Type 0
  WalletOk s cfg (err e) = Unit
  WalletOk s cfg (ok wallet) = HasWallet s cfg wallet

  -- The thresholds, the scope and the currency are those that were given.
  abbrev Holds : SerializedLnConfig → LightningConfig → Type 0
  Holds s cfg =
      (cfg.outbound_balance.absolute ≡ s.outbound_balance)
      × (cfg.inbound_balance.absolute ≡ s.inbound_balance)
      × (cfg.per_channel ≡ s.per_channel)
      × (cfg.currency ≡ s.currency)

  -- The given thresholds fit and, where the configuration is enabled, so does the wallet.
  abbrev pub IsAccepted : SerializedLnConfig → LightningConfig → Type 0
  IsAccepted s cfg =
      Holds s cfg × HasThresholds env cfg × (s.enabled ≡ true → HasWallet s cfg cfg.wallet)

  abbrev ConfigOk : SerializedLnConfig → Result LightningConfig → Type 0
  ConfigOk s (err e) = Unit
  ConfigOk s (ok cfg) = IsAccepted s cfg
