-- ===== src/Autoswap/Chain/Rules.antt =====
-- What the configuration and the recommendation of a chain swap satisfy.
use lightz_client.Base.{
  ℕ, ◌+◌, ◌-◌, ◌≤◌, ◌<◌, u64_mod, sub64, ◌≡◌, refl, subst, inl, inr, ◌==◌, false, ltb, Option,
  arith, ltb→le, Bool-cases,
}
use lightz_client.Lightz.Types.{Currency, eq_currency, Result, ok, err}
use lightz_client.Onchain.Wallets.{Wallet}
use lightz_client.Onchain.Wallets.Selection.{Suits, get_any_wallet-first}
use lightz_client.Autoswap.Chain.{
  SerializedChainConfig, ChainConfig, ChainEnv, invalid_argument, min_reserve, find_target,
  finish_init, init_wallets, init_tenant, init, wallet_query, tenant_of, wanted, swap_amount,
}

-- The limits of the balance make sense, and the two ends of the swap are different chains.
pub record IsValid (cfg : ChainConfig) : Type 0 where
  pub limited : 0 < cfg.serialized.max_balance
  pub reserved : cfg.serialized.reserve_balance ≤ cfg.serialized.max_balance
  pub changes : eq_currency cfg.pair.from cfg.pair.to ≡ false
  pub from_wallet : cfg.pair.from ≡ cfg.from.info.currency
  pub suits : Suits (wallet_query cfg.serialized.from_wallet false cfg.tenant_id) cfg.from

module _ (env : ChainEnv) where
  abbrev IfOk : Result ChainConfig → Type 0
  IfOk (err e) = Unit
  IfOk (ok cfg) = IsValid cfg

  finish_init-IsValid :
      (cfg : SerializedChainConfig) (tenant_id : ℕ) (from : Wallet)
      (target : Result (Option Wallet × Currency))
      → 0 < cfg.max_balance
      → cfg.reserve_balance ≤ cfg.max_balance
      → Suits (wallet_query cfg.from_wallet false tenant_id) from
      → IfOk (finish_init env cfg tenant_id from target)
  unfolding finish_init
  finish_init-IsValid cfg tenant_id from (err e) l r s = tt
  finish_init-IsValid cfg tenant_id from (ok (to, currency)) l r s =
      elim (Bool-cases (eq_currency from.info.currency currency)) [
        | inl same ↦ rw same tt
        | inr other ↦
            rw other
              (record { limited = l; reserved = r; changes = other; from_wallet = refl; suits = s })
      ]

  init_wallets-IsValid :
      (cfg : SerializedChainConfig) (tenant_id : ℕ) (from : Result Wallet)
      → 0 < cfg.max_balance
      → cfg.reserve_balance ≤ cfg.max_balance
      → ((w : Wallet) → from ≡ ok w → Suits (wallet_query cfg.from_wallet false tenant_id) w)
      → IfOk (init_wallets env cfg tenant_id from)
  unfolding init_wallets
  init_wallets-IsValid cfg tenant_id (err e) l r s = tt
  init_wallets-IsValid cfg tenant_id (ok from) l r s =
      finish_init-IsValid cfg tenant_id from (find_target env cfg tenant_id) l r (s from refl)

  init_tenant-IsValid :
      (cfg : SerializedChainConfig) (tenant_id : Result ℕ) → IfOk (init_tenant env cfg tenant_id)
  unfolding init_tenant
  init_tenant-IsValid cfg (err e) = tt
  init_tenant-IsValid cfg (ok tenant_id) = elim (Bool-cases (cfg.max_balance == 0)) [
    | inl unlimited ↦ rw unlimited tt
    | inr limited ↦ elim (Bool-cases (ltb cfg.max_balance cfg.reserve_balance)) [
      | inl over ↦ rw (limited, over) tt
      | inr under ↦
          rw (limited, under)
            (init_wallets-IsValid cfg tenant_id _ (ground arith) (ltb→le _ _ under) (λ w e.
              ((get_any_wallet-first env.wallets (wallet_query cfg.from_wallet false tenant_id)).0 w
                e).1))
    ]
  ]

  -- Where a configuration of chain swaps is accepted, its maximal balance is positive and at least the
  -- reserve, the two currencies differ, and the wallet that is emptied is ready, writable, of the
  -- configuration's tenant and of the currency that is sent.
  pub init-IsValid :
      (cfg : SerializedChainConfig) (c : ChainConfig) → init env cfg ≡ ok c → IsValid c
  unfolding init
  init-IsValid cfg c h = subst IfOk h (init_tenant-IsValid cfg (tenant_of env cfg.tenant))

  -- With a valid configuration, a balance above the maximum, the amount asked for does not underflow.
  wanted-lem :
      (cfg : ChainConfig) (confirmed : ℕ)
      → IsValid cfg
      → cfg.serialized.max_balance < confirmed
      → confirmed < u64_mod
      → wanted env cfg confirmed ≡ confirmed - cfg.serialized.reserve_balance
  unfolding sub64
  wanted-lem cfg confirmed valid over lt = omega (arith, valid.reserved)

  -- Without a reserve, where the wallet can not pay the fee and holds less than 10000 satoshis, the
  -- amount of the swap wraps around to more than the wallet holds.
  pub swap_amount-wraps :
      (cfg : ChainConfig) (confirmed : ℕ)
      → cfg.serialized.reserve_balance ≡ 0
      → confirmed < min_reserve
      → (amount : ℕ) × (swap_amount env cfg (wanted env cfg confirmed) invalid_argument ≡ ok amount)
        × (confirmed < amount)
  unfolding swap_amount sub64
  swap_amount-wraps cfg confirmed none_reserved lt =
      (confirmed + u64_mod - min_reserve, ground arith, omega arith)
