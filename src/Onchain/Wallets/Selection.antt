-- ===== src/Onchain/Wallets/Selection.antt =====
-- What the selection of a wallet guarantees.
use lightz_client.Base.{
  String, ◌=ₛ◌, ℕ, ◌≡◌, ◌≢◌, refl, inl, inr, true, false, some, List, [], ◌∷◌, arith, head?, ap,
  subst, ◌==◌, All, Bool-cases,
}
use lightz_client.Lightz.Types.{Currency, Error, ok, err}
use lightz_client.Onchain.Wallets.{
  Wallet, WalletChecker, allowed, first_allowed, get_any_wallet, get_wallets, remove_wallet,
}

-- What a checker asks of a wallet.
pub record Suits (c : WalletChecker) (w : Wallet) : Type 0 where
  pub is_ready : w.ready ≡ true
  pub same_id : (i : ℕ) → c.id ≡ some i → w.info.id ≡ i
  pub same_name : (n : String) → c.name ≡ some n → (w.info.name =ₛ n) ≡ true
  pub same_currency : c.currency ≢ Currency.unset → w.info.currency ≡ c.currency
  pub writable : c.allow_readonly ≡ false → w.info.readonly ≡ false
  pub same_tenant : (t : ℕ) → c.tenant_id ≡ some t → w.info.tenant_id ≡ t

pub allowed-Suits : (c : WalletChecker) (w : Wallet) → allowed c w ≡ true → Suits c w
unfolding allowed
allowed-Suits c w h = record {
  is_ready = ground arith;
  same_id = λ i e. ground arith;
  same_name = λ n e. ground arith;
  same_currency = λ n. ground arith;
  writable = λ e. ground arith;
  same_tenant = λ t e. ground arith;
}

-- Every selected wallet is ready and meets the checker's id, name, currency, tenant and write
-- access.
pub get_wallets-Suits : (ws : List Wallet) (c : WalletChecker) → All (Suits c) (get_wallets ws c)
unfolding get_wallets
get_wallets-Suits [] c = tt
get_wallets-Suits (w ∷ ws) c = elim (Bool-cases (allowed c w)) [
  | inl good ↦ rw (good, get_wallets) (allowed-Suits c w good, get_wallets-Suits ws c)
  | inr bad ↦ rw bad (get_wallets-Suits ws c)
]

first_allowed-head :
    (ws : List Wallet) (c : WalletChecker) → first_allowed c ws ≡ head? (get_wallets ws c)
unfolding first_allowed get_wallets
first_allowed-head [] c = refl
first_allowed-head (w ∷ ws) c = ground (arith, first_allowed-head ws c)

-- `GetAnyWallet` gives the first of the wallets that `GetWallets` lists, which suits the checker, and
-- fails exactly when that list is empty.
pub get_any_wallet-first :
    (ws : List Wallet) (c : WalletChecker)
    → ((w : Wallet) → get_any_wallet ws c ≡ ok w → (head? (get_wallets ws c) ≡ some w) × Suits c w)
      × ((e : Error) → get_any_wallet ws c ≡ err e → get_wallets ws c ≡ [])
unfolding get_any_wallet
get_any_wallet-first ws c = go (get_wallets ws c) (get_wallets-Suits ws c) (first_allowed-head ws c)
  where
    go :
        (l : List Wallet)
        → All (Suits c) l
        → first_allowed c ws ≡ head? l
        → ((w : Wallet) → get_any_wallet ws c ≡ ok w → (head? l ≡ some w) × Suits c w)
          × ((e : Error) → get_any_wallet ws c ≡ err e → l ≡ [])
    go [] all first = ((λ w h. ground arith), (λ e h. refl))
    go (v ∷ l) (suits, all) first = (
      (λ w h. let same : v ≡ w = ground arith in (ap some same, subst (Suits c) same suits)),
      (λ e h. ground arith),
    )

-- Where `GetAnyWallet` gives a wallet, it is the first that `GetWallets` lists, and it is ready and
-- meets the checker's id, name, currency, tenant and write access.
pub get_any_wallet-ok :
    (ws : List Wallet) (c : WalletChecker) (w : Wallet)
    → get_any_wallet ws c ≡ ok w
    → (head? (get_wallets ws c) ≡ some w) × Suits c w
get_any_wallet-ok ws c = (get_any_wallet-first ws c).0

-- Removing a wallet leaves no wallet with its id.
remove_wallet-gone : (ws : List Wallet) (id : ℕ) → All (λ w. w.info.id ≢ id) (remove_wallet ws id)
unfolding remove_wallet
remove_wallet-gone [] id = tt
remove_wallet-gone (w ∷ ws) id = elim (Bool-cases (w.info.id == id)) [
  | inl same ↦ rw same (remove_wallet-gone ws id)
  | inr other ↦ rw (other, remove_wallet) ((ground arith), remove_wallet-gone ws id)
]
