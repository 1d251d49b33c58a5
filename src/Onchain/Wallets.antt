-- ===== src/Onchain/Wallets.antt =====
-- internal/onchain/onchain.go, the wallets: which wallets a request may use.
pub mod Selection
use lightz_client.Base.{
  ℕ, String, Bool, true, false, ◌==◌, ◌=ₛ◌, ◌&&◌, ◌||◌, not, if◌then◌else◌, Option, none, some,
  List, [], ◌∷◌, ◌++◌,
}
use lightz_client.Lightz.Types.{Currency, eq_currency, Error, Result, ok, err, errorf}
use lightz_client.Onchain.Chain.{Output}

pub record WalletInfo : Type 0 where
  pub id : ℕ
  pub name : String
  pub currency : Currency
  pub readonly : Bool
  pub tenant_id : ℕ

pub record Balance : Type 0 where
  pub total : ℕ
  pub confirmed : ℕ
  pub unconfirmed : ℕ

-- `interface Wallet`: what its backend answers to the calls that the client makes.
-- `derive_blinding_key` is `none` for a wallet that is no liquid_wallet.Wallet.
pub record Wallet : Type 0 where
  pub info : WalletInfo
  pub ready : Bool
  pub new_address : Result String
  pub get_balance : Result Balance
  pub get_outputs : String → Result (List Output)
  pub apply_transaction : String → Option Error
  pub derive_blinding_key : Option (String → Result String)

pub record WalletChecker : Type 0 where
  pub id : Option ℕ
  pub name : Option String
  pub currency : Currency
  pub allow_readonly : Bool
  pub tenant_id : Option ℕ

abbrev matches_id : Option ℕ → ℕ → Bool
matches_id none x = true
matches_id (some y) x = x == y

abbrev matches_name : Option String → String → Bool
matches_name none x = true
matches_name (some y) x = x =ₛ y

unfoldable pub allowed : WalletChecker → Wallet → Bool
allowed c w =
    w.ready
    && (matches_id c.id w.info.id
        && ((eq_currency w.info.currency c.currency || eq_currency c.currency Currency.unset)
            && (matches_name c.name w.info.name
                && ((not w.info.readonly || c.allow_readonly)
                    && matches_id c.tenant_id w.info.tenant_id))))

unfoldable pub first_allowed : WalletChecker → List Wallet → Option Wallet
first_allowed c [] = none
first_allowed c (w ∷ ws) = if allowed c w then some w else first_allowed c ws

unfoldable pub get_any_wallet : List Wallet → WalletChecker → Result Wallet
unfolding first_allowed
get_any_wallet wallets c = elim (first_allowed c wallets) [
  | some w ↦ ok w
  | none ↦ err (errorf "wallet not found")
]

unfoldable pub get_wallets : List Wallet → WalletChecker → List Wallet
get_wallets [] c = []
get_wallets (w ∷ ws) c = if allowed c w then w ∷ get_wallets ws c else get_wallets ws c

unfoldable pub add_wallet : List Wallet → Wallet → List Wallet
add_wallet wallets w = wallets ++ w ∷ []

unfoldable pub remove_wallet : List Wallet → ℕ → List Wallet
remove_wallet [] id = []
remove_wallet (w ∷ ws) id =
    let rest = remove_wallet ws id in if w.info.id == id then rest else w ∷ rest
