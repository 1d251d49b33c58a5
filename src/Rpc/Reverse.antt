-- ===== src/Rpc/Reverse.antt =====
-- internal/rpcserver/router.go, `createReverseSwap`: a swap that the server proposes is checked, stored,
-- and handed to the nursery.
pub mod Steps
pub mod Creation
pub mod Vetting
use lightz_client.Base.{
  ℕ, String, Bool, true, false, ◌==◌, ◌=ₛ◌, ◌&&◌, ◌||◌, not, ◌+◌, if◌then◌else◌, is_some, Option,
  none, some, List, [], ◌∷◌,
}
use lightz_client.Float.{Float64}
use lightz_client.Lightz.Types.{
  Currency, eq_currency, Pair, SwapType, SwapState, Error, errorf, Result, ok, err,
}
use lightz_client.Lightz.Events.{swap_created}
use lightz_client.Lightz.Pairs.{Nested, find_pair}
use lightz_client.Lightz.SwapTree.{TapLeaf, SwapTree, ScriptLibrary, init_tree, check_tree}
use lightz_client.Onchain.Wallets.{Wallet, WalletChecker, get_any_wallet}
use lightz_client.Database.ReverseSwap.{ReverseSwap, Held}
use lightz_client.Nursery.Handler.{Out, value, done, panic}
use lightz_client.Nursery.Amounts.{nursery_check_amounts}
use lightz_client.Nursery.Direct.{send_reverse_update}
use lightz_client.Nursery.Reverse.World.{ReverseEnv}
use lightz_client.Nursery.Reverse.Payment.{pay_reverse_swap}
use lightz_client.Rpc.Request.{
  Answer, answer, fails, panics, Request, pure, require, give, need, ◌>>=◌, ◌>>◌,
}

-- `lightzrpc.PairInfo`; its fees may be missing.
pub record PairInfo : Type 0 where
  pub hash : String
  pub percentage : Option Float64

-- `lightz.ReversePair`, as far as it is used.
pub record ReversePair : Type 0 where
  pub hash : String
  pub percentage : Float64

-- `lightzrpc.CreateReverseSwapRequest`
pub record CreateReverseSwapRequest : Type 0 where
  pub amount : ℕ
  pub address : String
  pub accept_zero_conf : Bool
  pub pair : Option Pair
  pub chan_ids : List String
  pub wallet_id : Option ℕ
  pub return_immediately : Option Bool
  pub external_pay : Option Bool
  pub description : String
  pub description_hash : String
  pub invoice_expiry : ℕ
  pub accepted_pair : Option PairInfo
  pub routing_fee_limit_ppm : Option ℕ
  pub add_magic_routing_hint : Bool

-- `lightz.CreateReverseSwapRequest`, which is sent to the server.
pub record Proposal : Type 0 where
  pub pair : Pair
  pub pair_hash : String
  pub invoice_amount : ℕ
  pub preimage_hash : String
  pub claim_public_key : String
  pub address : String
  pub address_signature : String
  pub referral_id : String
  pub description : String
  pub description_hash : String
  pub invoice_expiry : ℕ

-- `lightz.SerializedTree`
pub record SerializedTree : Type 0 where
  pub claim_leaf : TapLeaf
  pub refund_leaf : TapLeaf

-- `lightz.CreateReverseSwapResponse`, what the server answers.
pub record Response : Type 0 where
  pub id : String
  pub invoice : String
  pub swap_tree : Option SerializedTree
  pub refund_public_key : String
  pub lockup_address : String
  pub timeout_block_height : ℕ
  pub onchain_amount : ℕ
  pub blinding_key : String

pub record Invoice : Type 0 where
  pub payment_hash : String
  pub milli_sat : Option ℕ

-- `lightzrpc.CreateReverseSwapResponse`
pub record Created : Type 0 where
  pub id : String
  pub lockup_address : String
  pub invoice : String
  pub claim_transaction_id : Option String
  pub routing_fee_msat : Option ℕ

-- What the request can call: the nursery's environment; random bytes; the mnemonic in the database and
-- the keys derived from it; the server; the libraries for keys, scripts, addresses and invoices; channel
-- ids (`lightning.NewChanIdFromString`); what SQLite and the subscription at the server answer (`none`:
-- no error); and the updates about the swap, until the stream ends. `tenant_id` is the tenant of the
-- context.
pub record ServerEnv : Type 0 where
  pub reverse : ReverseEnv
  pub scripts : ScriptLibrary
  pub tenant_id : Option ℕ
  pub referral_id : String
  pub new_preimage : Result String
  pub mnemonic : Result String
  pub derive_key : String → ℕ → Result String
  pub increment : Option Error
  pub public_key : String → String
  pub sign : String → String → Result String
  pub validate_address : String → Currency → Option Error
  pub get_reverse_pairs : Result (Nested ReversePair)
  pub propose : Proposal → Result Response
  pub parse_pub_key : String → Result String
  pub parse_chan_id : String → Result ℕ
  pub blinding_from_bytes : String → String
  pub format_tree : SwapTree → String
  pub tree_address : SwapTree → String → Result String
  pub decode_invoice : String → Result Invoice
  pub insert : Option Error
  pub register : Option Error
  pub updates : List ReverseSwap

-- The next key of the mnemonic, what was proposed to the server, the rows of reverse swaps, and the
-- swaps that the nursery was given, as it left them.
pub record Server : Type 0 where
  pub key_index : ℕ
  pub proposed : List Proposal
  pub rows : List ReverseSwap
  pub handed : List Held

abbrev default_tenant_id : ℕ
default_tenant_id = 1

unfoldable pub parse_pair : Option Pair → Pair
parse_pair none = record { from = Currency.btc; to = Currency.btc }
parse_pair (some pair) = pair

abbrev is_true : Option Bool → Bool
is_true (some b) = b
is_true none = false

unfoldable pub is_admin : Option ℕ → Bool
is_admin none = true
is_admin (some id) = id == default_tenant_id

unfoldable pub require_tenant_id : Option ℕ → ℕ
require_tenant_id none = default_tenant_id
require_tenant_id (some id) = id

-- Who pays, where the client's node is available or not.
unfoldable pub pays_externally : (available : Bool) → Option Bool → Result Bool
pays_externally true asked = ok (is_true asked)
pays_externally false (some false) =
    err (errorf "can not create reverse swap without external pay in standalone mode")
pays_externally false _ = ok true

unfoldable pub returns_immediately : (external : Bool) → Option Bool → Result Bool
returns_immediately false asked = ok (is_true asked)
returns_immediately true (some false) =
    err (errorf "can not wait for swap transaction when using external pay")
returns_immediately true _ = ok true

unfoldable pub deserialize : SerializedTree → SwapTree
deserialize t = record {
  claim_leaf = t.claim_leaf;
  refund_leaf = t.refund_leaf;
  is_liquid = false;
  is_claim = false;
  our_key = "";
  lightz_key = "";
}

unfoldable pub check_payment_hash : Invoice → String → Option Error
check_payment_hash invoice preimage_hash =
    if preimage_hash =ₛ invoice.payment_hash
    then none
    else some (errorf "invalid invoice preimage hash")

unfoldable pub invoice_msat : Invoice → Result ℕ
invoice_msat invoice = elim (invoice.milli_sat) [
  | none ↦ err (errorf "invoice amount is missing")
  | some msat ↦ ok msat
]

-- The loop over the updates of a swap whose end is waited for.
unfoldable pub await_updates : List ReverseSwap → Created → Result Created
await_updates [] created = ok created
await_updates (s ∷ rest) created =
    let claimed = await_updates rest (record created {
      claim_transaction_id = some s.claim_transaction_id;
      routing_fee_msat = s.routing_fee_msat;
    }) in
    let waiting = await_updates rest created in
    elim (s.state) [
      | SwapState.successful ↦ claimed
      | SwapState.error ↦ err (errorf s.error)
      | SwapState.server_error ↦ err (errorf s.error)
      | _ ↦ waiting
    ]

-- Where the coins go: an address of the request, or a wallet; and the address that the invoice hints at,
-- with its signature.
pub record Destination : Type 0 where
  pub claim_address : String
  pub wallet_id : Option ℕ
  pub hint_address : String
  pub hint_signature : String
