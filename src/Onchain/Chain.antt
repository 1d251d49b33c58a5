-- ===== src/Onchain/Chain.antt =====
-- internal/onchain/onchain.go, the queries: which provider answers, how often a lookup is retried,
-- and which output of a lockup transaction belongs to a swap. Third parties (a chain provider, the
-- transaction codecs of the libraries behind pkg/lightz/btc.go and liquid.go) are arguments.
pub mod Lockup
use lightz_client.Base.{
  ℕ, zero, suc, ◌+◌, String, Bool, true, false, ◌==◌, ◌=ₛ◌, if◌then◌else◌, ltb, Option, none, some,
  List, ◌&&◌, not,
}
use mathlib.Core.Option
use lightz_client.Float.{Float64, Arith}
use lightz_client.Lightz.Types.{Currency, Error, ErrorKind, errorf, Result, ok, err}

pub record Output : Type 0 where
  pub tx_id : String
  pub value : ℕ

-- `interface ChainProvider`. An answer may change between the attempts of one lookup, which are
-- numbered from 0.
pub record ChainProvider : Type 0 where
  pub estimate_fee : Result Float64
  pub block_height : Result ℕ
  pub raw_transaction : ℕ → String → Result String
  pub broadcast : String → Result String
  pub is_confirmed : ℕ → String → Result Bool
  pub unspent_outputs : String → Result (List Output)

pub record OutPoint : Type 0 where
  pub hash : String
  pub index : ℕ

-- An output of a Liquid transaction: its value, if it unblinds without a key, and its script.
pub record LiquidOutput : Type 0 where
  pub unblinded : Option ℕ
  pub script_empty : Bool

-- `interface Transaction`, by its two implementations.
pub data Transaction : Type 0 where
  btc_transaction : (hash : String) → List OutPoint → (values : List ℕ) → Transaction
  liquid_transaction : (hash : String) → List LiquidOutput → Transaction

abbrev pub hash : Transaction → String
hash (btc_transaction h ins outs) = h
hash (liquid_transaction h outs) = h

-- The codecs: `liquid_from_hex` takes the hex and the blinding key.
pub record Codec : Type 0 where
  pub liquid_from_hex : String → String → Result Transaction
  pub btc_from_hex : String → Result Transaction
  pub find_vout : Transaction → String → Result (ℕ × ℕ)
  pub serialize : Transaction → Result String

-- `NewTxFromHex` of pkg/lightz/transaction.go: a Liquid hex that does not parse is tried as Bitcoin.
unfoldable pub new_tx_from_hex : Codec → Currency → String → String → Result Transaction
new_tx_from_hex codec Currency.liquid hex key = elim (codec.liquid_from_hex hex key) [
  | ok tx ↦ ok tx
  | err e ↦ codec.btc_from_hex hex
]
new_tx_from_hex codec _ hex key = codec.btc_from_hex hex

abbrev pub transaction_currency : Transaction → Currency
transaction_currency (liquid_transaction h outs) = Currency.liquid
transaction_currency (btc_transaction h ins outs) = Currency.btc

-- `struct Currency`: a provider, and the cached block height (0: none yet).
pub record Chain : Type 0 where
  pub provider : ChainProvider
  pub height : ℕ

pub record Onchain : Type 0 where
  pub btc : Option Chain
  pub liquid : Option Chain

abbrev or_invalid : Option Chain → Result Chain
or_invalid none = err (errorf "invalid currency")
or_invalid (some chain) = ok chain

unfoldable pub get_currency : Onchain → Currency → Result Chain
get_currency o Currency.btc = or_invalid o.btc
get_currency o Currency.liquid = or_invalid o.liquid
get_currency o _ = err (errorf "invalid currency")

-- The loop of `GetTransaction`, with the retries that are left: the first attempt and, where the
-- call asks for it, five more.
unfoldable pub fetch : ChainProvider → String → ℕ → ℕ → Result String
fetch p tx_id attempt zero = p.raw_transaction attempt tx_id
fetch p tx_id attempt (suc retries) = elim (p.raw_transaction attempt tx_id) [
  | ok hex ↦ ok hex
  | err e ↦ fetch p tx_id (attempt + 1) retries
]

abbrev pub retry_count : Bool → ℕ
retry_count true = 5
retry_count false = 0

unfoldable pub get_transaction :
    Codec → Onchain → Currency → String → String → Bool → Result Transaction
unfolding get_currency fetch new_tx_from_hex
get_transaction codec o currency tx_id key retry =
    if tx_id =ₛ "" then err (errorf "empty transaction id") else elim (get_currency o currency) [
      | err e ↦ err e
      | ok chain ↦ elim (fetch chain.provider tx_id 0 (retry_count retry)) [
        | err e ↦ err e
        | ok hex ↦ new_tx_from_hex codec currency hex key
      ]
    ]

-- The loop of `IsTransactionConfirmed`: an unsupported check is not retried.
unfoldable pub poll_confirmed : ChainProvider → String → ℕ → ℕ → Result Bool
poll_confirmed p tx_id attempt zero = p.is_confirmed attempt tx_id
poll_confirmed p tx_id attempt (suc retries) = elim (p.is_confirmed attempt tx_id) [
  | ok confirmed ↦ ok confirmed
  | err e ↦ elim (e.kind) [
    | ErrorKind.unsupported ↦ err e
    | _ ↦ poll_confirmed p tx_id (attempt + 1) retries
  ]
]

unfoldable pub is_transaction_confirmed : Onchain → Currency → String → Bool → Result Bool
unfolding get_currency poll_confirmed
is_transaction_confirmed o currency tx_id retry = elim (get_currency o currency) [
  | err e ↦ err e
  | ok chain ↦ poll_confirmed chain.provider tx_id 0 (retry_count retry)
]

-- `chain.blockHeight.Store`, on the chain that `get_currency` found.
abbrev store_height : Onchain → Currency → ℕ → Onchain
store_height o Currency.btc h = record o {
  btc = Option.map (λ (c : Chain). record c { height = h }) o.btc;
}
store_height o Currency.liquid h = record o {
  liquid = Option.map (λ (c : Chain). record c { height = h }) o.liquid;
}
store_height o _ h = o

-- `GetBlockHeight`: the cached height, or the provider's, which it caches.
unfoldable pub get_block_height : Onchain → Currency → Result ℕ × Onchain
unfolding get_currency
get_block_height o currency = elim (get_currency o currency) [
  | err e ↦ (err e, o)
  | ok chain ↦
      if chain.height == 0
      then elim (chain.provider.block_height) [
        | err e ↦ (err e, o)
        | ok h ↦ (ok h, store_height o currency h)
      ]
      else (ok chain.height, o)
]

unfoldable pub broadcast_transaction : Codec → Onchain → Transaction → Result String
unfolding get_currency
broadcast_transaction codec o tx = elim (get_currency o (transaction_currency tx)) [
  | err e ↦ err e
  | ok chain ↦ elim (codec.serialize tx) [ err e ↦ err e | ok hex ↦ chain.provider.broadcast hex ]
]

unfoldable pub get_unspent_outputs : Onchain → Currency → String → Result (List Output)
unfolding get_currency
get_unspent_outputs o currency address = elim (get_currency o currency) [
  | err e ↦ err e
  | ok chain ↦ chain.provider.unspent_outputs address
]

-- The map `FeeFloor`.
abbrev pub fee_floor : Arith → Currency → Float64
fee_floor a Currency.liquid = a.ratio 1 10
fee_floor a Currency.btc = a.ratio 2 1
fee_floor a _ = a.ratio 0 1

unfoldable pub estimate_fee : Arith → Onchain → Currency → Result Float64
unfolding get_currency
estimate_fee a o currency = elim (get_currency o currency) [
  | err e ↦ err e
  | ok chain ↦ elim (chain.provider.estimate_fee) [
    | err e ↦ err e
    | ok fee ↦ ok (a.fmax (fee_floor a currency) fee)
  ]
]

pub record OutputArgs : Type 0 where
  pub transaction_id : String
  pub currency : Currency
  pub address : String
  pub blinding_key : String
  pub expected_amount : ℕ

pub record OutputResult : Type 0 where
  pub transaction : Transaction
  pub vout : ℕ
  pub value : ℕ

abbrev pub check_value : Transaction → ℕ → ℕ × ℕ → Result OutputResult
check_value tx expected (vout, value) =
    if not (expected == 0) && ltb value expected
    then err (errorf "locked up less onchain coins than expected")
    else ok (record { transaction = tx; vout = vout; value = value })

unfoldable pub find_output : Codec → Onchain → OutputArgs → Result OutputResult
find_output codec o info =
    elim (get_transaction codec o info.currency info.transaction_id info.blinding_key true) [
      | err e ↦ err e
      | ok tx ↦ elim (codec.find_vout tx info.address) [
        | err e ↦ err e
        | ok found ↦ check_value tx info.expected_amount found
      ]
    ]
