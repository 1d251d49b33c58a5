-- ===== src/Lightz/Types.antt =====
-- The enumerations of pkg/lightz/currency.go, pair.go and api.go, the swap states of the RPC
-- interface, and the client's error values.
use lightz_client.Base.{String, Bool}

-- `unset` is the empty string, which the code uses for "no currency".
pub data Currency : Type 0 where
  btc liquid rootstock unset : Currency

pub Currency-discrete : Discrete Currency
Currency-discrete = hlevel

abbrev pub eq_currency : Currency → Currency → Bool
eq_currency Currency.btc Currency.btc = Bool.true
eq_currency Currency.liquid Currency.liquid = Bool.true
eq_currency Currency.rootstock Currency.rootstock = Bool.true
eq_currency Currency.unset Currency.unset = Bool.true
eq_currency _ _ = Bool.false

pub currency_text : Currency → String
currency_text Currency.btc = "BTC"
currency_text Currency.liquid = "L-BTC"
currency_text Currency.rootstock = "RBTC"
currency_text Currency.unset = ""

pub record Pair : Type 0 where
  pub from : Currency
  pub to : Currency

-- `unset` is the empty string: any type is allowed.
pub data SwapType : Type 0 where
  normal reverse chain unset : SwapType

pub data SwapState : Type 0 where
  pending successful error server_error refunded abandoned : SwapState

-- What the code asks of an error: `api` is a `lightz.Error`, `unsupported` is `errors.ErrUnsupported`.
pub data ErrorKind : Type 0 where
  plain api unsupported : ErrorKind

pub record Error : Type 0 where
  pub text : String
  pub kind : ErrorKind

abbrev pub errorf : String → Error
errorf s = record { text = s; kind = ErrorKind.plain }

-- A Go call that returns a value and an error.
pub data Result {ℓ} (A : Type ℓ) : Type ℓ where
  ok : A → Result A
  err : Error → Result A
