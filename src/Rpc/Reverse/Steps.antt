-- ===== src/Rpc/Reverse/Steps.antt =====
-- internal/rpcserver/router.go, `createReverseSwap`: the steps that ask the wallets, the keys, the server
-- and the database, with `RegisterReverseSwap` of internal/nursery/reverse.go.
use lightz_client.Base.{
  ℕ, String, Bool, true, false, ◌=ₛ◌, ◌&&◌, ◌||◌, not, ◌+◌, if◌then◌else◌, is_some, Option, none,
  some, List, [], ◌∷◌,
}
use lightz_client.Lightz.Types.{Currency, eq_currency, Pair, Error, errorf, Result, ok, err}
use lightz_client.Lightz.Pairs.{find_pair}
use lightz_client.Lightz.SwapTree.{SwapTree}
use lightz_client.Onchain.Wallets.{Wallet, WalletChecker, get_any_wallet}
use lightz_client.Database.ReverseSwap.{ReverseSwap, Held}
use lightz_client.Nursery.Handler.{Out, value, done, panic}
use lightz_client.Nursery.Direct.{send_reverse_update}
use lightz_client.Nursery.Reverse.Payment.{pay_reverse_swap}
use lightz_client.Rpc.Request.{
  Answer, answer, fails, panics, Request, pure, require, give, need, ◌>>=◌, ◌>>◌,
}
use lightz_client.Rpc.Reverse.{
  PairInfo, ReversePair, CreateReverseSwapRequest, Proposal, Response, ServerEnv, Server,
  Destination,
}

-- The insertion sets the time of creation in the row.
abbrev pub row_of : ℕ → ReverseSwap → ReverseSwap
row_of now swap = record swap { created_at = now }

abbrev pub verdict : Out (Option Error) → Answer Unit
verdict (value none) = answer tt
verdict (value (some e)) = fails e
verdict done = answer tt
verdict panic = panics

module _ (env : ServerEnv) where
  open env use {reverse, scripts}

  unfoldable pub new_keys : Request Server String
  new_keys w = elim (env.mnemonic) [
    | err e ↦ (fails (errorf "swap mnemonic not set"), w)
    | ok mnemonic ↦ elim (env.derive_key mnemonic w.key_index) [
      | err e ↦ (fails e, w)
      | ok key ↦ elim (env.increment) [
        | some e ↦ (fails e, w)
        | none ↦ (answer key, record w { key_index = w.key_index + 1 })
      ]
    ]
  ]

  abbrev found_pair : Result ReversePair → Option PairInfo
  found_pair (err e) = none
  found_pair (ok found) = some (record { hash = found.hash; percentage = some found.percentage })

  -- `getReversePair` serializes the pair before it looks at the error, and panics on a missing one.
  unfoldable pub get_reverse_pair : Pair → Request Server PairInfo
  get_reverse_pair pair = do
    pairs ← give env.get_reverse_pairs
    need (found_pair (find_pair pair pairs))

  unfoldable pub accept_pair : Option PairInfo → Pair → Request Server PairInfo
  accept_pair none pair = get_reverse_pair pair
  accept_pair (some accepted) pair = pure accepted

  unfoldable pub check_hint : CreateReverseSwapRequest → Bool → Option Error
  check_hint request external =
      if request.add_magic_routing_hint && (not external || not (request.address =ₛ ""))
      then some (
          errorf
            "magic routing hints can only be used with an internal wallet and the external pay flag")
      else none

  abbrev to_address : CreateReverseSwapRequest → Pair → Request Server Destination
  to_address request pair = do
    require (
        if is_some request.wallet_id
        then some (errorf "claim address and wallet id cannot be used together")
        else none)
    require (env.validate_address request.address pair.to)
    pure (record {
      claim_address = request.address;
      wallet_id = none;
      hint_address = "";
      hint_signature = "";
    })

  unfoldable pub wallet_query : CreateReverseSwapRequest → Pair → WalletChecker
  wallet_query request pair = record {
    id = request.wallet_id;
    name = none;
    currency = pair.to;
    allow_readonly = true;
    tenant_id = env.tenant_id;
  }

  abbrev hinted : Bool → String → Wallet → Request Server Destination
  hinted false key wallet = pure (record {
    claim_address = "";
    wallet_id = some wallet.info.id;
    hint_address = "";
    hint_signature = "";
  })
  hinted true key wallet = do
    address ← give wallet.new_address
    signature ← give (env.sign key (reverse.libraries.sha256 address))
    pure (record {
      claim_address = address;
      wallet_id = some wallet.info.id;
      hint_address = address;
      hint_signature = signature;
    })

  abbrev to_wallet : CreateReverseSwapRequest → Pair → String → Request Server Destination
  to_wallet request pair key = do
    wallet ← give (get_any_wallet reverse.nursery.wallets (wallet_query request pair))
    hinted request.add_magic_routing_hint key wallet

  unfoldable pub choose_destination :
      CreateReverseSwapRequest → Pair → String → Request Server Destination
  choose_destination request pair key =
      if request.address =ₛ "" then to_wallet request pair key else to_address request pair

  unfoldable pub send_proposal : Proposal → Request Server Response
  unfolding give
  send_proposal p w = give (env.propose p) (record w { proposed = p ∷ w.proposed })

  unfoldable pub parse_chan_ids : List String → Result (List ℕ)
  parse_chan_ids [] = ok []
  parse_chan_ids (text ∷ rest) =
      let parsed = parse_chan_ids rest in
      elim (env.parse_chan_id text) [
        | err e ↦ err (errorf "invalid channel id")
        | ok id ↦ elim parsed [ err e ↦ err e | ok ids ↦ ok (id ∷ ids) ]
      ]

  unfoldable pub check_address : SwapTree → String → String → Option Error
  check_address tree blinding_key expected = elim (env.tree_address tree blinding_key) [
    | err e ↦ some e
    | ok encoded ↦ if encoded =ₛ expected then none else some (errorf "unexpected address")
  ]

  abbrev pub insert_answer : Option Error → ReverseSwap → Request Server Unit
  insert_answer (some e) swap w = (fails e, w)
  insert_answer none swap w = (answer tt, record w { rows = row_of reverse.now swap ∷ w.rows })

  unfoldable pub insert_row : ReverseSwap → Request Server Unit
  insert_row = insert_answer env.insert

  -- What `RegisterReverseSwap` starts from, once the update is sent.
  abbrev pub announced : ReverseSwap → Held
  announced swap =
      send_reverse_update
        (record { swap = swap; row = row_of reverse.now swap; sent = []; paid = [] })

  abbrev pub register_answer : Option Error → ReverseSwap → Request Server Unit
  register_answer (some e) swap w = (fails e, w)
  register_answer none swap w =
      let (result, h) = pay_reverse_swap reverse (announced swap) in
      (verdict result, record w { handed = h ∷ w.handed })

  unfoldable pub register_reverse_swap : ReverseSwap → Request Server Unit
  register_reverse_swap = register_answer env.register

  unfoldable pub blinding_of : Pair → Response → String
  blinding_of pair response =
      if eq_currency pair.to Currency.liquid
      then env.blinding_from_bytes response.blinding_key
      else ""
