-- ===== src/Nursery/ChainSwaps/Quote.antt =====
-- internal/nursery/chain.go, `handleChainSwapStatus`: the new quote of a swap whose lockup failed, with
-- `GetChainSwapQuote` of pkg/lightz/api.go and `RunTx` of internal/database/database.go.
use lightz_client.Base.{
  ℕ, Bool, false, ◌=ₛ◌, ◌==◌, ◌||◌, if◌then◌else◌, is_some, Option, none, some,
}
use lightz_client.Lightz.Types.{SwapType, Error, ErrorKind}
use lightz_client.Lightz.Events.{SwapUpdateEvent, transaction_lockup_failed, eq_event}
use lightz_client.Onchain.Chain.{find_output}
use lightz_client.Database.ChainSwap.{ChainSwap, ChainExec, Side, set_chain_swap_amount}
use lightz_client.Nursery.Handler.{Handler, pure, call, branch, ◌>>=◌, ◌>>◌}
use lightz_client.Nursery.Handler.Failing.{or_fail, ok_or_fail}
use lightz_client.Nursery.Amounts.{nursery_check_amounts}
use lightz_client.Nursery.ChainSwaps.World.{
  ChainWorld, ChainEnv, Quote, quote_accepted, get_chain_swap, emit_chain, on_stored_chain,
  handle_chain_swap_error, chain_output_args, and_then,
}

-- The quote that the API gives (`none` is nil), and its error: a response without an error text is
-- given even if the request failed.
unfoldable pub get_chain_swap_quote : Quote × Option Error → Option Quote × Option Error
get_chain_swap_quote (response, e) =
    if response.error =ₛ ""
    then (some response, e)
    else (none, some (record { text = response.error; kind = ErrorKind.api }))

abbrev pub wants_quote : SwapUpdateEvent → ChainSwap → Bool
wants_quote status swap = swap.from_data.amount == 0 || eq_event status transaction_lockup_failed

-- The two writes of the database transaction.
unfoldable pub write_amounts : ChainExec → ℕ → ℕ → ChainWorld → Option Error × ChainWorld
write_amounts exec to_amount from_amount w =
    and_then (on_stored_chain (set_chain_swap_amount exec Side.to_side to_amount) w)
      (on_stored_chain (set_chain_swap_amount exec Side.from_side from_amount))

-- `RunTx`, behind a begun transaction: an error takes the rows back, but not the record in memory.
unfoldable pub end_chain_tx :
    Option Error → ChainWorld → Option Error × ChainWorld → Option Error × ChainWorld
end_chain_tx commit before (some e, w) =
    (some e, record w { stored = record w.stored { row = before.stored.row } })
end_chain_tx none before (none, w) = (none, w)
end_chain_tx (some e) before (none, w) =
    (some e, record w { stored = record w.stored { row = before.stored.row } })

module _ (env : ChainEnv) where
  open env use {nursery, peers, exec, begin, commit}

  unfoldable pub store_amounts : ℕ → ℕ → ChainWorld → Option Error × ChainWorld
  unfolding write_amounts end_chain_tx
  store_amounts to_amount from_amount w = elim begin [
    | some e ↦ (some e, w)
    | none ↦ end_chain_tx commit w (write_amounts exec to_amount from_amount w)
  ]

  unfoldable pub accept_quote : Quote → Handler ChainWorld Unit
  accept_quote quote = do
    swap ← get_chain_swap
    result ←
        ok_or_fail (handle_chain_swap_error exec)
          (find_output nursery.codec nursery.onchain (chain_output_args swap.from_data))
    or_fail (handle_chain_swap_error exec) (
        nursery_check_amounts nursery SwapType.chain swap.pair result.value quote.amount
          swap.service_fee_percent)
    or_fail (handle_chain_swap_error exec) (peers.accept_quote swap.id quote)
    emit_chain (quote_accepted swap result.value quote.amount)
    e ← call (store_amounts quote.amount result.value)
    or_fail (handle_chain_swap_error exec) e

  unfoldable pub on_quote : Option Quote → Handler ChainWorld Unit
  on_quote none = pure tt
  on_quote (some quote) = accept_quote quote

  -- The result is whether `quoteError` was set: `lightz.Error` is an interface that every error
  -- implements, so `errors.As` finds one in every error.
  unfoldable pub request_quote : Handler ChainWorld Bool
  request_quote = do
    swap ← get_chain_swap
    let (quote, e) = get_chain_swap_quote (peers.quote_request swap.id)
    on_quote quote
    pure (is_some e)

  -- The cases `TransactionLockupFailed` and `TransactionMempool` of the switch.
  unfoldable pub renew_quote : SwapUpdateEvent → Handler ChainWorld Bool
  renew_quote status = do
    swap ← get_chain_swap
    branch (wants_quote status swap) request_quote (pure false)
