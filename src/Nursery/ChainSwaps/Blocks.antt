-- ===== src/Nursery/ChainSwaps/Blocks.antt =====
-- What a new block does to a chain swap: `checkRefundableSwaps` and `checkClaimableSwaps` of
-- internal/nursery/listener.go with the queries of internal/database/chain.go, at one swap.
use lightz_client.Base.{ℕ, Bool, true, false, ◌=ₛ◌, ltb, not, ◌&&◌, ◌||◌, [], ◌∷◌}
use lightz_client.Lightz.Types.{Currency, eq_currency, SwapState, Result, ok, err}
use lightz_client.Lightz.Events.{transaction_lockup_failed, transaction_failed, eq_event}
use lightz_client.Onchain.Chain.{is_transaction_confirmed}
use lightz_client.Database.ChainSwap.{ChainSwap}
use lightz_client.Nursery.Handler.{Handler, pure, when, ◌>>=◌}
use lightz_client.Nursery.Transactions.{create_transaction}
use lightz_client.Nursery.Refunds.{refund_swaps}
use lightz_client.Nursery.ChainSwaps.World.{
  ChainWorld, ChainEnv, get_chain_swap, get_chain_swap_claim_output, get_chain_swap_refund_output,
}

abbrev is_successful : SwapState → Bool
is_successful SwapState.successful = true
is_successful _ = false

abbrev is_refunded : SwapState → Bool
is_refunded SwapState.refunded = true
is_refunded _ = false

-- The WHERE clause of `refundableChainSwapsQuery`.
unfoldable pub is_refundable_chain : Currency → ℕ → ChainSwap → Bool
is_refundable_chain currency height r =
    eq_currency r.from_data.currency r.pair.from
    && (eq_currency r.from_data.currency currency
        && (not (r.from_data.lockup_transaction_id =ₛ "")
            && (r.from_data.transaction_id =ₛ ""
                && ((eq_event r.status transaction_lockup_failed
                      || eq_event r.status transaction_failed)
                    || (not (is_successful r.state)
                        && ltb r.from_data.timeout_block_height height)))))

-- The WHERE clause of `claimableChainSwapsQuery`.
unfoldable pub is_claimable_chain : Currency → ChainSwap → Bool
is_claimable_chain currency r =
    eq_currency r.to_data.currency r.pair.to
    && (eq_currency r.to_data.currency currency
        && (not (r.to_data.lockup_transaction_id =ₛ "")
            && (r.to_data.transaction_id =ₛ "" && not (is_refunded r.state))))

-- A swap is read from its rows.
abbrev pub load : ChainWorld → ChainWorld
load w = record w { stored = record w.stored { swap = w.stored.row } }

abbrev confirmed_answer : Result Bool → Bool
confirmed_answer (err e) = false
confirmed_answer (ok b) = b

module _ (env : ChainEnv) (currency : Currency) where
  open env use {nursery}

  -- The filter of `QueryClaimableSwaps`: the lockup of the server has to be confirmed, unless the swap
  -- accepts it in the mempool.
  unfoldable pub may_claim_chain : ChainSwap → Bool
  may_claim_chain swap =
      swap.accept_zero_conf
      || confirmed_answer (
          is_transaction_confirmed nursery.onchain currency swap.to_data.lockup_transaction_id
            false)

  -- The errors of both checks are only logged.
  unfoldable pub check_refundable_chain : ℕ → Handler ChainWorld Unit
  check_refundable_chain height = do
    swap ← get_chain_swap
    when (is_refundable_chain currency height swap) (do
      logged ← refund_swaps nursery currency (get_chain_swap_refund_output env swap ∷ [])
      pure tt)

  unfoldable pub check_claimable_chain : Handler ChainWorld Unit
  check_claimable_chain = do
    swap ← get_chain_swap
    when (is_claimable_chain currency swap && may_claim_chain swap) (do
      logged ← create_transaction nursery currency (get_chain_swap_claim_output env swap ∷ [])
      pure tt)
