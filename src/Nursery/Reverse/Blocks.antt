-- ===== src/Nursery/Reverse/Blocks.antt =====
-- What a new block does to a reverse swap: `checkExternalReverseSwaps` of internal/nursery/reverse.go
-- and `checkClaimableSwaps` of internal/nursery/listener.go, with the query of
-- internal/database/reverse.go, at one swap.
use lightz_client.Base.{Bool, true, false, ◌=ₛ◌, not, ◌&&◌, ◌||◌, is_some, List, [], ◌∷◌}
use lightz_client.Lightz.Types.{Currency, eq_currency, SwapState, Error, ErrorKind, Result, ok, err}
use lightz_client.Lightz.Events.{transaction_refunded, eq_event}
use lightz_client.Onchain.Chain.{Output, is_transaction_confirmed, get_unspent_outputs}
use lightz_client.Onchain.Wallets.{get_any_wallet}
use lightz_client.Database.ReverseSwap.{ReverseSwap, Held}
use lightz_client.Nursery.Handler.{Handler, value, pure, when, on_result, ◌>>=◌}
use lightz_client.Nursery.Transactions.{create_transaction}
use lightz_client.Nursery.Direct.{handle_direct_payments}
use lightz_client.Nursery.Reverse.World.{
  ReverseEnv, direct_of, get_reverse_swap, get_reverse_swap_claim_output,
}
use lightz_client.Nursery.Reverse.Status.{by_wallet}

-- The WHERE clause of `claimableSwapsQuery`.
unfoldable pub is_claimable_reverse : Currency → ReverseSwap → Bool
is_claimable_reverse currency r =
    eq_currency r.pair.to currency
    && (not (r.lockup_transaction_id =ₛ "")
        && (r.claim_transaction_id =ₛ "" && not (eq_event r.status transaction_refunded)))

abbrev confirmed_answer : Result Bool → Bool
confirmed_answer (err e) = false
confirmed_answer (ok b) = b

abbrev is_open : SwapState → Bool
is_open SwapState.pending = true
is_open SwapState.error = true
is_open _ = false

-- The query of `checkExternalReverseSwaps`, and the test in its loop.
unfoldable pub awaits_external : Currency → ReverseSwap → Bool
awaits_external currency r =
    eq_currency r.pair.to currency
    && (is_open r.state && (r.external_pay && (is_some r.wallet_id && not (r.claim_address =ₛ ""))))

-- The outputs of the swap's address: of the wallet, or where it can not tell, of the bitcoin chain.
abbrev or_unspent : Result (List Output) → Error → Currency → ErrorKind → Result (List Output)
or_unspent unspent e Currency.btc ErrorKind.unsupported = unspent
or_unspent unspent e _ _ = err e

abbrev pub or_chain : Result (List Output) → Currency → Result (List Output) → Result (List Output)
or_chain unspent currency (ok outputs) = ok outputs
or_chain unspent currency (err e) = or_unspent unspent e currency e.kind

-- A swap is read from its row.
abbrev pub load : Held → Held
load h = record h { swap = h.row }

module _ (env : ReverseEnv) (currency : Currency) where
  open env use {nursery}

  unfoldable pub may_claim_reverse : ReverseSwap → Bool
  may_claim_reverse swap =
      swap.accept_zero_conf
      || confirmed_answer
          (is_transaction_confirmed nursery.onchain currency swap.lockup_transaction_id false)

  -- The error of `claimSwaps` is only logged.
  unfoldable pub check_claimable_reverse : Handler Held Unit
  check_claimable_reverse = do
    swap ← get_reverse_swap
    when (is_claimable_reverse currency swap && may_claim_reverse swap) (do
      logged ← create_transaction nursery currency (get_reverse_swap_claim_output env swap ∷ [])
      pure tt)

  unfoldable pub settle_outputs : List Output → Handler Held Unit
  settle_outputs [] h = (value tt, h)
  settle_outputs (o ∷ os) h = (value tt, handle_direct_payments (direct_of env) (o ∷ os) h)

  unfoldable pub check_external_reverse : Handler Held Unit
  check_external_reverse = do
    swap ← get_reverse_swap
    when (awaits_external currency swap) (
        on_result (get_any_wallet nursery.wallets (by_wallet swap.wallet_id)) (λ e. pure tt)
          (λ wallet.
            on_result
              (or_chain (get_unspent_outputs nursery.onchain currency swap.claim_address) currency
                (wallet.get_outputs swap.claim_address))
              (λ e. pure tt) settle_outputs))
