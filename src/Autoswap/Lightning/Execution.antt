-- ===== src/Autoswap/Lightning/Execution.antt =====
-- internal/autoswap/lightning.go, `CheckAndExecute`: the recommended swaps that are created.
use lightz_client.Base.{
  ℕ, Bool, false, not, ◌==◌, ◌&&◌, if◌then◌else◌, is_empty, Option, none, some, List, [], ◌∷◌,
}
use lightz_client.Lightz.Types.{SwapType, Error, errorf, ok, err}
use lightz_client.Onchain.Wallets.{Wallet}
use lightz_client.Autoswap.Checks.{check_accepted_reasons}
use lightz_client.Autoswap.Strategy.{Channel, LightningConfig, Recommendation}
use lightz_client.Autoswap.Lightning.{
  LightningSwap, Request, LightningEnv, get_pair, Recommended, get_swap_recommendations,
}

-- `checkAccepted`
pub data Acceptance : Type 0 where
  accepted : Acceptance
  not_in_accepted : Acceptance
  refused : Error → Acceptance

abbrev from_reasons : Option Error → Acceptance
from_reasons none = accepted
from_reasons (some e) = refused e

-- The first accepted recommendation with a swap for the channel decides.
unfoldable pub find_accepted :
    Channel → LightningSwap → List (Recommendation LightningSwap) → Acceptance
unfolding check_accepted_reasons
find_accepted channel swap [] = not_in_accepted
find_accepted channel swap (r ∷ rs) =
    let rest = find_accepted channel swap rs in
    elim (r.swap) [
      | none ↦ rest
      | some s ↦
          if r.channel.id == channel.id
          then from_reasons
              (check_accepted_reasons s.checks.dismissed_reasons swap.checks.dismissed_reasons)
          else rest
    ]

-- An empty list accepts every recommendation.
unfoldable pub check_accepted :
    Channel → LightningSwap → List (Recommendation LightningSwap) → Acceptance
unfolding find_accepted
check_accepted channel swap [] = accepted
check_accepted channel swap (r ∷ rs) = find_accepted channel swap (r ∷ rs)

-- What was sent, each request with the swap that it is for.
abbrev pub Sent : Type 0
Sent = List (LightningSwap × Request)

abbrev pub then_send : LightningSwap × Request → Option Error × Sent → Option Error × Sent
then_send s (e, sent) = (e, s ∷ sent)

module _ (env : LightningEnv) (cfg : LightningConfig) where
  abbrev wallet_id : Option Wallet → Option ℕ
  wallet_id none = none
  wallet_id (some w) = some w.info.id

  -- The request of `execute`; only reverse swaps name their channel, which is left out for the total.
  abbrev pub request_of : Channel → LightningSwap → Option Request
  request_of channel swap = elim (swap.swap_type) [
    | SwapType.reverse ↦ some (record {
      swap_type = SwapType.reverse;
      amount = swap.checks.amount;
      pair = get_pair cfg SwapType.reverse;
      chan_ids = if channel.id == 0 then [] else channel.id ∷ [];
      address = cfg.static_address;
      accept_zero_conf = cfg.accept_zero_conf;
      wallet_id = wallet_id cfg.wallet;
    })
    | SwapType.normal ↦ some (record {
      swap_type = SwapType.normal;
      amount = swap.checks.amount;
      pair = get_pair cfg SwapType.normal;
      chan_ids = [];
      address = "";
      accept_zero_conf = false;
      wallet_id = wallet_id cfg.wallet;
    })
    | _ ↦ none
  ]

  unfoldable pub send : LightningSwap → Option Request → Option Error × Sent → Option Error × Sent
  send swap none rest = rest
  send swap (some request) rest = elim (env.create request) [
    | some e ↦ (some (errorf "could not execute recommendation"), (swap, request) ∷ [])
    | none ↦ then_send (swap, request) rest
  ]

  -- `execute`, and the rest of the loop where it gives no error.
  unfoldable pub execute :
      Bool → Channel → LightningSwap → Option Error × Sent → Option Error × Sent
  unfolding send
  execute force channel swap rest =
      if not force && not (is_empty swap.checks.dismissed_reasons)
      then rest
      else send swap (request_of channel swap) rest

  unfoldable pub execute_accepted :
      Bool → Channel → LightningSwap → Acceptance → Option Error × Sent → Option Error × Sent
  unfolding execute
  execute_accepted force channel swap not_in_accepted rest = rest
  execute_accepted force channel swap (refused e) rest = (some e, [])
  execute_accepted force channel swap accepted rest = execute force channel swap rest

  unfoldable pub execute_one :
      Bool
      → List (Recommendation LightningSwap)
      → Channel
      → Option LightningSwap
      → Option Error × Sent
      → Option Error × Sent
  unfolding execute_accepted check_accepted
  execute_one force accepted_list channel none rest = rest
  execute_one force accepted_list channel (some swap) rest =
      execute_accepted force channel swap (check_accepted channel swap accepted_list) rest

  -- The loop of `CheckAndExecute`.
  unfoldable pub execute_all :
      Bool
      → List (Recommendation LightningSwap)
      → List (Recommendation LightningSwap)
      → Option Error × Sent
  unfolding execute_one
  execute_all force accepted_list [] = (none, [])
  execute_all force accepted_list (r ∷ rs) =
      execute_one force accepted_list r.channel r.swap (execute_all force accepted_list rs)

  unfoldable pub execute_recommended :
      List (Recommendation LightningSwap)
      → Bool
      → Recommended env cfg
      → Option (Option Error × Sent)
  unfolding execute_all
  execute_recommended accepted_list force none = none
  execute_recommended accepted_list force (some (err e)) =
      some (some (errorf "could not fetch swap recommendations"), [])
  execute_recommended accepted_list force (some (ok rs)) = some (execute_all force accepted_list rs)

  -- `none` is a panic.
  unfoldable pub check_and_execute :
      List (Recommendation LightningSwap) → Bool → Option (Option Error × Sent)
  unfolding get_swap_recommendations execute_recommended
  check_and_execute accepted_list force =
      execute_recommended accepted_list force (get_swap_recommendations env cfg false)
