-- ===== src/Nursery/Reverse/World.antt =====
-- internal/nursery/reverse.go: what the handlers of a reverse swap can call, how a claim is finalized,
-- and the output that is claimed. An error keeps its own text.
use lightz_client.Base.{ℕ, String, true, if◌then◌else◌, Option, none, some, List, [], ◌∷◌}
use lightz_client.Base.Int.{ℤ, to_int64, sub_int64}
use lightz_client.Float.{Float64, calculate_percentage_int64}
use lightz_client.Lightz.Types.{SwapType, SwapState, Error, errorf, Result, ok, err}
use lightz_client.Onchain.Chain.{OutputArgs}
use lightz_client.Onchain.Chain as OnchainChain
use lightz_client.Database.ReverseSwap.{
  ReverseSwap, ReverseUpdate, set_state, set_claim_transaction, set_routing_fee, service_fee_update,
  Held, ReverseExec, write_all,
}
use lightz_client.Nursery.Handler.{Handler, value, call}
use lightz_client.Nursery.Transactions.{Output, Env}
use lightz_client.Nursery.Direct.{DirectEnv, send_reverse_update}
use lightz_client.Nursery.Submarine.Claim.{clamp_fee}

-- `lightning.PaymentState`
pub data PaymentState : Type 0 where
  succeeded failed pending : PaymentState

-- `lightning.PaymentStatus`
pub record PaymentStatus : Type 0 where
  pub state : PaymentState
  pub fee_msat : ℕ

-- The Lightning node: what it knows of the payment with a hash.
pub record Node : Type 0 where
  pub payment_status : String → Result PaymentStatus

-- The libraries: the amount of an invoice in millisatoshis (`none`: it has no amount), their rounding
-- to satoshis, the product of an amount and a float64, hashes, the address of a swap tree, and
-- `strings.ToLower`.
pub record Libraries : Type 0 where
  pub decode_msat : String → Result (Option ℕ)
  pub to_sat : ℕ → ℕ
  pub mul_f64 : ℕ → Float64 → ℕ
  pub sha256 : String → String
  pub tree_address : String → String → String
  pub to_lower : String → String

pub record ReverseEnv : Type 0 where
  pub nursery : Env
  pub libraries : Libraries
  pub lightning : Option Node
  pub max_routing_fee_ppm : ℕ
  pub max_zero_conf : ℕ
  pub now : ℕ
  pub claimed_by : String → Result (Option String)
  pub sort_func :
      (OnchainChain.Output → OnchainChain.Output → ℤ)
      → List OnchainChain.Output
      → List OnchainChain.Output
  pub begin : Option Error
  pub commit : Option Error
  pub exec : ReverseExec

-- What direct payments use.
abbrev pub direct_of : ReverseEnv → DirectEnv
direct_of env = record {
  arith = env.nursery.arith;
  onchain = env.nursery.onchain;
  max_zero_conf = env.max_zero_conf;
  now = env.now;
  claimed_by = env.claimed_by;
  sort_func = env.sort_func;
  begin = env.begin;
  commit = env.commit;
  exec = env.exec;
}

unfoldable pub get_reverse_swap : Handler Held ReverseSwap
get_reverse_swap h = (value h.swap, h)

-- One setter.
unfoldable pub run_update : ReverseExec → ReverseUpdate → Handler Held (Option Error)
run_update exec u = call (write_all exec (u ∷ []))

-- The result of the UPDATE is only logged.
unfoldable pub handle_reverse_swap_error : ReverseExec → Error → Handler Held Unit
handle_reverse_swap_error exec e h =
    (value tt, send_reverse_update (write_all exec (set_state SwapState.error e.text ∷ []) h).1)

unfoldable pub send_update : Handler Held Unit
send_update h = (value tt, send_reverse_update h)

-- `if err := …; err != nil { return err }`
abbrev pub and_then : Option Error × Held → (Held → Option Error × Held) → Option Error × Held
and_then (some e, h) f = (some e, h)
and_then (none, h) f = f h

module _ (env : ReverseEnv) where
  open env use {nursery, libraries, lightning, exec}

  abbrev pub record_routing_fee : Result PaymentStatus → Held → Option Error × Held
  record_routing_fee (err e) h = (some (errorf "could not get payment status"), h)
  record_routing_fee (ok status) h = elim (status.state) [
    | succeeded ↦ write_all exec (set_routing_fee status.fee_msat ∷ []) h
    | _ ↦ (none, h)
  ]

  -- The fee of the payment, where the client's node paid the invoice.
  unfoldable pub ask_routing_fee : Option Node → Held → Option Error × Held
  ask_routing_fee none h = (none, h)
  ask_routing_fee (some node) h =
      if h.swap.external_pay
      then (none, h)
      else record_routing_fee (node.payment_status (libraries.sha256 h.swap.preimage)) h

  abbrev pub reverse_service_fee : ReverseSwap → ℤ
  reverse_service_fee swap =
      calculate_percentage_int64 nursery.arith swap.service_fee_percent
        (to_int64 swap.invoice_amount)

  abbrev pub reverse_onchain_fee : ReverseSwap → ℕ
  reverse_onchain_fee swap = clamp_fee (
      sub_int64 (sub_int64 (to_int64 swap.invoice_amount) (to_int64 swap.onchain_amount))
        (reverse_service_fee swap))

  -- The accounts of a swap, and its success.
  unfoldable pub settle_reverse_swap : Held → Option Error × Held
  settle_reverse_swap h =
      and_then
        (write_all exec
          (service_fee_update (reverse_service_fee h.swap) (reverse_onchain_fee h.swap) h.swap ∷ [])
          h)
        (λ h.
          and_then (write_all exec (set_state SwapState.successful "" ∷ []) h)
            (λ h. (none, send_reverse_update h)))

  unfoldable pub finalize_reverse_swap : Held → Option Error × Held
  unfolding ask_routing_fee settle_reverse_swap
  finalize_reverse_swap h = and_then (ask_routing_fee lightning h) settle_reverse_swap

  -- The callback `setTransaction` of a claim.
  unfoldable pub set_reverse_claim_transaction : String → ℕ → Held → Option Error × Held
  unfolding finalize_reverse_swap
  set_reverse_claim_transaction tx fee h =
      and_then (write_all exec (set_claim_transaction tx fee ∷ []) h) finalize_reverse_swap

  abbrev pub reverse_output_args : ReverseSwap → OutputArgs
  reverse_output_args swap = record {
    transaction_id = swap.lockup_transaction_id;
    currency = swap.pair.to;
    address = libraries.tree_address swap.swap_tree swap.blinding_key;
    blinding_key = swap.blinding_key;
    expected_amount = swap.onchain_amount;
  }

  unfoldable pub get_reverse_swap_claim_output : ReverseSwap → Output Held
  unfolding set_reverse_claim_transaction
  get_reverse_swap_claim_output swap = record {
    details = record {
      swap_id = swap.id;
      swap_type = SwapType.reverse;
      address = swap.claim_address;
      private_key = swap.private_key;
      preimage = swap.preimage;
      timeout_block_height = 0;
      swap_tree = swap.swap_tree;
      cooperative = true;
      refund_swap_tree = none;
      lockup_transaction = none;
      vout = 0;
    };
    wallet_id = swap.wallet_id;
    output_args = reverse_output_args swap;
    set_transaction = set_reverse_claim_transaction;
    set_error = λ e h. (handle_reverse_swap_error exec e h).1;
  }
