-- ===== src/Nursery/Submarine/World.antt =====
-- internal/nursery/swap.go: what a submarine handler can call and change, and its small helpers.
-- An error keeps its own text: the words that the handlers put in front of it are left out.
use lightz_client.Base.{
  ℕ, String, Bool, true, false, ◌=ₛ◌, if◌then◌else◌, not, ◌&&◌, Option, none, some, List, ◌∷◌,
}
use lightz_client.Lightz.Types.{SwapType, SwapState, Error, Result, ok, err}
use lightz_client.Lightz.Pairs.{Nested}
use lightz_client.Onchain.Chain.{OutputArgs}
use lightz_client.Database.Swap.{
  Swap, Stored, Exec, update_swap_state, set_swap_refund_transaction_id,
}
use lightz_client.Nursery.Handler.{value, Handler, pure, stop, call, ◌>>=◌, ◌>>◌}
use lightz_client.Nursery.Transactions.{Output, Env}

-- What the handler does that others see, the latest first.
pub data Effect : Type 0 where
  update_sent : Swap → (is_final : Bool) → Effect
  signature_sent : (invoice : String) → (preimage : String) → Effect
  invoice_created : Swap → (amount : ℕ) → (expiry : ℕ) → Effect
  invoice_sent : (invoice : String) → Effect

pub record World : Type 0 where
  pub stored : Stored
  pub effects : List Effect

pub record ClaimDetails : Type 0 where
  pub preimage : String
  pub pub_nonce : String
  pub transaction_hash : String

pub record DecodedInvoice : Type 0 where
  pub amount_sat : ℕ
  pub payment_hash : String

-- The server's API, the Lightning node and the libraries for invoices, hashes and signatures.
pub record Peers : Type 0 where
  pub get_swap_transaction : String → Result String
  pub get_invoice_amount : String → Result ℕ
  pub set_invoice : String → String → Option Error
  pub get_submarine_pairs : Result (Nested ℕ)
  pub get_swap_claim_details : String → Result ClaimDetails
  pub send_swap_claim_signature : String → String → Option Error
  pub get_swap_preimage : String → Result String
  pub create_invoice : Option (ℕ → Option String → ℕ → String → Result String)
  pub decode_invoice : String → Result DecodedInvoice
  pub sha256 : String → String
  pub new_session : String → Option Error
  pub sign : String → String → String → Result String

pub record SwapEnv : Type 0 where
  pub nursery : Env
  pub peers : Peers
  pub exec : Exec

unfoldable pub get_swap : Handler World Swap
get_swap w = (value w.stored.swap, w)

unfoldable pub emit : Effect → Handler World Unit
emit e w = (value tt, record w { effects = e ∷ w.effects })

-- A setter of the database, on the swap of the world.
abbrev pub on_stored : (Stored → Option Error × Stored) → World → Option Error × World
on_stored set w = let (e, s) = set w.stored in (e, record w { stored = s })

unfoldable pub run_setter : (Stored → Option Error × Stored) → Handler World (Option Error)
run_setter set = call (on_stored set)

abbrev pub is_final_state : SwapState → Bool
is_final_state SwapState.successful = true
is_final_state SwapState.refunded = true
is_final_state _ = false

abbrev pub is_pending : SwapState → Bool
is_pending SwapState.pending = true
is_pending _ = false

-- The `IsFinal` of `sendSwapUpdate`.
unfoldable pub is_final : Swap → Bool
is_final swap =
    if swap.lockup_transaction_id =ₛ "" && not (is_pending swap.state)
    then false
    else is_final_state swap.state

unfoldable pub send_swap_update : Handler World Unit
send_swap_update = do swap ← get_swap; emit (update_sent swap (is_final swap))

-- The result of the UPDATE is only logged.
unfoldable pub handle_swap_error : Exec → Error → Handler World Unit
handle_swap_error exec e = do
  logged ← run_setter (λ s. update_swap_state exec s SwapState.error e.text)
  send_swap_update

-- `handleError(…); return`
unfoldable pub fail : {A : Type 0} → Exec → Error → Handler World A
fail exec e = handle_swap_error exec e >> stop

unfoldable pub or_fail : Exec → Option Error → Handler World Unit
or_fail exec none = pure tt
or_fail exec (some e) = fail exec e

unfoldable pub ok_or_fail : {A : Type 0} → Exec → Result A → Handler World A
ok_or_fail exec (ok a) = pure a
ok_or_fail exec (err e) = fail exec e

abbrev pub swap_output_args : Swap → OutputArgs
swap_output_args swap = record {
  transaction_id = swap.lockup_transaction_id;
  currency = swap.pair.from;
  address = swap.address;
  blinding_key = swap.blinding_key;
  expected_amount = 0;
}

unfoldable pub after_refund : Option Error → World → Option Error × World
after_refund (some e) w = (some e, w)
after_refund none w = (none, (send_swap_update w).1)

-- The callback `setTransaction` of a refund.
unfoldable pub set_refund_transaction : Exec → String → ℕ → World → Option Error × World
set_refund_transaction exec tx fee w =
    let (e, s) = set_swap_refund_transaction_id exec w.stored tx fee in
    after_refund e (record w { stored = s })

unfoldable pub get_refund_output : Exec → Swap → Output World
get_refund_output exec swap = record {
  details = record {
    swap_id = swap.id;
    swap_type = SwapType.normal;
    address = swap.refund_address;
    private_key = swap.private_key;
    preimage = "";
    timeout_block_height = swap.timeout_block_height;
    swap_tree = swap.swap_tree;
    cooperative = true;
    refund_swap_tree = none;
    lockup_transaction = none;
    vout = 0;
  };
  wallet_id = swap.wallet_id;
  output_args = swap_output_args swap;
  set_transaction = set_refund_transaction exec;
  set_error = λ e w. (handle_swap_error exec e w).1;
}
