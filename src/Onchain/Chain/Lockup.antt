-- ===== src/Onchain/Chain/Lockup.antt =====
-- What a found output guarantees, and what the retries are for.
use lightz_client.Base.{ℕ, zero, suc, ◌+◌, ◌≤◌, ◌≡◌, String, true, arith}
use lightz_client.Lightz.Types.{Error, ok, err}
use lightz_client.Onchain.Chain.{
  ChainProvider, Codec, Onchain, OutputArgs, OutputResult, Transaction, fetch, get_transaction,
  check_value, find_output,
}

check_value-ok :
    (tx : Transaction) (expected : ℕ) (found : ℕ × ℕ) (r : OutputResult)
    → check_value tx expected found ≡ ok r
    → (r.transaction ≡ tx) × (found ≡ (r.vout, r.value)) × (expected ≤ r.value)
check_value-ok tx expected found r h = ground arith

-- A found output belongs to the lockup transaction that the arguments name, pays their address, and
-- holds at least the expected amount.
pub find_output-ok :
    (codec : Codec) (o : Onchain) (info : OutputArgs) (r : OutputResult)
    → find_output codec o info ≡ ok r
    → (get_transaction codec o info.currency info.transaction_id info.blinding_key true
        ≡ ok r.transaction)
      × (codec.find_vout r.transaction info.address ≡ ok (r.vout, r.value))
      × (info.expected_amount ≤ r.value)
unfolding find_output
find_output-ok codec o info r h = ground arith

-- The attempts before the `n`-th one of a lookup, counted from `attempt`, all fail.
abbrev pub FailsBefore : ChainProvider → String → ℕ → ℕ → Type 0
FailsBefore p tx attempt zero = Unit
FailsBefore p tx attempt (suc n) =
    ((e : Error) × (p.raw_transaction attempt tx ≡ err e)) × FailsBefore p tx (attempt + 1) n

-- A lookup with retries gives what the first successful attempt gives, if one of the attempts that
-- it may make succeeds.
pub fetch-first_success :
    (p : ChainProvider) (tx : String) (n attempt retries : ℕ) (hex : String)
    → n ≤ retries
    → FailsBefore p tx attempt n
    → p.raw_transaction (attempt + n) tx ≡ ok hex
    → fetch p tx attempt retries ≡ ok hex
unfolding fetch
fetch-first_success p tx zero attempt zero hex le fails h = ground arith
fetch-first_success p tx zero attempt (suc retries) hex le fails h = ground arith
fetch-first_success p tx (suc n) attempt zero hex le fails h = absurd (omega arith)
fetch-first_success p tx (suc n) attempt (suc retries) hex le (f, fails) h =
    let e : attempt + 1 + n ≡ attempt + suc n = omega arith in
    ground (arith, fetch-first_success p tx n (attempt + 1) retries hex)
