-- ===== src/Lightz/BlockTime.antt =====
-- pkg/lightz/blocktime.go: block times, and how long an invoice must be valid.
use lightz_client.Base.{ℕ, ◌+◌, ◌*◌, ◌%◌, ◌-◌, u32_mod}
use lightz_client.Lightz.Types.{Currency}

-- `GetBlockTime`, in minutes: the float constants are whole numbers.
abbrev pub get_block_time : Currency → ℕ
get_block_time Currency.btc = 10
get_block_time Currency.liquid = 1
get_block_time _ = 0

-- In seconds, with one block more than the uint32 `block_delta`.
unfoldable pub calculate_invoice_expiry : ℕ → Currency → ℕ
calculate_invoice_expiry block_delta currency =
    (block_delta + 1) % u32_mod * (get_block_time currency * 60)

-- `a - b` on uint32.
unfoldable pub sub32 : ℕ → ℕ → ℕ
sub32 a b = (a + u32_mod - b) % u32_mod
