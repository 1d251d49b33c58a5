-- ===== src/Base/Words.antt =====
-- Go's unsigned machine integers: the sums and differences that the code takes wrap around.
use Prim.Native.Nat.{ℕ, ◌+◌, ◌-◌, ◌%◌, ◌^◌, ◌≤◌, ◌<◌}
use mathlib.Core.Path.{◌≡◌}
use native.Mathlib.Omega.{arith}

abbrev pub u32_mod : ℕ
u32_mod = 2 ^ 32

abbrev pub u64_mod : ℕ
u64_mod = 2 ^ 64

-- `a + b` on uint64.
unfoldable pub add64 : ℕ → ℕ → ℕ
add64 a b = (a + b) % u64_mod

-- `a - b` on uint64.
unfoldable pub sub64 : ℕ → ℕ → ℕ
sub64 a b = (a + u64_mod - b) % u64_mod

pub sub64-eq-sub : (a b : ℕ) → b ≤ a → a < u64_mod → sub64 a b ≡ a - b
unfolding sub64
sub64-eq-sub a b le lt = omega arith

-- A difference that underflows lands that far below 2^64.
pub sub64-below : (a b : ℕ) → a < b → b ≤ u64_mod → sub64 a b + b ≡ a + u64_mod
unfolding sub64
sub64-below a b lt le = omega arith
