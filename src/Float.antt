-- ===== src/Float.antt =====
-- Go's float64, which pkg/lightz/api.go uses for percentages and pkg/lightz/fees.go for fee rates.
-- A value is its bit pattern. What the code computes with such values is Go's own arithmetic: an
-- argument of the definitions, with the documented laws that a theorem needs in a record apart.
use lightz_client.Base.{
  ℕ, ◌+◌, ◌*◌, ◌/◌, ◌-◌, ◌^◌, ◌≤◌, ◌<◌, ◌≡◌, Bool, ltb, min, max, u64_mod, ◌%◌,
}
use lightz_client.Base.Int.{ℤ, pos, pos_part}

pub data Float64 : Type 0 where
  bits : ℕ → Float64

-- Names are Go's: `ratio n d` is the constant n/d, `from_uint64` is `float64(x)` at a uint64.
pub record Arith : Type 0 where
  pub ratio : ℕ → ℕ → Float64
  pub from_uint64 : ℕ → Float64
  pub from_int64 : ℤ → Float64
  pub to_uint64 : Float64 → ℕ
  pub to_int64 : Float64 → ℤ
  pub mul : Float64 → Float64 → Float64
  pub div : Float64 → Float64 → Float64
  pub add : Float64 → Float64 → Float64
  pub sub : Float64 → Float64 → Float64
  pub abs : Float64 → Float64
  pub ceil : Float64 → Float64
  pub fmin : Float64 → Float64 → Float64
  pub fmax : Float64 → Float64 → Float64
  pub gt : Float64 → Float64 → Bool
  pub is_nought : Float64 → Bool

-- Integers up to 2^53 are exact, and a conversion to uint64 is a uint64.
pub record IsArith (a : Arith) : Type 0 where
  pub to_uint64_lt : (x : Float64) → a.to_uint64 x < u64_mod
  pub to_uint64-from_uint64 : (n : ℕ) → n ≤ 2 ^ 53 → a.to_uint64 (a.from_uint64 n) ≡ n
  pub fmin-from_uint64 :
      (m n : ℕ)
      → m ≤ 2 ^ 53
      → n ≤ 2 ^ 53
      → a.fmin (a.from_uint64 m) (a.from_uint64 n) ≡ a.from_uint64 (min m n)

-- `p.Ratio()`, on a percentage.
unfoldable pub percent_ratio : Arith → Float64 → Float64
percent_ratio a p = a.div p (a.ratio 100 1)

-- `CalculatePercentage` at uint64, and `Percentage.Calculate`.
unfoldable pub calculate_percentage : Arith → Float64 → ℕ → ℕ
calculate_percentage a p value =
    a.to_uint64 (a.ceil (a.mul (a.from_uint64 value) (percent_ratio a p)))

-- `CalculatePercentage` at int64.
unfoldable pub calculate_percentage_int64 : Arith → Float64 → ℤ → ℤ
calculate_percentage_int64 a p value =
    a.to_int64 (a.ceil (a.mul (a.from_int64 value) (percent_ratio a p)))

-- Millionths, rounded down: arithmetic to run the definitions with.
abbrev pub raw : Float64 → ℕ
raw (Float64.bits n) = n

abbrev unit : ℕ
unit = 1_000_000

abbrev pub millionths : Arith
millionths = record {
  ratio = λ n d. Float64.bits (n * unit / d);
  from_uint64 = λ n. Float64.bits (n * unit);
  from_int64 = λ z. Float64.bits (pos_part z * unit);
  to_uint64 = λ x. raw x / unit % u64_mod;
  to_int64 = λ x. pos (raw x / unit);
  mul = λ x y. Float64.bits (raw x * raw y / unit);
  div = λ x y. Float64.bits (raw x * unit / raw y);
  add = λ x y. Float64.bits (raw x + raw y);
  sub = λ x y. Float64.bits (raw x - raw y + (raw y - raw x));
  abs = λ x. x;
  ceil = λ x. Float64.bits ((raw x + (unit - 1)) / unit * unit);
  fmin = λ x y. Float64.bits (min (raw x) (raw y));
  fmax = λ x y. Float64.bits (max (raw x) (raw y));
  gt = λ x y. ltb (raw y) (raw x);
  is_nought = λ x. ltb (raw x) 1;
}
