-- ===== src/Nursery/Handler.antt =====
-- Go functions that change what they are given: a computation gives a value, returns early (`done`)
-- or panics, and leaves a state.
pub mod Rules
pub mod Failing
use lightz_client.Base.{Bool, true, false, Option, none, some}
use lightz_client.Lightz.Types.{Error, Result, ok, err}

pub data Out (A : Type 0) : Type 0 where
  value : A → Out A
  done : Out A
  panic : Out A

abbrev pub Handler : Type 0 → Type 0 → Type 0
Handler W A = W → Out A × W

module _ {W A : Type 0} where
  unfoldable pub pure : A → Handler W A
  pure a w = (value a, w)

  -- `return` from the enclosing function.
  unfoldable pub stop : Handler W A
  stop w = (done, w)

  unfoldable pub crash : Handler W A
  crash w = (panic, w)

module _ {W A B : Type 0} where
  abbrev pub continue : Out A → (A → Handler W B) → Handler W B
  continue (value a) f w = f a w
  continue done f w = (done, w)
  continue panic f w = (panic, w)

  infixl 5 ◌>>=◌ ◌>>◌
  unfoldable pub ◌>>=◌ : Handler W A → (A → Handler W B) → Handler W B
  unfolding pure stop crash
  ◌>>=◌ m f w = let (r, w') = m w in continue r f w'

  abbrev pub ◌>>◌ : Handler W A → Handler W B → Handler W B
  m >> n = m >>= λ _. n

-- `if c { m }`
unfoldable pub when : {W : Type 0} → Bool → Handler W Unit → Handler W Unit
unfolding pure
when true m = m
when false m = pure tt

-- `if c { m } else { n }`
unfoldable pub branch : {W A : Type 0} → Bool → Handler W A → Handler W A → Handler W A
branch true m n = m
branch false m n = n

-- `a, err := …; if err != nil { f(err) } else { g(a) }`
unfoldable pub on_result :
    {W A B : Type 0} → Result A → (Error → Handler W B) → (A → Handler W B) → Handler W B
on_result (err e) f g = f e
on_result (ok a) f g = g a

-- `if err := …; err != nil { f(err) } else { m }`
unfoldable pub on_error :
    {W B : Type 0} → Option Error → (Error → Handler W B) → Handler W B → Handler W B
on_error (some e) f m = f e
on_error none f m = m

-- A call that panics where it gives `none`.
unfoldable pub or_crash : {W A B : Type 0} → Option A → (A → Handler W B) → Handler W B
unfolding crash
or_crash none f = crash
or_crash (some a) f = f a

-- A callback, which always returns.
unfoldable pub call : {W A : Type 0} → (W → A × W) → Handler W A
call g w = (value (g w).0, (g w).1)
