-- ===== src/Nursery/Handler/Failing/Rules.antt =====
-- Invariants of handlers that end in an error handler.
use lightz_client.Base.{◌≡◌, refl, Option, none, some}
use lightz_client.Lightz.Types.{Error, Result, ok, err}
use lightz_client.Nursery.Handler.{value, done, Handler, pure, stop, ◌>>=◌}
use lightz_client.Nursery.Handler.Rules.{Obeys, Obeys-pure, Obeys-bind}
use lightz_client.Nursery.Handler.Failing.{fail, or_fail, ok_or_fail}

-- The error handler returns, keeps `P`, and leaves `D`.
pub record Fails {W : Type 0} (P D : W → Type 0) (h : Error → Handler W Unit) : Type 0 where
  pub returns : (e : Error) (w : W) → (h e w).0 ≡ value tt
  pub keeps : (e : Error) (w : W) → P w → P (h e w).1
  pub fails : (e : Error) (w : W) → D (h e w).1

module _ {W : Type 0} {P D : W → Type 0} {h : Error → Handler W Unit} (k : Fails P D h) where
  fail_lem : {A : Type 0} (e : Error) (w : W) → fail h {A = A} e w ≡ (done, (h e w).1)
  unfolding fail ◌>>=◌ stop
  fail_lem e w = rw (k.returns e w)

  fail-bind_lem :
      {A B : Type 0} (e : Error) (f : A → Handler W B) (w : W)
      → (fail h e >>= f) w ≡ (done, (h e w).1)
  unfolding ◌>>=◌
  fail-bind_lem {A} e f w = rw (fail_lem {A = A} e w)

  pub fail-Obeys : {A : Type 0} (e : Error) → Obeys P D (fail h {A = A} e)
  fail-Obeys {A} e = record {
    keeps = λ w p. rw (fail_lem {A = A} e w) (k.keeps e w p);
    stops = λ w p d. rw (fail_lem {A = A} e w) (k.fails e w);
  }

  fail-bind-Obeys : {A B : Type 0} (e : Error) (f : A → Handler W B) → Obeys P D (fail h e >>= f)
  fail-bind-Obeys e f = record {
    keeps = λ w p. rw (fail-bind_lem e f w) (k.keeps e w p);
    stops = λ w p d. rw (fail-bind_lem e f w) (k.fails e w);
  }

  pub or_fail-Obeys : (o : Option Error) → Obeys P D (or_fail h o)
  unfolding or_fail
  or_fail-Obeys none = Obeys-pure tt
  or_fail-Obeys (some e) = fail-Obeys e

  -- What follows may use that there was no error.
  pub or_fail-bind-Obeys :
      {B : Type 0} (o : Option Error) (f : Unit {0} → Handler W B)
      → (o ≡ none → Obeys P D (f tt))
      → Obeys P D (or_fail h o >>= f)
  unfolding or_fail
  or_fail-bind-Obeys none f kf = Obeys-bind _ _ (Obeys-pure tt) (λ x. kf refl)
  or_fail-bind-Obeys (some e) f kf = fail-bind-Obeys e f

  pub ok_or_fail-bind-Obeys :
      {A B : Type 0} (r : Result A) (f : A → Handler W B)
      → ((a : A) → r ≡ ok a → Obeys P D (f a))
      → Obeys P D (ok_or_fail h r >>= f)
  unfolding ok_or_fail pure ◌>>=◌
  ok_or_fail-bind-Obeys (ok a) f kf = kf a refl
  ok_or_fail-bind-Obeys (err e) f kf = fail-bind-Obeys e f
