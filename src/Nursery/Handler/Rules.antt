-- ===== src/Nursery/Handler/Rules.antt =====
-- Invariants of handlers, one rule for each way to build a handler.
use lightz_client.Base.{◌≡◌, refl, ◌⊎◌, inl, inr, Bool, true, false, Option, none, some}
use lightz_client.Lightz.Types.{Error, Result, ok, err}
use lightz_client.Nursery.Handler.{
  Out, value, done, panic, Handler, pure, stop, call, crash, or_crash, continue, ◌>>=◌, when,
  branch, on_result, on_error,
}

-- From a state with `P` the handler ends in one with `P`; if it returned early, `D` holds there too.
pub record Obeys {W A : Type 0} (P D : W → Type 0) (m : Handler W A) : Type 0 where
  pub keeps : (w : W) → P w → P (m w).1
  pub stops : (w : W) → P w → (m w).0 ≡ done → D (m w).1

module _ {W A : Type 0} {P D : W → Type 0} where
  pub Obeys-pure : (a : A) → Obeys P D (pure a)
  unfolding pure
  Obeys-pure a = record { keeps = λ w h. h; stops = λ w h e. cc }

  pub Obeys-call : (g : W → A × W) → ((w : W) → P w → P (g w).1) → Obeys P D (call g)
  unfolding call
  Obeys-call g kg = record { keeps = kg; stops = λ w h e. cc }

  pub Obeys-weaken : {m : Handler W A} → Obeys P (λ w. ⊥) m → Obeys P D m
  Obeys-weaken k = record { keeps = k.keeps; stops = λ w h e. elim (k.stops w h e) [ ] }

  pub Obeys-crash : Obeys P D (crash {A = A})
  unfolding crash
  Obeys-crash = record { keeps = λ w h. h; stops = λ w h e. cc }

  pub Obeys-branch :
      (b : Bool) (m n : Handler W A)
      → (b ≡ true → Obeys P D m)
      → (b ≡ false → Obeys P D n)
      → Obeys P D (branch b m n)
  unfolding branch
  Obeys-branch true m n km kn = km refl
  Obeys-branch false m n km kn = kn refl

-- An early return before the steps of `m`: nothing changes, or `m` is what runs.
module _ {W A : Type 0} {P D : W → Type 0} (m : Handler W A) (k : Obeys P D m) where
  pub stop_or-keeps : (b : Bool) (w : W) → P w → P (branch b stop m w).1
  unfolding branch stop
  stop_or-keeps true w h = h
  stop_or-keeps false w h = k.keeps w h

  pub stop_or-stops :
      (b : Bool) (w : W)
      → P w
      → (branch b stop m w).0 ≡ done
      → ((b ≡ true) × ((branch b stop m w).1 ≡ w)) ⊎ D (branch b stop m w).1
  unfolding branch stop
  stop_or-stops true w h e = inl (refl, refl)
  stop_or-stops false w h e = inr (k.stops w h e)

module _ {W : Type 0} {P D : W → Type 0} where
  pub Obeys-when : (b : Bool) (m : Handler W Unit) → (b ≡ true → Obeys P D m) → Obeys P D (when b m)
  unfolding when
  Obeys-when true m km = km refl
  Obeys-when false m km = Obeys-pure tt

module _ {W A B : Type 0} {P D : W → Type 0} where
  pub Obeys-on_result :
      (r : Result A) (f : Error → Handler W B) (g : A → Handler W B)
      → ((e : Error) → Obeys P D (f e))
      → ((a : A) → r ≡ ok a → Obeys P D (g a))
      → Obeys P D (on_result r f g)
  unfolding on_result
  Obeys-on_result (ok a) f g kf kg = kg a refl
  Obeys-on_result (err e) f g kf kg = kf e

  continue-Obeys :
      (r : Out A) (f : A → Handler W B) (w : W)
      → ((a : A) → Obeys P D (f a))
      → P w
      → (r ≡ done → D w)
      → P (continue r f w).1 × ((continue r f w).0 ≡ done → D (continue r f w).1)
  continue-Obeys (value a) f w kf h d = ((kf a).keeps w h, (kf a).stops w h)
  continue-Obeys done f w kf h d = (h, λ e. d refl)
  continue-Obeys panic f w kf h d = (h, λ e. cc)

  pub Obeys-bind :
      (m : Handler W A) (f : A → Handler W B)
      → Obeys P D m
      → ((a : A) → Obeys P D (f a))
      → Obeys P D (m >>= f)
  unfolding ◌>>=◌
  Obeys-bind m f km kf = record {
    keeps = λ w h. (continue-Obeys (m w).0 f (m w).1 kf (km.keeps w h) (km.stops w h)).0;
    stops = λ w h. (continue-Obeys (m w).0 f (m w).1 kf (km.keeps w h) (km.stops w h)).1;
  }

module _ {W A B : Type 0} {P D : W → Type 0} where
  pub Obeys-or_crash :
      (o : Option A) (f : A → Handler W B) → ((a : A) → Obeys P D (f a)) → Obeys P D (or_crash o f)
  unfolding or_crash
  Obeys-or_crash none f kf = Obeys-crash
  Obeys-or_crash (some a) f kf = kf a

module _ {W B : Type 0} {P D : W → Type 0} where
  pub Obeys-on_error :
      (o : Option Error) (f : Error → Handler W B) (m : Handler W B)
      → ((e : Error) → Obeys P D (f e))
      → (o ≡ none → Obeys P D m)
      → Obeys P D (on_error o f m)
  unfolding on_error
  Obeys-on_error (some e) f m kf km = kf e
  Obeys-on_error none f m kf km = km refl

pub ruleset obeys_rules = (
  Obeys-pure, Obeys-call, Obeys-crash, Obeys-branch, Obeys-when, Obeys-on_result, Obeys-on_error,
  Obeys-or_crash, Obeys-bind,
)
