-- ===== src/Rpc/Request.antt =====
-- A request of the RPC server: it answers, fails with an error, or panics, and leaves a state.
use lightz_client.Base.{◌≡◌, refl, Option, none, some}
use lightz_client.Lightz.Types.{Error, Result, ok, err}

pub data Answer (A : Type 0) : Type 0 where
  answer : A → Answer A
  fails : Error → Answer A
  panics : Answer A

abbrev pub Request : Type 0 → Type 0 → Type 0
Request W A = W → Answer A × W

module _ {W A B : Type 0} where
  abbrev pub follow : Answer A → (A → Request W B) → Request W B
  follow (answer a) f w = f a w
  follow (fails e) f w = (fails e, w)
  follow panics f w = (panics, w)

  infixl 5 ◌>>=◌ ◌>>◌
  unfoldable pub ◌>>=◌ : Request W A → (A → Request W B) → Request W B
  ◌>>=◌ m f w = let (r, w') = m w in follow r f w'

  abbrev pub ◌>>◌ : Request W A → Request W B → Request W B
  m >> n = m >>= λ _. n

module _ {W : Type 0} where
  unfoldable pub pure : {A : Type 0} → A → Request W A
  pure a w = (answer a, w)

  -- `if err := …; err != nil { return nil, err }`
  unfoldable pub require : Option Error → Request W Unit
  require none w = (answer tt, w)
  require (some e) w = (fails e, w)

  -- `a, err := …; if err != nil { return nil, err }`
  unfoldable pub give : {A : Type 0} → Result A → Request W A
  give (ok a) w = (answer a, w)
  give (err e) w = (fails e, w)

  -- What panics where it gives `none`.
  unfoldable pub need : {A : Type 0} → Option A → Request W A
  need none w = (panics, w)
  need (some a) w = (answer a, w)

-- From `P` to `Q`.
abbrev pub Leads : {W A : Type 0} → (W → Type 0) → (W → Type 0) → Request W A → Type 0
Leads {W} P Q m = (w : W) → P w → Q (m w).1

-- `Q` holds also where `P` still does.
module _ {W : Type 0} {P Q : W → Type 0} (weaken : (w : W) → P w → Q w) where
  pub bind-Leads :
      {A B : Type 0} (m : Request W A) (f : A → Request W B)
      → Leads P P m
      → ((a : A) → Leads P Q (f a))
      → Leads P Q (m >>= f)
  unfolding ◌>>=◌
  bind-Leads {A} {B} m f km kf = λ w p. followed (m w).0 (m w).1 (km w p)
    where
      followed : (r : Answer A) (w : W) → P w → Q (follow r f w).1
      followed (answer a) w p = kf a w p
      followed (fails e) w p = weaken w p
      followed panics w p = weaken w p

  -- What follows may use that there was no error.
  pub require-Leads :
      {B : Type 0} (o : Option Error) (f : Unit {0} → Request W B)
      → (o ≡ none → Leads P Q (f tt))
      → Leads P Q (require o >>= f)
  unfolding require ◌>>=◌
  require-Leads none f kf = kf refl
  require-Leads (some e) f kf = weaken

  pub give-Leads :
      {A B : Type 0} (r : Result A) (f : A → Request W B)
      → ((a : A) → r ≡ ok a → Leads P Q (f a))
      → Leads P Q (give r >>= f)
  unfolding give ◌>>=◌
  give-Leads (ok a) f kf = kf a refl
  give-Leads (err e) f kf = weaken

  pub need-Leads :
      {A B : Type 0} (o : Option A) (f : A → Request W B)
      → ((a : A) → o ≡ some a → Leads P Q (f a))
      → Leads P Q (need o >>= f)
  unfolding need ◌>>=◌
  need-Leads none f kf = weaken
  need-Leads (some a) f kf = kf a refl
