-- ===== src/Base/Exec.antt =====
-- Methods that change an object and may return an error. What was written before the error stays
-- written, so the state comes back beside the error too.
use mathlib.Core.Path.{◌≡◌, refl}
use mathlib.Core.Bool.{Bool, true, false}
use komari_bridge.Base.Tests.{if◌then◌else◌}
use komari_bridge.Base.Results.{Result, ok, err}

abbrev pub Exec : Type 0 → Type 0 → Type 0 → Type 0
Exec S E A = S → Result E A × S

module _ {S E A : Type 0} where
  abbrev pub pure : A → Exec S E A
  pure a s = (ok a, s)

  abbrev pub raise : E → Exec S E A
  raise e s = (err e, s)

  abbrev pub lift : Result E A → Exec S E A
  lift r s = (r, s)

  abbrev pub gets : (S → A) → Exec S E A
  gets f s = (ok (f s), s)

module _ {S E A B : Type 0} where
  abbrev continue : Result E A → (A → Exec S E B) → Exec S E B
  continue (ok a) f s = f a s
  continue (err e) f s = (err e, s)

  infixl 10 ◌>>=◌ ◌>>◌
  abbrev pub ◌>>=◌ : Exec S E A → (A → Exec S E B) → Exec S E B
  ◌>>=◌ m f s = continue (m s).0 f (m s).1

  abbrev pub ◌>>◌ : Exec S E A → Exec S E B → Exec S E B
  m >> n = m >>= λ _. n

-- `m` keeps `P`, whether it returns or fails.
pub record Keeps {S E A : Type 0} (P : S → Type 0) (m : Exec S E A) : Type 0 where
  pub at : (s : S) → P s → P (m s).1

module _ {S E A : Type 0} {P : S → Type 0} where
  pub Keeps-lift : (r : Result E A) → Keeps P (lift {S = S} r)
  Keeps-lift r = record { at = λ s h. h }

  pub Keeps-pure : (a : A) → Keeps P (pure {S = S} {E = E} a)
  Keeps-pure a = record { at = λ s h. h }

  pub Keeps-gets : (f : S → A) → Keeps P (gets {S = S} {E = E} f)
  Keeps-gets f = record { at = λ s h. h }

  pub Keeps-if :
      (b : Bool) (m n : Exec S E A) → Keeps P m → Keeps P n → Keeps P (if b then m else n)
  Keeps-if true m n km kn = km
  Keeps-if false m n km kn = kn

module _ {S E A B : Type 0} {P : S → Type 0} where
  Keeps-continue :
      (r : Result E A) (f : A → Exec S E B) (s : S)
      → ((a : A) → Keeps P (f a))
      → P s
      → P (continue r f s).1
  Keeps-continue (ok a) f s k h = (k a).at s h
  Keeps-continue (err e) f s k h = h

  pub Keeps-bind :
      (m : Exec S E A) (f : A → Exec S E B)
      → Keeps P m
      → ((a : A) → Keeps P (f a))
      → Keeps P (m >>= f)
  Keeps-bind m f km kf = record { at = λ s h. Keeps-continue (m s).0 f (m s).1 kf (km.at s h) }

pub ruleset keeps_rules = (Keeps-lift, Keeps-pure, Keeps-gets, Keeps-if, Keeps-bind)

-- What holds of the state after a block that has returned: its parts have returned too.
module _ {S E A B : Type 0} (P : S → Type 0) (f : A → Exec S E B) where
  after_continue :
      (r : Result E A) (s : S) {b : B}
      → ((a : A) → r ≡ ok a → (f a s).0 ≡ ok b → P (f a s).1)
      → (continue r f s).0 ≡ ok b
      → P (continue r f s).1
  after_continue (ok a) s k h = k a refl h
  after_continue (err e) s k h = cc

  pub after_bind :
      (m : Exec S E A) (s : S) {b : B}
      → ((a : A) → (m s).0 ≡ ok a → (f a (m s).1).0 ≡ ok b → P (f a (m s).1).1)
      → ((m >>= f) s).0 ≡ ok b
      → P ((m >>= f) s).1
  after_bind m s k h = after_continue (m s).0 (m s).1 k h
