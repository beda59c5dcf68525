-- ===== src/Base/Outcomes.antt =====
-- What holds of a result if it is no error, with one rule for each way to build a result.
use mathlib.Core.Path.{◌≡◌, refl, subst}
use mathlib.Core.Bool.{Bool, true, false}
use proceed.Base.Tests.{if◌then◌else◌}
use proceed.Base.Errors.{Error, Result, ok, err, ◌>>=◌, ◌>>◌, require}

pub data Ensures {ℓ κ} {A : Type ℓ} (P : A → Type κ) : Result A → Type (ℓ ⊔ κ) where
  holds : {a : A} → P a → Ensures P (ok a)
  fails : {e : Error} → Ensures P (err e)

Ensures-inv {ℓ κ} :
    {A : Type ℓ} {P : A → Type κ} {r : Result A} → Ensures P r → (a : A) → r ≡ ok a → P a
Ensures-inv {P = P} (holds {a = b} p) a h = subst P (cc h) p
Ensures-inv fails a h = absurd (cc h)

module _ {ℓ κ} {A : Type ℓ} {P : A → Type κ} where
  -- the use of a postcondition at a run that returned
  pub Ensures-at : {r : Result A} {a : A} → Ensures P r → r ≡ ok a → P a
  Ensures-at {a = a} e h = Ensures-inv e a h

  pub Ensures-map {μ} :
      {Q : A → Type μ} {r : Result A} → ((a : A) → P a → Q a) → Ensures P r → Ensures Q r
  Ensures-map f (holds {a = a} p) = holds (f a p)
  Ensures-map f fails = fails

  pub Ensures-bind {μ} :
      {B : Type μ} (m : Result B) (f : B → Result A)
      → ((b : B) → m ≡ ok b → Ensures P (f b))
      → Ensures P (m >>= f)
  Ensures-bind (ok b) f k = k b refl
  Ensures-bind (err e) f k = fails

  pub Ensures-require :
      (b : Bool) (e : Error) (k : Result A)
      → (b ≡ true → Ensures P k)
      → Ensures P (require b e >> k)
  Ensures-require true e k h = h refl
  Ensures-require false e k h = fails

  pub Ensures-then : (m : Result (Unit {0})) (k : Result A) → Ensures P k → Ensures P (m >> k)
  Ensures-then (ok u) k h = h
  Ensures-then (err e) k h = fails

  pub Ensures-if :
      (b : Bool) {m n : Result A}
      → (b ≡ true → Ensures P m)
      → (b ≡ false → Ensures P n)
      → Ensures P (if b then m else n)
  Ensures-if true hm hn = hm refl
  Ensures-if false hm hn = hn refl

  -- the total form, for a result that is known only by its equations
  pub Ensures-intro : (r : Result A) → ((a : A) → r ≡ ok a → P a) → Ensures P r
  Ensures-intro (ok a) k = holds (k a refl)
  Ensures-intro (err e) k = fails
