-- ===== src/Base/Rows.antt =====
-- Predicates over every row of a table, and over every row and the later ones.
use Prim.Native.Nat.{ℕ, ◌+◌, ◌≤◌, max}
use mathlib.Core.Path.{◌≡◌, refl}
use mathlib.Core.Bool.{Bool, true, false, ◌||◌}
use mathlib.Core.List.{List, [], ◌∷◌, ◌++◌}
use native.Mathlib.Omega.{arith}
use proceed.Base.Tests.{if◌then◌else◌}
use proceed.Base.Tables.{any_where, max_where, count_where}

module _ {ℓ} {A : Type ℓ} where
  abbrev pub All : (A → Type 0) → List A → Type 0
  All P [] = Unit
  All P (x ∷ xs) = P x × All P xs

  -- R holds between each row and every later one
  abbrev pub Chain : (A → A → Type 0) → List A → Type 0
  Chain R [] = Unit
  Chain R (x ∷ xs) = All (R x) xs × Chain R xs

  pub All-map : (P Q : A → Type 0) → ((x : A) → P x → Q x) → (xs : List A) → All P xs → All Q xs
  All-map P Q f [] h = tt
  All-map P Q f (x ∷ xs) h = (f x h.0, All-map P Q f xs h.1)

  pub All-zip :
      (P Q R : A → Type 0)
      → ((x : A) → P x → Q x → R x)
      → (xs : List A) → All P xs
      → All Q xs
      → All R xs
  All-zip P Q R f [] h k = tt
  All-zip P Q R f (x ∷ xs) h k = (f x h.0 k.0, All-zip P Q R f xs h.1 k.1)

  pub All-const : (P : A → Type 0) → ((x : A) → P x) → (xs : List A) → All P xs
  All-const P f [] = tt
  All-const P f (x ∷ xs) = (f x, All-const P f xs)

  All-append_one : (P : A → Type 0) (xs : List A) (y : A) → All P xs → P y → All P (xs ++ (y ∷ []))
  All-append_one P [] y h p = (p, tt)
  All-append_one P (x ∷ xs) y h p = (h.0, All-append_one P xs y h.1 p)

  pub Chain-append_one :
      (R : A → A → Type 0) (xs : List A) (y : A)
      → Chain R xs
      → All (λ x. R x y) xs
      → Chain R (xs ++ (y ∷ []))
  Chain-append_one R [] y c h = (tt, tt)
  Chain-append_one R (x ∷ xs) y c h =
      (All-append_one (R x) xs y c.0 h.0, Chain-append_one R xs y c.1 h.1)

  pub All-any_where :
      (p : A → Bool) (xs : List A) → any_where p xs ≡ false → All (λ x. p x ≡ false) xs
  unfolding any_where
  All-any_where p [] h = tt
  All-any_where p (x ∷ xs) h = (ground arith, All-any_where p xs (ground arith))

  pub All-max_where :
      (p : A → Bool) (f : A → ℕ) (xs : List A) → All (λ x. p x ≡ true → f x ≤ max_where p f xs) xs
  unfolding max_where
  All-max_where p f [] = tt
  All-max_where p f (x ∷ xs) = (
    λ h. ground arith,
    All-map (λ y. p y ≡ true → f y ≤ max_where p f xs)
        (λ y. p y ≡ true → f y ≤ max_where p f (x ∷ xs)) (λ y h e. ground (arith, h e)) xs
        (All-max_where p f xs),
  )

  pub any_where-append_one :
      (p : A → Bool) (xs : List A) (y : A) → any_where p (xs ++ (y ∷ [])) ≡ (any_where p xs || p y)
  unfolding any_where
  any_where-append_one p [] y = ground arith
  any_where-append_one p (x ∷ xs) y = ground (arith, any_where-append_one p xs y)

  pub any_where-append :
      (p : A → Bool) (xs ys : List A) → any_where p (xs ++ ys) ≡ (any_where p xs || any_where p ys)
  unfolding any_where
  any_where-append p [] ys = refl
  any_where-append p (x ∷ xs) ys = ground (arith, any_where-append p xs ys)

  pub max_where-append_one :
      (p : A → Bool) (f : A → ℕ) (xs : List A) (y : A)
      → max_where p f (xs ++ (y ∷ []))
        ≡ (if p y then max (max_where p f xs) (f y) else max_where p f xs)
  unfolding max_where
  max_where-append_one p f [] y = ground arith
  max_where-append_one p f (x ∷ xs) y = ground (arith, max_where-append_one p f xs y)

  pub count_where-append_one :
      (p : A → Bool) (xs : List A) (y : A)
      → count_where p (xs ++ (y ∷ [])) ≡ count_where p xs + (if p y then 1 else 0)
  unfolding count_where
  count_where-append_one p [] y = ground arith
  count_where-append_one p (x ∷ xs) y = ground (arith, count_where-append_one p xs y)
