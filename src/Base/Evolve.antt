-- ===== src/Base/Evolve.antt =====
-- How a table changes: rows are added at its end, or each row is followed by its new version.
use mathlib.Core.Path.{◌≡◌, ap, sym, subst, ◌∙◌}
use mathlib.Core.Logic.{inl, inr}
use mathlib.Core.Bool.{Bool, true}
use mathlib.Core.List.{List, [], ◌∷◌, ◌++◌, append-nil, append_assoc}
use native.Mathlib.Omega.{arith}
use proceed.Base.Tests.{if◌then◌else◌, Bool-cases}
use proceed.Base.Rows.{any_where-append}
use proceed.Base.Tables.{any_where, update_where}

module _ {ℓ} {A : Type ℓ} where
  -- the second table is the first with rows added
  pub record Extends (xs zs : List A) : Type ℓ where
    pub added : List A
    pub eq : zs ≡ xs ++ added

  pub Extends-refl : (xs : List A) → Extends xs xs
  Extends-refl xs = record { added = []; eq = sym (append-nil xs) }

  pub Extends-eq : {xs ys : List A} → ys ≡ xs → Extends xs ys
  Extends-eq {xs} e = record { added = []; eq = e ∙ sym (append-nil xs) }

  pub Extends-trans : {xs ys zs : List A} → Extends xs ys → Extends ys zs → Extends xs zs
  Extends-trans {xs} e f = record {
    added = e.added ++ f.added;
    eq = f.eq ∙ ap (λ l. l ++ f.added) e.eq ∙ append_assoc xs e.added f.added;
  }

module _ {ℓ} {A : Type ℓ} (R : A → A → Type 0) where
  -- each row of the first table has its successor at the same place, and rows may be added
  abbrev pub Evolves : List A → List A → Type 0
  Evolves [] ys = Unit
  Evolves (x ∷ xs) [] = ⊥
  Evolves (x ∷ xs) (y ∷ ys) = R x y × Evolves xs ys

module _ {ℓ} {A : Type ℓ} (R : A → A → Type 0) (same : (x : A) → R x x) where
  Evolves-append : (xs ys : List A) → Evolves R xs (xs ++ ys)
  Evolves-append [] ys = tt
  Evolves-append (x ∷ xs) ys = (same x, Evolves-append xs ys)

  pub Evolves-Extends : (xs : List A) {zs : List A} → Extends xs zs → Evolves R xs zs
  Evolves-Extends xs e = subst (Evolves R xs) (sym e.eq) (Evolves-append xs e.added)

  step-if :
      (p : A → Bool) (f : A → A) (x : A) → (p x ≡ true → R x (f x)) → R x (if p x then f x else x)
  step-if p f x h = elim (Bool-cases (p x)) [ inl e ↦ rw e (h e) | inr e ↦ rw e (same x) ]

  Evolves-update_append :
      (p : A → Bool) (f : A → A) (xs ys : List A)
      → ((x : A) → p x ≡ true → R x (f x))
      → Evolves R xs (update_where p f (xs ++ ys))
  unfolding update_where
  Evolves-update_append p f [] ys h = tt
  Evolves-update_append p f (x ∷ xs) ys h = (step-if p f x (h x), Evolves-update_append p f xs ys h)

  -- rows added, then an UPDATE whose every step is allowed
  pub Evolves-update :
      (p : A → Bool) (f : A → A) (xs : List A) {zs : List A}
      → Extends xs zs
      → ((x : A) → p x ≡ true → R x (f x))
      → Evolves R xs (update_where p f zs)
  Evolves-update p f xs e h =
      subst (λ l. Evolves R xs (update_where p f l)) (sym e.eq)
        (Evolves-update_append p f xs e.added h)

module _ {ℓ} {A : Type ℓ} where
  pub Evolves-trans :
      (R S T : A → A → Type 0)
      → ((x y z : A) → R x y → S y z → T x z)
      → (xs ys zs : List A) → Evolves R xs ys
      → Evolves S ys zs
      → Evolves T xs zs
  Evolves-trans R S T join [] ys zs e f = tt
  Evolves-trans R S T join (x ∷ xs) [] zs e f = absurd e
  Evolves-trans R S T join (x ∷ xs) (y ∷ ys) [] e f = absurd f
  Evolves-trans R S T join (x ∷ xs) (y ∷ ys) (z ∷ zs) e f =
      (join x y z e.0 f.0, Evolves-trans R S T join xs ys zs e.1 f.1)

  pub Evolves-map :
      (R S : A → A → Type 0)
      → ((x y : A) → R x y → S x y)
      → (xs ys : List A) → Evolves R xs ys
      → Evolves S xs ys
  Evolves-map R S f [] ys e = tt
  Evolves-map R S f (x ∷ xs) [] e = e
  Evolves-map R S f (x ∷ xs) (y ∷ ys) e = (f x y e.0, Evolves-map R S f xs ys e.1)

  pub Evolves-refl : (R : A → A → Type 0) → ((x : A) → R x x) → (xs : List A) → Evolves R xs xs
  Evolves-refl R same [] = tt
  Evolves-refl R same (x ∷ xs) = (same x, Evolves-refl R same xs)

module _ {ℓ} {A : Type ℓ} where
  -- a row that is there stays there
  pub any_where-Extends :
      (p : A → Bool) (xs : List A) {zs : List A}
      → Extends xs zs
      → any_where p xs ≡ true
      → any_where p zs ≡ true
  any_where-Extends p xs {zs} e h =
      ap (any_where p) e.eq ∙ any_where-append p xs e.added ∙ ground (arith, h)
