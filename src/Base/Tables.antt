-- ===== src/Base/Tables.antt =====
-- Database tables as lists of rows, and what the SQL statements of the program do with them.
use Prim.Native.Nat.{ℕ, suc, ◌+◌, max}
use mathlib.Core.Bool.{Bool, false, ◌||◌}
use mathlib.Core.Option.{Option, none, some}
use mathlib.Core.List.{List, [], ◌∷◌}
use proceed.Base.Tests.{if◌then◌else◌}

module _ {ℓ} {A : Type ℓ} where
  abbrev pub length : List A → ℕ
  length [] = 0
  length (x ∷ xs) = suc (length xs)

  -- UPDATE … SET f WHERE p
  unfoldable pub update_where : (A → Bool) → (A → A) → List A → List A
  update_where p f [] = []
  update_where p f (x ∷ xs) = (if p x then f x else x) ∷ update_where p f xs

  -- SELECT … WHERE p, on the first row
  unfoldable pub find_where : (A → Bool) → List A → Option A
  find_where p [] = none
  find_where p (x ∷ xs) = if p x then some x else find_where p xs

  -- SELECT … WHERE p
  unfoldable pub select_where : (A → Bool) → List A → List A
  select_where p [] = []
  select_where p (x ∷ xs) = let rest = select_where p xs in if p x then x ∷ rest else rest

  -- SELECT COUNT(*) WHERE p
  unfoldable pub count_where : (A → Bool) → List A → ℕ
  count_where p [] = 0
  count_where p (x ∷ xs) = (if p x then 1 else 0) + count_where p xs

  -- whether a row has p
  unfoldable pub any_where : (A → Bool) → List A → Bool
  any_where p [] = false
  any_where p (x ∷ xs) = p x || any_where p xs

  -- SELECT COALESCE(MAX(f), 0) WHERE p
  unfoldable pub max_where : (A → Bool) → (A → ℕ) → List A → ℕ
  max_where p f [] = 0
  max_where p f (x ∷ xs) = let rest = max_where p f xs in if p x then max (f x) rest else rest
