-- ===== src/Controller/Cron/Bits.antt =====
-- The bits of a field of a cron expression.
use native.Mathlib.Nat.{pow-succ', div-div-eq-div-mul}
use proceed.Base.{
  ℕ, zero, suc, ◌+◌, ◌*◌, ◌/◌, ◌%◌, ◌^◌, ◌<◌, Bool, true, false, ◌||◌, ◌==◌, ◌≡◌, refl, sym, ap,
  ◌∙◌, ◌⊎◌, inl, inr, arith,
}
use proceed.Controller.Cron.{has_bit}
use proceed.Controller.Cron.Parse.{set_bit}

has_bit-suc : (bits m : ℕ) → has_bit bits (suc m) ≡ has_bit (bits / 2) m
has_bit-suc bits m =
    ap (λ q. q % 2 == 1)
      (ap (λ d. bits / d) (pow-succ' 2 m) ∙ sym (div-div-eq-div-mul bits 2 (2 ^ m)))

halve : (a r : ℕ) → r < 2 → (a * 2 + r) / 2 ≡ a
halve a r small = omega arith

-- no bit is set in 0
pub no_bit : (n : ℕ) → has_bit 0 n ≡ false
no_bit zero = refl
no_bit (suc n) = has_bit-suc 0 n ∙ no_bit n

-- one bit is set, the others are as they were
has_bit-set_bit : (bits n m : ℕ) → has_bit (set_bit bits n) m ≡ (has_bit bits m || m == n)
unfolding set_bit
has_bit-set_bit bits zero zero = ground arith
has_bit-set_bit bits zero (suc m) =
    has_bit-suc (bits / 2 * 2 + 1) m
    ∙ ap (λ b. has_bit b m) (halve (bits / 2) 1 (omega arith))
    ∙ sym (has_bit-suc bits m)
    ∙ ground arith
has_bit-set_bit bits (suc n) zero = ground arith
has_bit-set_bit bits (suc n) (suc m) =
    has_bit-suc (set_bit (bits / 2) n * 2 + bits % 2) m
    ∙ ap (λ b. has_bit b m) (halve (set_bit (bits / 2) n) (bits % 2) (omega arith))
    ∙ has_bit-set_bit (bits / 2) n m
    ∙ ap (λ b. b || m == n) (sym (has_bit-suc bits m))
    ∙ ap (λ b. has_bit bits (suc m) || b) (ground arith)

-- the same, read from each side
pub set_bit-cases :
    (bits n m : ℕ) → has_bit (set_bit bits n) m ≡ true → (has_bit bits m ≡ true) ⊎ (m ≡ n)
set_bit-cases bits n m set = split (has_bit bits m) (sym (has_bit-set_bit bits n m) ∙ set)
  where
    split : (b : Bool) → (b || m == n) ≡ true → (b ≡ true) ⊎ (m ≡ n)
    split true _ = inl refl
    split false same = inr (ground arith)

pub set_bit-keeps : (bits n m : ℕ) → has_bit bits m ≡ true → has_bit (set_bit bits n) m ≡ true
set_bit-keeps bits n m set = has_bit-set_bit bits n m ∙ ap (λ b. b || m == n) set

pub set_bit-sets : (bits n m : ℕ) → m ≡ n → has_bit (set_bit bits n) m ≡ true
set_bit-sets bits n m same = has_bit-set_bit bits n m ∙ either (has_bit bits m)
  where
    either : (b : Bool) → (b || m == n) ≡ true
    either true = refl
    either false = ground arith
