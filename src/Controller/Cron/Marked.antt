-- ===== src/Controller/Cron/Marked.antt =====
-- The loop of parseCronField over a span sets the bits of the span's numbers.
use proceed.Base.{
  ℕ, zero, suc, ◌+◌, ◌*◌, ◌≤◌, ◌<◌, Bool, true, ◌≡◌, ap, sym, ◌∙◌, ◌↔◌, ◌⊎◌, inl, inr, subst, ltb,
  leb, Bool-cases, arith,
}
use proceed.Controller.Cron.{has_bit}
use proceed.Controller.Cron.Parse.{
  CronParse, parsed, invalid, panics, fold_day, int_end, mark, set_bit,
}
use proceed.Controller.Cron.Bits.{set_bit-cases, set_bit-keeps, set_bit-sets}

-- n is one of v, v + step, v + 2 step and so on up to `end`, where 7 counts as 0 if it is to
unfoldable pub Reaches : Bool → ℕ → ℕ → ℕ → ℕ → Type 0
Reaches fold_seven step end v n =
    (k : ℕ) × (v + k * step ≤ end) × (fold_day fold_seven (v + k * step) ≡ n)

-- what the loop gives: the bits that were set and those of the span, or a panic, which takes a step
-- that leads over the end of the numbers that an int holds
pub data MarkOf (fold_seven : Bool) (step end v bits : ℕ) : CronParse ℕ → Type 0 where
  marks :
      {b : ℕ}
      → ((n : ℕ) → has_bit b n ≡ true ↔ (has_bit bits n ≡ true ⊎ Reaches fold_seven step end v n))
      → MarkOf fold_seven step end v bits (parsed b)
  overflows : int_end ≤ end + step → MarkOf fold_seven step end v bits panics

-- a span that is through
MarkOf-through :
    (fold_seven : Bool) (step end v bits : ℕ)
    → end < v
    → MarkOf fold_seven step end v bits (parsed bits)
unfolding Reaches
MarkOf-through fold_seven step end v bits over =
    marks
      λ n. (inl, λ either. elim either [ inl set ↦ set | inr (k, low, at) ↦ absurd (omega arith) ])

-- the numbers from v on are v and those from the next one on
pub Reaches-first :
    (fold_seven : Bool) (step end v : ℕ)
    → v ≤ end
    → Reaches fold_seven step end v (fold_day fold_seven v)
unfolding Reaches
Reaches-first fold_seven step end v low = (0, omega arith, ap (fold_day fold_seven) (omega arith))

Reaches-later :
    (fold_seven : Bool) (step end v n : ℕ)
    → Reaches fold_seven step end (v + step) n
    → Reaches fold_seven step end v n
unfolding Reaches
Reaches-later fold_seven step end v n (k, low, at) =
    (suc k, subst (λ w. w ≤ end) (next k) low, ap (fold_day fold_seven) (sym (next k)) ∙ at)
  where
    next : (k : ℕ) → v + step + k * step ≡ v + suc k * step
    next k = omega arith

Reaches-cases :
    (fold_seven : Bool) (step end v n : ℕ)
    → Reaches fold_seven step end v n
    → (n ≡ fold_day fold_seven v) ⊎ Reaches fold_seven step end (v + step) n
unfolding Reaches
Reaches-cases fold_seven step end v n (zero, low, at) =
    inl (sym at ∙ ap (fold_day fold_seven) (omega arith))
Reaches-cases fold_seven step end v n (suc k, low, at) =
    inr (k, subst (λ w. w ≤ end) (next k) low, ap (fold_day fold_seven) (sym (next k)) ∙ at)
  where
    next : (k : ℕ) → v + suc k * step ≡ v + step + k * step
    next k = omega arith

-- a turn more in front
MarkOf-turn :
    (fold_seven : Bool) (step end v bits : ℕ) (r : CronParse ℕ)
    → v ≤ end
    → MarkOf fold_seven step end (v + step) (set_bit bits (fold_day fold_seven v)) r
    → MarkOf fold_seven step end v bits r
MarkOf-turn fold_seven step end v bits panics low (overflows far) = overflows far
MarkOf-turn fold_seven step end v bits invalid low r = elim r [ ]
MarkOf-turn fold_seven step end v bits (parsed b) low (marks rest) = marks λ n. (
  λ set. elim ((rest n).0 set) [
    | inr later ↦ inr (Reaches-later fold_seven step end v n later)
    | inl now ↦ elim (set_bit-cases bits (fold_day fold_seven v) n now) [
      | inl before ↦ inl before
      | inr same ↦ inr (
          subst (Reaches fold_seven step end v) (sym same)
            (Reaches-first fold_seven step end v low))
    ]
  ],
  λ either. (rest n).1 (elim either [
    | inl before ↦ inl (set_bit-keeps bits (fold_day fold_seven v) n before)
    | inr reached ↦ elim (Reaches-cases fold_seven step end v n reached) [
      | inl same ↦ inl (set_bit-sets bits (fold_day fold_seven v) n same)
      | inr later ↦ inr later
    ]
  ]),
)

pub mark-MarkOf :
    (left : ℕ) (fold_seven : Bool) (step end v bits : ℕ)
    → 0 < step
    → end < v + left
    → MarkOf fold_seven step end v bits (mark left fold_seven step end v bits)
unfolding mark
mark-MarkOf zero fold_seven step end v bits turns enough =
    MarkOf-through fold_seven step end v bits (omega arith)
mark-MarkOf (suc left) fold_seven step end v bits turns enough = elim (Bool-cases (leb v end)) [
  | inr over ↦ rw over (MarkOf-through fold_seven step end v bits (ground arith))
  | inl low ↦ elim (Bool-cases (ltb (v + step) int_end)) [
    | inr far ↦ rw (low, far) (overflows (ground arith))
    | inl near ↦
        rw (low, near)
          (MarkOf-turn fold_seven step end v bits
            (mark left fold_seven step end (v + step) (set_bit bits (fold_day fold_seven v)))
            (ground arith)
            (mark-MarkOf left fold_seven step end (v + step) (set_bit bits (fold_day fold_seven v))
              turns (omega arith)))
  ]
]
