-- ===== src/Controller/Cron/Spans.antt =====
-- What the elements of a field are parsed into.
use proceed.Base.{
  ℕ, ◌≤◌, ◌<◌, Option, none, some, List, ◌≡◌, inl, inr, Bool-cases, Option-cases, arith,
}
use proceed.Controller.Cron.Parse.{
  Span, step_of, value_in, end_of, range_of, span_of, cut, atoi, is_star,
}

-- a span within the bounds of a field, which is not empty and whose step leads on
pub data IsWithin (lo hi : ℕ) : Option Span → Type 0 where
  refused : IsWithin lo hi none
  within :
      {s : Span}
      → lo ≤ s.start
      → s.start ≤ s.end
      → s.end ≤ hi
      → 0 < s.step
      → IsWithin lo hi (some s)

pub IsWithin-some :
    {lo hi : ℕ} {s : Span}
    → IsWithin lo hi (some s)
    → (lo ≤ s.start) × (s.start ≤ s.end) × (s.end ≤ hi) × (0 < s.step)
IsWithin-some (within low order high turns) = (low, order, high, turns)

value_in-bounds : (lo hi : ℕ) (s : List ℕ) (a : ℕ) → value_in lo hi s ≡ some a → (lo ≤ a) × (a ≤ hi)
unfolding value_in
value_in-bounds lo hi s a read = elim (Option-cases (atoi s)) [
  | inl bad ↦ ground arith
  | inr (v, is) ↦ ground arith
]

end_of-bounds :
    (lo hi a : ℕ) (r : Option (List ℕ)) (b : ℕ)
    → a ≤ hi
    → end_of lo hi a r ≡ some b
    → (a ≤ b) × (b ≤ hi)
unfolding end_of
end_of-bounds lo hi a none b low read = ground arith
end_of-bounds lo hi a (some r) b low read = elim (Option-cases (value_in lo hi r)) [
  | inl bad ↦ ground arith
  | inr (v, is) ↦ let bounds = value_in-bounds lo hi r v is in ground arith
]

step_of-positive : (s : Option (List ℕ)) (v : ℕ) → step_of s ≡ some v → 0 < v
unfolding step_of
step_of-positive none v read = ground arith
step_of-positive (some s) v read = elim (Option-cases (atoi s)) [
  | inl bad ↦ ground arith
  | inr (w, is) ↦ ground arith
]

range_of-IsWithin :
    (lo hi step : ℕ) (s : List ℕ) → lo ≤ hi → 0 < step → IsWithin lo hi (range_of lo hi step s)
unfolding range_of
range_of-IsWithin lo hi step s order turns = elim (Bool-cases (is_star s)) [
  | inl star ↦ rw star (within (omega arith) order (omega arith) turns)
  | inr other ↦ elim (Option-cases (value_in lo hi (cut 45 s).0)) [
    | inl bad ↦ rw (other, bad) refused
    | inr (a, is) ↦ elim (Option-cases (end_of lo hi a (cut 45 s).1)) [
      | inl bad ↦ rw (other, is, bad) refused
      | inr (b, ends) ↦
          let low = value_in-bounds lo hi (cut 45 s).0 a is in
          let high = end_of-bounds lo hi a (cut 45 s).1 b low.1 ends in
          rw (other, is, ends) (within low.0 high.0 high.1 turns)
    ]
  ]
]

pub span_of-IsWithin : (lo hi : ℕ) (part : List ℕ) → lo ≤ hi → IsWithin lo hi (span_of lo hi part)
unfolding span_of
span_of-IsWithin lo hi part order = elim (Option-cases (step_of (cut 47 part).1)) [
  | inl bad ↦ rw (span_of, bad) refused
  | inr (step, is) ↦
      rw (span_of, is)
        (range_of-IsWithin lo hi step (cut 47 part).0 order
          (step_of-positive (cut 47 part).1 step is))
]
