-- ===== src/Controller/Cron/Fields.antt =====
-- A field of a cron expression is parsed into the numbers that its elements stand for.
use mathlib.Core.List.{Memᴰ}
use mathlib.Core.Option.{some-injective}
use proceed.Base.{
  ℕ, ◌+◌, ◌-◌, ◌≤◌, ◌<◌, Bool, true, none, some, List, [], ◌∷◌, ◌≡◌, refl, sym, ap, ◌∙◌, ◌↔◌, ◌⊎◌,
  inl, inr, subst, ◌==◌, Option-cases, arith,
}
use proceed.Controller.Cron.{has_bit}
use proceed.Controller.Cron.Marked.{Reaches, MarkOf, marks, overflows, mark-MarkOf}
use proceed.Controller.Cron.Parse.{
  CronParse, parsed, invalid, panics, ◌>>=◌, Span, int_end, mark, mark_parts, span_of, split_by,
  parse_cron_field,
}
use proceed.Controller.Cron.Spans.{IsWithin, IsWithin-some, span_of-IsWithin}

-- one of the elements stands for n
pub data Named (lo hi : ℕ) (fold_seven : Bool) (n : ℕ) : List (List ℕ) → Type 0 where
  named_here :
      {part : List ℕ} {parts : List (List ℕ)} {s : Span}
      → span_of lo hi part ≡ some s
      → Reaches fold_seven s.step s.end s.start n
      → Named lo hi fold_seven n (part ∷ parts)
  named_later :
      {part : List ℕ} {parts : List (List ℕ)}
      → Named lo hi fold_seven n parts
      → Named lo hi fold_seven n (part ∷ parts)

-- What the parsing of elements gives: the bits that were set and those of the elements, if each is
-- well formed; a refusal, if one is not; and a panic only where the step of one leads over the end
-- of the numbers that an int holds.
pub data FieldOf (lo hi : ℕ) (fold_seven : Bool) (parts : List (List ℕ)) (bits : ℕ)
    : CronParse ℕ → Type 0 where
  reads :
      {b : ℕ}
      → ((part : List ℕ) → Memᴰ part parts → (s : Span) × (span_of lo hi part ≡ some s))
      → ((n : ℕ) → has_bit b n ≡ true ↔ (has_bit bits n ≡ true ⊎ Named lo hi fold_seven n parts))
      → FieldOf lo hi fold_seven parts bits (parsed b)
  rejects :
      (part : List ℕ)
      → Memᴰ part parts
      → span_of lo hi part ≡ none
      → FieldOf lo hi fold_seven parts bits invalid
  breaks :
      (part : List ℕ) (s : Span)
      → Memᴰ part parts
      → span_of lo hi part ≡ some s
      → int_end ≤ s.end + s.step
      → FieldOf lo hi fold_seven parts bits panics

-- an element stands for n by its span, or a later one does
Named-cases :
    (lo hi : ℕ) (fold_seven : Bool) (n : ℕ) (part : List ℕ) (parts : List (List ℕ)) (s : Span)
    → span_of lo hi part ≡ some s
    → Named lo hi fold_seven n (part ∷ parts)
    → Reaches fold_seven s.step s.end s.start n ⊎ Named lo hi fold_seven n parts
Named-cases lo hi fold_seven n part parts s is (named_later later) = inr later
Named-cases lo hi fold_seven n part parts s is (named_here {s = t} at reached) = inl (
    subst (λ u. Reaches fold_seven u.step u.end u.start n) (some-injective t s (sym at ∙ is))
      reached)

-- an element in front
FieldOf-front :
    (lo hi : ℕ) (fold_seven : Bool) (part : List ℕ) (parts : List (List ℕ)) (bits b : ℕ) (s : Span)
    (r : CronParse ℕ)
    → span_of lo hi part ≡ some s
    → ((n : ℕ)
        → has_bit b n ≡ true ↔ (has_bit bits n ≡ true ⊎ Reaches fold_seven s.step s.end s.start n))
    → FieldOf lo hi fold_seven parts b r
    → FieldOf lo hi fold_seven (part ∷ parts) bits r
FieldOf-front lo hi fold_seven part parts bits b s (parsed c) is front (reads all rest) =
    reads
      (λ p listed. elim listed [
        | Memᴰ.head same ↦ (s, ap (span_of lo hi) same ∙ is)
        | Memᴰ.tail later ↦ all p later
      ])
      λ n. (
        λ set. elim ((rest n).0 set) [
          | inr later ↦ inr (named_later later)
          | inl now ↦ elim ((front n).0 now) [
            | inl before ↦ inl before
            | inr reached ↦ inr (named_here is reached)
          ]
        ],
        λ either. (rest n).1 (elim either [
          | inl before ↦ inl ((front n).1 (inl before))
          | inr named ↦ elim (Named-cases lo hi fold_seven n part parts s is named) [
            | inl reached ↦ inl ((front n).1 (inr reached))
            | inr later ↦ inr later
          ]
        ]),
      )
FieldOf-front lo hi fold_seven part parts bits b s invalid is front (rejects p listed bad) =
    rejects p (Memᴰ.tail listed) bad
FieldOf-front lo hi fold_seven part parts bits b s panics is front (breaks p t listed at far) =
    breaks p t (Memᴰ.tail listed) at far

-- a span is marked, and then the other elements' are
FieldOf-step :
    (lo hi : ℕ) (fold_seven : Bool) (part : List ℕ) (parts : List (List ℕ)) (bits : ℕ) (s : Span)
    (r : CronParse ℕ) (rest : ℕ → CronParse ℕ)
    → span_of lo hi part ≡ some s
    → MarkOf fold_seven s.step s.end s.start bits r
    → ((b : ℕ) → FieldOf lo hi fold_seven parts b (rest b))
    → FieldOf lo hi fold_seven (part ∷ parts) bits (r >>= rest)
FieldOf-step lo hi fold_seven part parts bits s (parsed b) rest is (marks front) later =
    FieldOf-front lo hi fold_seven part parts bits b s (rest b) is front (later b)
FieldOf-step lo hi fold_seven part parts bits s invalid rest is m later = elim m [ ]
FieldOf-step lo hi fold_seven part parts bits s panics rest is (overflows far) later =
    breaks part s (Memᴰ.head refl) is far

pub mark_parts-FieldOf :
    (lo hi : ℕ) (fold_seven : Bool) (parts : List (List ℕ)) (bits : ℕ)
    → lo ≤ hi
    → FieldOf lo hi fold_seven parts bits (mark_parts lo hi fold_seven parts bits)
unfolding mark_parts
mark_parts-FieldOf lo hi fold_seven [] bits order =
    reads (λ p listed. elim listed [ ])
      λ n. (inl, λ either. elim either [ inl set ↦ set | inr named ↦ elim named [ ] ])
mark_parts-FieldOf lo hi fold_seven (part ∷ parts) bits order =
    elim (Option-cases (span_of lo hi part)) [
      | inl bad ↦ rw (mark_parts, bad) (rejects part (Memᴰ.head refl) bad)
      | inr (s, is) ↦
          let fine =
            IsWithin-some (subst (IsWithin lo hi) is (span_of-IsWithin lo hi part order)) in
          rw (mark_parts, is)
            (FieldOf-step lo hi fold_seven part parts bits s
              (mark (s.end + 1 - s.start) fold_seven s.step s.end s.start bits)
              (mark_parts lo hi fold_seven parts) is
              (mark-MarkOf (s.end + 1 - s.start) fold_seven s.step s.end s.start bits fine.3
                (enough s.start s.end fine.1))
              λ b. mark_parts-FieldOf lo hi fold_seven parts b order)
    ]
  where
    enough : (start end : ℕ) → start ≤ end → end < start + (end + 1 - start)
    enough start end order = omega arith

-- For every field, parseCronField either sets exactly the bits of the numbers that its elements stand
-- for, where each element is well formed; or refuses the field, where an element is not well formed;
-- or panics, which takes an element whose end and step add up to 2^63 at least.
pub parse_cron_field-FieldOf :
    (lo hi : ℕ) (fold_seven : Bool) (field : List ℕ)
    → lo ≤ hi
    → FieldOf lo hi fold_seven
        (split_by (λ c. c == 44) field)
        0
        (parse_cron_field lo hi fold_seven field)
unfolding parse_cron_field
parse_cron_field-FieldOf lo hi fold_seven field order =
    mark_parts-FieldOf lo hi fold_seven (split_by (λ c. c == 44) field) 0 order
