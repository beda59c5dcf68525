-- ===== src/Controller/Cron/Bounds.antt =====
-- A schedule that is parsed has numbers in every field, and none out of the bounds of its fields.
use mathlib.Core.List.{Memᴰ}
use proceed.Base.{
  ℕ, ◌+◌, ◌*◌, ◌≤◌, Bool, true, false, String, List, [], ◌∷◌, ◌≡◌, refl, sym, ap, ◌∙◌, some, inl,
  inr, subst, ◌==◌, Bool-cases, arith,
}
use proceed.Controller.Cron.{has_bit, CronSchedule}
use proceed.Controller.Cron.Marked.{Reaches, Reaches-first}
use proceed.Controller.Cron.Parse.{
  CronParse, parsed, invalid, panics, ◌>>=◌, Span, span_of, fold_day, parse_cron_field,
  put_in_front, split_by, schedule_of, parse_cron, fields, codes,
}
use proceed.Controller.Cron.Spans.{IsWithin, IsWithin-some, span_of-IsWithin}
use proceed.Controller.Cron.Fields.{
  Named, named_here, named_later, FieldOf, reads, parse_cron_field-FieldOf,
}

-- a word has a bit, and every bit of it is between two numbers
unfoldable pub HasBitsIn : ℕ → ℕ → ℕ → Type 0
HasBitsIn lo hi bits =
    ((n : ℕ) × (has_bit bits n ≡ true)) × ((n : ℕ) → has_bit bits n ≡ true → (lo ≤ n) × (n ≤ hi))

-- there is an element in every field
split_by-first :
    (is_separator : ℕ → Bool) (s : List ℕ) → (part : List ℕ) × Memᴰ part (split_by is_separator s)
unfolding split_by
split_by-first is_separator [] = ([], Memᴰ.head refl)
split_by-first is_separator (c ∷ s) = elim (Bool-cases (is_separator c)) [
  | inl ends ↦ rw (split_by, ends) ([], Memᴰ.head refl)
  | inr inside ↦ rw (split_by, inside) (grown (split_by is_separator s))
]
  where
    grown : (words : List (List ℕ)) → (part : List ℕ) × Memᴰ part (put_in_front c words)
    grown [] = (c ∷ [], Memᴰ.head refl)
    grown (word ∷ words) = (c ∷ word, Memᴰ.head refl)

-- an element stands for the first number of its span
Named-first :
    (lo hi : ℕ) (fold_seven : Bool) (part : List ℕ) (s : Span) (parts : List (List ℕ))
    → s.start ≤ s.end
    → span_of lo hi part ≡ some s
    → Memᴰ part parts
    → Named lo hi fold_seven (fold_day fold_seven s.start) parts
Named-first lo hi fold_seven part s [] low is listed = elim listed [ ]
Named-first lo hi fold_seven part s (q ∷ parts) low is (Memᴰ.head same) =
    named_here (ap (span_of lo hi) (sym same) ∙ is)
      (Reaches-first fold_seven s.step s.end s.start low)
Named-first lo hi fold_seven part s (q ∷ parts) low is (Memᴰ.tail later) =
    named_later (Named-first lo hi fold_seven part s parts low is later)

-- a number that is not folded stays within the bounds
Reaches-bounds : (step end v n : ℕ) → Reaches false step end v n → (v ≤ n) × (n ≤ end)
unfolding Reaches
Reaches-bounds step end v n (k, low, at) =
    (subst (λ m. v ≤ m) at (omega arith), subst (λ m. m ≤ end) at low)

fold_day-bounds : (v : ℕ) → v ≤ 7 → fold_day true v ≤ 6
fold_day-bounds v low = ground arith

Named-bounds :
    (lo hi n : ℕ) (parts : List (List ℕ))
    → lo ≤ hi
    → Named lo hi false n parts
    → (lo ≤ n) × (n ≤ hi)
Named-bounds lo hi n [] order named = elim named [ ]
Named-bounds lo hi n (part ∷ parts) order (named_later later) =
    Named-bounds lo hi n parts order later
Named-bounds lo hi n (part ∷ parts) order (named_here {s = s} at reached) =
    let fine = IsWithin-some (subst (IsWithin lo hi) at (span_of-IsWithin lo hi part order)) in
    let between = Reaches-bounds s.step s.end s.start n reached in (omega arith, omega arith)

Reaches-weekday : (step end v n : ℕ) → end ≤ 7 → Reaches true step end v n → n ≤ 6
unfolding Reaches
Reaches-weekday step end v n small (k, low, at) =
    subst (λ m. m ≤ 6) at (fold_day-bounds (v + k * step) (omega arith))

Named-weekday : (n : ℕ) (parts : List (List ℕ)) → Named 0 7 true n parts → n ≤ 6
Named-weekday n [] named = elim named [ ]
Named-weekday n (part ∷ parts) (named_later later) = Named-weekday n parts later
Named-weekday n (part ∷ parts) (named_here {s = s} at reached) =
    let fine = IsWithin-some (subst (IsWithin 0 7) at (span_of-IsWithin 0 7 part (omega arith))) in
    Reaches-weekday s.step s.end s.start n fine.2 reached

-- the bits of a field that is parsed are those of its elements
FieldOf-Named :
    {lo hi : ℕ} {fold_seven : Bool} {parts : List (List ℕ)} {b : ℕ}
    → FieldOf lo hi fold_seven parts 0 (parsed b)
    → (n : ℕ) → has_bit b n ≡ true
    → Named lo hi fold_seven n parts
FieldOf-Named (reads all bits) n set = elim ((bits n).0 set) [
  | inl before ↦ absurd (ground arith)
  | inr named ↦ named
]

-- what a result satisfies, if there is one
data Gives {ℓ κ} {A : Type ℓ} (P : A → Type κ) : CronParse A → Type (ℓ ⊔ κ) where
  given : {a : A} → P a → Gives P (parsed a)
  is_invalid : Gives P invalid
  is_panic : Gives P panics

Gives->>= {ℓ κ} :
    {A : Type ℓ} {B : Type κ} {P : A → Type 0} {Q : B → Type 0} (r : CronParse A)
    (f : A → CronParse B)
    → Gives P r
    → ((a : A) → P a → Gives Q (f a))
    → Gives Q (r >>= f)
Gives->>= (parsed a) f (given p) rest = rest a p
Gives->>= invalid f g rest = is_invalid
Gives->>= panics f g rest = is_panic

Gives-parsed {ℓ κ} : {A : Type ℓ} {P : A → Type κ} {a : A} → Gives P (parsed a) → P a
Gives-parsed (given p) = p

-- a field that is parsed has a bit, that of its first element
FieldOf-first :
    (lo hi : ℕ) (fold_seven : Bool) (part : List ℕ) (parts : List (List ℕ)) (b : ℕ)
    → lo ≤ hi
    → Memᴰ part parts
    → FieldOf lo hi fold_seven parts 0 (parsed b)
    → (n : ℕ) × (has_bit b n ≡ true)
FieldOf-first lo hi fold_seven part parts b order listed (reads all bits) =
    let span = all part listed in
    let s = span.0 in
    let fine = IsWithin-some (subst (IsWithin lo hi) span.1 (span_of-IsWithin lo hi part order)) in
    let n = fold_day fold_seven s.start in
    (n, (bits n).1 (inr (Named-first lo hi fold_seven part s parts fine.1 span.1 listed)))

-- the bits of a field on their way through the parsing
field-Gives :
    (lo hi low high : ℕ) (fold_seven : Bool) (part : List ℕ) (parts : List (List ℕ))
    (r : CronParse ℕ)
    → lo ≤ hi
    → Memᴰ part parts
    → FieldOf lo hi fold_seven parts 0 r
    → ((n : ℕ) → Named lo hi fold_seven n parts → (low ≤ n) × (n ≤ high))
    → Gives (HasBitsIn low high) r
unfolding HasBitsIn
field-Gives lo hi low high fold_seven part parts (parsed b) order listed f all = given (
  FieldOf-first lo hi fold_seven part parts b order listed f,
  λ n set. all n (FieldOf-Named f n set),
)
field-Gives lo hi low high fold_seven part parts invalid order listed f all = is_invalid
field-Gives lo hi low high fold_seven part parts panics order listed f all = is_panic

number-Gives :
    (lo hi : ℕ) (field : List ℕ)
    → lo ≤ hi
    → Gives (HasBitsIn lo hi) (parse_cron_field lo hi false field)
number-Gives lo hi field order =
    let parts = split_by (λ c. c == 44) field in
    let first = split_by-first (λ c. c == 44) field in
    field-Gives lo hi lo hi false first.0 parts (parse_cron_field lo hi false field) order first.1
      (parse_cron_field-FieldOf lo hi false field order) λ n. Named-bounds lo hi n parts order

weekday-Gives : (field : List ℕ) → Gives (HasBitsIn 0 6) (parse_cron_field 0 7 true field)
weekday-Gives field =
    let parts = split_by (λ c. c == 44) field in
    let first = split_by-first (λ c. c == 44) field in
    field-Gives 0 7 0 6 true first.0 parts (parse_cron_field 0 7 true field) (omega arith) first.1
      (parse_cron_field-FieldOf 0 7 true field (omega arith))
      λ n named. (omega arith, Named-weekday n parts named)

-- each field of a schedule has a bit, and bits within its bounds only
unfoldable pub IsBounded : CronSchedule → Type 0
IsBounded s =
    HasBitsIn 0 59 s.minutes
    × HasBitsIn 0 23 s.hours
    × HasBitsIn 1 31 s.dom
    × HasBitsIn 1 12 s.months
    × HasBitsIn 0 6 s.dow

schedule_of-Gives : (words : List (List ℕ)) → Gives IsBounded (schedule_of words)
unfolding IsBounded
schedule_of-Gives (minute ∷ hour ∷ dom ∷ month ∷ dow ∷ []) =
    Gives->>= (parse_cron_field 0 59 false minute) _ (number-Gives 0 59 minute (omega arith))
      λ m m_in.
        Gives->>= (parse_cron_field 0 23 false hour) _ (number-Gives 0 23 hour (omega arith))
          λ h h_in.
            Gives->>= (parse_cron_field 1 31 false dom) _ (number-Gives 1 31 dom (omega arith))
              λ d d_in.
                Gives->>= (parse_cron_field 1 12 false month) _
                  (number-Gives 1 12 month (omega arith))
                  λ o o_in.
                    Gives->>= (parse_cron_field 0 7 true dow) _ (weekday-Gives dow)
                      λ w w_in. given (m_in, h_in, d_in, o_in, w_in)
schedule_of-Gives _ = is_invalid

-- If ParseCron returns a schedule, each of its fields has a number, its minutes are between 0 and 59,
-- its hours between 0 and 23, its days of the month between 1 and 31, its months between 1 and 12 and
-- its weekdays between 0 and 6.
pub parse_cron-IsBounded :
    (expr : String) (s : CronSchedule) → parse_cron expr ≡ parsed s → IsBounded s
unfolding parse_cron
parse_cron-IsBounded expr s returned =
    Gives-parsed (subst (Gives IsBounded) returned (schedule_of-Gives (fields (codes expr))))
