-- ===== src/Controller/Cron/Parse.antt =====
-- The parsing of a cron expression: ParseCron and parseCronField (internal/controller/cron.go), and
-- what they use of the packages strings and strconv. A text is the list of its characters' codes.
-- A result says whether the expression is refused or the parsing panics: the counter of the loop
-- wraps around at 2^63 to a negative number, by which a shift panics. Whether a field is "*", which
-- parseCronField returns too, is `is_star` of it.
use Prim.Native.Char.{code}
use Prim.Native.String.{String, ◌∷◌ as ◌∷ˢ◌}
use proceed.Base.{
  ℕ, zero, suc, ◌+◌, ◌-◌, ◌*◌, ◌/◌, ◌%◌, ◌^◌, Bool, true, false, ◌&&◌, ◌||◌, Option, none, some,
  List, [], ◌∷◌, ◌==◌, ltb, leb, if◌then◌else◌,
}
use proceed.Controller.Cron.{CronSchedule}

-- what ParseCron and parseCronField come to
pub data CronParse {ℓ} (A : Type ℓ) : Type ℓ where
  parsed : A → CronParse A
  invalid panics : CronParse A

infixl 5 ◌>>=◌
abbrev pub ◌>>=◌ {ℓ κ} : {A : Type ℓ} {B : Type κ} → CronParse A → (A → CronParse B) → CronParse B
parsed a >>= rest = rest a
invalid >>= rest = invalid
panics >>= rest = panics

abbrev pub codes : String → List ℕ
codes String.[] = []
codes (c ∷ˢ s) = code c ∷ codes s

-- unicode.IsSpace
abbrev pub is_space : ℕ → Bool
is_space c =
    leb 9 c && leb c 13
    || c == 32
    || c == 133
    || c == 160
    || c == 5760
    || leb 8192 c && leb c 8202
    || c == 8232
    || c == 8233
    || c == 8239
    || c == 8287
    || c == 12288

abbrev pub put_in_front : ℕ → List (List ℕ) → List (List ℕ)
put_in_front c [] = (c ∷ []) ∷ []
put_in_front c (word ∷ words) = (c ∷ word) ∷ words

-- strings.Split at the characters with a property
unfoldable pub split_by : (ℕ → Bool) → List ℕ → List (List ℕ)
split_by is_separator [] = [] ∷ []
split_by is_separator (c ∷ s) =
    let rest = split_by is_separator s in if is_separator c then [] ∷ rest else put_in_front c rest

abbrev pub filled : List (List ℕ) → List (List ℕ)
filled [] = []
filled ([] ∷ words) = filled words
filled ((c ∷ word) ∷ words) = (c ∷ word) ∷ filled words

-- strings.Fields
unfoldable pub fields : List ℕ → List (List ℕ)
fields s = filled (split_by is_space s)

-- strings.Cut at a character: what is before it, and what is after it if it is there
unfoldable pub cut : ℕ → List ℕ → List ℕ × Option (List ℕ)
cut separator [] = ([], none)
cut separator (c ∷ s) =
    let rest = cut separator s in if c == separator then ([], some s) else (c ∷ rest.0, rest.1)

unfoldable pub digits : ℕ → List ℕ → Option ℕ
digits n [] = some n
digits n (c ∷ s) =
    let rest = digits (n * 10 + (c - 48)) s in if leb 48 c && leb c 57 then rest else none

-- the first number that an int does not hold
unfoldable pub int_end : ℕ
int_end = 2 ^ 63

abbrev pub in_range : Option ℕ → Option ℕ
in_range none = none
in_range (some n) = if ltb n int_end then some n else none

abbrev pub negated : Option ℕ → Option ℕ
negated (some zero) = some zero
negated _ = none

-- the digits after a sign, of which there is one at least
abbrev pub magnitude : List ℕ → Option ℕ
magnitude [] = none
magnitude (c ∷ s) = in_range (digits 0 (c ∷ s))

-- strconv.Atoi; a negative number, which every caller refuses as it refuses an error, is none
unfoldable pub atoi : List ℕ → Option ℕ
atoi [] = none
atoi (c ∷ s) =
    if c == 43 then magnitude s else if c == 45 then negated (magnitude s) else magnitude (c ∷ s)

-- the numbers that an element of a field stands for
pub record Span : Type 0 where
  pub start : ℕ
  pub end : ℕ
  pub step : ℕ

-- `1` without a step, and a step of 1 at least
unfoldable pub step_of : Option (List ℕ) → Option ℕ
step_of none = some 1
step_of (some s) = elim (atoi s) [ none ↦ none | some v ↦ if ltb v 1 then none else some v ]

-- a number between two bounds
unfoldable pub value_in : ℕ → ℕ → List ℕ → Option ℕ
value_in lo hi s = elim (atoi s) [
  | none ↦ none
  | some a ↦ if ltb a lo || ltb hi a then none else some a
]

abbrev pub is_star : List ℕ → Bool
is_star (c ∷ []) = c == 42
is_star _ = false

-- the end of a range that starts at `a`
unfoldable pub end_of : ℕ → ℕ → ℕ → Option (List ℕ) → Option ℕ
end_of lo hi a none = some a
end_of lo hi a (some r) = elim (value_in lo hi r) [
  | none ↦ none
  | some b ↦ if ltb b a then none else some b
]

-- the switch on the range
unfoldable pub range_of : ℕ → ℕ → ℕ → List ℕ → Option Span
range_of lo hi step s =
    let parts = cut 45 s in
    if is_star s
    then some (record { start = lo; end = hi; step = step })
    else elim (value_in lo hi parts.0) [
      | none ↦ none
      | some a ↦ elim (end_of lo hi a parts.1) [
        | none ↦ none
        | some b ↦ some (record { start = a; end = b; step = step })
      ]
    ]

-- an element of a field
unfoldable pub span_of : ℕ → ℕ → List ℕ → Option Span
span_of lo hi part =
    let parts = cut 47 part in
    elim (step_of parts.1) [ none ↦ none | some step ↦ range_of lo hi step parts.0 ]

-- bits | 1 << n, bit by bit
unfoldable pub set_bit : ℕ → ℕ → ℕ
set_bit bits zero = bits / 2 * 2 + 1
set_bit bits (suc n) = set_bit (bits / 2) n * 2 + bits % 2

-- Sunday is 0 and 7
abbrev pub fold_day : Bool → ℕ → ℕ
fold_day fold_seven v = if fold_seven && v == 7 then 0 else v

-- the loop over a span, which has `left` turns to go
unfoldable pub mark : ℕ → Bool → ℕ → ℕ → ℕ → ℕ → CronParse ℕ
mark zero fold_seven step end v bits = parsed bits
mark (suc left) fold_seven step end v bits =
    let rest = mark left fold_seven step end (v + step) (set_bit bits (fold_day fold_seven v)) in
    if leb v end then (if ltb (v + step) int_end then rest else panics) else parsed bits

-- the loop over the elements of a field; a turn sets a bit, so that a span has no more turns than
-- numbers
unfoldable pub mark_parts : ℕ → ℕ → Bool → List (List ℕ) → ℕ → CronParse ℕ
mark_parts lo hi fold_seven [] bits = parsed bits
mark_parts lo hi fold_seven (part ∷ parts) bits = elim (span_of lo hi part) [
  | none ↦ invalid
  | some s ↦
      mark (s.end + 1 - s.start) fold_seven s.step s.end s.start bits
      >>= mark_parts lo hi fold_seven parts
]

-- parseCronField
unfoldable pub parse_cron_field : ℕ → ℕ → Bool → List ℕ → CronParse ℕ
parse_cron_field lo hi fold_seven field =
    mark_parts lo hi fold_seven (split_by (λ c. c == 44) field) 0

abbrev pub schedule_of : List (List ℕ) → CronParse CronSchedule
schedule_of (minute ∷ hour ∷ dom ∷ month ∷ dow ∷ []) =
    parse_cron_field 0 59 false minute >>= λ minutes. parse_cron_field 0 23 false hour >>= λ hours.
    parse_cron_field 1 31 false dom >>= λ days. parse_cron_field 1 12 false month >>= λ months.
    parse_cron_field 0 7 true dow >>= λ weekdays. parsed (record {
      minutes = minutes;
      hours = hours;
      dom = days;
      months = months;
      dow = weekdays;
      dom_star = is_star dom;
      dow_star = is_star dow;
    })
schedule_of _ = invalid

-- ParseCron
unfoldable pub parse_cron : String → CronParse CronSchedule
parse_cron expr = schedule_of (fields (codes expr))
