-- ===== src/Controller/Cron/Search.antt =====
-- The search finds the first tick, and the store is handed later ones only.
use proceed.Base.{
  ℕ, zero, suc, ◌+◌, ◌*◌, ◌/◌, ◌≤◌, ◌<◌, Bool, true, false, Option, none, some, ◌≡◌, inl, inr, ok,
  subst, ◌==◌, Bool-cases, Option-cases, arith,
}
use proceed.Controller.Cron.{
  CronSchedule, Clock, matches, cron_search_bound, search, next_minute, cron_next,
}

-- the first number with p from `from` to before `end`, or that there is none
pub data FirstOf (p : ℕ → Bool) (from end : ℕ) : Option ℕ → Type 0 where
  first :
      {t : ℕ}
      → from ≤ t
      → t < end
      → p t ≡ true
      → ((u : ℕ) → from ≤ u → u < t → p u ≡ false)
      → FirstOf p from end (some t)
  never : ((u : ℕ) → from ≤ u → u < end → p u ≡ false) → FirstOf p from end none

-- one number more in front
FirstOf-before :
    (p : ℕ → Bool) (from end : ℕ) (o : Option ℕ)
    → p from ≡ false
    → FirstOf p (from + 1) end o
    → FirstOf p from end o
FirstOf-before p from end (some t) skip (first ge lt hits least) =
    first (omega arith) lt hits λ u low high. elim (Bool-cases (u == from)) [
      | inl same ↦ ground arith
      | inr other ↦ least u (ground arith) high
    ]
FirstOf-before p from end none skip (never none_there) = never λ u low high.
    elim (Bool-cases (u == from)) [
      | inl same ↦ ground arith
      | inr other ↦ none_there u (ground arith) high
    ]

FirstOf-some :
    {p : ℕ → Bool} {from end t : ℕ}
    → FirstOf p from end (some t)
    → (from ≤ t) × (p t ≡ true) × ((u : ℕ) → from ≤ u → u < t → p u ≡ false)
FirstOf-some (first ge lt hits least) = (ge, hits, least)

search-FirstOf :
    (left : ℕ) (p : ℕ → Bool) (cur : ℕ) → FirstOf p cur (cur + left) (search left p cur)
unfolding search
search-FirstOf zero p cur = never λ u low high. absurd (omega arith)
search-FirstOf (suc left) p cur = elim (Bool-cases (p cur)) [
  | inl here ↦ rw here (first (omega arith) (omega arith) here λ u low high. absurd (omega arith))
  | inr later ↦ rw later (
      FirstOf-before p cur (cur + suc left) (search left p (cur + 1)) later (
        subst (λ e. FirstOf p (cur + 1) e (search left p (cur + 1))) (omega arith)
          (search-FirstOf left p (cur + 1))))
]

-- Next finds the first minute after a time that the expression matches, if there is one within
-- the bound of the search, and says that there is none otherwise.
pub next_minute-FirstOf :
    (utc : ℕ → Clock) (s : CronSchedule) (after : ℕ)
    → FirstOf
        (matches utc s)
        (after / 60000 + 1)
        (after / 60000 + 1 + cron_search_bound)
        (next_minute utc s after)
unfolding next_minute
next_minute-FirstOf utc s after =
    search-FirstOf cron_search_bound (matches utc s) (after / 60000 + 1)

-- A tick that the store is handed is a whole minute that the expression matches, comes after the
-- time asked for, and no whole minute between the two matches.
pub cron_next_later :
    (utc : ℕ → Clock) (s : CronSchedule) (after n : ℕ)
    → cron_next utc s after ≡ ok (some n)
    → (after < n)
      × (t : ℕ) × (n ≡ t * 60000)
      × (matches utc s t ≡ true)
      × ((u : ℕ) → after < u * 60000 → u < t → matches utc s u ≡ false)
unfolding cron_next
cron_next_later utc s after n found = elim (Option-cases (next_minute utc s after)) [
  | inl missing ↦ absurd (ground (arith, missing))
  | inr (t, hit) ↦
      let (ge, hits, least) = FirstOf-some (
        subst (FirstOf (matches utc s) (after / 60000 + 1) (after / 60000 + 1 + cron_search_bound))
          hit (next_minute-FirstOf utc s after)) in
      let at : n ≡ t * 60000 = ground (arith, hit) in
      (omega (arith, at, ge), t, at, hits, λ u late early. least u (omega arith) early)
]
