-- ===== src/Store/Schedules/Ticks.antt =====
-- The loop that skips ticks: it ends at the first tick after now, and counts those before.
use proceed.Base.{
  ℕ, zero, suc, ◌+◌, ◌≤◌, ◌<◌, String, some, ◌≡◌, refl, sym, subst, ok, ltb, Bool-cases, inl, inr,
  Ensures, Ensures-at, Ensures-bind, Ensures-if, Ensures-map, holds, fails, arith,
}
use proceed.Store.Schedules.Fire.{CronNext, next_tick, Skip, skip_ticks, tick_fuel}

-- the n ticks after a time, the last of them at another
pub data Ticks (next : CronNext) (cron : String) : ℕ → ℕ → ℕ → Type 0 where
  none_yet : {from : ℕ} → Ticks next cron from 0 from
  one_more :
      {from n to : ℕ} (at : ℕ)
      → next cron from ≡ ok (some at)
      → Ticks next cron at n to
      → Ticks next cron from (suc n) to

-- where the loop stands when it has skipped from s to k
pub record Skips (next : CronNext) (cron : String) (now : ℕ) (s k : Skip) : Type 0 where
  pub count : ℕ
  pub skipped : k.skipped ≡ s.skipped + count
  pub ticks : Ticks next cron s.cur count k.last
  pub due : k.last ≤ now
  pub found : next cron k.last ≡ ok (some k.cur)
  pub later : now < k.cur

-- every time has a tick after it
abbrev pub IsForward : CronNext → String → Type 0
IsForward next cron = (t : ℕ) → (n : ℕ) × (next cron t ≡ ok (some n)) × (t < n)

next_tick-ok :
    (next : CronNext) (cron : String) (t n : ℕ)
    → next_tick next cron t ≡ ok n
    → next cron t ≡ ok (some n)
unfolding next_tick
next_tick-ok next cron t n h = ground arith

pub skip_ticks-Skips :
    (fuel : ℕ) (next : CronNext) (cron : String) (now : ℕ) (s : Skip)
    → s.last ≡ s.cur
    → s.cur ≤ now
    → Ensures (Skips next cron now s) (skip_ticks fuel next cron now s)
unfolding skip_ticks
skip_ticks-Skips zero next cron now s same due = fails
skip_ticks-Skips (suc fuel) next cron now s same due =
    Ensures-bind (next_tick next cron s.cur) _ λ n found.
      let at = next_tick-ok next cron s.cur n found in
      Ensures-if (ltb now n)
        (λ after. holds (record {
          count = 0;
          skipped = omega arith;
          ticks = subst (Ticks next cron s.cur 0) (sym same) none_yet;
          due = ground (arith, same);
          found = subst (λ t. next cron t ≡ ok (some n)) (sym same) at;
          later = ground arith;
        }))
        λ before.
          Ensures-map
            (λ k r. record {
              count = suc r.count;
              skipped = ground (arith, r.skipped);
              ticks = one_more n at r.ticks;
              due = r.due;
              found = r.found;
              later = r.later;
            })
            (skip_ticks-Skips fuel next cron now
              (record { cur = n; last = n; skipped = s.skipped + 1 }) refl (ground arith))

-- enough fuel
skip_ticks-fuel :
    (fuel : ℕ) (next : CronNext) (cron : String) (now : ℕ) (s : Skip)
    → IsForward next cron
    → s.cur ≤ now
    → now < s.cur + fuel
    → (k : Skip) × (skip_ticks fuel next cron now s ≡ ok k)
unfolding skip_ticks next_tick
skip_ticks-fuel zero next cron now s forward due enough = absurd (omega arith)
skip_ticks-fuel (suc fuel) next cron now s forward due enough =
    let (n, found, after) = forward s.cur in
    elim (Bool-cases (ltb now n)) [
      | inl past ↦ (record s { cur = n }, ground (arith, found))
      | inr before ↦
          let (k, rest) =
            skip_ticks-fuel fuel next cron now
              (record { cur = n; last = n; skipped = s.skipped + 1 }) forward (ground arith)
              (ground arith) in
          (k, ground (arith, found, rest))
    ]

-- If every time has a later tick and the first tick is due, the loop that skips ticks ends: it
-- counts, with the first, exactly the ticks up to the last that is due, and finds the one after it,
-- which is not due.
pub skip_ticks_total :
    (next : CronNext) (cron : String) (now first : ℕ)
    → IsForward next cron
    → first ≤ now
    → (k : Skip) × (skip_ticks
          (tick_fuel now)
          next
          cron
          now
          (record { cur = first; last = first; skipped = 1 })
        ≡ ok k)
      × Skips next cron now (record { cur = first; last = first; skipped = 1 }) k
skip_ticks_total next cron now first forward due =
    let s : Skip = record { cur = first; last = first; skipped = 1 } in
    let (k, ended) = skip_ticks-fuel (tick_fuel now) next cron now s forward due (omega arith) in
    (k, ended, Ensures-at (skip_ticks-Skips (tick_fuel now) next cron now s refl due) ended)
