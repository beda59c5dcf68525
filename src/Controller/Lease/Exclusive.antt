-- ===== src/Controller/Lease/Exclusive.antt =====
-- At most one controller works on a store: a lease that has not expired is its owner's.
use proceed.Base.{
  ℕ, ◌+◌, ◌≤◌, ◌<◌, String, true, false, Option, none, some, ◌≡◌, ◌≢◌, ◌↔◌, refl, Result, ok, err,
  store_busy, lease_lost, str_eq_iff, str_eq_refl, arith,
}
use proceed.Controller.Lease.{
  Config, LeaseRow, own_row, acquire_lease, heartbeat, lease_valid, release_lease,
}

-- what a controller may do to the lease
pub data Act : Type 0 where
  acquires beats releases : Act

-- the row after an attempt: a refused one changes nothing
abbrev pub row_after : Option LeaseRow → Result (Option LeaseRow) → Option LeaseRow
row_after l (ok l') = l'
row_after l (err e) = l

pub attempt : Act → Config → ℕ → Option LeaseRow → Option LeaseRow
unfolding acquire_lease heartbeat release_lease
attempt acquires cfg now l = row_after l (acquire_lease cfg now l)
attempt beats cfg now l = row_after l (heartbeat cfg now l)
attempt releases cfg now l = release_lease cfg l

-- an interleaving of attempts by any controllers, in order
pub data Attempts (l : Option LeaseRow) : Option LeaseRow → Type 0 where
  here : Attempts l l
  next :
      {m : Option LeaseRow} (a : Act) (cfg : Config) (now : ℕ)
      → Attempts l m
      → Attempts l (attempt a cfg now m)

-- every attempt is by a controller with another owner id, and before the time
abbrev pub ByOthers : String → ℕ → {l m : Option LeaseRow} → Attempts l m → Type 0
ByOthers owner end here = Unit
ByOthers owner end (next a cfg now r) = (owner ≢ cfg.owner_id) × (now < end) × ByOthers owner end r

stays :
    (a : Act) (cfg : Config) (now : ℕ) (r : LeaseRow)
    → r.owner_id ≢ cfg.owner_id
    → now < r.lease_expires_at
    → attempt a cfg now (some r) ≡ some r
unfolding attempt
stays Act.acquires cfg now r other before = ground (arith, str_eq_iff r.owner_id cfg.owner_id)
stays Act.beats cfg now r other before = ground (arith, str_eq_iff r.owner_id cfg.owner_id)
stays Act.releases cfg now r other before = ground (arith, str_eq_iff r.owner_id cfg.owner_id)

-- While a lease has not expired, whatever other controllers attempt in whatever order, to acquire
-- it, to beat or to release it, the row stays exactly as it is.
pub Attempts-exclusive :
    (r : LeaseRow) {m : Option LeaseRow} (run : Attempts (some r) m)
    → ByOthers r.owner_id r.lease_expires_at run
    → m ≡ some r
Attempts-exclusive r here others = refl
Attempts-exclusive r (next a cfg now run) others =
    rw (Attempts-exclusive r run others.2) (stays a cfg now r others.0 others.1)

acquired-row :
    (cfg : Config) (now : ℕ) (l l' : Option LeaseRow)
    → acquire_lease cfg now l ≡ ok l'
    → l' ≡ some (own_row cfg now)
unfolding acquire_lease
acquired-row cfg now none l' h = ground arith
acquired-row cfg now (some r) l' h = ground arith

-- what a controller may count on once it has acquired the lease, and what any other meets
pub record Held (cfg : Config) (now : ℕ) (l : Option LeaseRow) : Type 0 where
  pub valid : (t : ℕ) → t < now + cfg.lease_ttl → lease_valid cfg t l ≡ true
  pub lapses : (t : ℕ) → now + cfg.lease_ttl ≤ t → lease_valid cfg t l ≡ false
  pub excludes :
      (other : Config) (t : ℕ)
      → cfg.owner_id ≢ other.owner_id
      → (lease_valid other t l ≡ false)
        × (heartbeat other t l ≡ err lease_lost)
        × (release_lease other l ≡ l)

-- An acquired lease is valid for its owner exactly until the time to live is over; and from then
-- on any other controller, one that it displaced included, finds its own lease invalid, loses its
-- next heartbeat and releases nothing.
pub acquire_lease-Held :
    (cfg : Config) (now : ℕ) (l l' : Option LeaseRow)
    → acquire_lease cfg now l ≡ ok l'
    → Held cfg now l'
unfolding lease_valid heartbeat release_lease
acquire_lease-Held cfg now l l' h =
    let won = acquired-row cfg now l l' h in
    record {
      valid = λ t before. ground (arith, won, str_eq_refl cfg.owner_id);
      lapses = λ t after. ground (arith, won, str_eq_refl cfg.owner_id);
      excludes = λ other t differ. (
        ground (arith, won, str_eq_iff cfg.owner_id other.owner_id),
        ground (arith, won, str_eq_iff cfg.owner_id other.owner_id),
        ground (arith, won, str_eq_iff cfg.owner_id other.owner_id),
      );
    }

-- A controller is refused the lease, with STORE_BUSY, exactly while another one's has not expired.
pub acquire_lease-refused :
    (cfg : Config) (now : ℕ) (r : LeaseRow)
    → (acquire_lease cfg now (some r) ≡ err store_busy)
      ↔ ((r.owner_id ≢ cfg.owner_id) × (now < r.lease_expires_at))
unfolding acquire_lease
acquire_lease-refused cfg now r = (
  λ h. (λ e. ground (arith, str_eq_iff r.owner_id cfg.owner_id), ground arith),
  λ (other, before). ground (arith, str_eq_iff r.owner_id cfg.owner_id),
)
