-- ===== src/Controller/Lease.antt =====
-- The controller's lease, the one row of controller_lease (internal/controller/controller.go).
-- Each operation is one transaction at a reading `now` of the clock, in milliseconds, by a
-- controller with an owner id, a mode and a time to live.
pub mod Exclusive
use proceed.Base.{
  ℕ, ◌+◌, String, Bool, Option, none, some, Result, ok, err, store_busy, lease_lost, str_eq, leb,
  ltb, ◌&&◌, if◌then◌else◌,
}

pub data Mode : Type 0 where
  run serve : Mode

pub record Config : Type 0 where
  pub owner_id : String
  pub mode : Mode
  pub lease_ttl : ℕ

pub record LeaseRow : Type 0 where
  pub owner_id : String
  pub mode : Mode
  pub heartbeat_at : ℕ
  pub lease_expires_at : ℕ

-- the row that a controller writes
abbrev pub own_row : Config → ℕ → LeaseRow
own_row cfg now = record {
  owner_id = cfg.owner_id;
  mode = cfg.mode;
  heartbeat_at = now;
  lease_expires_at = now + cfg.lease_ttl;
}

-- acquireLease
unfoldable pub acquire_lease : Config → ℕ → Option LeaseRow → Result (Option LeaseRow)
acquire_lease cfg now none = ok (some (own_row cfg now))
acquire_lease cfg now (some l) =
    if str_eq l.owner_id cfg.owner_id
    then ok (some (own_row cfg now))
    else if leb l.lease_expires_at now
    then ok (some (own_row cfg now))
    else err store_busy

-- heartbeat: the update touches no row of another owner
unfoldable pub heartbeat : Config → ℕ → Option LeaseRow → Result (Option LeaseRow)
heartbeat cfg now none = err lease_lost
heartbeat cfg now (some l) =
    if str_eq l.owner_id cfg.owner_id
    then ok (some (record l { heartbeat_at = now; lease_expires_at = now + cfg.lease_ttl }))
    else err lease_lost

-- leaseValid
unfoldable pub lease_valid : Config → ℕ → Option LeaseRow → Bool
lease_valid cfg now none = Bool.false
lease_valid cfg now (some l) = str_eq l.owner_id cfg.owner_id && ltb now l.lease_expires_at

-- releaseLease
unfoldable pub release_lease : Config → Option LeaseRow → Option LeaseRow
release_lease cfg none = none
release_lease cfg (some l) = if str_eq l.owner_id cfg.owner_id then none else some l
