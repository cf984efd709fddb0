-- ===== src/Schedule/State.antt =====
-- The directories of the backup runtime, and record_attempt and overdue of scripts/backup_schedule.py.
use resilient_datacenter.Shared.{
  ℕ, ◌+◌, String, Bool, true, false, ◌&&◌, ◌==◌, ltb, Option, none, some, if◌then◌else◌,
}
use resilient_datacenter.Shared.Effects.{M}
use resilient_datacenter.Shared.Maintenance
use resilient_datacenter.Shared.Maintenance.{Fault, file_op}
use resilient_datacenter.Shared.Stored.{Stored, absent, unsafe, holds}

-- runtime-update.json; a manifest is the text of its file names with their digests.
pub record Intent : Type 0 where
  pub schema_version : ℕ
  pub previous : String
  pub desired : String

-- A directory that verify_runtime accepts holds the manifest of its files; an incomplete or changed
-- one is unsafe.
pub record Disk : Type 0 where
  pub runtime : Stored String
  pub previous : Stored String
  pub candidate : Stored String
  pub marker : Stored Intent

abbrev pub World : Type 0 → Type 0
World H = Maintenance.World Disk Unit H

abbrev pub Action : Type 0 → Type 0 → Type 0
Action H A = M (World H) A

pub record Env (H : Type 0) : Type 0 where
  pub disturb : H → Fault × H

-- path.exists() or path.is_symlink()
abbrev pub is_present : {A : Type 0} → Stored A → Bool
is_present absent = false
is_present unsafe = true
is_present (holds a) = true

pub data Frequency : Type 0 where
  hourly daily other_frequency : Frequency

pub record Snapshot : Type 0 where
  pub finished_at : String
  pub snapshot_id : String

pub record Attempts : Type 0 where
  pub schema_version : ℕ
  pub last_success : Option Snapshot
  pub last_finished_at : String
  pub last_succeeded : Bool

-- A result of backup_now: whether its state is snapshot-created, and its snapshot.
pub record Created : Type 0 where
  pub is_created : Bool
  pub snapshot_id : String

abbrev pub earlier : Stored Attempts → Option (Option Snapshot)
earlier absent = some none
earlier unsafe = none
earlier (holds a) = if a.schema_version == 1 then some a.last_success else none

-- SNAPSHOT.fullmatch is a parameter of the transport.
unfoldable pub attempted :
    (String → Bool) → Option Snapshot → Option Created → String → Option Attempts
attempted is_snapshot last none now = some (record {
  schema_version = 1;
  last_success = last;
  last_finished_at = now;
  last_succeeded = false;
})
attempted is_snapshot last (some r) now =
    if r.is_created && is_snapshot r.snapshot_id
    then some (record {
      schema_version = 1;
      last_success = some (record { finished_at = now; snapshot_id = r.snapshot_id });
      last_finished_at = now;
      last_succeeded = true;
    })
    else none

abbrev pub attempted_after :
    (String → Bool) → Option (Option Snapshot) → Option Created → String → Option Attempts
attempted_after is_snapshot none result now = none
attempted_after is_snapshot (some last) result now = attempted is_snapshot last result now

-- What record_attempt writes, where it does not raise.
unfoldable pub record_attempt :
    (String → Bool) → Stored Attempts → Option Created → String → Option Attempts
unfolding attempted
record_attempt is_snapshot stored result now =
    attempted_after is_snapshot (earlier stored) result now

abbrev pub period : Frequency → Option ℕ
period hourly = some 3600
period daily = some 86400
period other_frequency = none

abbrev pub is_late : Option ℕ → ℕ → Bool
is_late none limit = true
is_late (some age) limit = ltb limit age

abbrev pub overdue_after : Option ℕ → Option ℕ → Option Bool
overdue_after none age = none
overdue_after (some seconds) age = some (is_late age (seconds + 1800))

-- `none` where the frequency is refused
unfoldable pub overdue : Frequency → Option ℕ → Option Bool
overdue frequency age = overdue_after (period frequency) age
