-- ===== src/Schedule/Stages.antt =====
-- The stages of an update of the backup runtime: what is on the disk between its operations.
use resilient_datacenter.Shared.{String, ◌≡◌, ◌⊎◌}
use resilient_datacenter.Shared.Stored.{absent, holds}
use resilient_datacenter.Schedule.State.{Intent, Disk}

-- The intent of an update from `old` to `desired`.
abbrev pub intent_of : String → String → Intent
intent_of old desired = record { schema_version = 1; previous = old; desired = desired }

-- No update has begun; a candidate may be there.
pub record AtRest (old : String) (d : Disk) : Type 0 where
  pub runtime : d.runtime ≡ holds old
  pub previous : d.previous ≡ absent
  pub marker : d.marker ≡ absent

-- The candidate is complete.
pub record Staged (old desired : String) (d : Disk) : Type 0 where
  pub runtime : d.runtime ≡ holds old
  pub previous : d.previous ≡ absent
  pub candidate : d.candidate ≡ holds desired
  pub marker : d.marker ≡ absent

pub record Announced (old desired : String) (d : Disk) : Type 0 where
  pub runtime : d.runtime ≡ holds old
  pub previous : d.previous ≡ absent
  pub candidate : d.candidate ≡ holds desired
  pub marker : d.marker ≡ holds (intent_of old desired)

-- Between the two renames: there is no runtime to run.
pub record SetAside (old desired : String) (d : Disk) : Type 0 where
  pub runtime : d.runtime ≡ absent
  pub previous : d.previous ≡ holds old
  pub candidate : d.candidate ≡ holds desired
  pub marker : d.marker ≡ holds (intent_of old desired)

pub record InPlace (old desired : String) (d : Disk) : Type 0 where
  pub runtime : d.runtime ≡ holds desired
  pub previous : d.previous ≡ holds old
  pub candidate : d.candidate ≡ absent
  pub marker : d.marker ≡ holds (intent_of old desired)

pub record Finished (old desired : String) (d : Disk) : Type 0 where
  pub runtime : d.runtime ≡ holds desired
  pub previous : d.previous ≡ holds old
  pub candidate : d.candidate ≡ absent
  pub marker : d.marker ≡ absent

abbrev pub Underway : String → String → Disk → Type 0
Underway old desired d = Announced old desired d ⊎ (SetAside old desired d ⊎ InPlace old desired d)

abbrev pub Consistent : String → String → Disk → Type 0
Consistent old desired d = AtRest old d ⊎ (Underway old desired d ⊎ Finished old desired d)

Staged-AtRest : (old desired : String) (d : Disk) → Staged old desired d → AtRest old d
Staged-AtRest old desired d s = record {
  runtime = s.runtime;
  previous = s.previous;
  marker = s.marker;
}
