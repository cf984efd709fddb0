-- ===== src/Restore/State.antt =====
-- What scripts/restore_transaction.py reads and writes: the resources with their workspaces, the
-- pending marker, the journals and the restore evidence.
use resilient_datacenter.Shared.{ℕ, String, Bool, Option, List}
pub use resilient_datacenter.Shared.Stored.{Stored, absent, unsafe, holds, Marker, put}
use resilient_datacenter.Shared.Effects.{M}
use resilient_datacenter.Shared.Maintenance

-- journal['phase']
pub data Phase : Type 0 where
  preparing validating committed rolled_back : Phase
  other_phase : String → Phase

-- journal['source'], which older journals lack
pub record Source : Type 0 where
  pub captured_at : String
  pub snapshot_id : Option String

pub record Journal : Type 0 where
  pub schema_version : ℕ
  pub id : ℕ
  pub ownership : String
  pub paths : List String
  pub binary_sha256 : String
  pub original_active : List (String × Bool)
  pub phase : Phase
  pub runtime_state : String
  pub source : Option Source

-- var/lib/rdc-backup/restore-result.json
pub record Evidence : Type 0 where
  pub transaction_id : ℕ
  pub ownership : String
  pub source : Source
  pub completed_at : String
  pub binary_sha256 : String

-- The workspace of one resource: `.rdc-restore-<id>-<index>` with its entries `old` and `new`.
pub data Workspace (T : Type 0) : Type 0 where
  missing linked : Workspace T
  folder : Option T → Option T → Workspace T

-- A resource `root/name` and its workspace.
pub record Slot (T : Type 0) : Type 0 where
  pub target : Option T
  pub workspace : Workspace T

pub record Disk (T : Type 0) : Type 0 where
  pub slots : ℕ → Slot T
  pub marker : Stored Marker
  pub journals : ℕ → Stored Journal
  pub evidence : Stored Evidence

-- `memory` is the dictionary `journal` that apply, rollback and finish share, and `host` is what
-- lies outside the transaction: services, firewall, clock, and the faults of the file system.
abbrev pub World : Type 0 → Type 0 → Type 0
World T H = Maintenance.World (Disk T) Journal H

abbrev pub Action : Type 0 → Type 0 → Type 0 → Type 0
Action T H A = M (World T H) A

-- A call of the runtime: it may read the disk, it changes the host, and it may raise.
abbrev pub Call : Type 0 → Type 0 → Type 0 → Type 0
Call T H A = Maintenance.Call (Disk T) H A
