-- ===== src/Upgrade/State.antt =====
-- What scripts/upgrade_transaction.py reads and writes: the marker, the journals and the result,
-- with the calls of its backend in the order in which they were made.
use resilient_datacenter.Shared.{ℕ, String, Bool, true, false, Option, List, ◌∷◌}
use resilient_datacenter.Shared.Effects.{Out, ok, raised, M, Done}
use resilient_datacenter.Shared.Maintenance
use resilient_datacenter.Shared.Maintenance.{Fault}
use resilient_datacenter.Shared.Stored.{Stored, Marker}

-- journal['phase']
pub data Phase : Type 0 where
  preparing migrating committed rolled_back : Phase
  other_phase : String → Phase

-- journal['snapshot']. A time is in microseconds; `none` is a text that timestamp refuses.
pub record Snapshot : Type 0 where
  pub id : String
  pub captured_at : Option ℕ

-- PLAN_FIELDS
pub record Plan : Type 0 where
  pub source_owner : String
  pub target_owner : String
  pub source_hashes : List (String × String)

pub record Journal : Type 0 where
  pub schema_version : ℕ
  pub id : ℕ
  pub phase : Phase
  pub started_at : Option ℕ
  pub snapshot : Option Snapshot
  pub plan : Plan

-- result['state']
pub data Verdict : Type 0 where
  upgraded_service_verified previous_version_restored : Verdict
  other_verdict : String → Verdict

pub record Result : Type 0 where
  pub schema_version : ℕ
  pub transaction_id : ℕ
  pub state : Verdict
  pub snapshot : Option Snapshot
  pub completed_at : Option ℕ
  pub user_operation : String

-- The methods of the backend; `verify` carries its argument `original`.
pub data Operation : Type 0 where
  prepare quiesce snapshot stage isolate migrate restore_original publish clean freeze : Operation
  verify : Bool → Operation

-- A call of the backend, and whether it returned.
pub record Event : Type 0 where
  pub operation : Operation
  pub returned : Bool

-- `calls` are those since the transaction began, the latest first.
pub record Disk : Type 0 where
  pub marker : Stored Marker
  pub restore_pending : Bool
  pub journals : ℕ → Stored Journal
  pub result : Stored Result
  pub calls : List Event

abbrev pub World : Type 0 → Type 0
World H = Maintenance.World Disk Journal H

abbrev pub Action : Type 0 → Type 0 → Type 0
Action H A = M (World H) A

abbrev pub Call : Type 0 → Type 0 → Type 0
Call H A = Maintenance.Call Disk H A

-- What the transaction is given: the backend of scripts/upgrade_runtime.py, the check of a plan
-- against the catalogue, the directories, and the file system's faults.
pub record Env (H : Type 0) : Type 0 where
  pub disturb : H → Fault × H
  pub valid_plan : Plan → Bool
  pub directories : Call H Done
  pub new_id : H → ℕ
  pub now : H → ℕ
  pub backend : Operation → Journal → Call H Done
  pub take_snapshot : Journal → Call H Snapshot

abbrev pub returns : {A : Type 0} → Out A → Bool
returns (ok a) = true
returns (raised e) = false

abbrev pub noted : Operation → Bool → Disk → Disk
noted o r d = record d { calls = record { operation = o; returned = r } ∷ d.calls }

module _ {H A : Type 0} where
  -- A method of the backend. It may read what is on the disk, and it may raise.
  unfoldable pub ask : Operation → (Journal → Call H A) → Action H A
  ask o f w =
      let (r, h) = f w.memory w.disk w.host in
      (r, record w { disk = noted o (returns r) w.disk; host = h })
