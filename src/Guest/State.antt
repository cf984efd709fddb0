-- ===== src/Guest/State.antt =====
-- The journal of a guest and what Proxmox shows of its machine, as scripts/guest_installation.py
-- reads them.
use Prim.Native.Char.{Char}
use resilient_datacenter.Shared.{String, Bool, Option, List}
use resilient_datacenter.Shared.Effects.{M, Done}
use resilient_datacenter.Shared.Maintenance
use resilient_datacenter.Shared.Maintenance.{Fault}
use resilient_datacenter.Shared.Stored.{Stored}

-- PHASES
pub data Phase : Type 0 where
  new attach_requested media_attached installer_start_requested finish_requested : Phase
  disk_ready disk_start_requested disk_boot_observed guest_installed_attested : Phase
  other_phase : String → Phase

pub data Power : Type 0 where
  running stopped other_power : Power

-- The fields of a journal. `none` is a field that is not there.
pub record Record : Type 0 where
  pub binding : String
  pub phase : Phase
  pub operator : Option String
  pub power : Option Power
  pub guest_os : Option String
  pub os_verification : Option String
  pub applications : Option String
  pub network_links : Option String
  pub boot_source : Option String
  pub notice : Option String

-- The configuration that Proxmox reports: the fields that an installation changes, and the others.
pub record Config (C : Type 0) : Type 0 where
  pub digest : String
  pub description : String
  pub ide2 : Option String
  pub boot : String
  pub others : C

pub record Change : Type 0 where
  pub ide2 : Option String
  pub boot : String
  pub description : String

-- What the code posts to Proxmox.
pub data Request : Type 0 where
  change : Change → String → Request
  start_installer start_disk : Request

-- `requests` are those that were posted for this guest, the latest first.
pub record Disk : Type 0 where
  pub journal : Stored Record
  pub requests : List Request

abbrev pub World : Type 0 → Type 0
World H = Maintenance.World Disk Unit H

abbrev pub Action : Type 0 → Type 0 → Type 0
Action H A = M (World H) A

abbrev pub Call : Type 0 → Type 0 → Type 0
Call H A = Maintenance.Call Disk H A

-- What the operations are given: the answers of Proxmox, of which each may raise, the machine that
-- the plan wants, and the file system's faults. `post` includes wait_task.
pub record Env (C H : Type 0) : Type 0 where
  pub disturb : H → Fault × H
  pub context : Call H Done
  pub lock : Call H Done
  pub binding : String
  pub volume : String
  pub wanted : Config C
  pub owned_others : C → C → Bool
  pub alphanumeric : Char → Bool
  pub get_config : Call H (Config C)
  pub get_power : Call H Power
  pub post : Request → Call H Done
