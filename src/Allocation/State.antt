-- ===== src/Allocation/State.antt =====
-- payloads of scripts/proxmox_provision.py, and what Proxmox answers.
use Prim.Native.String.{[] as no_text, ◌∷◌ as onto, ◌++◌ as append}
use resilient_datacenter.Shared.{ℕ, suc, zero, String, Bool, Option, List, [], ◌∷◌, map}
use resilient_datacenter.Shared.Effects.{Out, M}
use resilient_datacenter.Shared.Maintenance
use resilient_datacenter.Site.Plan.{Role, zones, modules, zone_of, Plan}

abbrev pub role_text : Role → String
role_text Role.edge = "edge"
role_text Role.dns = "dns"
role_text Role.nginx = "nginx"
role_text Role.chat = "chat"
role_text Role.files = "files"
role_text Role.partner = "partner"

-- s[:n]
unfoldable pub first_chars : ℕ → String → String
first_chars zero s = no_text
first_chars (suc n) no_text = no_text
first_chars (suc n) (onto c s) = onto c (first_chars n s)

-- The fields of a payload that depend on the plan; `bridges` are those of net0, net1 and so on.
pub record Wanted : Type 0 where
  pub vmid : ℕ
  pub name : String
  pub description : String
  pub cores : ℕ
  pub memory : ℕ
  pub ostype : String
  pub storage : String
  pub disk_gib : ℕ
  pub bridges : List String

abbrev pub ostype_of : Role → String
ostype_of Role.edge = "other"
ostype_of _ = "l26"

abbrev pub bridges_of : Plan → Role → List String
bridges_of p Role.edge = p.proxmox.wan_bridge ∷ map (λ z. (p.networks z).bridge) zones
bridges_of p r = (p.networks (zone_of r)).bridge ∷ []

-- SHA-256 of the plan's JSON is a parameter.
unfoldable pub payload : (Plan → String) → Plan → Role → Wanted
payload digest p r = record {
  vmid = (p.vms r).id;
  name = append "rdc-" (append (first_chars 40 p.site) (append "-" (role_text r)));
  description = append "rdc-portable-shell-v1:" (append (digest p) (append ":" (role_text r)));
  cores = (p.vms r).cpu;
  memory = (p.vms r).memory_mib;
  ostype = ostype_of r;
  storage = p.proxmox.storage;
  disk_gib = (p.vms r).disk_gib;
  bridges = bridges_of p r;
}

-- payloads, for a plan that is valid
unfoldable pub payloads : (Plan → String) → Plan → List Wanted
payloads digest p = map (payload digest p) modules

-- The answers of Proxmox; a value of the wrong type is `none`.
pub record Bridge : Type 0 where
  pub iface : String
  pub is_bridge : Bool
  pub is_active : Bool
  pub has_address : Bool

pub record Resource : Type 0 where
  pub vmid : ℕ
  pub node : String
  pub is_qemu : Bool

pub record Config (C : Type 0) : Type 0 where
  pub description : String
  pub is_locked : Bool
  pub others : C

pub record Storage : Type 0 where
  pub is_active : Bool
  pub is_enabled : Bool
  pub has_images : Bool
  pub is_supported : Bool
  pub available : Option ℕ

pub data Task : Type 0 where
  task_running : Task
  task_stopped : Bool → Task
  other_task : Task

-- A creation that is posted, with the identifiers that the listing before it has shown.
pub record Creation : Type 0 where
  pub wanted : Wanted
  pub listed : List ℕ

-- The listings of machines that were read and the creations that were posted, the latest first.
pub record Disk : Type 0 where
  pub listings : List (List ℕ)
  pub posted : List Creation

abbrev pub World : Type 0 → Type 0
World H = Maintenance.World Disk Unit H

abbrev pub Action : Type 0 → Type 0 → Type 0
Action H A = M (World H) A

-- Proxmox, the clock in seconds, and the comparison of owned beyond description and lock.
pub record Env (C H : Type 0) : Type 0 where
  pub digest : Plan → String
  pub is_version_nine : String → Bool
  pub get_version : H → Out (Option String) × H
  pub get_bridges : H → Out (Option (List Bridge)) × H
  pub get_resources : H → Out (Option (List Resource)) × H
  pub get_config : ℕ → H → Out (Option (Config C)) × H
  pub get_is_stopped : ℕ → H → Out Bool × H
  pub get_storage : H → Out (Option Storage) × H
  pub get_free_memory : H → Out (Option ℕ) × H
  pub create : Wanted → H → Out (Option String) × H
  pub get_task : String → H → Out (Option Task) × H
  pub owned_others : Wanted → C → Bool
  pub clock : H → ℕ
  pub sleep : H → H
