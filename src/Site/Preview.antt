-- ===== src/Site/Preview.antt =====
-- preview of scripts/portable_plan.py.
use resilient_datacenter.Shared.{
  ℕ, ◌+◌, String, Option, none, some, List, [], ◌∷◌, map, if◌then◌else◌,
}
use resilient_datacenter.Site.Addresses.{Literal}
use resilient_datacenter.Site.Plan.{
  Zone, Role, modules, zone_of, Proxmox, Network, Machine, Plan, valid,
}

pub data System : Type 0 where
  opnsense ubuntu_24_04 : System

pub record Proposal : Type 0 where
  pub role : Role
  pub zone : Zone
  pub system : System
  pub machine : Machine

-- The constant texts of state, deployment, verification and notice are not kept.
pub record Preview : Type 0 where
  pub site : String
  pub proxmox : Proxmox
  pub networks : Zone → Network
  pub vms : List Proposal
  pub dns_records : List (String × Literal)
  pub startup_groups : List (List Role)
  pub recovery_site : String
  pub required_certificate_coverage_days : ℕ

abbrev pub system_of : Role → System
system_of Role.edge = opnsense
system_of _ = ubuntu_24_04

unfoldable pub proposal : Plan → Role → Proposal
proposal p r = record { role = r; zone = zone_of r; system = system_of r; machine = p.vms r }

unfoldable pub preview_of : Plan → Preview
unfolding proposal
preview_of p = record {
  site = p.site;
  proxmox = p.proxmox;
  networks = p.networks;
  vms = map (proposal p) modules;
  dns_records =
      (p.domains.chat, (p.vms Role.nginx).address)
      ∷ (p.domains.element, (p.vms Role.nginx).address)
      ∷ (p.domains.files, (p.vms Role.nginx).address)
      ∷ [];
  startup_groups =
      (Role.edge ∷ [])
      ∷ (Role.dns ∷ [])
      ∷ (Role.chat ∷ Role.files ∷ [])
      ∷ (Role.nginx ∷ [])
      ∷ (Role.partner ∷ [])
      ∷ [];
  recovery_site = p.recovery_site;
  required_certificate_coverage_days = p.offline_days + p.certificate_margin_days;
}

unfoldable pub preview : Plan → Option Preview
preview p = if valid p then some (preview_of p) else none
