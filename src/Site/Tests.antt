-- ===== src/Site/Tests.antt =====
-- A plan for a site with its settings, and what derive makes of it.
use resilient_datacenter.Shared.{ℕ, ◌+◌, ◌*◌, String, Bool, true, false, some, ◌≡◌, refl}
use resilient_datacenter.Shared.Apart.{All}
use resilient_datacenter.Shared.Texts.{parts}
use resilient_datacenter.Site.Addresses.{
  size, broadcast, within, usable_in, overlaps, subnet_of, strict,
}
use resilient_datacenter.Site.Plan.{
  Zone, Role, zone_of, Plan, domain, endpoint_ok, planned, networks_ok, vms_ok, domains_ok, valid,
  validate,
}
use resilient_datacenter.Site.Network.{
  Settings, local_source, host_rtc, NetworkPolicy, range_ok, clock_ok, reserved, management_ok,
  dhcp_ok, names_ok, interfaces_ok, settings_ok, policy_of, derive,
}
use resilient_datacenter.Site.Preview.{preview, preview_of}
use resilient_datacenter.Site.Placement.{Sound, validate-Sound}
use resilient_datacenter.Site.Isolation.{Contained, derive-Contained}
use resilient_datacenter.Site.Reservation.{Reserved, Managed, derive-Reserved}

abbrev third_octet : Zone → ℕ
third_octet Zone.management = 1
third_octet Zone.staff = 2
third_octet Zone.frontend = 3
third_octet Zone.applications = 4
third_octet Zone.partner = 5

abbrev bridge_name : Zone → String
bridge_name Zone.management = "vmbr1"
bridge_name Zone.staff = "vmbr2"
bridge_name Zone.frontend = "vmbr3"
bridge_name Zone.applications = "vmbr4"
bridge_name Zone.partner = "vmbr5"

-- 10.0.<zone>.<last>
abbrev address_in : Zone → ℕ → ℕ
address_in z last = 167772160 + (256 * third_octet z + last)

abbrev last_octet : Role → ℕ
last_octet Role.edge = 2
last_octet Role.dns = 3
last_octet Role.nginx = 4
last_octet Role.chat = 5
last_octet Role.files = 6
last_octet Role.partner = 7

abbrev pub site_plan : Plan
site_plan = record {
  schema_version = 1;
  site = "north";
  recovery_site = "south";
  proxmox = record {
    endpoint = some (record {
      has_space = false;
      scheme = "https";
      hostname = "pve.north.net";
      port = some 8006;
      credentials = false;
      path = "/";
      query = "";
      fragment = "";
    });
    node = "pve";
    storage = "local";
    wan_bridge = "vmbr0";
  };
  networks = λ z. record {
    cidr = some (record { base = address_in z 0; prefixlen = 24; suffix = "24" });
    bridge = bridge_name z;
    gateway = some (address_in z 1);
  };
  vms = λ r. record {
    id = 100 + last_octet r;
    cpu = 2;
    memory_mib = 4096;
    disk_gib = 40;
    address = some (address_in (zone_of r) (last_octet r));
  };
  domains = record {
    chat = "chat.north.net";
    element = "element.north.net";
    files = "files.north.net";
  };
  offline_days = 180;
  certificate_margin_days = 30;
}

abbrev site_settings : Settings
site_settings = record {
  schema_version = 1;
  administrator_address = some (address_in Zone.management 10);
  proxmox_address = some (address_in Zone.management 11);
  linux_interfaces = λ r. "ens18";
  dhcp_start = some (address_in Zone.staff 100);
  dhcp_end = some (address_in Zone.staff 200);
  clock = record { mode = local_source; source = some (some (address_in Zone.management 12)) };
}

run_valid : Plan → Bool
unfolding valid endpoint_ok domain parts networks_ok planned strict size subnet_of broadcast
    usable_in within overlaps vms_ok domains_ok
run_valid p = valid p

site_plan-valid : run_valid site_plan ≡ true
unfolding run_valid
site_plan-valid = refl

-- The files machine on the address of the DNS machine's zone is refused.
misplaced :
    run_valid (record site_plan {
      vms = λ r. record (site_plan.vms r) {
        address = some (address_in Zone.frontend (last_octet r));
      };
    })
    ≡ false
unfolding run_valid
misplaced = refl

run_settings : Plan → Settings → Bool
unfolding settings_ok management_ok dhcp_ok range_ok names_ok reserved interfaces_ok clock_ok
    usable_in within size broadcast
run_settings p s = settings_ok p s

site_settings-ok : run_settings site_plan site_settings ≡ true
unfolding run_settings
site_settings-ok = refl

-- A host with a hardware clock names no source.
idle_source :
    run_settings site_plan
      (record site_settings { clock = record { mode = host_rtc; source = some (some 1) } })
    ≡ false
unfolding run_settings
idle_source = refl

abbrev digest : {A : Type 0} → A → String
digest x = "digest"

abbrev site_policy : NetworkPolicy
site_policy = policy_of digest digest site_plan site_settings

derived : derive digest digest site_plan site_settings ≡ some site_policy
unfolding derive run_valid run_settings
derived = refl

coverage : (x : _) × (preview site_plan ≡ some x) × (x.required_certificate_coverage_days ≡ 210)
unfolding preview preview_of run_valid
coverage = (preview_of site_plan, refl, refl)

validate-Sound_example : (site_plan ≡ site_plan) × Sound site_plan
unfolding run_valid validate
validate-Sound_example = validate-Sound site_plan site_plan refl

derive-Contained_example : All (Contained site_plan site_settings) site_policy.rules
derive-Contained_example =
    derive-Contained digest digest site_plan site_settings site_policy derived

derive-Reserved_example :
    Reserved site_plan site_settings site_policy.dhcp.start site_policy.dhcp.end
    × Managed site_plan site_settings
    × (site_policy.dhcp.router ≡ (site_plan.networks Zone.staff).gateway)
    × (site_policy.dhcp.dns ≡ (site_plan.vms Role.dns).address)
derive-Reserved_example = derive-Reserved digest digest site_plan site_settings site_policy derived
