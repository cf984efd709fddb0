-- ===== src/Site/Network.antt =====
-- derive of scripts/portable_network.py.
use resilient_datacenter.Shared.{
  ℕ, String, Bool, true, false, not, ◌&&◌, ◌||◌, leb, ◌==◌, str_eq, Option, none, some, List, [],
  ◌∷◌, ◌++◌, map, any, all, if◌then◌else◌,
}
use Prim.Native.String
use Prim.Native.Char.{Char}
use resilient_datacenter.Shared.Texts.{lower, digit, all_chars, ends_with}
use resilient_datacenter.Site.Addresses.{Literal, Cidr}
use resilient_datacenter.Site.Plan.{
  Zone, Role, zones, modules, Domains, Plan, valid, has_literal, in_zone, gateways,
}

-- LINUX_ROLES
abbrev pub linux_roles : List Role
linux_roles = Role.dns ∷ Role.nginx ∷ Role.chat ∷ Role.files ∷ Role.partner ∷ []

pub data Mode : Type 0 where
  host_rtc local_source unknown_mode : Mode

-- `source` is `none` for the value null.
pub record Clock : Type 0 where
  pub mode : Mode
  pub source : Option Literal

pub record Settings : Type 0 where
  pub schema_version : ℕ
  pub administrator_address : Literal
  pub proxmox_address : Literal
  pub linux_interfaces : Role → String
  pub dhcp_start : Literal
  pub dhcp_end : Literal
  pub clock : Clock

pub data Protocol : Type 0 where
  tcp udp tcp_udp : Protocol

-- A rule's source is the network of a zone or one address.
pub data Source : Type 0 where
  network : Option Cidr → Source
  host : Literal → Source

pub data Purpose : Type 0 where
  local_dns local_time frontend_https edge_administration independent_clock : Purpose
  ssh_administration : Role → Purpose

pub record Rule : Type 0 where
  pub interface : Zone
  pub source : Source
  pub destination : Literal
  pub protocol : Protocol
  pub port : ℕ
  pub purpose : Purpose

-- An address with the suffix of its subnet's text, on the device `vtnet<device>`.
pub record Interface : Type 0 where
  pub zone : Zone
  pub device : ℕ
  pub address : Literal
  pub suffix : Option String
  pub bridge : String

pub record Dhcp : Type 0 where
  pub start : Literal
  pub end : Literal
  pub router : Literal
  pub dns : Literal
  pub ntp : Literal

pub record NetworkPolicy : Type 0 where
  pub site_sha256 : String
  pub settings_sha256 : String
  pub wan_bridge : String
  pub edge_interfaces : List Interface
  pub rules : List Rule
  pub dns_records : List (String × Literal)
  pub dhcp : Dhcp
  pub clock : Clock
  pub utc_verified : Bool
  pub network_verified : Bool

abbrev pub planned_addresses : Plan → List Literal
planned_addresses p = map (λ r. (p.vms r).address) modules ++ gateways p

abbrev pub interface_char : Char → Bool
interface_char c = lower c || digit c

-- re.fullmatch('[a-z][a-z0-9]{0,14}', s) and s != 'lo'
abbrev pub interface_name : String → Bool
interface_name String.[] = false
interface_name (String.◌∷◌ c s) =
    lower c
    && leb (String.count s) 14
    && all_chars interface_char s
    && not (str_eq (String.◌∷◌ c s) "lo")

-- start <= address <= end
abbrev pub between : ℕ → ℕ → Literal → Bool
between start end none = false
between start end (some a) = leb start a && leb a end

unfoldable pub range_ok : Literal → Literal → List Literal → Bool
range_ok none e occupied = false
range_ok s none occupied = false
range_ok (some s) (some e) occupied = leb s e && not (any (between s e) occupied)

unfoldable pub clock_ok : Clock → Option Cidr → List Literal → Bool
clock_ok c management occupied = elim c.mode [
  | host_rtc ↦ elim c.source [ none ↦ true | some a ↦ false ]
  | local_source ↦ elim c.source [
    | none ↦ false
    | some a ↦ in_zone a management && not (has_literal a occupied)
  ]
  | unknown_mode ↦ false
]

abbrev pub below : String → String → Bool
below a b = not (str_eq a b) && ends_with (String.◌∷◌ "." b) a

abbrev pub nested : List String → Bool
nested domains = any (λ a. any (below a) domains) domains

unfoldable pub reserved : String → Bool
reserved name =
    ends_with ".localhost" name
    || ends_with ".local" name
    || ends_with ".invalid" name
    || str_eq name "localhost"

abbrev pub hosts : Domains → List String
hosts d = d.chat ∷ d.element ∷ d.files ∷ []

-- The loop over the two management addresses.
unfoldable pub management_ok : Plan → Settings → Bool
management_ok p s =
    in_zone s.administrator_address (p.networks Zone.management).cidr
    && not (has_literal s.administrator_address (planned_addresses p))
    && in_zone s.proxmox_address (p.networks Zone.management).cidr
    && not (has_literal s.proxmox_address (s.administrator_address ∷ planned_addresses p))

-- `occupied` after that loop
abbrev pub static_addresses : Plan → Settings → List Literal
static_addresses p s = s.proxmox_address ∷ s.administrator_address ∷ planned_addresses p

unfoldable pub dhcp_ok : Plan → Settings → Bool
dhcp_ok p s =
    in_zone s.dhcp_start (p.networks Zone.staff).cidr
    && in_zone s.dhcp_end (p.networks Zone.staff).cidr
    && range_ok s.dhcp_start s.dhcp_end (static_addresses p s)

unfoldable pub names_ok : Domains → Bool
unfolding reserved
names_ok d = not (nested (hosts d)) && not (any reserved (hosts d))

unfoldable pub interfaces_ok : Settings → Bool
interfaces_ok s = all (λ r. interface_name (s.linux_interfaces r)) linux_roles

-- whether the tests of derive pass on a valid plan
unfoldable pub settings_ok : Plan → Settings → Bool
settings_ok p s =
    s.schema_version == 1
    && management_ok p s
    && interfaces_ok s
    && dhcp_ok p s
    && clock_ok s.clock (p.networks Zone.management).cidr (static_addresses p s)
    && names_ok p.domains

-- the calls of allow
unfoldable pub zone_rules : Plan → Zone → List Rule
zone_rules p z =
    record {
      interface = z;
      source = network (p.networks z).cidr;
      destination = (p.vms Role.dns).address;
      protocol = tcp_udp;
      port = 53;
      purpose = local_dns;
    }
    ∷ record {
      interface = z;
      source = network (p.networks z).cidr;
      destination = (p.vms Role.dns).address;
      protocol = udp;
      port = 123;
      purpose = local_time;
    }
    ∷ []

abbrev pub ssh_rule : Plan → Settings → Role → Rule
ssh_rule p s r = record {
  interface = Zone.management;
  source = host s.administrator_address;
  destination = (p.vms r).address;
  protocol = tcp;
  port = 22;
  purpose = ssh_administration r;
}

unfoldable pub clock_rules : Plan → Clock → List Rule
clock_rules p c = elim c.mode [
  | host_rtc ↦ []
  | unknown_mode ↦ []
  | local_source ↦
      record {
        interface = Zone.frontend;
        source = host (p.vms Role.dns).address;
        destination = elim c.source [ none ↦ none | some a ↦ a ];
        protocol = udp;
        port = 123;
        purpose = independent_clock;
      }
      ∷ []
]

abbrev pub zones_rules : Plan → List Zone → List Rule
zones_rules p [] = []
zones_rules p (z ∷ zs) = zone_rules p z ++ zones_rules p zs

-- the calls after the loop over the zones
abbrev pub single_rules : Plan → Settings → List Rule
single_rules p s =
    record {
      interface = Zone.staff;
      source = network (p.networks Zone.staff).cidr;
      destination = (p.vms Role.nginx).address;
      protocol = tcp;
      port = 443;
      purpose = frontend_https;
    }
    ∷ record {
      interface = Zone.management;
      source = host s.administrator_address;
      destination = (p.vms Role.edge).address;
      protocol = tcp;
      port = 443;
      purpose = edge_administration;
    }
    ∷ (map (ssh_rule p s) linux_roles ++ clock_rules p s.clock)

unfoldable pub rules_of : Plan → Settings → List Rule
unfolding zone_rules clock_rules
rules_of p s = zones_rules p zones ++ single_rules p s

abbrev pub suffix_of : Option Cidr → Option String
suffix_of none = none
suffix_of (some c) = some c.suffix

unfoldable pub edge_interface : Plan → ℕ → Zone → Interface
edge_interface p device z = record {
  zone = z;
  device = device;
  address = elim z [
    | Zone.management ↦ (p.vms Role.edge).address
    | Zone.staff ↦ (p.networks Zone.staff).gateway
    | Zone.frontend ↦ (p.networks Zone.frontend).gateway
    | Zone.applications ↦ (p.networks Zone.applications).gateway
    | Zone.partner ↦ (p.networks Zone.partner).gateway
  ];
  suffix = suffix_of (p.networks z).cidr;
  bridge = (p.networks z).bridge;
}

-- The fingerprints are those of hashlib over json.dumps.
module _ (site_sha256 : Plan → String) (settings_sha256 : Settings → String) where
  unfoldable pub policy_of : Plan → Settings → NetworkPolicy
  policy_of p s = record {
    site_sha256 = site_sha256 p;
    settings_sha256 = settings_sha256 s;
    wan_bridge = p.proxmox.wan_bridge;
    edge_interfaces =
        edge_interface p 1 Zone.management
        ∷ edge_interface p 2 Zone.staff
        ∷ edge_interface p 3 Zone.frontend
        ∷ edge_interface p 4 Zone.applications
        ∷ edge_interface p 5 Zone.partner
        ∷ [];
    rules = rules_of p s;
    dns_records = map (λ h. (h, (p.vms Role.nginx).address)) (hosts p.domains);
    dhcp = record {
      start = s.dhcp_start;
      end = s.dhcp_end;
      router = (p.networks Zone.staff).gateway;
      dns = (p.vms Role.dns).address;
      ntp = (p.vms Role.dns).address;
    };
    clock = s.clock;
    utc_verified = false;
    network_verified = false;
  }

  unfoldable pub derive : Plan → Settings → Option NetworkPolicy
  derive p s = if valid p && settings_ok p s then some (policy_of p s) else none
