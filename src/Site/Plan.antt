-- ===== src/Site/Plan.antt =====
-- validate and preview of scripts/portable_plan.py.
use resilient_datacenter.Shared.{
  ℕ, String, Bool, true, false, not, ◌&&◌, ◌||◌, leb, ltb, length, ◌==◌, str_eq, Option, none, some,
  List, [], ◌∷◌, map, any, all, contains, if◌then◌else◌,
}
use Prim.Native.String.{count}
use resilient_datacenter.Shared.Texts.{identifier, label, parts, digit_or_dot, all_chars}
use resilient_datacenter.Site.Addresses.{Literal, Cidr, usable_in, overlaps, subnet_of, strict}

pub data Zone : Type 0 where
  management staff frontend applications partner : Zone

pub data Role : Type 0 where
  edge dns nginx chat files partner : Role

-- ZONES, and the keys of MODULES with what it says of them
abbrev pub zones : List Zone
zones = Zone.management ∷ Zone.staff ∷ Zone.frontend ∷ Zone.applications ∷ Zone.partner ∷ []

abbrev pub modules : List Role
modules = Role.edge ∷ Role.dns ∷ Role.nginx ∷ Role.chat ∷ Role.files ∷ Role.partner ∷ []

abbrev pub zone_of : Role → Zone
zone_of Role.edge = Zone.management
zone_of Role.dns = Zone.frontend
zone_of Role.nginx = Zone.frontend
zone_of Role.chat = Zone.applications
zone_of Role.files = Zone.applications
zone_of Role.partner = Zone.partner

abbrev pub minimum_memory : Role → ℕ
minimum_memory Role.edge = 3072
minimum_memory Role.dns = 1024
minimum_memory Role.nginx = 1024
minimum_memory Role.chat = 4096
minimum_memory Role.files = 4096
minimum_memory Role.partner = 2048

-- The parts of a URL as urlsplit gives them; `credentials` tells whether there is a user name or a
-- password.
pub record Endpoint : Type 0 where
  pub has_space : Bool
  pub scheme : String
  pub hostname : String
  pub port : Option ℕ
  pub credentials : Bool
  pub path : String
  pub query : String
  pub fragment : String

-- The field `endpoint` is `none` where urlsplit or its port raises, or the value is no text.
pub record Proxmox : Type 0 where
  pub endpoint : Option Endpoint
  pub node : String
  pub storage : String
  pub wan_bridge : String

-- The field `cidr` is `none` where ip_network refuses the text whatever its host bits, or reads IPv6.
pub record Network : Type 0 where
  pub cidr : Option Cidr
  pub bridge : String
  pub gateway : Literal

pub record Machine : Type 0 where
  pub id : ℕ
  pub cpu : ℕ
  pub memory_mib : ℕ
  pub disk_gib : ℕ
  pub address : Literal

pub record Domains : Type 0 where
  pub chat : String
  pub element : String
  pub files : String

-- A site plan with the fields of the schema. A negative number is refused where zero is, and is read
-- as zero.
pub record Plan : Type 0 where
  pub schema_version : ℕ
  pub site : String
  pub recovery_site : String
  pub proxmox : Proxmox
  pub networks : Zone → Network
  pub vms : Role → Machine
  pub domains : Domains
  pub offline_days : ℕ
  pub certificate_margin_days : ℕ

unfoldable pub domain : String → Bool
unfolding parts
domain s =
    leb (count s) 253
    && ltb 1 (length (parts s))
    && all label (parts s)
    && not (all_chars digit_or_dot s)

abbrev pub integer : ℕ → ℕ → ℕ → Bool
integer v minimum maximum = leb minimum v && leb v maximum

abbrev pub known_port : Option ℕ → Bool
known_port none = true
known_port (some p) = (p == 443) || (p == 8006)

unfoldable pub endpoint_ok : Option Endpoint → Bool
endpoint_ok none = false
endpoint_ok (some e) =
    not e.has_space
    && str_eq e.scheme "https"
    && domain e.hostname
    && known_port e.port
    && not e.credentials
    && (str_eq e.path "" || str_eq e.path "/")
    && str_eq e.query ""
    && str_eq e.fragment ""

-- 10.0.0.0/8, 172.16.0.0/12 and 192.168.0.0/16
abbrev pub private_blocks : List Cidr
private_blocks =
    record { base = 167772160; prefixlen = 8; suffix = "8" }
    ∷ record { base = 2886729728; prefixlen = 12; suffix = "12" }
    ∷ record { base = 3232235520; prefixlen = 16; suffix = "16" }
    ∷ []

abbrev pub usable_literal : Literal → Cidr → Bool
usable_literal none c = false
usable_literal (some a) c = usable_in a c

-- The subnet of a network that can be planned.
unfoldable pub planned : Network → Option Cidr → Bool
planned n none = false
planned n (some c) =
    strict c
    && integer c.prefixlen 16 28
    && any (subnet_of c) private_blocks
    && usable_literal n.gateway c

abbrev pub overlaps_any : Option Cidr → List Cidr → Bool
overlaps_any none seen = false
overlaps_any (some c) seen = any (overlaps c) seen

abbrev pub with_subnet : Option Cidr → List Cidr → List Cidr
with_subnet none seen = seen
with_subnet (some c) seen = c ∷ seen

-- The loop over the zones, after the subnets and the bridges that were seen.
unfoldable pub networks_ok : (Zone → Network) → List Zone → List Cidr → List String → Bool
networks_ok nets [] seen bridges = true
networks_ok nets (z ∷ zs) seen bridges =
    planned (nets z) (nets z).cidr
    && not (overlaps_any (nets z).cidr seen)
    && identifier (nets z).bridge
    && not (contains (nets z).bridge bridges)
    && networks_ok nets zs (with_subnet (nets z).cidr seen) ((nets z).bridge ∷ bridges)

abbrev pub has_number : ℕ → List ℕ → Bool
has_number n xs = any (λ x. x == n) xs

abbrev pub same_literal : Literal → Literal → Bool
same_literal (some a) (some b) = a == b
same_literal _ _ = false

abbrev pub has_literal : Literal → List Literal → Bool
has_literal a xs = any (same_literal a) xs

abbrev pub in_zone : Literal → Option Cidr → Bool
in_zone a none = false
in_zone a (some c) = usable_literal a c

-- The loop over the machines, after the identifiers and the addresses that were seen.
unfoldable pub vms_ok : Plan → List Role → List ℕ → List Literal → Bool
vms_ok p [] ids addresses = true
vms_ok p (r ∷ rs) ids addresses =
    integer (p.vms r).id 100 999999999
    && not (has_number (p.vms r).id ids)
    && integer (p.vms r).cpu 1 256
    && integer (p.vms r).memory_mib (minimum_memory r) 1048576
    && integer (p.vms r).disk_gib 20 1048576
    && in_zone (p.vms r).address (p.networks (zone_of r)).cidr
    && not (has_literal (p.vms r).address addresses)
    && vms_ok p rs ((p.vms r).id ∷ ids) ((p.vms r).address ∷ addresses)

abbrev pub gateways : Plan → List Literal
gateways p = map (λ z. (p.networks z).gateway) zones

unfoldable pub domains_ok : Domains → Bool
domains_ok d =
    domain d.chat
    && domain d.element
    && domain d.files
    && not (str_eq d.chat d.element)
    && not (str_eq d.chat d.files)
    && not (str_eq d.element d.files)

-- whether validate passes
unfoldable pub valid : Plan → Bool
valid p =
    p.schema_version == 1
    && identifier p.site
    && identifier p.recovery_site
    && not (str_eq p.site p.recovery_site)
    && integer p.offline_days 1 3650
    && integer p.certificate_margin_days 1 365
    && endpoint_ok p.proxmox.endpoint
    && identifier p.proxmox.node
    && identifier p.proxmox.storage
    && identifier p.proxmox.wan_bridge
    && networks_ok p.networks zones [] (p.proxmox.wan_bridge ∷ [])
    && vms_ok p modules [] (gateways p)
    && domains_ok p.domains

-- validate returns a copy of the plan, or raises ValueError.
unfoldable pub validate : Plan → Option Plan
validate p = if valid p then some p else none
