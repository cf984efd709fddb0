-- ===== src/Scope/Resources.antt =====
-- resources and binary_paths of scripts/backup_contracts.py, with package, validate, verify_installed,
-- tag and installed_application of scripts/backup_scope.py.
use Prim.Native.Char.{code}
use resilient_datacenter.Shared.{
  String, Bool, true, false, not, ◌&&◌, ◌==◌, str_eq, same_texts, Option, none, some, List, [], ◌∷◌,
  ◌++◌, if◌then◌else◌,
}
use resilient_datacenter.Shared.Optional.{raise_if, ◌>>=◌, ◌>>◌}
use resilient_datacenter.Status.Host.{
  Package, matrix, nextcloud, gateway, Role, controller, relay, peer, portable, other_role,
}

-- What the scope reads of an ownership: its keys but `applications` are `network`.
pub record Owner (N A : Type 0) : Type 0 where
  pub network : N
  pub application : Option A

-- The ownership's fields, and the contracts that are asked about it.
pub record Contracts (N A : Type 0) : Type 0 where
  pub role : N → String
  pub tls_mode : N → Option String
  pub packages : A → List String
  pub validate_portable_owner : N → Option (Unit {0})
  pub include : N → A → Option (Owner N A)
  pub same_owner : Owner N A → Owner N A → Bool
  pub same_network : N → N → Bool
  pub same_application : A → A → Bool

-- The files of an installed node; `none` cannot be read.
pub record Installed (N A : Type 0) : Type 0 where
  pub read_network : Option N
  pub read_application : Package → Option A
  pub has_ownership : Package → Bool
  pub has_gateway_directory : Bool

pub record Resources : Type 0 where
  pub paths : List String
  pub services : List String

-- path == p or path.startswith(p + '/')
unfoldable pub within : String → String → Bool
within String.[] String.[] = true
within String.[] (String.◌∷◌ c s) = code c == 47
within (String.◌∷◌ c p) String.[] = false
within (String.◌∷◌ c p) (String.◌∷◌ d s) =
    let rest = within p s in if code c == code d then rest else false

unfoldable pub role_of : String → Option Role
role_of s =
    if str_eq s "controller"
    then some controller
    else if str_eq s "relay"
    then some relay
    else if str_eq s "peer"
    then some peer
    else if str_eq s "portable"
    then some portable
    else none

unfoldable pub package_of : List String → Option Package
package_of names =
    if same_texts names ("matrix" ∷ [])
    then some matrix
    else if same_texts names ("nextcloud" ∷ [])
    then some nextcloud
    else if same_texts names ("gateway" ∷ [])
    then some gateway
    else none

abbrev pub is_managed : Option String → Option Bool
is_managed none = some false
is_managed (some mode) = if str_eq mode "managed-acme" then some true else none

abbrev pub role_paths : Role → List String
role_paths controller = "etc/headscale" ∷ "var/lib/headscale" ∷ []
role_paths relay = "etc/sc-derp" ∷ "var/lib/sc-derp" ∷ []
role_paths peer = "var/lib/tailscale" ∷ []
role_paths portable = []
role_paths other_role = []

abbrev pub role_services : Role → List String
role_services controller = "headscale" ∷ []
role_services relay = "sc-derp" ∷ []
role_services peer = "tailscaled" ∷ []
role_services portable = []
role_services other_role = []

abbrev pub package_paths : Option Package → List String
package_paths none = []
package_paths (some gateway) = "etc/rdc-gateway" ∷ "var/lib/rdc-gateway-recovery" ∷ []
package_paths (some nextcloud) = "etc/rdc-nextcloud" ∷ "var/lib/rdc-nextcloud" ∷ []
package_paths (some matrix) = "etc/rdc-services" ∷ "var/lib/rdc-services" ∷ []

abbrev pub package_services : Option Package → List String
package_services none = []
package_services (some gateway) = "rdc-regional-guard.timer" ∷ "rdc-regional-gateway" ∷ []
package_services (some nextcloud) =
    "rdc-nextcloud-cron.timer" ∷ "rdc-nextcloud-proxy" ∷ "rdc-nextcloud" ∷ "rdc-nextcloud-postgres"
    ∷ []
package_services (some matrix) =
    "rdc-service-proxy" ∷ "rdc-element" ∷ "rdc-synapse" ∷ "rdc-postgres" ∷ []

abbrev pub tls_paths : Bool → List String
tls_paths true = "etc/rdc-tls" ∷ "etc/letsencrypt" ∷ []
tls_paths false = []

abbrev pub catalogue : Role → Option Package → Bool → Resources
catalogue r p managed = record {
  paths =
      role_paths r
      ++ ("etc/server-connectivity-profile.json" ∷ package_paths p ++ tls_paths managed);
  services = package_services p ++ role_services r;
}

abbrev pub role_binaries : Role → List String
role_binaries controller = "usr/bin/headscale" ∷ []
role_binaries relay = "usr/local/bin/sc-derper" ∷ []
role_binaries peer = "usr/local/bin/tailscale" ∷ "usr/local/sbin/tailscaled" ∷ []
role_binaries portable = []
role_binaries other_role = []

-- RUNTIME_FILES of scripts/gateway_runtime.py
abbrev pub gateway_files : List String
gateway_files =
    "usr/local/lib/rdc-gateway/gateway_entry.py" ∷ "usr/local/lib/rdc-gateway/gateway_runtime.py"
    ∷ "usr/local/lib/rdc-gateway/gateway_store.py"
    ∷ "usr/local/lib/rdc-gateway/gateway_contracts.py"
    ∷ "usr/local/lib/rdc-gateway/gateway_images.json"
    ∷ "usr/local/lib/rdc-gateway/gateway_rendering.py"
    ∷ "usr/local/lib/rdc-gateway/regional_http.py"
    ∷ "usr/local/lib/rdc-gateway/gateway_transition.py"
    ∷ "usr/local/lib/rdc-gateway/gateway_certificates.py"
    ∷ "usr/local/lib/rdc-gateway/gateway_recovery.py"
    ∷ "usr/local/lib/rdc-gateway/certificate_lifecycle.py"
    ∷ "usr/local/lib/rdc-gateway/regional_workspace.py"
    ∷ "usr/local/lib/rdc-gateway/regional_agreements.py"
    ∷ "usr/local/lib/rdc-gateway/profile_config.py"
    ∷ "usr/local/lib/rdc-gateway/validate_inventory.py"
    ∷ "usr/local/lib/rdc-gateway/validate_tls.py" ∷ []

abbrev pub package_binaries : Option Package → List String
package_binaries none = []
package_binaries (some gateway) =
    gateway_files
    ++ ("usr/local/lib/rdc-gateway/manifest.json"
        ∷ "etc/systemd/system/rdc-regional-gateway.service"
        ∷ "etc/systemd/system/rdc-regional-guard.service"
        ∷ "etc/systemd/system/rdc-regional-guard.timer"
        ∷ "etc/sysctl.d/80-rdc-regional-gateway.conf" ∷ [])
package_binaries (some nextcloud) =
    "usr/local/lib/rdc-nextcloud/nextcloud_runtime.py"
    ∷ "usr/local/lib/rdc-nextcloud/nextcloud_cron.py"
    ∷ "usr/local/lib/rdc-nextcloud/nextcloud_images.json"
    ∷ "usr/local/lib/rdc-nextcloud/service_runtime.py"
    ∷ "usr/local/lib/rdc-nextcloud/nextcloud_regional.py"
    ∷ "usr/local/lib/rdc-nextcloud/service_regional.py"
    ∷ "usr/local/lib/rdc-nextcloud/regional_http.py" ∷ "etc/systemd/system/rdc-nextcloud.service"
    ∷ "etc/systemd/system/rdc-nextcloud-postgres.service"
    ∷ "etc/systemd/system/rdc-nextcloud-proxy.service"
    ∷ "etc/systemd/system/rdc-nextcloud-cron.service"
    ∷ "etc/systemd/system/rdc-nextcloud-cron.timer" ∷ []
package_binaries (some matrix) =
    "usr/local/lib/rdc-services/service_runtime.py"
    ∷ "usr/local/lib/rdc-services/service_images.json"
    ∷ "usr/local/lib/rdc-services/service_regional.py" ∷ []

abbrev pub access_binaries : Role → Option Package → List String
access_binaries portable (some matrix) = "usr/local/lib/rdc-services/application_access.py" ∷ []
access_binaries portable (some nextcloud) = "usr/local/lib/rdc-nextcloud/application_access.py" ∷ []
access_binaries portable (some gateway) = "usr/local/lib/rdc-nextcloud/application_access.py" ∷ []
access_binaries _ _ = []

abbrev pub binaries : Role → Option Package → List String
binaries r p = role_binaries r ++ (package_binaries p ++ access_binaries r p)

module _ {N A : Type 0} (contracts : Contracts N A) where
  abbrev pub application_package : Option A → Option (Option Package)
  application_package none = some none
  application_package (some a) = package_of (contracts.packages a) >>= λ p. some (some p)

  -- validate of scripts/backup_scope.py
  unfoldable pub validate : Owner N A → Option (Unit {0})
  validate owner = included owner.application
    where
      included : Option A → Option (Unit {0})
      included none = some tt
      included (some a) = do
        expected ← contracts.include owner.network a
        raise_if (not (contracts.same_owner expected owner))

  abbrev pub portable_checked : Role → N → Option (Unit {0})
  portable_checked portable n = contracts.validate_portable_owner n
  portable_checked controller n = some tt
  portable_checked relay n = some tt
  portable_checked peer n = some tt
  portable_checked other_role n = some tt

  -- The role, the package and whether the certificate is managed, of an ownership that is accepted.
  unfoldable pub scope : Owner N A → Option (Role × (Option Package × Bool))
  scope owner = do
    validate owner
    r ← role_of (contracts.role owner.network)
    portable_checked r owner.network
    p ← application_package owner.application
    managed ← is_managed (contracts.tls_mode owner.network)
    some (r, (p, managed))

  unfoldable pub resources : Owner N A → Option Resources
  resources owner = do s ← scope owner; some (catalogue s.0 s.1.0 s.1.1)

  unfoldable pub binary_paths : Owner N A → Option (List String)
  binary_paths owner = do s ← scope owner; some (binaries s.0 s.1.0)

  abbrev pub package_tag : Option Package → String
  package_tag none = "network"
  package_tag (some matrix) = "matrix"
  package_tag (some nextcloud) = "nextcloud"
  package_tag (some gateway) = "gateway"

  unfoldable pub tag : Owner N A → Option String
  tag owner = do validate owner; p ← application_package owner.application; some (package_tag p)

  unfoldable pub verify_installed : Installed N A → Owner N A → Option (Unit {0})
  verify_installed disk owner = do
    validate owner
    network ← disk.read_network
    raise_if (not (contracts.same_network network owner.network))
    application_verified owner.application
    where
      application_verified : Option A → Option (Unit {0})
      application_verified none = some tt
      application_verified (some a) = do
        p ← package_of (contracts.packages a)
        installed ← disk.read_application p
        raise_if (not (contracts.same_application installed a))

  unfoldable pub installed_application : Installed N A → Option (Option A)
  installed_application disk = read_if_any (chosen (matrix ∷ nextcloud ∷ gateway ∷ []))
    where
      chosen : List Package → List Package
      chosen [] = []
      chosen (p ∷ ps) = if disk.has_ownership p then p ∷ chosen ps else chosen ps

      read_if_any : List Package → Option (Option A)
      read_if_any (p ∷ q ∷ ps) = none
      read_if_any [] = raise_if disk.has_gateway_directory >> some none
      read_if_any (p ∷ []) = do
        raise_if (disk.has_gateway_directory && not (disk.has_ownership gateway))
        a ← disk.read_application p
        package_of (contracts.packages a)
        some (some a)
