-- ===== src/Status/Discovering.antt =====
-- discover of scripts/status_probe.py: which network role and which application a node has.
use resilient_datacenter.Shared.{
  ℕ, String, Bool, true, false, not, ◌&&◌, ◌||◌, ◌==◌, str_eq, same_set, same_texts, Option, none,
  some, List, [], ◌∷◌, ◌++◌, if◌then◌else◌,
}
use resilient_datacenter.Shared.Optional.{raise_if, ◌>>=◌, ◌>>◌}
use resilient_datacenter.Shared.Texts.{identifier}
use resilient_datacenter.Agreement.Verifying.{hostname}
use resilient_datacenter.Status.Host.{
  Package, matrix, nextcloud, gateway, Role, controller, relay, peer, portable, other_role, Network,
  Found, Host,
}

abbrev pub package_name : Package → String
package_name matrix = "matrix"
package_name nextcloud = "nextcloud"
package_name gateway = "gateway"

abbrev pub is_version : Option ℕ → ℕ → Bool
is_version none v = false
is_version (some n) v = n == v

abbrev pub is_managed : Network → Bool
is_managed n = is_version n.schema_version 3

abbrev pub common_fields : List String
common_fields =
    "schema_version" ∷ "deployment_mode" ∷ "institution_id" ∷ "role" ∷ "controller_hostname" ∷ []

abbrev pub expected_fields : Bool → List String
expected_fields true = common_fields ++ ("tls_mode" ∷ "certificate_hostname" ∷ [])
expected_fields false = common_fields

unfoldable pub is_infrastructure : Network → Bool
is_infrastructure n =
    same_set n.fields (expected_fields (is_managed n))
    && (is_version n.schema_version 2 || is_version n.schema_version 3)
    && str_eq n.deployment_mode "independent"
    && identifier n.institution_id
    && hostname n.controller_hostname
    && (not (is_managed n) || (str_eq n.tls_mode "managed-acme" && hostname n.certificate_hostname))

abbrev pub is_local : Role → Bool
is_local peer = true
is_local portable = true
is_local controller = false
is_local relay = false
is_local other_role = false

module _ {A O : Type 0} (host : Host A O) where
  abbrev pub validate_role : Role → Network → Option (Unit {0})
  validate_role peer n = host.network_manifest n
  validate_role portable n = host.validate_portable_owner n
  validate_role controller n = raise_if (not (is_infrastructure n))
  validate_role relay n = raise_if (not (is_infrastructure n))
  validate_role other_role n = none

  abbrev pub chosen_bases : List Package → List Package
  chosen_bases [] = []
  chosen_bases (p ∷ ps) = if host.has_base p then p ∷ chosen_bases ps else chosen_bases ps

  abbrev pub directories : List Package
  directories = chosen_bases (matrix ∷ nextcloud ∷ gateway ∷ [])

  abbrev pub discover_application : Network → List Package → Option (Found A O)
  discover_application n [] =
      some (record { network_record = n; owner = host.network_owner n; application = none })
  discover_application n (p ∷ q ∷ ps) = none
  discover_application n (p ∷ []) = do
    raise_if (not (is_local n.role) || not (host.is_safe_directory p))
    raise_if (not (host.has_ownership p))
    application ← host.read_application p
    raise_if (not (same_texts (host.packages application) (package_name p ∷ [])))
    owner ← host.include n application
    some (record { network_record = n; owner = owner; application = some (p, application) })

  abbrev pub unmarked : List Package → Option (Option (Found A O))
  unmarked [] = some none
  unmarked (p ∷ ps) = none

  -- The inner `none`: the node has no network.
  unfoldable pub discover : Option (Option (Found A O))
  discover = if not host.is_marked then unmarked directories else do
    n ← host.read_network
    validate_role n.role n
    found ← discover_application n directories
    some (some found)
