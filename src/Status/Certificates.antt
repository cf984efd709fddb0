-- ===== src/Status/Certificates.antt =====
-- certificates and infrastructure_certificate of scripts/status_probe.py.
use resilient_datacenter.Shared.{
  ℕ, ◌+◌, String, Bool, true, false, not, ◌||◌, ◌==◌, leb, str_eq, Option, none, some, List, [],
  ◌∷◌, if◌then◌else◌,
}
use resilient_datacenter.Shared.Optional.{raise_if, ◌>>=◌, ◌>>◌}
use resilient_datacenter.Agreement.Verifying.{hostname}
use resilient_datacenter.Status.Collecting.{
  StateField, text, other_value, unhashable, Flag, controller_required, controller_reachable,
  automatic_renewal, serving_verified, Time, expires_at, captured_at, completed_at, last_success_at,
  Evidence, unknown,
}
use resilient_datacenter.Status.Host.{
  Package, matrix, nextcloud, gateway, Role, controller, relay, peer, portable, other_role, Network,
  Found, GatewayCertificate, pending, configured, Host,
}
use resilient_datacenter.Status.Discovering.{is_managed, is_local}
use resilient_datacenter.Status.Probing.{only}

-- timedelta(days=14)
abbrev pub fortnight : ℕ
fortnight = 1209600000000

abbrev pub judged : Bool → ℕ → ℕ → String
judged verified expiry now =
    if not verified || leb expiry now
    then "certificate-invalid"
    else if leb expiry (now + fortnight)
    then "certificate-expiring"
    else "certificate-valid"

abbrev pub served_flags : Bool → Bool → Flag → Option Bool
served_flags verified renews controller_required = none
served_flags verified renews controller_reachable = none
served_flags verified renews automatic_renewal = some renews
served_flags verified renews serving_verified = some verified

abbrev pub expiring_at : String → Time → Option String
expiring_at s expires_at = some s
expiring_at s captured_at = none
expiring_at s completed_at = none
expiring_at s last_success_at = none

abbrev pub certificate_evidence : String → String → Bool → Bool → Evidence
certificate_evidence state expiry verified renews = record unknown {
  state = text state;
  flags = served_flags verified renews;
  times = expiring_at expiry;
}

-- dict.get(key, False)
abbrev pub or_false : Option Bool → Bool
or_false none = false
or_false (some b) = b

abbrev pub is_failed : StateField → Bool
is_failed (text s) = str_eq s "renewal-failed" || str_eq s "issuance-failed"
is_failed other_value = false
is_failed unhashable = false

abbrev pub or_empty : Option String → String
or_empty none = ""
or_empty (some s) = s

module _ {A O : Type 0} (host : Host A O) where
  -- A time that is compared with the clock: without a zone, TypeError or ValueError.
  abbrev pub zoned : Option (Option ℕ) → Option ℕ
  zoned none = none
  zoned (some none) = none
  zoned (some (some t)) = some t

  unfoldable pub at_expiry : String → Bool → Bool → Option Evidence
  at_expiry expiry verified renews = if str_eq expiry "" then some (only "unknown") else do
    when ← zoned (host.instant expiry)
    some (certificate_evidence (judged verified when host.now) expiry verified renews)

  unfoldable pub issuer_certificate : Evidence → Option Evidence
  issuer_certificate result =
      if is_failed result.state
      then some (record result { state = text "renewal-failed" })
      else at_expiry (or_empty (result.times expires_at)) (or_false (result.flags serving_verified))
          (or_false (result.flags automatic_renewal))

  abbrev pub gateway_certificate_of : GatewayCertificate → Option Evidence
  gateway_certificate_of pending = some (only "change-pending")
  gateway_certificate_of (configured expiry verified) = at_expiry expiry verified false

  unfoldable pub application_certificate : Option Evidence
  application_certificate = do
    host.read_settings
    host.verify_https
    expiry ← host.serving_expiry
    at_expiry (host.isoformat expiry) true false

  unfoldable pub served_certificate : Package → Option Evidence
  served_certificate gateway = do c ← host.gateway_certificate; gateway_certificate_of c
  served_certificate matrix = application_certificate
  served_certificate nextcloud = application_certificate

  -- An exception of the connection is caught: nothing is verified.
  abbrev pub infrastructure_evidence : Bool → Bool → String → String → ℕ → Evidence
  infrastructure_evidence failed automatic name path expiry =
      let verified = or_false (host.serves name path) in
      certificate_evidence (if failed then "renewal-failed" else judged verified expiry host.now)
        (host.isoformat expiry) verified automatic

  unfoldable pub checked_certificate : Bool → Bool → String → String → Option Evidence
  checked_certificate failed automatic name path = do
    expiry ← host.certificate_expiry path
    some (infrastructure_evidence failed automatic name path expiry)

  unfoldable pub renewal_failed : Option Bool
  renewal_failed = if host.has_renewal_status then host.has_renewal_failed else some false

  unfoldable pub managed_certificate : Option String → String → Option Evidence
  managed_certificate none name = some (only "certificate-invalid")
  managed_certificate (some generation) name = do
    failed ← renewal_failed
    rc ← host.is_active "rdc-certificate-renew.timer"
    raise_if (not (rc == 0 || rc == 3))
    checked_certificate failed (rc == 0) name generation

  abbrev pub sole_certificate : List String → Option String
  sole_certificate [] = none
  sole_certificate (p ∷ q ∷ ps) = none
  sole_certificate (p ∷ []) = some p

  unfoldable pub relay_certificate : Option Evidence
  relay_certificate = do
    name ← sole_certificate host.relay_certificates
    raise_if (not (hostname name))
    checked_certificate false false name name

  abbrev pub is_controller : Role → Bool
  is_controller controller = true
  is_controller relay = false
  is_controller peer = false
  is_controller portable = false
  is_controller other_role = false

  unfoldable pub current_managed : Option Evidence
  current_managed = do
    name ← host.lifecycle_hostname
    generation ← host.active_generation
    managed_certificate generation name

  unfoldable pub infrastructure_certificate : Network → Option Evidence
  infrastructure_certificate n =
      if is_managed n
      then current_managed
      else if is_controller n.role
      then checked_certificate false false n.controller_hostname "/etc/headscale/tls.crt"
      else relay_certificate

  unfoldable pub package_certificate : Package → Option Evidence
  package_certificate p =
      if host.has_issuer then host.issuer_status >>= issuer_certificate else served_certificate p

  abbrev pub certificates_of : Network → Option (Package × A) → Option Evidence
  certificates_of n (some (p, a)) = package_certificate p
  certificates_of n none =
      if is_local n.role then some (only "not-applicable") else infrastructure_certificate n

  unfoldable pub certificates : Found A O → Option Evidence
  certificates found = certificates_of found.network_record found.application
