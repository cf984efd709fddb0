-- ===== src/Status/Probing.antt =====
-- network_status, applications and partners of scripts/status_probe.py.
use resilient_datacenter.Shared.{
  ℕ, String, Bool, false, not, ◌&&◌, ◌==◌, str_eq, any, Option, none, some, List, [], ◌∷◌,
  if◌then◌else◌,
}
use resilient_datacenter.Shared.Optional.{◌>>=◌, ◌>>◌}
use resilient_datacenter.Status.Collecting.{
  text, Flag, controller_required, controller_reachable, automatic_renewal, serving_verified, Count,
  backup_age_seconds, approved_peers, Evidence, unknown,
}
use resilient_datacenter.Status.Host.{
  Package, matrix, nextcloud, gateway, Role, controller, relay, peer, portable, other_role, Found,
  Gateway, GatewayState, recovery_review_required, change_pending, other_state, Host,
}

-- {'state': s}
abbrev pub only : String → Evidence
only s = record unknown { state = text s }

abbrev pub required : Bool → Flag → Option Bool
required b controller_required = some b
required b controller_reachable = none
required b automatic_renewal = none
required b serving_verified = none

abbrev pub reachable : Bool → Flag → Option Bool
reachable b controller_required = none
reachable b controller_reachable = some b
reachable b automatic_renewal = none
reachable b serving_verified = none

abbrev pub peers : ℕ → Count → Option ℕ
peers n backup_age_seconds = none
peers n approved_peers = some n

unfoldable pub enrollment_state : String → String
enrollment_state s =
    if str_eq s "enrolled"
    then "enrolled"
    else if str_eq s "awaiting_enrollment"
    then "awaiting-enrollment"
    else if str_eq s "client_not_running"
    then "stopped"
    else "unknown"

abbrev pub passes_tls : List (String × String) → Bool
passes_tls checks = any (λ c. str_eq c.0 "tls.verify" && str_eq c.1 "pass") checks

abbrev pub enrolled_with : List (String × String) → Evidence
enrolled_with checks = record unknown {
  state = text (if passes_tls checks then "enrolled" else "enrolled-controller-unreachable");
  flags = reachable (passes_tls checks);
}

abbrev pub service_state : ℕ → String
service_state rc = if rc == 0 then "service-running" else if rc == 3 then "stopped" else "unknown"

module _ {A O : Type 0} (host : Host A O) where
  unfoldable pub controller_status : Option Evidence
  controller_status = do checks ← host.controller_checks; some (enrolled_with checks)

  unfoldable pub peer_status : Option Evidence
  peer_status = do
    status ← host.enrollment
    if not (str_eq (enrollment_state status) "enrolled")
        then some (only (enrollment_state status))
        else controller_status

  unfoldable pub unit_status : String → Option Evidence
  unit_status unit = do rc ← host.is_active unit; some (only (service_state rc))

  unfoldable pub network_of : Role → Option Evidence
  network_of portable = do
    host.verify_local_address
    some (record unknown { state = text "local-address-verified"; flags = required false })
  network_of peer = peer_status
  network_of controller = unit_status "headscale"
  network_of relay = unit_status "sc-derp"
  network_of other_role = unit_status "sc-derp"

  unfoldable pub network_status : Found A O → Option Evidence
  network_status found = network_of found.network_record.role

  abbrev pub is_up : Option Bool → Bool
  is_up none = false
  is_up (some running) = running

  unfoldable pub components : List String → Option Evidence
  components [] = some (only "service-listeners-verified")
  components (c ∷ cs) =
      let rest = components cs in
      do
        item ← host.is_running c
        if not (is_up item)
            then some (only "stopped")
            else (host.verify_image c >> (host.ready c >> rest))

  unfoldable pub applications_of : Option (Package × A) → Option Evidence
  applications_of none = some (only "not-applicable")
  applications_of (some x) = do host.read_settings; components host.units

  unfoldable pub applications : Found A O → Option Evidence
  applications found = applications_of found.application

  abbrev pub is_enforced : Gateway → Bool
  is_enforced g =
      g.time_checkpoint_recent && g.guard_timer_active && g.network_identity_verified
      && g.proxy_running

  abbrev pub counted : ℕ → Evidence
  counted n = record unknown {
    state = text (if not (n == 0) then "partner-review-required" else "partners-disabled");
    counts = peers n;
  }

  abbrev pub gateway_partners : GatewayState → Gateway → Evidence
  gateway_partners recovery_review_required g = only "partner-review-required"
  gateway_partners change_pending g = only "change-pending"
  gateway_partners other_state g =
      if not (is_enforced g) then only "unknown" else counted g.approved_peers

  unfoldable pub active_partners : Option Evidence
  active_partners = do
    active ← host.is_regional_active
    some (only (if active then "partner-review-required" else "partners-suspended"))

  unfoldable pub settled_partners : Option Evidence
  settled_partners = do
    configured ← host.is_regional_configured
    if not configured then some (only "partners-disabled") else active_partners

  unfoldable pub regional_partners : Option Evidence
  regional_partners = do
    host.read_settings
    if host.is_regional_restore
        then some (only "partner-review-required")
        else if host.is_regional_pending
        then some (only "change-pending")
        else settled_partners

  unfoldable pub partners_of : Option (Package × A) → Option Evidence
  partners_of none = some (only "not-applicable")
  partners_of (some (gateway, a)) = do g ← host.gateway_status; some (gateway_partners g.state g)
  partners_of (some (matrix, a)) = regional_partners
  partners_of (some (nextcloud, a)) = regional_partners

  unfoldable pub partners : Found A O → Option Evidence
  partners found = partners_of found.application
