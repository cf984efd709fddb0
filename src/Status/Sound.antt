-- ===== src/Status/Sound.antt =====
-- What the states of the evidence of scripts/status_probe.py stand on.
use resilient_datacenter.Shared.{
  ap, ◌∙◌, String, Bool, true, false, not, ◌==◌, str_eq, Option, none, some, List, [], ◌∷◌,
  if◌then◌else◌, ◌≡◌, refl, inl, inr, Bool-cases,
}
use resilient_datacenter.Shared.Optional.{Returns, bind_rule, if_rule, weaken_rule}
use resilient_datacenter.Shared.Apart.{All}
use resilient_datacenter.Status.Discovering.{discover}
use resilient_datacenter.Status.States.{
  Dimension, network, applications, certificates, backup, recovery, partners,
}
use resilient_datacenter.Status.Collecting.{text, Evidence, is_known}
use resilient_datacenter.Status.Host.{
  Package, matrix, nextcloud, gateway, Role, controller, relay, peer, portable, other_role, Gateway,
  Found, GatewayState, recovery_review_required, change_pending, other_state, Host,
}
use resilient_datacenter.Status.Grounds.{
  is_state, ValidCertificate, CurrentBackup, RunningService, RestoredService,
}
use resilient_datacenter.Status.Probing.{
  enrollment_state, passes_tls, controller_status, peer_status, unit_status, network_of, is_up,
  components, is_enforced, gateway_partners, active_partners, settled_partners, regional_partners,
  partners_of, applications_of,
}

module _ {A O : Type 0} (host : Host A O) where
  abbrev pub Justified : Dimension → Evidence → Type 0
  Justified certificates e = is_state "certificate-valid" e.state ≡ true → ValidCertificate host e
  Justified backup e = is_state "backup-current" e.state ≡ true → CurrentBackup host e
  Justified network e = Unit {0}
  Justified applications e =
      is_state "service-listeners-verified" e.state ≡ true → RunningService host
  Justified recovery e = is_state "service-verified" e.state ≡ true → RestoredService host
  Justified partners e = Unit {0}

  abbrev pub Sound : Dimension → Evidence → Type 0
  Sound d e = (is_known d e.state ≡ some true) × Justified d e

  abbrev pub Known : Dimension → String → Type 0
  Known d s = is_known d (text s) ≡ some true

  pub known_if :
      (d : Dimension) (b : Bool) (s t : String)
      → Known d s
      → Known d t
      → Known d (if b then s else t)
  known_if d true s t h k = h
  known_if d false s t h k = k

  enrollment-Known : (s : String) → Known network (enrollment_state s)
  unfolding enrollment_state
  enrollment-Known s = known_if network (str_eq s "enrolled") "enrolled" _ refl (
      known_if network (str_eq s "awaiting_enrollment") "awaiting-enrollment" _ refl
        (known_if network (str_eq s "client_not_running") "stopped" "unknown" refl refl))

  unit-Sound : (unit : String) → Returns (Sound network) (unit_status host unit)
  unfolding unit_status
  unit-Sound unit = bind_rule (Sound network) (host.is_active unit) _ (λ rc e. (
    known_if network (rc == 0) "service-running" _ refl
        (known_if network (rc == 3) "stopped" "unknown" refl refl),
    tt,
  ))

  peer-Sound : Returns (Sound network) (peer_status host)
  unfolding peer_status controller_status
  peer-Sound = bind_rule (Sound network) host.enrollment _ (λ s e.
      if_rule (Sound network) (not (str_eq (enrollment_state s) "enrolled")) _ _
        (λ t. (enrollment-Known s, tt))
        (λ f. bind_rule (Sound network) host.controller_checks _ (λ checks c. (
          known_if network (passes_tls checks) "enrolled" "enrolled-controller-unreachable" refl
              refl,
          tt,
        ))))

  pub network-Sound : (r : Role) → Returns (Sound network) (network_of host r)
  unfolding network_of
  network-Sound portable = bind_rule (Sound network) host.verify_local_address _ (λ a e. (refl, tt))
  network-Sound peer = peer-Sound
  network-Sound controller = unit-Sound "headscale"
  network-Sound relay = unit-Sound "sc-derp"
  network-Sound other_role = unit-Sound "sc-derp"

  -- Where the components from `cs` on are all verified, they run and answer.
  abbrev Running : List String → Evidence → Type 0
  Running cs e =
      (is_known applications e.state ≡ some true)
      × (is_state "service-listeners-verified" e.state ≡ true
          → All
              (λ c.
                (host.is_running c ≡ some (some true))
                × ((host.verify_image c ≡ some tt) × (host.ready c ≡ some tt)))
              cs)

  up-eq : (o : Option Bool) → not (is_up host o) ≡ false → o ≡ some true
  up-eq none h = absurd (cc)
  up-eq (some true) h = refl
  up-eq (some false) h = absurd (cc)

  components-Running : (cs : List String) → Returns (Running cs) (components host cs)
  unfolding components
  components-Running [] = (refl, λ y. tt)
  components-Running (c ∷ cs) =
      let later = components-Running cs in
      bind_rule (Running (c ∷ cs)) (host.is_running c) _ (λ item e.
        if_rule (Running (c ∷ cs)) (not (is_up host item)) _ _ (λ t. (refl, λ y. absurd (cc)))
          (λ f. bind_rule (Running (c ∷ cs)) (host.verify_image c) _ (λ a g.
            bind_rule (Running (c ∷ cs)) (host.ready c) _ (λ b h.
              weaken_rule (Running cs) (Running (c ∷ cs)) (components host cs)
                (λ v k. (k.0, λ y. ((e ∙ ap some (up-eq item f), (g, h)), k.1 y))) later))))

  pub applications-Sound :
      (found : Found A O)
      → discover host ≡ some (some found)
      → (o : Option (Package × A)) → Returns (Sound applications) (applications_of host o)
  unfolding applications_of
  applications-Sound found seen none = (refl, λ y. absurd (cc))
  applications-Sound found seen (some x) =
      bind_rule (Sound applications) host.read_settings _ (λ a e.
        weaken_rule (Running host.units) (Sound applications) (components host host.units)
          (λ v k. (
            k.0,
            λ y. record { found = found; discovered = seen; configured_so = e; components = k.1 y },
          ))
          (components-Running host.units))

  gateway-Sound : (s : GatewayState) (g : Gateway) → Sound partners (gateway_partners host s g)
  gateway-Sound recovery_review_required g = (refl, tt)
  gateway-Sound change_pending g = (refl, tt)
  gateway-Sound other_state g = elim (Bool-cases (not (is_enforced host g))) [
    | inl t ↦ rw t (refl, tt)
    | inr f ↦ rw f (
      known_if partners (not (g.approved_peers == 0)) "partner-review-required" "partners-disabled"
          refl refl,
      tt,
    )
  ]

  regional-Sound : Returns (Sound partners) (regional_partners host)
  unfolding regional_partners settled_partners active_partners
  regional-Sound = bind_rule (Sound partners) host.read_settings _ (λ a e.
      if_rule (Sound partners) host.is_regional_restore _ _ (λ t. (refl, tt))
        (λ f.
          if_rule (Sound partners) host.is_regional_pending _ _ (λ t. (refl, tt))
            (λ g. bind_rule (Sound partners) host.is_regional_configured _ (λ c h.
              if_rule (Sound partners) (not c) _ _ (λ t. (refl, tt))
                (λ k. bind_rule (Sound partners) host.is_regional_active _ (λ b l. (
                  known_if partners b "partner-review-required" "partners-suspended" refl refl,
                  tt,
                )))))))

  pub partners-Sound : (o : Option (Package × A)) → Returns (Sound partners) (partners_of host o)
  unfolding partners_of
  partners-Sound none = (refl, tt)
  partners-Sound (some (gateway, a)) =
      bind_rule (Sound partners) host.gateway_status _ (λ g e. gateway-Sound g.state g)
  partners-Sound (some (matrix, a)) = regional-Sound
  partners-Sound (some (nextcloud, a)) = regional-Sound
