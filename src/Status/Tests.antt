-- ===== src/Status/Tests.antt =====
-- The evidence of a node whose backup probe fails.
use resilient_datacenter.Shared.{String, Bool, true, false, Option, none, some, ◌≡◌, refl}
use resilient_datacenter.Shared.Apart.{All}
use resilient_datacenter.Status.States.{
  Dimension, network, applications, certificates, backup, recovery, partners,
}
use resilient_datacenter.Status.Collecting.{
  text, Evidence, unknown, item_of, sanitize, after_probe, one, collect, needs_attention,
}
use resilient_datacenter.Status.Bounds.{Bounded, Backed, collect-Bounded}

abbrev state_of : Dimension → String
state_of network = "enrolled"
state_of applications = "service-listeners-verified"
state_of certificates = "certificate-valid"
state_of backup = "backup-current"
state_of recovery = "service-verified"
state_of partners = "partners-disabled"

abbrev healthy : Dimension → Option (Option Evidence)
healthy d = some (some (record unknown { state = text (state_of d) }))

abbrev failing : Dimension → Option (Option Evidence)
failing backup = none
failing network = healthy network
failing applications = healthy applications
failing certificates = healthy certificates
failing recovery = healthy recovery
failing partners = healthy partners

run_attention : (Dimension → Option (Option Evidence)) → Bool
unfolding needs_attention collect one after_probe sanitize item_of
run_attention probe = needs_attention (collect (λ s. true) probe)

failing_shown : run_attention failing ≡ true
unfolding run_attention
failing_shown = refl

healthy_calm : needs_attention (collect (λ s. true) healthy) ≡ false
unfolding run_attention needs_attention
healthy_calm = refl

collect-Bounded_example :
    All
      (λ x. Bounded (λ s. true) x.0 x.1 × Backed (λ s. true) x.0 (failing x.0) x.1)
      (collect (λ s. true) failing)
collect-Bounded_example = collect-Bounded (λ s. true) failing
