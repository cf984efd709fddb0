-- ===== src/Status/ProbingTests.antt =====
-- The probes of scripts/status_probe.py on a chat server that is in order, and on the same server with
-- a certificate that expires soon.
use resilient_datacenter.Shared.{
  ℕ, String, Bool, true, false, ◌==◌, str_eq, Option, none, some, List, [], ◌∷◌, ◌≡◌, refl,
  if◌then◌else◌,
}
use resilient_datacenter.Shared.Apart.{All}
use resilient_datacenter.Shared.Optional.{◌>>=◌}
use resilient_datacenter.Schedule.State.{hourly, overdue}
use resilient_datacenter.Status.States.{certificates, dimensions}
use resilient_datacenter.Status.Collecting.{
  StateField, text, Evidence, sanitize, item_of, after_probe, one, collect, needs_attention,
}
use resilient_datacenter.Status.Host.{
  Package, matrix, nextcloud, gateway, peer, Network, listed, Host,
}
use resilient_datacenter.Status.Discovering.{discover}
use resilient_datacenter.Status.Probing
use resilient_datacenter.Status.Probing.{
  enrollment_state, controller_status, peer_status, network_of, components, applications_of,
  settled_partners, active_partners, regional_partners, partners_of,
}
use resilient_datacenter.Status.Certificates
use resilient_datacenter.Status.Certificates.{
  at_expiry, application_certificate, served_certificate, package_certificate,
}
use resilient_datacenter.Status.Backups
use resilient_datacenter.Status.Backups.{
  with_offset, dated, status_summary, backup_evidence, owned_backup, configured_backup, restored,
  recorded, latest,
}
use resilient_datacenter.Status.Worker.{probe, answered, worker, run_probe}
use resilient_datacenter.Status.Healthy.{Healthy, needs_attention-Healthy, worker-item_of}

abbrev is_matrix : Package → Bool
is_matrix matrix = true
is_matrix nextcloud = false
is_matrix gateway = false

abbrev chat_node : Network
chat_node = record {
  fields = [];
  role = peer;
  schema_version = some 1;
  deployment_mode = "independent";
  institution_id = "north";
  controller_hostname = "net.north.net";
  tls_mode = "";
  certificate_hostname = "";
}

-- The clock stands at 100 days; the snapshot is an hour old.
abbrev chat_server : ℕ → Host (List String) String
chat_server expiry = record {
  instant = λ s. some (some (if str_eq s "expiry" then expiry else 8636400000000));
  isoformat = λ t. if t == expiry then "expiry" else "earlier";
  now = 8640000000000;
  same_owner = str_eq;
  is_marked = true;
  has_base = is_matrix;
  read_network = some chat_node;
  network_manifest = λ n. some tt;
  validate_portable_owner = λ n. none;
  is_safe_directory = λ p. true;
  has_ownership = λ p. true;
  read_application = λ p. some ("matrix" ∷ []);
  packages = λ a. a;
  network_owner = λ n. "network";
  include = λ n a. some "chat";
  verify_local_address = none;
  enrollment = some "enrolled";
  controller_checks = some (("tls.verify", "pass") ∷ []);
  is_active = λ n. some 0;
  read_settings = some tt;
  units = "synapse" ∷ "postgres" ∷ [];
  is_running = λ n. some (some true);
  verify_image = λ n. some tt;
  ready = λ n. some tt;
  has_issuer = false;
  issuer_status = none;
  gateway_certificate = none;
  verify_https = some tt;
  serving_expiry = some expiry;
  lifecycle_hostname = none;
  active_generation = none;
  has_renewal_status = false;
  has_renewal_failed = none;
  relay_certificates = [];
  certificate_expiry = λ p. none;
  serves = λ n p. none;
  has_backup = true;
  backup_ownership = some "chat";
  has_attempts = true;
  attempts = some (record { last_outcome = some "succeeded"; last_success_at = none });
  snapshots = listed (record { id = "a"; time = "2026-01-01T00:00:00Z" } ∷ []);
  has_schedule = true;
  schedule_frequency = some hourly;
  has_restore_result = true;
  restore_result = some (record {
    ownership = "chat";
    completed_at = "earlier";
    captured_at = "earlier";
    binary_sha256 = "hashes";
  });
  component_hashes = some "hashes";
  gateway_status = none;
  is_regional_restore = false;
  is_regional_pending = false;
  is_regional_configured = some false;
  is_regional_active = none;
  is_upgrade_pending = false;
  is_restore_pending = false;
  is_caught = λ d. true;
}

-- Thirty days from the clock, and three.
abbrev in_order : Host (List String) String
in_order = chat_server 11232000000000

abbrev expiring : Host (List String) String
expiring = chat_server 8899200000000

in_order-calm : needs_attention (collect (λ s. true) (run_probe in_order (λ s. true))) ≡ false
unfolding needs_attention collect one after_probe sanitize item_of run_probe worker probe discover
    Probing.network_status network_of peer_status controller_status enrollment_state
    Probing.applications applications_of components Probing.partners partners_of regional_partners
    settled_partners active_partners Certificates.certificates package_certificate
    served_certificate application_certificate at_expiry Backups.backup configured_backup
    owned_backup backup_evidence status_summary dated with_offset overdue latest recorded restored
in_order-calm = refl

state_of : Option Evidence → StateField
state_of none = text ""
state_of (some e) = e.state

expiring-shown : state_of (probe expiring certificates) ≡ text "certificate-expiring"
unfolding state_of probe discover Certificates.certificates package_certificate served_certificate
    application_certificate at_expiry
expiring-shown = refl

needs_attention-Healthy_example : All (λ d. Healthy in_order d) dimensions
needs_attention-Healthy_example = needs_attention-Healthy in_order (λ s. true) in_order-calm

-- An application's ownership.json with a list: AttributeError, and the worker prints nothing.
abbrev broken_server : Host (List String) String
broken_server = record expiring { read_application = λ p. none; is_caught = λ d. false }

broken-silent : worker broken_server (λ s. true) certificates ≡ none
unfolding worker probe discover
broken-silent = refl

worker-item_of_example : worker expiring (λ s. true) certificates ≡ (
    answered expiring true (probe expiring certificates) >>= λ e.
    some (item_of (λ s. true) certificates e))
worker-item_of_example = worker-item_of expiring (λ s. true) certificates
