-- ===== src/Status/States.antt =====
-- The dimensions and the states of scripts/product_status.py.
use resilient_datacenter.Shared.{String, List, [], ◌∷◌, ◌++◌}

pub data Dimension : Type 0 where
  network applications certificates backup recovery partners : Dimension

abbrev pub dimensions : List Dimension
dimensions = network ∷ applications ∷ certificates ∷ backup ∷ recovery ∷ partners ∷ []

abbrev pub common : List String
common =
    "unknown" ∷ "blocked" ∷ "not-configured" ∷ "not-applicable" ∷ "change-pending"
    ∷ "restore-pending" ∷ "upgrade-pending" ∷ []

abbrev pub own_states : Dimension → List String
own_states network =
    "local-address-verified" ∷ "enrolled" ∷ "enrolled-controller-unreachable"
    ∷ "awaiting-enrollment" ∷ "stopped" ∷ "service-running" ∷ []
own_states applications = "service-listeners-verified" ∷ "stopped" ∷ []
own_states certificates =
    "certificate-valid" ∷ "certificate-expiring" ∷ "certificate-invalid" ∷ "renewal-failed" ∷ []
own_states backup =
    "backup-current" ∷ "backup-overdue" ∷ "backup-unreachable" ∷ "backup-failed"
    ∷ "backup-scope-missing" ∷ "no-backup" ∷ []
own_states recovery =
    "untested" ∷ "service-verified" ∷ "verified-on-prior-components" ∷ "different-scope" ∷ []
own_states partners =
    "partners-disabled" ∷ "partners-suspended" ∷ "transport-verified-exchange-untested"
    ∷ "partner-review-required" ∷ []

abbrev pub states : Dimension → List String
states d = common ++ own_states d

abbrev pub next : Dimension → String
next network =
    "Inspect node status or doctor with its saved manifest. If access is denied, use your existing local administration permissions."
next applications =
    "Inspect chat or file service status on its own VM, then test login and an actual message or file operation."
next certificates =
    "Inspect the role-specific certificate or issuer status; renew with the reviewed issuer or replace with trusted current material."
next backup =
    "Inspect backup status and storage access. Take a new consistent snapshot if needed and verify independent recovery access."
next recovery =
    "Complete any pending restore first, then perform a fenced recovery exercise and test a real user operation."
next partners =
    "Review gateway or connector status, current bilateral approvals and a real partner exchange. Do not bypass a recovery review."

abbrev pub next_after_address : String
next_after_address =
    "Verify local DNS, time and staff access; the assigned address alone does not prove application availability."

abbrev pub next_after_upgrade : String
next_after_upgrade =
    "Run upgrade recover from the same reviewed project source on this node before other maintenance."

-- The states of needs_attention that ask for nothing.
abbrev pub informational : List String
informational =
    "local-address-verified" ∷ "enrolled" ∷ "service-running" ∷ "service-listeners-verified"
    ∷ "certificate-valid" ∷ "backup-current" ∷ "service-verified" ∷ "not-applicable"
    ∷ "partners-disabled" ∷ "transport-verified-exchange-untested" ∷ []
