-- ===== src/Status/Host.antt =====
-- What scripts/status_probe.py reads of a node. `none` is an exception of the code that reads it.
use resilient_datacenter.Shared.{ℕ, String, Bool, Option, List}
use resilient_datacenter.Schedule.State.{Frequency}
use resilient_datacenter.Status.States.{Dimension}
use resilient_datacenter.Status.Collecting.{Evidence}

-- BASES
pub data Package : Type 0 where
  matrix nextcloud gateway : Package

pub data Role : Type 0 where
  controller relay peer portable other_role : Role

-- The record etc/server-connectivity-profile.json: its keys, and what the checks read. The version is
-- `none` where it is no integer.
pub record Network : Type 0 where
  pub fields : List String
  pub role : Role
  pub schema_version : Option ℕ
  pub deployment_mode : String
  pub institution_id : String
  pub controller_hostname : String
  pub tls_mode : String
  pub certificate_hostname : String

-- The result of discover.
pub record Found (A O : Type 0) : Type 0 where
  pub network_record : Network
  pub owner : O
  pub application : Option (Package × A)

-- What service_issuer.status returns is read like other evidence. A gateway's certificate is pending,
-- or has a time of expiry and a check of what is served.
pub data GatewayCertificate : Type 0 where
  pending : GatewayCertificate
  configured : String → Bool → GatewayCertificate

-- The state that gateway_operations.status returns.
pub data GatewayState : Type 0 where
  recovery_review_required change_pending other_state : GatewayState

pub record Gateway : Type 0 where
  pub state : GatewayState
  pub time_checkpoint_recent : Bool
  pub guard_timer_active : Bool
  pub network_identity_verified : Bool
  pub proxy_running : Bool
  pub approved_peers : ℕ

-- last-attempt.json: the outcome of the last attempt, and the time of the last success.
pub record Attempts : Type 0 where
  pub last_outcome : Option String
  pub last_success_at : Option String

pub record Snapshot : Type 0 where
  pub id : String
  pub time : String

-- The list of snapshots, an exception that backup expects, or another one.
pub data Listing : Type 0 where
  listed : List Snapshot → Listing
  unreachable broken : Listing

pub record RestoreRecord (O : Type 0) : Type 0 where
  pub ownership : O
  pub completed_at : String
  pub captured_at : String
  pub binary_sha256 : String

pub record Host (A O : Type 0) : Type 0 where
  -- datetime.fromisoformat: `none` raises, and `some none` has no time zone; isoformat; and the
  -- clock, in microseconds.
  pub instant : String → Option (Option ℕ)
  pub isoformat : ℕ → String
  pub now : ℕ
  pub same_owner : O → O → Bool
  -- discover
  pub is_marked : Bool
  pub has_base : Package → Bool
  pub read_network : Option Network
  pub network_manifest : Network → Option (Unit {0})
  pub validate_portable_owner : Network → Option (Unit {0})
  pub is_safe_directory : Package → Bool
  pub has_ownership : Package → Bool
  pub read_application : Package → Option A
  pub packages : A → List String
  pub network_owner : Network → O
  pub include : Network → A → Option O
  -- network_status and applications
  pub verify_local_address : Option (Unit {0})
  pub enrollment : Option String
  pub controller_checks : Option (List (String × String))
  pub is_active : String → Option ℕ
  pub read_settings : Option (Unit {0})
  pub units : List String
  pub is_running : String → Option (Option Bool)
  pub verify_image : String → Option (Unit {0})
  pub ready : String → Option (Unit {0})
  -- certificates
  pub has_issuer : Bool
  pub issuer_status : Option Evidence
  pub gateway_certificate : Option GatewayCertificate
  pub verify_https : Option (Unit {0})
  pub serving_expiry : Option ℕ
  pub lifecycle_hostname : Option String
  pub active_generation : Option (Option String)
  pub has_renewal_status : Bool
  pub has_renewal_failed : Option Bool
  pub relay_certificates : List String
  pub certificate_expiry : String → Option ℕ
  pub serves : String → String → Option Bool
  -- backup and recovery
  pub has_backup : Bool
  pub backup_ownership : Option O
  pub has_attempts : Bool
  pub attempts : Option Attempts
  pub snapshots : Listing
  pub has_schedule : Bool
  pub schedule_frequency : Option Frequency
  pub has_restore_result : Bool
  pub restore_result : Option (RestoreRecord O)
  pub component_hashes : Option String
  -- partners
  pub gateway_status : Option Gateway
  pub is_regional_restore : Bool
  pub is_regional_pending : Bool
  pub is_regional_configured : Option Bool
  pub is_regional_active : Option Bool
  -- probe, and whether an exception that it raises is an OSError, ValueError, TypeError, KeyError or
  -- SubprocessError, which the worker catches
  pub is_upgrade_pending : Bool
  pub is_restore_pending : Bool
  pub is_caught : Dimension → Bool
