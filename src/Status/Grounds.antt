-- ===== src/Status/Grounds.antt =====
-- What a valid certificate, a current backup, a running service and a verified recovery of
-- scripts/status_probe.py stand on: what was read of the node, said without the probes.
use resilient_datacenter.Shared.{
  ℕ, ◌+◌, ◌-◌, ◌/◌, String, Bool, true, false, ltb, str_eq, Option, none, some, List, [], ◌∷◌, ◌≡◌,
}
use resilient_datacenter.Shared.Apart.{All, Among}
use resilient_datacenter.Agreement.Verifying.{hostname}
use resilient_datacenter.Schedule.State.{Frequency, daily, overdue}
use resilient_datacenter.Status.Collecting.{
  StateField, text, other_value, unhashable, serving_verified, backup_age_seconds, expires_at,
  captured_at, Evidence,
}
use resilient_datacenter.Status.Host.{
  Package, matrix, nextcloud, gateway, Network, Found, configured, Attempts, Snapshot, listed,
  RestoreRecord, Host,
}
use resilient_datacenter.Status.Discovering.{is_managed, is_local, discover}
use resilient_datacenter.Status.Certificates.{fortnight, is_controller}
use resilient_datacenter.Status.Backups.{is_failed_attempt, with_offset}

abbrev pub is_state : String → StateField → Bool
is_state s (text t) = str_eq t s
is_state s other_value = false
is_state s unhashable = false

abbrev pub is_gateway : Package → Bool
is_gateway matrix = false
is_gateway nextcloud = false
is_gateway gateway = true

module _ {A O : Type 0} (host : Host A O) where
  -- The name at which a machine of the network serves its certificate, and the file of this: a renewed
  -- one, whose last renewal has not failed; the controller's; or the only one of a relay.
  pub data Endpoint (n : Network) : String → String → Type 0 where
    renewed :
        {name path : String}
        → is_managed n ≡ true
        → host.lifecycle_hostname ≡ some name
        → host.active_generation ≡ some (some path)
        → (host.has_renewal_status ≡ true → host.has_renewal_failed ≡ some false)
        → Endpoint n name path
    controlling :
        is_managed n ≡ false
        → is_controller host n.role ≡ true
        → Endpoint n n.controller_hostname "/etc/headscale/tls.crt"
    relaying :
        {name : String}
        → is_managed n ≡ false
        → is_controller host n.role ≡ false
        → host.relay_certificates ≡ name ∷ []
        → hostname name ≡ true
        → Endpoint n name name

  -- A certificate that was found to be served, with the text and the time of its expiry.
  pub data Served (n : Network) : Option (Package × A) → String → ℕ → Type 0 where
    by_issuer :
        {p : Package} {a : A} {r : Evidence} {s : String} {t : ℕ}
        → host.has_issuer ≡ true
        → host.issuer_status ≡ some r
        → r.flags serving_verified ≡ some true
        → r.times expires_at ≡ some s
        → host.instant s ≡ some (some t)
        → Served n (some (p, a)) s t
    by_gateway :
        {a : A} {s : String} {t : ℕ}
        → host.has_issuer ≡ false
        → host.gateway_certificate ≡ some (configured s true)
        → host.instant s ≡ some (some t)
        → Served n (some (gateway, a)) s t
    by_application :
        {p : Package} {a : A} {u t : ℕ}
        → host.has_issuer ≡ false
        → is_gateway p ≡ false
        → host.read_settings ≡ some tt
        → host.verify_https ≡ some tt
        → host.serving_expiry ≡ some u
        → host.instant (host.isoformat u) ≡ some (some t)
        → Served n (some (p, a)) (host.isoformat u) t
    by_machine :
        {name path : String} {t : ℕ}
        → is_local n.role ≡ false
        → Endpoint n name path
        → host.certificate_expiry path ≡ some t
        → host.serves name path ≡ some true
        → Served n none (host.isoformat t) t

  -- A certificate that was found to be served for what discover has found, and that expires after
  -- more than 14 days.
  pub record ValidCertificate (e : Evidence) : Type 0 where
    pub found : Found A O
    pub expiry : String
    pub at : ℕ
    pub discovered : discover host ≡ some (some found)
    pub served : Served found.network_record found.application expiry at
    pub later : ltb (host.now + fortnight) at ≡ true
    pub is_verified : e.flags serving_verified ≡ some true
    pub is_shown : e.times expires_at ≡ some expiry

  -- A snapshot of the backup of the owner that discover has found, which is listed, was not taken
  -- after now and is not overdue by the schedule that is set, or by a daily one where none is; and the last
  -- attempt, where one is on record, has not failed.
  pub record CurrentBackup (e : Evidence) : Type 0 where
    pub found : Found A O
    pub ownership : O
    pub snapshots : List Snapshot
    pub snapshot : Snapshot
    pub taken : ℕ
    pub frequency : Frequency
    pub discovered : discover host ≡ some (some found)
    pub is_present : host.has_backup ≡ true
    pub owned : host.backup_ownership ≡ some ownership
    pub same : host.same_owner ownership found.owner ≡ true
    pub attempted :
        host.has_attempts ≡ true
        → (a : Attempts) × ((host.attempts ≡ some a) × (is_failed_attempt a.last_outcome ≡ false))
    pub reached : host.snapshots ≡ listed snapshots
    pub among : Among snapshot snapshots
    pub dated : host.instant (with_offset snapshot.time) ≡ some (some taken)
    pub before : ltb host.now taken ≡ false
    pub scheduled : host.has_schedule ≡ true → host.schedule_frequency ≡ some frequency
    pub unscheduled : host.has_schedule ≡ false → frequency ≡ daily
    pub current : overdue frequency (some ((host.now - taken) / 1000000)) ≡ some false
    pub is_counted : e.counts backup_age_seconds ≡ some ((host.now - taken) / 1000000)
    pub is_captured : e.times captured_at ≡ some (host.isoformat taken)

  -- Every component of the application that discover has found runs, has passed the check of its image,
  -- and answers.
  pub record RunningService : Type 0 where
    pub found : Found A O
    pub discovered : discover host ≡ some (some found)
    pub configured_so : host.read_settings ≡ some tt
    pub components :
        All
          (λ c.
            (host.is_running c ≡ some (some true))
            × ((host.verify_image c ≡ some tt) × (host.ready c ≡ some tt)))
          host.units

  -- The record of a restoration of the owner that discover has found, which has ended and was
  -- verified with the components that are installed now.
  pub record RestoredService : Type 0 where
    pub found : Found A O
    pub restoration : RestoreRecord O
    pub ended : ℕ
    pub hashes : String
    pub discovered : discover host ≡ some (some found)
    pub no_restore : host.is_restore_pending ≡ false
    pub is_recorded : host.restore_result ≡ some restoration
    pub same : host.same_owner restoration.ownership found.owner ≡ true
    pub dated : host.instant restoration.completed_at ≡ some (some ended)
    pub before : ltb host.now ended ≡ false
    pub hashed : host.component_hashes ≡ some hashes
    pub matching : str_eq hashes restoration.binary_sha256 ≡ true
