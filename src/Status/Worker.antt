-- ===== src/Status/Worker.antt =====
-- probe of scripts/status_probe.py, and the worker that prints its result.
use resilient_datacenter.Shared.{String, Bool, true, false, Option, none, some, if◌then◌else◌}
use resilient_datacenter.Shared.Optional.{◌>>=◌}
use resilient_datacenter.Status.States.{
  Dimension, network, applications, certificates, backup, recovery, partners,
}
use resilient_datacenter.Status.Collecting.{text, Evidence, Item, unknown, sanitize}
use resilient_datacenter.Status.Host.{Found, Host}
use resilient_datacenter.Status.Discovering.{discover}
use resilient_datacenter.Status.Probing
use resilient_datacenter.Status.Probing.{only}
use resilient_datacenter.Status.Certificates
use resilient_datacenter.Status.Backups

module _ {A O : Type 0} (host : Host A O) where
  abbrev pub probe_found : Dimension → Option (Found A O) → Option Evidence
  probe_found d none = some (only "not-configured")
  probe_found recovery (some found) = Backups.latest host found.owner
  probe_found network (some found) = Probing.network_status host found
  probe_found applications (some found) = Probing.applications host found
  probe_found certificates (some found) = Certificates.certificates host found
  probe_found backup (some found) = Backups.backup host found
  probe_found partners (some found) = Probing.partners host found

  unfoldable pub probe : Dimension → Option Evidence
  probe d =
      if host.is_upgrade_pending
      then some (only "upgrade-pending")
      else if host.is_restore_pending
      then some (only "restore-pending")
      else (discover host >>= probe_found d)

  -- The `except` of the worker: an exception of another class ends it.
  abbrev pub answered : Bool → Option Evidence → Option Evidence
  answered is_caught (some e) = some e
  answered true none = some unknown
  answered false none = none

  -- What the worker of a dimension prints; `none` where it ends without output.
  unfoldable pub worker : (String → Bool) → Dimension → Option Item
  worker is_zoned d = do e ← answered (host.is_caught d) (probe d); sanitize is_zoned d (some e)

  -- The item as JSON, read again by the parent; where the worker fails, it raises.
  abbrev pub evidence_of : Item → Evidence
  evidence_of i = record {
    state = text i.state;
    flags = i.flags;
    counts = i.counts;
    times = i.times;
    last_attempt = i.last_attempt;
  }

  abbrev pub read_output : Option Item → Option (Option Evidence)
  read_output none = none
  read_output (some i) = some (some (evidence_of i))

  unfoldable pub run_probe : (String → Bool) → Dimension → Option (Option Evidence)
  run_probe is_zoned d = read_output (worker is_zoned d)
