-- ===== src/Guest/Console.antt =====
-- The operations of scripts/guest_installation.py.
use Prim.Native.String.{count}
use Prim.Native.Char.{Char, code}
use resilient_datacenter.Shared.{
  String, Bool, true, false, not, ◌&&◌, ◌||◌, ◌==◌, leb, str_eq, none, some, if◌then◌else◌,
}
use resilient_datacenter.Shared.Effects.{Done, pure, refuse_if, ◌>>=◌, ◌>>◌}
use resilient_datacenter.Shared.Maintenance.{call}
use resilient_datacenter.Shared.Texts.{all_chars}
use resilient_datacenter.Guest.State.{
  attach_requested, media_attached, installer_start_requested, finish_requested, disk_ready,
  disk_start_requested, disk_boot_observed, guest_installed_attested, Power, running, Record,
  Config, change, start_installer, start_disk, Action, Env,
}
use resilient_datacenter.Guest.Observing.{
  is_stopped, is_running, attachable, startable, finishable, bootable, confirmable, is_requested,
  is_disk_ready, intended, marker, cdrom, bare, observed, load_state, write, post, enter, Stage,
  shell, attached, ready,
}

module _ {C H : Type 0} (env : Env C H) where
  unfoldable pub stage_of : Config C → Stage
  stage_of c = if str_eq c.description (marker env "attached") then attached else shell

  unfoldable pub is_attached : Stage → Bool
  is_attached attached = true
  is_attached shell = false
  is_attached ready = false

  -- The shell is changed, after the intent is on record.
  unfoldable pub attach_medium : Stage → String → Action H Done
  attach_medium attached digest = pure tt
  attach_medium ready digest = pure tt
  attach_medium shell digest = do
    write env (bare env attach_requested)
    post env (
        change
          (record {
            ide2 = cdrom env;
            boot = "order=ide2;scsi0";
            description = marker env "attached";
          })
          digest)
    observed env attached
    pure tt

  unfoldable pub attach : Action H Record
  attach = do
    enter env
    journal ← load_state env
    refuse_if (not (attachable journal.phase))
    seen ← call env.get_config
    refuse_if (is_attached (stage_of seen) && not (intended journal.phase))
    found ← observed env (stage_of seen)
    refuse_if (not (is_stopped found.1))
    attach_medium (stage_of seen) found.0.digest
    let result = record (bare env media_attached) {
      guest_os = some "not-installed";
      network_links = some "disconnected";
    }
    write env result
    pure result

  unfoldable pub start_medium : Record → Power → Action H Record
  start_medium journal power =
      if is_requested journal.phase
      then refuse_if (not (is_running power)) >> pure (record journal { power = some power })
      else do
        refuse_if (not (is_stopped power))
        let result = record (bare env installer_start_requested) {
          guest_os = some "not-verified";
          network_links = some "disconnected";
        }
        write env result
        post env start_installer
        pure result

  unfoldable pub start : Action H Record
  start = do
    enter env
    journal ← load_state env
    refuse_if (not (startable journal.phase))
    found ← observed env attached
    start_medium journal found.1

  abbrev pub operator_char : Char → Bool
  operator_char c =
      env.alphanumeric c
      || (code c == 32)
      || (code c == 46)
      || (code c == 64)
      || (code c == 95)
      || (code c == 45)

  unfoldable pub valid_operator : String → Bool
  valid_operator name = leb 1 (count name) && leb (count name) 80 && all_chars operator_char name

  unfoldable pub stage_at_finish : Config C → Stage
  stage_at_finish c = if str_eq c.description (marker env "disk-ready") then ready else attached

  -- The medium is detached, after the intent is on record.
  unfoldable pub detach_medium : String → Stage → String → Action H Done
  detach_medium operator ready digest = pure tt
  detach_medium operator shell digest = pure tt
  detach_medium operator attached digest = do
    write env (record (bare env finish_requested) { operator = some operator })
    post env (
        change (record { ide2 = none; boot = "order=scsi0"; description = marker env "disk-ready" })
          digest)
    observed env ready
    pure tt

  unfoldable pub finish : String → Action H Record
  finish operator = do
    refuse_if (not (valid_operator operator))
    enter env
    journal ← load_state env
    refuse_if (not (finishable journal.phase))
    seen ← call env.get_config
    found ← observed env (stage_at_finish seen)
    refuse_if (not (is_stopped found.1))
    detach_medium operator (stage_at_finish seen) found.0.digest
    let result = record (bare env disk_ready) {
      operator = some operator;
      os_verification = some "operator-attested";
      applications = some "not-installed";
      network_links = some "disconnected";
    }
    write env result
    pure result

  -- The disk is started, after the intent is on record.
  unfoldable pub request_disk_start : Record → Action H Record
  request_disk_start journal = do
    refuse_if (not (is_disk_ready journal.phase))
    let requested = record journal { phase = disk_start_requested }
    write env requested
    post env start_disk
    pure requested

  unfoldable pub start_from_disk : Record → Power → Action H Record
  start_from_disk journal power =
      if is_stopped power then request_disk_start journal else pure journal

  unfoldable pub boot : Action H Record
  boot = do
    enter env
    journal ← load_state env
    refuse_if (not (bootable journal.phase))
    found ← observed env ready
    requested ← start_from_disk journal found.1
    again ← observed env ready
    refuse_if (not (is_running again.1))
    let result = record requested {
      phase = disk_boot_observed;
      power = some running;
      boot_source = some "disk-only";
      os_verification = some "operator-attested";
      applications = some "not-installed";
      network_links = some "disconnected";
      notice =
          some
            "Running disk-only VM observed; OS identity and login were attested by the operator, not probed automatically.";
    }
    write env result
    pure result

  unfoldable pub stage_seen : Config C → Stage
  stage_seen c =
      if str_eq c.description (marker env "disk-ready")
      then ready
      else if str_eq c.description (marker env "attached")
      then attached
      else shell

  unfoldable pub status : Action H (Record × Stage)
  status = do
    enter env
    journal ← load_state env
    seen ← call env.get_config
    found ← observed env (stage_seen seen)
    pure (
      record journal {
        power = some found.1;
        network_links = some "disconnected";
        applications = some "not-installed";
      },
      stage_seen seen,
    )

  unfoldable pub confirm_login : String → Action H Record
  confirm_login operator = do
    refuse_if (not (valid_operator operator))
    enter env
    journal ← load_state env
    refuse_if (not (confirmable journal.phase))
    found ← observed env ready
    refuse_if (not (is_running found.1))
    let result = record journal {
      phase = guest_installed_attested;
      operator = some operator;
      os_verification = some "operator-attested";
      power = some found.1;
      applications = some "not-installed";
      network_links = some "disconnected";
    }
    write env result
    pure result
