-- ===== src/Guest/Observing.antt =====
-- What the operations of scripts/guest_installation.py read, check, write and post: the guards on the
-- phase, observed, load_state, and owned of scripts/proxmox_provision.py.
use Prim.Native.String.{◌++◌ as append}
use resilient_datacenter.Shared.{
  String, Bool, true, false, not, ◌&&◌, ◌||◌, str_eq, Option, none, some, ◌∷◌,
}
use resilient_datacenter.Shared.Effects.{failure, Done, pure, raise, refuse_if, ◌>>=◌, ◌>>◌}
use resilient_datacenter.Shared.Maintenance.{call, file_op}
use resilient_datacenter.Shared.Stored.{Stored, absent, unsafe, holds}
use resilient_datacenter.Shared.Texts.{is_hex}
use resilient_datacenter.Guest.State.{
  Phase, new, attach_requested, media_attached, installer_start_requested, finish_requested,
  disk_ready, disk_start_requested, disk_boot_observed, guest_installed_attested, other_phase,
  Power, running, stopped, other_power, Record, Config, Request, Action, Env,
}

-- Which configuration `observed` expects.
pub data Stage : Type 0 where
  shell attached ready : Stage

abbrev pub is_stopped : Power → Bool
is_stopped stopped = true
is_stopped running = false
is_stopped other_power = false

abbrev pub is_running : Power → Bool
is_running running = true
is_running stopped = false
is_running other_power = false

abbrev pub known_phase : Phase → Bool
known_phase (other_phase p) = false
known_phase _ = true

-- The phases that attach, start, finish, boot and confirm_login accept.
abbrev pub attachable : Phase → Bool
attachable new = true
attachable attach_requested = true
attachable media_attached = true
attachable _ = false

abbrev pub startable : Phase → Bool
startable media_attached = true
startable installer_start_requested = true
startable _ = false

abbrev pub finishable : Phase → Bool
finishable installer_start_requested = true
finishable finish_requested = true
finishable disk_ready = true
finishable _ = false

abbrev pub bootable : Phase → Bool
bootable disk_ready = true
bootable disk_start_requested = true
bootable disk_boot_observed = true
bootable _ = false

abbrev pub confirmable : Phase → Bool
confirmable disk_boot_observed = true
confirmable guest_installed_attested = true
confirmable _ = false

abbrev pub is_requested : Phase → Bool
is_requested installer_start_requested = true
is_requested _ = false

abbrev pub is_disk_ready : Phase → Bool
is_disk_ready disk_ready = true
is_disk_ready _ = false

-- whether attach accepts an attached medium: the journal says that it was asked for
abbrev pub intended : Phase → Bool
intended attach_requested = true
intended media_attached = true
intended _ = false

abbrev pub same_text : Option String → Option String → Bool
same_text none none = true
same_text (some a) (some b) = str_eq a b
same_text _ _ = false

module _ {C H : Type 0} (env : Env C H) where
  -- marker(binding, phase)
  abbrev pub marker : String → String
  marker phase = append "rdc-guest-v1:" (append env.binding (append ":" phase))

  abbrev pub cdrom : Option String
  cdrom = some (append env.volume ",media=cdrom")

  -- {'binding':binding,'phase':phase}
  abbrev pub bare : Phase → Record
  bare p = record {
    binding = env.binding;
    phase = p;
    operator = none;
    power = none;
    guest_os = none;
    os_verification = none;
    applications = none;
    network_links = none;
    boot_source = none;
    notice = none;
  }

  -- owned of scripts/proxmox_provision.py
  unfoldable pub owned : Config C → Bool
  owned c =
      str_eq c.description env.wanted.description
      && str_eq c.boot env.wanted.boot
      && same_text c.ide2 none
      && env.owned_others c.others env.wanted.others

  unfoldable pub acceptable : Stage → Config C → Bool
  acceptable shell c = owned c
  acceptable attached c =
      str_eq c.description (marker "attached")
      && same_text c.ide2 cdrom
      && str_eq c.boot "order=ide2;scsi0"
      && owned
          (record c { ide2 = none; boot = env.wanted.boot; description = env.wanted.description })
  acceptable ready c =
      str_eq c.description (marker "disk-ready")
      && owned (record c { description = env.wanted.description })

  unfoldable pub observed : Stage → Action H (Config C × Power)
  observed stage = do
    config ← call env.get_config
    power ← call env.get_power
    refuse_if (not (is_hex 40 config.digest))
    refuse_if (not (is_stopped power || is_running power))
    refuse_if (not (acceptable stage config))
    pure (config, power)

  unfoldable pub read_record : Stored Record → Action H Record
  read_record absent = pure (bare new)
  read_record unsafe = raise failure
  read_record (holds r) =
      refuse_if (not (str_eq r.binding env.binding && known_phase r.phase)) >> pure r

  unfoldable pub load_state : Action H Record
  load_state w = read_record w.disk.journal w

  unfoldable pub write : Record → Action H Done
  write r = file_op env.disturb (λ d. some (record d { journal = holds r }))

  -- The request is noted when it is posted, whether the answer comes or not.
  unfoldable pub post : Request → Action H Done
  post r w =
      call (env.post r) (record w { disk = record w.disk { requests = r ∷ w.disk.requests } })

  -- context, and the lock of the state directory
  unfoldable pub enter : Action H Done
  enter = call env.context >> call env.lock
