-- ===== src/Guest/Sessions.antt =====
-- Any number of commands of scripts/guest_installation.py, one after another, however each ends.
use resilient_datacenter.Shared.{ℕ, ◌≤◌, ◌<◌, ◌≡◌, sym, subst, [], arith, String}
use resilient_datacenter.Shared.Effects.{Out, ok, raised}
use resilient_datacenter.Shared.Hoare.{Post}
use resilient_datacenter.Shared.Stored.{absent}
use resilient_datacenter.Guest.State.{Disk, World, Env}
use resilient_datacenter.Guest.Console.{attach, start, finish, boot, status, confirm_login}
use resilient_datacenter.Guest.Grades.{grade_of, installer_starts, disk_starts, Sound}
use resilient_datacenter.Guest.Once.{
  attach-Sound, start-Sound, finish-Sound, boot-Sound, status-Sound, confirm_login-Sound,
}

-- The commands, with the operator that finish and confirm_login are given.
pub data Command : Type 0 where
  attach_command start_command boot_command status_command : Command
  finish_command confirm_command : String → Command

module _ {C H : Type 0} (env : Env C H) where
  -- What a command leaves, whether it returns or raises.
  unfoldable pub run : Command → World H → World H
  run attach_command w = (attach env w).1
  run start_command w = (start env w).1
  run boot_command w = (boot env w).1
  run status_command w = (status env w).1
  run (finish_command operator) w = (finish env operator w).1
  run (confirm_command operator) w = (confirm_login env operator w).1

  left-Sound :
      {A : Type 0} (r : ℕ) (x : Out A × World H)
      → Post (λ a d j. Sound r d) (λ e d j. Sound r d) x
      → Sound r x.1.disk
  left-Sound r (ok a, w) h = h
  left-Sound r (raised e, w) h = h

  run-Sound : (r : ℕ) (c : Command) (w : World H) → Sound r w.disk → Sound r (run c w).disk
  unfolding run
  run-Sound r attach_command w h = left-Sound r (attach env w) ((attach-Sound env r).at w h)
  run-Sound r start_command w h = left-Sound r (start env w) ((start-Sound env r).at w h)
  run-Sound r boot_command w h = left-Sound r (boot env w) ((boot-Sound env r).at w h)
  run-Sound r status_command w h = left-Sound r (status env w) ((status-Sound env r).at w h)
  run-Sound r (finish_command operator) w h =
      left-Sound r (finish env operator w) ((finish-Sound env r operator).at w h)
  run-Sound r (confirm_command operator) w h =
      left-Sound r (confirm_login env operator w) ((confirm_login-Sound env r operator).at w h)

  -- No command takes an installation back to an earlier grade, however the command ends: once the
  -- installer was asked to start it is never attached again, once the medium was removed the
  -- installer is never started, and so on.
  pub run-advances :
      (c : Command) (w : World H)
      → Sound 0 w.disk
      → grade_of w.disk.journal ≤ grade_of (run c w).disk.journal
  run-advances c w h = (run-Sound (grade_of w.disk.journal) c w (omega arith, h.1, h.2, h.3, h.4)).0

  -- The disk after a number of commands. Each starts in a new process, in any state of the host.
  pub data Session (d : Disk) : Disk → Type 0 where
    none_yet : Session d d
    then_run :
        {d' : Disk}
        → Session d d'
        → (c : Command) (w : World H) → w.disk ≡ d'
        → Session d (run c w).disk

  Session-Sound : {d d' : Disk} → Sound 0 d → Session d d' → Sound 0 d'
  Session-Sound h none_yet = h
  Session-Sound h (then_run s c w same) =
      run-Sound 0 c w (subst (Sound 0) (sym same) (Session-Sound h s))

  -- From a guest with no journal and no request, after any number of commands in any order, of which
  -- each may be stopped by a fault of the file system, an answer of Proxmox or a crash: the start of
  -- the installer was posted at most once, and so was the start of the disk, and each only after the
  -- journal on the disk said so.
  pub Session-starts_once :
      {d d' : Disk}
      → d.journal ≡ absent
      → d.requests ≡ []
      → Session d d'
      → (installer_starts d'.requests ≤ 1)
        × (disk_starts d'.requests ≤ 1)
        × (grade_of d'.journal < 1 → installer_starts d'.requests ≡ 0)
        × (grade_of d'.journal < 3 → disk_starts d'.requests ≡ 0)
  Session-starts_once {d} none_asked no_request s =
      let h = Session-Sound fresh s in (h.1, h.2, h.3, h.4)
    where
      fresh : Sound 0 d
      fresh = ground (arith, none_asked, no_request)
