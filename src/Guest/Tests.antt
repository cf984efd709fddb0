-- ===== src/Guest/Tests.antt =====
-- A guest whose installation is taken through every command.
use resilient_datacenter.Shared.{
  ◌≤◌, ◌<◌, ◌≡◌, refl, true, Option, none, List, [], ◌∷◌, arith, String,
}
use resilient_datacenter.Shared.Effects.{crash, Out, ok, Done}
use resilient_datacenter.Shared.Maintenance.{Fault, none_now, after, call, land, file_op}
use resilient_datacenter.Shared.Stored.{absent}
use resilient_datacenter.Guest.State.{
  Power, running, stopped, Request, change, start_installer, start_disk, Disk, World, Env,
}
use resilient_datacenter.Guest.Observing.{
  owned, acceptable, observed, read_record, load_state, write, post, enter,
}
use resilient_datacenter.Guest.Console.{
  stage_of, is_attached, attach_medium, attach, start_medium, start, valid_operator,
  stage_at_finish, detach_medium, finish, request_disk_start, start_from_disk, boot, stage_seen,
  status, confirm_login,
}
use resilient_datacenter.Guest.Grades.{grade_of, installer_starts, disk_starts}
use resilient_datacenter.Guest.Sessions.{
  Command, attach_command, start_command, boot_command, finish_command, confirm_command, run,
  run-advances, none_yet, then_run, Session-starts_once,
}

-- The host: the faults to come, and the machine as Proxmox has it.
record Host : Type 0 where
  faults : List Fault
  description : String
  ide2 : Option String
  boot : String
  power : Power

take_fault : List Fault → Host → Fault × Host
take_fault [] h = (none_now, h)
take_fault (f ∷ fs) h = (f, record h { faults = fs })

-- Proxmox: a start runs the machine.
answer : Request → Host → Out Done × Host
answer (change c digest) h =
    (ok tt, record h { description = c.description; ide2 = c.ide2; boot = c.boot })
answer start_installer h = (ok tt, record h { power = running })
answer start_disk h = (ok tt, record h { power = running })

abbrev digest_text : String
digest_text = "0123456789abcdef0123456789abcdef01234567"

abbrev guest : Env Unit Host
guest = record {
  disturb = λ h. take_fault h.faults h;
  context = λ d h. (ok tt, h);
  lock = λ d h. (ok tt, h);
  binding = "b1";
  volume = "local:iso/ubuntu.iso";
  wanted = record {
    digest = "";
    description = "rdc-portable-shell-v1:d:dns";
    ide2 = none;
    boot = "order=scsi0";
    others = tt;
  };
  owned_others = λ a b. true;
  alphanumeric = λ c. true;
  get_config = λ d h. (
    ok (record {
      digest = digest_text;
      description = h.description;
      ide2 = h.ide2;
      boot = h.boot;
      others = tt;
    }),
    h,
  );
  get_power = λ d h. (ok h.power, h);
  post = λ r d h. answer r h;
}

abbrev at_rest : Disk
at_rest = record { journal = absent; requests = [] }

abbrev shell_host : List Fault → Host
shell_host fs = record {
  faults = fs;
  description = "rdc-portable-shell-v1:d:dns";
  ide2 = none;
  boot = "order=scsi0";
  power = stopped;
}

abbrev begin : List Fault → World Host
begin fs = record { disk = at_rest; memory = tt; host = shell_host fs }

-- `run` with everything that it calls open to computation.
run_command : Command → World Host → World Host
unfolding run attach start finish boot status confirm_login attach_medium start_medium detach_medium
    request_disk_start start_from_disk stage_of is_attached valid_operator stage_at_finish
    stage_seen owned acceptable observed read_record load_state write post enter call file_op land
    take_fault answer
run_command c w = run guest c w

turn_off : World Host → World Host
turn_off w = record w { host = record w.host { power = stopped } }

installed : World Host
unfolding run_command turn_off
installed = run_command (confirm_command "ana") (
    run_command boot_command (
      run_command (finish_command "ana")
        (turn_off (run_command start_command (run_command attach_command (begin []))))))

installed_grade : grade_of installed.disk.journal ≡ 5
unfolding installed
installed_grade = refl

installed_starts : installer_starts installed.disk.requests ≡ 1
unfolding installed
installed_starts = refl

-- The journal was written and the process died before the request: the installer is not started
-- again, and the operator has to look.
abbrev died : World Host
died =
    run guest start_command
      (run guest attach_command (begin (none_now ∷ none_now ∷ after crash ∷ [])))

died_grade : grade_of died.disk.journal ≡ 1
unfolding run_command
died_grade = refl

died_starts : installer_starts died.disk.requests ≡ 0
unfolding run_command
died_starts = refl

run-advances_example :
    grade_of at_rest.journal ≤ grade_of (run guest attach_command (begin [])).disk.journal
run-advances_example =
    run-advances guest attach_command (begin [])
      (omega arith, omega arith, omega arith, λ g. refl, λ g. refl)

Session-starts_once_example :
    (installer_starts died.disk.requests ≤ 1)
    × (disk_starts died.disk.requests ≤ 1)
    × (grade_of died.disk.journal < 1 → installer_starts died.disk.requests ≡ 0)
    × (grade_of died.disk.journal < 3 → disk_starts died.disk.requests ≡ 0)
Session-starts_once_example = Session-starts_once guest {d = at_rest} refl refl (
    then_run
      (then_run none_yet attach_command (begin (none_now ∷ none_now ∷ after crash ∷ [])) refl)
      start_command (run guest attach_command (begin (none_now ∷ none_now ∷ after crash ∷ [])))
      refl)
