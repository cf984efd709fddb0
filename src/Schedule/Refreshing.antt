-- ===== src/Schedule/Refreshing.antt =====
-- create_runtime and refresh_runtime of scripts/backup_schedule.py.
use resilient_datacenter.Shared.{
  String, Bool, not, ◌||◌, ◌==◌, str_eq, Option, none, some, if◌then◌else◌,
}
use resilient_datacenter.Shared.Effects.{failure, Done, pure, raise, refuse_if, ◌>>=◌, ◌>>◌}
use resilient_datacenter.Shared.Maintenance.{file_op, cleaned_up}
use resilient_datacenter.Shared.Stored.{Stored, absent, unsafe, holds}
use resilient_datacenter.Schedule.State.{Intent, Disk, Action, Env, is_present}

-- os.replace of a directory: it raises where there is none, or one at the new place.
abbrev pub moved : Stored String → Stored String → Option (Stored String)
moved absent to = none
moved unsafe absent = some unsafe
moved (holds m) absent = some (holds m)
moved from unsafe = none
moved from (holds n) = none

abbrev pub put_previous : Disk → Option (Stored String) → Option Disk
put_previous d none = none
put_previous d (some x) = some (record d { runtime = absent; previous = x })

abbrev pub put_runtime : Disk → Option (Stored String) → Option Disk
put_runtime d none = none
put_runtime d (some x) = some (record d { candidate = absent; runtime = x })

-- rename(RUNTIME,previous)
unfoldable pub set_aside : Disk → Option Disk
set_aside d = put_previous d (moved d.runtime d.previous)

-- rename(candidate,RUNTIME)
unfoldable pub put_in_place : Disk → Option Disk
put_in_place d = put_runtime d (moved d.candidate d.runtime)

abbrev pub verified : {H : Type 0} → Stored String → Action H String
verified absent = raise failure
verified unsafe = raise failure
verified (holds m) = pure m

module _ {H : Type 0} (env : Env H) (desired : String) where
  unfoldable pub write_candidate : Action H Done
  write_candidate =
      file_op env.disturb (λ d. some (record d { candidate = unsafe }))
      >> file_op env.disturb (λ d. some (record d { candidate = holds desired }))

  unfoldable pub remove_candidate : Action H Done
  remove_candidate = file_op env.disturb (λ d. some (record d { candidate = absent }))

  -- create_runtime, where the files of the source are there, as reading them has shown
  unfoldable pub create_runtime : Action H Done
  create_runtime w = cleaned_up (write_candidate w).0 remove_candidate (write_candidate w).1

  unfoldable pub stage_candidate : Stored String → Action H Done
  stage_candidate absent = create_runtime
  stage_candidate unsafe = raise failure
  stage_candidate (holds m) = refuse_if (not (str_eq m desired))

  unfoldable pub write_intent : Intent → Action H Done
  write_intent intent = file_op env.disturb (λ d. some (record d { marker = holds intent }))

  unfoldable pub unlink_marker : Action H Done
  unlink_marker = file_op env.disturb (λ d. some (record d { marker = absent }))

  -- The directory of the disk is verified to hold a manifest.
  unfoldable pub expect : (Disk → Stored String) → String → Action H Done
  expect place m w = (verified (place w.disk) >>= λ n. refuse_if (not (str_eq n m))) w

  unfoldable pub rename_candidate : Intent → Action H Done
  rename_candidate intent = do
    expect (λ d. d.previous) intent.previous
    expect (λ d. d.candidate) desired
    file_op env.disturb put_in_place
    expect (λ d. d.runtime) desired
    unlink_marker

  unfoldable pub close_update : Intent → Action H Done
  close_update intent = do expect (λ d. d.previous) intent.previous; unlink_marker

  unfoldable pub replace_runtime : Intent → Bool → Action H Done
  replace_runtime intent has_previous = do
    refuse_if has_previous
    file_op env.disturb set_aside
    rename_candidate intent

  unfoldable pub from_runtime : Intent → String → Action H Done
  from_runtime intent current = if str_eq current desired then close_update intent else (do
    refuse_if (not (str_eq current intent.previous))
    (λ w. replace_runtime intent (is_present w.disk.previous) w))

  unfoldable pub continue_at : Intent → Stored String → Action H Done
  continue_at intent absent = rename_candidate intent
  continue_at intent unsafe = raise failure
  continue_at intent (holds m) = from_runtime intent m

  unfoldable pub continue_update : Intent → Action H Done
  continue_update intent w = continue_at intent w.disk.runtime w

  abbrev pub new_intent : String → Intent
  new_intent old = record { schema_version = 1; previous = old; desired = desired }

  unfoldable pub start_update : String → Action H Done
  start_update old = do
    (λ w. refuse_if (is_present w.disk.previous) w)
    (λ w. stage_candidate w.disk.candidate w)
    write_intent (new_intent old)
    continue_update (new_intent old)

  unfoldable pub begin_at : Stored String → Action H Done
  begin_at absent = raise failure
  begin_at unsafe = raise failure
  begin_at (holds old) = if str_eq old desired then pure tt else start_update old

  unfoldable pub refresh_at : Stored Intent → Action H Done
  refresh_at absent w = begin_at w.disk.runtime w
  refresh_at unsafe w = raise failure w
  refresh_at (holds intent) w =
      (refuse_if (not (intent.schema_version == 1) || not (str_eq intent.desired desired))
          >> continue_update intent)
        w

  unfoldable pub refresh_runtime : Action H Done
  refresh_runtime w = refresh_at w.disk.marker w
