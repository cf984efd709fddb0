-- ===== src/Schedule/Tests.antt =====
-- A runtime refresh that is stopped and made again.
use resilient_datacenter.Shared.{
  String, true, false, Option, none, some, ◌≡◌, refl, List, [], ◌∷◌, inl, ◌⊎◌,
}
use resilient_datacenter.Shared.Effects.{crash, Out, ok, Done}
use resilient_datacenter.Shared.Hoare.{Post}
use resilient_datacenter.Shared.Maintenance.{Fault, none_now, after, land, file_op, cleaned_up}
use resilient_datacenter.Shared.Stored.{absent, holds}
use resilient_datacenter.Schedule.State.{
  Disk, World, Env, Attempts, Created, attempted, record_attempt, hourly, overdue,
}
use resilient_datacenter.Schedule.Refreshing.{
  set_aside, put_in_place, write_candidate, remove_candidate, create_runtime, stage_candidate,
  write_intent, unlink_marker, expect, rename_candidate, close_update, replace_runtime,
  from_runtime, continue_at, continue_update, start_update, begin_at, refresh_at, refresh_runtime,
}
use resilient_datacenter.Schedule.Stages.{intent_of, AtRest, Finished, Consistent}
use resilient_datacenter.Schedule.Safety.{
  refresh-Consistent, refresh-completes, unrefreshed, then_refresh, Refreshes-Consistent,
}
use resilient_datacenter.Schedule.Recording.{Failed, Succeeded, record_attempt-Recorded}

-- The faults that are to come.
take_fault : List Fault → Fault × List Fault
take_fault [] = (none_now, [])
take_fault (f ∷ fs) = (f, fs)

abbrev server : Env (List Fault)
server = record { disturb = take_fault }

abbrev resting : Disk
resting = record { runtime = holds "one"; previous = absent; candidate = absent; marker = absent }

abbrev server_with : Disk → List Fault → World (List Fault)
server_with d fs = record { disk = d; memory = tt; host = fs }

run_refresh : String → World (List Fault) → Out Done × World (List Fault)
unfolding refresh_runtime refresh_at begin_at start_update continue_update continue_at from_runtime
    replace_runtime close_update rename_candidate expect unlink_marker write_intent stage_candidate
    create_runtime remove_candidate write_candidate put_in_place set_aside file_op land cleaned_up
    take_fault
run_refresh desired w = refresh_runtime server desired w

refreshed : (run_refresh "two" (server_with resting [])).1.disk.runtime ≡ holds "two"
unfolding run_refresh
refreshed = refl

-- It stops after the runtime is set aside.
abbrev stopping : World (List Fault)
stopping = server_with resting (none_now ∷ none_now ∷ none_now ∷ after crash ∷ [])

stopped : (run_refresh "two" stopping).1.disk.runtime ≡ absent
unfolding run_refresh
stopped = refl

resumed : (run_refresh "two" (run_refresh "two" stopping).1).0 ≡ ok tt
unfolding run_refresh
resumed = refl

resting-AtRest : AtRest "one" resting
resting-AtRest = record { runtime = refl; previous = refl; marker = refl }

refresh-Consistent_example :
    Post
      (λ _ d j. Finished "one" "two" d)
      (λ _ d j. Consistent "one" "two" d)
      (refresh_runtime server "two" stopping)
refresh-Consistent_example =
    refresh-Consistent server "one" "two" stopping refl (inl resting-AtRest)

Refreshes-Consistent_example :
    Consistent "one" "two" (refresh_runtime server "two" (record stopping { host = [] })).1.disk
Refreshes-Consistent_example =
    Refreshes-Consistent server "two" "one" refl (inl resting-AtRest)
      (then_refresh stopping [] (unrefreshed stopping refl))

abbrev calm : Env Unit
calm = record { disturb = λ h. (none_now, h) }

refresh-completes_example :
    Post
      (λ _ d j. Finished "one" "two" d)
      (λ _ d j. ⊥)
      (refresh_runtime calm "two" (record { disk = resting; memory = tt; host = tt }))
refresh-completes_example =
    refresh-completes calm "one" "two" (record { disk = resting; memory = tt; host = tt })
      (λ h. refl) refl (inl (resting-AtRest, inl refl))

abbrev announced : World (List Fault)
announced =
    server_with (record resting { candidate = holds "two"; marker = holds (intent_of "one" "two") })
      []

abbrev first_success : Attempts
first_success = record {
  schema_version = 1;
  last_success = some (record { finished_at = "monday"; snapshot_id = "a1" });
  last_finished_at = "monday";
  last_succeeded = true;
}

abbrev then_failure : Attempts
then_failure = record first_success { last_finished_at = "tuesday"; last_succeeded = false }

failure_recorded :
    record_attempt (λ s. true) (holds first_success) none "tuesday" ≡ some then_failure
unfolding record_attempt attempted
failure_recorded = refl

record_attempt-Recorded_example :
    (then_failure.last_finished_at ≡ "tuesday")
    × (((◌≡◌ {A = Option Created} none none) × Failed (holds first_success) then_failure)
        ⊎ Succeeded (λ s. true) none "tuesday" then_failure)
record_attempt-Recorded_example =
    record_attempt-Recorded (λ s. true) (holds first_success) none "tuesday" then_failure
      failure_recorded

late_after_grace : overdue hourly (some 5401) ≡ some true
unfolding overdue
late_after_grace = refl
