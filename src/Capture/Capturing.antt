-- ===== src/Capture/Capturing.antt =====
-- capture and _capture of scripts/backup_snapshot.py.
use resilient_datacenter.Shared.{
  ℕ, ◌==◌, String, Bool, true, false, not, ◌&&◌, ◌||◌, str_eq, Option, none, some, List, [], ◌∷◌,
  if◌then◌else◌,
}
use resilient_datacenter.Shared.Effects.{
  failure, interrupt, crash, Out, ok, raised, Done, pure, raise, refuse_if, ◌>>=◌, ◌>>◌,
}
use resilient_datacenter.Shared.Maintenance.{Fault, Call, call, file_op, for_all}
use resilient_datacenter.Shared.Stored.{Stored, absent, unsafe, holds}
use resilient_datacenter.Shared.Texts.{starts_with, ends_with}
use resilient_datacenter.Restore.Plan.{too_small}
use resilient_datacenter.Upgrade.State.{
  Phase, preparing, migrating, committed, rolled_back, other_phase, Journal,
}
use resilient_datacenter.Capture.State.{
  Event, queried, stop_requested, start_requested, copied, Metadata, Disk, Action, active_names,
}

-- What capture is given: the paths and the services of the catalogue, the services' calls, what reads
-- and copies a resource, and the checks around it. `enter` is the certificate lock or the gateway's
-- context. The calls on services raise no other Exception than those that the finally catches.
pub record Env (H : Type 0) : Type 0 where
  pub disturb : H → Fault × H
  pub owner : String
  pub paths : List String
  pub services : List String
  pub is_active : String → Call Disk H Bool
  pub stop : String → Call Disk H Done
  pub start : String → Call Disk H Done
  pub verify_running : String → Call Disk H Done
  pub inspect_resources : Call Disk H ℕ
  pub copy_resource : String → Call Disk H Done
  pub component_hashes : Call Disk H String
  pub validate_data : Call Disk H Done
  pub verify_installed : Call Disk H Done
  pub enter : Call Disk H Done
  pub free : H → ℕ
  pub now : H → String
  pub is_restore_pending : H → Bool
  pub pending_upgrade : H → Stored Journal
  pub is_owned : H → Bool

-- The upgrade that is pending must be the one that takes the snapshot, in a phase for it.
abbrev pub snapshot_owner : Phase → Journal → Option String
snapshot_owner preparing j = some j.plan.source_owner
snapshot_owner committed j = some j.plan.target_owner
snapshot_owner migrating j = none
snapshot_owner rolled_back j = none
snapshot_owner (other_phase p) j = none

abbrev pub is_text : Option String → String → Bool
is_text none s = false
is_text (some r) s = str_eq r s

unfoldable pub admits : String → Stored Journal → Option ℕ → Bool
admits owner absent none = true
admits owner absent (some id) = false
admits owner unsafe upgrade_id = false
admits owner (holds j) none = false
admits owner (holds j) (some id) = (j.id == id) && is_text (snapshot_owner j.phase j) owner

abbrev pub noted : Event → Disk → Disk
noted e d = record d { events = e ∷ d.events }

abbrev pub answer_of : Out Bool → Option Bool
answer_of (ok b) = some b
answer_of (raised e) = none

abbrev pub is_there : Stored Metadata → Bool
is_there absent = false
is_there unsafe = true
is_there (holds m) = true

module _ {H : Type 0} (env : Env H) where
  -- A request that is noted, whether it returns or not.
  unfoldable pub request : {A : Type 0} → (Out A → Event) → Call Disk H A → Action H A
  request e f w =
      let (r, h) = f w.disk w.host in (r, record w { disk = noted (e r) w.disk; host = h })

  unfoldable pub query : String → Action H Bool
  query n = request (λ r. queried n (answer_of r)) (env.is_active n)

  unfoldable pub stop : String → Action H Done
  stop n = request (λ r. stop_requested n) (env.stop n)

  unfoldable pub start : String → Action H Done
  start n = request (λ r. start_requested n) (env.start n)

  unfoldable pub copy : String → Action H Done
  copy n = request (λ r. copied n) (env.copy_resource n)

  -- recovery.append(name)
  abbrev pub remember : String → Action H Done
  remember n w = (ok tt, record w { memory = n ∷ w.memory })

  unfoldable pub original_states : List String → Action H (List (String × Bool))
  original_states [] = pure []
  original_states (n ∷ ns) = do b ← query n; rest ← original_states ns; pure ((n, b) ∷ rest)

  unfoldable pub verify_service : String → Action H Done
  verify_service n =
      if starts_with "rdc-" n && ends_with ".timer" n then pure tt else call (env.verify_running n)

  unfoldable pub stop_service : String → Action H Done
  stop_service n = do remember n; stop n; still ← query n; refuse_if still

  unfoldable pub make_destination : Action H Done
  make_destination = file_op env.disturb (λ d. some (record d { destination = unsafe }))

  unfoldable pub write_metadata : Metadata → Action H Done
  write_metadata m = file_op env.disturb (λ d. some (record d { destination = holds m }))

  unfoldable pub remove_destination : Action H Done
  remove_destination w =
      (if is_there w.disk.destination
          then file_op env.disturb (λ d. some (record d { destination = absent }))
          else pure tt)
        w

  abbrev pub metadata : String → List (String × Bool) → String → Metadata
  metadata hashes original captured_at = record {
    schema_version = 1;
    captured_at = captured_at;
    ownership = env.owner;
    binary_sha256 = hashes;
    paths = env.paths;
    services_originally_active = original;
  }

  -- The body of the try.
  unfoldable pub take : String → List (String × Bool) → Action H Metadata
  take hashes original = do
    for_all (active_names original) stop_service
    captured_at ← (λ w. (ok (env.now w.host), w))
    size ← call env.inspect_resources
    make_destination
    for_all env.paths copy
    call env.validate_data
    write_metadata (metadata hashes original captured_at)
    pure (metadata hashes original captured_at)

  -- `except BaseException`
  unfoldable pub discarding : {A : Type 0} → Out A → Action H A
  discarding (ok a) = pure a
  discarding (raised crash) = raise crash
  discarding (raised failure) = remove_destination >> raise failure
  discarding (raised interrupt) = remove_destination >> raise interrupt

  -- Whether a service failed to restart; an Exception is caught.
  abbrev pub has_failed : Out Bool → Action H Bool
  has_failed (ok b) = pure (not b)
  has_failed (raised failure) = pure true
  has_failed (raised interrupt) = raise interrupt
  has_failed (raised crash) = raise crash

  unfoldable pub restart : String → Action H Bool
  restart n w = let (r, w') = (start n >> query n) w in has_failed r w'

  -- The loop of the finally, over reversed(recovery).
  unfoldable pub restart_all : List String → Action H Bool
  restart_all [] = pure false
  restart_all (n ∷ ns) = do failed ← restart n; others ← restart_all ns; pure (failed || others)

  unfoldable pub recover_services : Action H Done
  recover_services = do
    failed ← (λ w. restart_all w.memory w)
    if failed then (remove_destination >> raise failure) else pure tt

  -- The finally runs after a return and after every exception.
  unfoldable pub finally : {A : Type 0} → Out A → Action H A
  finally (ok a) = recover_services >> pure a
  finally (raised crash) = raise crash
  finally (raised failure) = recover_services >> raise failure
  finally (raised interrupt) = recover_services >> raise interrupt

  unfoldable pub guarded : String → List (String × Bool) → Action H Metadata
  guarded hashes original w =
      let (r, v) = take hashes original w in let (r', v') = discarding r v in finally r' v'

  unfoldable pub capture_now : Action H Metadata
  capture_now = do
    (λ w. refuse_if (is_there w.disk.destination) w)
    size ← call env.inspect_resources
    (λ w. refuse_if (too_small (env.free w.host) size) w)
    hashes ← call env.component_hashes
    original ← original_states env.services
    for_all (active_names original) verify_service
    guarded hashes original

  unfoldable pub capture : Option ℕ → Action H Metadata
  capture upgrade_id = do
    (λ w. refuse_if (env.is_restore_pending w.host) w)
    (λ w. refuse_if (not (admits env.owner (env.pending_upgrade w.host) upgrade_id)) w)
    (λ w. refuse_if (not (env.is_owned w.host)) w)
    call env.verify_installed
    call env.enter
    capture_now
