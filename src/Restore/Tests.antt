-- ===== src/Restore/Tests.antt =====
-- A relay with two resources, restored under chosen faults.
use resilient_datacenter.Shared.{
  ℕ, zero, suc, ◌+◌, ◌-◌, ◌*◌, ◌≡◌, refl, subst, Bool, true, false, Option, none, some, List, [],
  ◌∷◌, arith, ◌==◌, if◌then◌else◌,
}
use resilient_datacenter.Shared.Effects.{failure, crash, Out, ok, raised, Done}
use resilient_datacenter.Shared.Maintenance.{
  Fault, none_now, before, call, cleaned_up, land, file_op, memory, for_each, for_each_reversed,
  for_all, for_all_reversed,
}
use resilient_datacenter.Restore.State.{
  preparing, Journal, committed, absent, holds, missing, folder, Disk, World, Call,
}
use resilient_datacenter.Restore.Files.{Env, index_of, slot_op, save, write_marker, unlink_marker}
use resilient_datacenter.Restore.Plan.{
  need, is_absent, is_none, any_too_small, unsupported, measure, refused_early, spacious, plan,
}
use resilient_datacenter.Restore.Rollback.{
  workspace_of, clean_workspace, clean_workspaces, evidence_of, readable_evidence, write_evidence,
  record_for, record_evidence, finish, put_back, restart_active, verify_if_any, check_components,
  rollback,
}
use resilient_datacenter.Restore.Transaction.{
  Outcome, restored_service_verified, previous_data_restored, restore_error, write_candidate,
  retained, retain_current_settings, prepare_candidate, stop_service, swap, start_service, touch,
  write_reference, begin_gateway_restore, promote_data, promote, rolled, attend, settle,
  isolated_run, guarded, original_state, new_journal, set_journal, announce, apply, known_phase,
  belongs, source_valid, load_journal, read_pending, pending_journal, resume, recover,
}
use resilient_datacenter.Shared.Hoare.{Post}
use resilient_datacenter.Restore.Invariant.{Targets, Consistent}
use resilient_datacenter.Restore.Suspending.{Previous, Previous-unchanged}
use resilient_datacenter.Restore.Finality.{Committed, Committed-is_final}
use resilient_datacenter.Restore.Recovering.{Recovered}
use resilient_datacenter.Restore.Answering.{Fresh}
use resilient_datacenter.Restore.Safety.{
  resources, restored, Truthful, TruthfulOnce, apply-Truthful, recover-Truthful, none_yet,
  interrupted_restoration,
}

-- The host: the faults to come, and whether the service runs.
record Host : Type 0 where
  faults : List Fault
  running : Bool

take_fault : List Fault → Bool → Fault × Host
take_fault [] r = (none_now, record { faults = []; running = r })
take_fault (f ∷ fs) r = (f, record { faults = fs; running = r })

abbrev fine : Call ℕ Host Done
fine d h = (ok tt, h)

abbrev relay : Env ℕ Host
relay = record {
  disturb = λ h. take_fault h.faults h.running;
  services = "sc-derp" ∷ [];
  paths = "etc/sc-derp" ∷ "var/lib/sc-derp" ∷ [];
  ownership = "relay-1";
  gateway = false;
  captured = record { captured_at = "2026-09-01T00:00:00+00:00"; snapshot_id = none };
  new_id = λ h. 7;
  clock = λ h. "2026-09-02T00:00:00+00:00";
  component_hashes = λ h. "sc-derper-1";
  snapshot_hashes = "sc-derper-1";
  valid_source = λ s. true;
  valid_evidence = λ e. true;
  partial = λ i. 99;
  staged = λ i. if i == 0 then 20 else 21;
  retain = λ i current t. some (t + 100 * current);
  permissions = λ n. fine;
  begin_restore = fine;
  begun = λ h t. t + 1000000;
  referenced = λ h t. t + 500000;
  tidied = λ h t. t - 1000000;
  close_gateway = fine;
  is_active = λ n d h. (ok h.running, h);
  start = λ n d h. (ok tt, record h { running = true });
  stop = λ n d h. (ok tt, record h { running = false });
  prepare = λ s d h. (ok "", h);
  prepare_restored_application = fine;
  isolate = fine;
  release = fine;
  allow_validation = fine;
  finish_validation = fine;
  verify = fine;
  survey = λ h. record {
    snapshot_valid = true;
    installation_verified = true;
    gateway_pending = false;
    isolation_left = false;
    place = λ i. record {
      symlink = false;
      mount = false;
      linked_parent = false;
      device = 1;
      size = 1000;
    };
    free = λ d. 100000000;
  };
}

abbrev data_of : ℕ → ℕ
data_of i = if i == 0 then 10 else 11

abbrev no_journal : Journal
no_journal = record {
  schema_version = 0;
  id = 0;
  ownership = "";
  paths = [];
  binary_sha256 = "";
  original_active = [];
  phase = preparing;
  runtime_state = "";
  source = none;
}

abbrev at_rest : Disk ℕ
at_rest = record {
  slots = λ i. record { target = some (data_of i); workspace = missing };
  marker = absent;
  journals = λ i. absent;
  evidence = absent;
}

abbrev start : List Fault → World ℕ Host
start fs = record {
  disk = at_rest;
  memory = no_journal;
  host = record { faults = fs; running = true };
}

at_rest-Fresh : Fresh relay (resources relay data_of) data_of at_rest
at_rest-Fresh = (refl, λ i lt. (refl, refl))

-- `apply` and `recover` with everything that they call open to computation.
run_apply : World ℕ Host → Out Outcome × World ℕ Host
unfolding apply plan refused_early is_absent spacious any_too_small measure unsupported is_none need
    original_state set_journal new_journal announce cleaned_up guarded isolated_run settle attend
    rolled promote promote_data begin_gateway_restore for_each prepare_candidate
    retain_current_settings retained write_candidate for_all stop_service swap start_service
    for_all_reversed check_components finish clean_workspaces clean_workspace workspace_of
    record_evidence record_for write_evidence evidence_of readable_evidence rollback
    for_each_reversed put_back restart_active verify_if_any memory call file_op land slot_op save
    write_marker unlink_marker take_fault
run_apply w = apply relay w

-- All of `run_apply` is open here too.
run_recover : World ℕ Host → Out Outcome × World ℕ Host
unfolding run_apply recover pending_journal read_pending load_journal belongs known_phase
    source_valid resume
run_recover w = recover relay w

targets : Out Outcome × World ℕ Host → Out Outcome × Option ℕ × Option ℕ
targets (r, w) = (r, (w.disk.slots 0).target, (w.disk.slots 1).target)

-- With no fault the snapshot's data is in place, with the settings that were retained.
apply_succeeds :
    targets (run_apply (start [])) ≡ (ok restored_service_verified, some 1020, some 1121)
unfolding run_apply targets
apply_succeeds = refl

abbrev fine_calls : ℕ → List Fault → List Fault
fine_calls zero fs = fs
fine_calls (suc n) fs = none_now ∷ fine_calls n fs

-- The second rename of the second loop fails: the previous data is put back.
apply_fails :
    targets (run_apply (start (fine_calls 14 (before failure ∷ []))))
    ≡ (ok (restore_error (some true) false), some 10, some 11)
unfolding run_apply targets
apply_fails = refl

-- The process dies between the two renames of the second resource.
abbrev dying : List Fault
dying = fine_calls 16 (before crash ∷ [])

abbrev after_crash : World ℕ Host
after_crash = (apply relay (start dying)).1

apply_dies : apply relay (start dying) ≡ (raised crash, after_crash)
unfolding run_apply
apply_dies = refl

-- A new process knows nothing but the disk.
abbrev rebooted : List Fault → World ℕ Host
rebooted fs = record {
  disk = after_crash.disk;
  memory = no_journal;
  host = record { faults = fs; running = false };
}

recover_answers :
    targets (run_recover (rebooted [])) ≡ (ok previous_data_restored, some 10, some 11)
unfolding run_recover targets
recover_answers = refl

-- The journal could not be written as committed: apply answers that the restored state is
-- committed, and the recovery puts the previous data back.
abbrev uncommitted : World ℕ Host
uncommitted = start (fine_calls 18 (before failure ∷ []))

apply_claims_commit : (run_apply uncommitted).0 ≡ ok (restore_error none true)
unfolding run_apply
apply_claims_commit = refl

recover_contradicts :
    targets (run_recover (record (run_apply uncommitted).1 { memory = no_journal }))
    ≡ (ok previous_data_restored, some 10, some 11)
unfolding run_recover targets
recover_contradicts = refl

recover_returns :
    recover relay (rebooted []) ≡ (ok previous_data_restored, (recover relay (rebooted [])).1)
unfolding run_recover
recover_returns = refl

-- A gateway that loses power while the temporary file of its recovery reference is in the store, and
-- one that restores with the reference among the previous data.
abbrev gateway : Env ℕ Host
gateway = record relay { paths = "var/lib/tailscale" ∷ "etc/rdc-gateway" ∷ []; gateway = true }

run_gateway : World ℕ Host → Out Outcome × World ℕ Host
unfolding run_apply touch write_reference index_of
run_gateway w = apply gateway w

gateway_dies :
    targets (run_gateway (start (fine_calls 4 (before crash ∷ []))))
    ≡ (raised crash, some 10, some 1000011)
unfolding run_gateway targets
gateway_dies = refl

gateway_fails :
    targets (run_gateway (start (fine_calls 4 (before failure ∷ []))))
    ≡ (ok (restore_error (some true) false), some 10, some 11)
unfolding run_gateway targets
gateway_fails = refl

gateway_succeeds :
    targets (run_gateway (start [])) ≡ (ok restored_service_verified, some 1020, some 150001121)
unfolding run_gateway targets
gateway_succeeds = refl

apply-Truthful_example : TruthfulOnce gateway data_of (apply gateway (start dying))
apply-Truthful_example = apply-Truthful gateway data_of (start dying) (refl, λ i lt. (refl, refl))

after_crash-Consistent :
    Consistent (resources relay data_of) data_of (restored relay data_of) after_crash.disk
after_crash-Consistent =
    let (o, (p, c)) =
      subst (TruthfulOnce relay data_of) apply_dies
        (apply-Truthful relay data_of (start dying) at_rest-Fresh) in
    subst (λ x. Consistent (resources relay x) x (restored relay x) after_crash.disk)
      (Previous-unchanged relay data_of refl o p) c

recover-Truthful_example : Truthful relay data_of (recover relay (rebooted dying))
recover-Truthful_example = recover-Truthful relay data_of (rebooted dying) after_crash-Consistent

interrupted_restoration_example :
    (o : ℕ → ℕ) × (Previous relay data_of o
      × Recovered
          (resources relay o)
          o
          (restored relay o)
          previous_data_restored
          (recover relay (rebooted [])).1.disk)
interrupted_restoration_example =
    interrupted_restoration relay data_of (start dying) after_crash (rebooted [])
      (recover relay (rebooted [])).1 crash previous_data_restored at_rest-Fresh apply_dies none_yet
      recover_returns

-- A committed transaction whose first workspace is not yet cleaned up.
abbrev committed_journal : Journal
committed_journal = record {
  schema_version = 1;
  id = 7;
  ownership = "relay-1";
  paths = "etc/sc-derp" ∷ "var/lib/sc-derp" ∷ [];
  binary_sha256 = "sc-derper-1";
  original_active = ("sc-derp", true) ∷ [];
  phase = committed;
  runtime_state = "";
  source = none;
}

abbrev after_commit : World ℕ Host
after_commit = record {
  disk = record {
    slots = λ i.
        if i == 0
        then record { target = some 1020; workspace = folder (some 10) none }
        else record { target = some 1121; workspace = missing };
    marker = holds (record { schema_version = 1; transaction_id = 7 });
    journals = λ i. if i == 7 then holds committed_journal else absent;
    evidence = absent;
  };
  memory = no_journal;
  host = record { faults = fine_calls 1 (before failure ∷ []); running = false };
}

abbrev held_by : ℕ → Option ℕ
held_by i = if i == 0 then some 1020 else some 1121

after_commit-Committed : Committed relay held_by after_commit.disk
after_commit-Committed = record {
  journal = committed_journal;
  pending = record { marked = refl; written = refl; counted = refl };
  held = λ i lt. ground arith;
}

recover_after_commit : targets (run_recover after_commit) ≡ (raised failure, some 1020, some 1121)
unfolding run_recover targets
recover_after_commit = refl

Committed-is_final_example :
    Post
      (λ o d j. (o ≡ restored_service_verified) × (d.marker ≡ absent) × Targets 2 held_by d)
      (λ e d j. Targets 2 held_by d)
      (recover relay after_commit)
Committed-is_final_example = Committed-is_final relay held_by after_commit after_commit-Committed
