-- ===== src/Upgrade/Tests.antt =====
-- A node whose application is upgraded under chosen faults.
use resilient_datacenter.Shared.{
  ℕ, zero, suc, ◌≡◌, refl, subst, ◌⊎◌, true, false, none, some, List, [], ◌∷◌,
}
use resilient_datacenter.Shared.Effects.{failure, interrupt, crash, Out, ok, raised, Done}
use resilient_datacenter.Shared.Hoare.{Post}
use resilient_datacenter.Shared.Maintenance.{
  Fault, none_now, before, call, cleaned_up, land, file_op, memory,
}
use resilient_datacenter.Shared.Stored.{absent}
use resilient_datacenter.Upgrade.State.{
  preparing, committed, Snapshot, Plan, Journal, Verdict, upgraded_service_verified,
  previous_version_restored, restore_original, Disk, World, Env, ask,
}
use resilient_datacenter.Upgrade.Journals.{valid_journal}
use resilient_datacenter.Upgrade.Transaction.{
  Outcome, result, upgrade_error, perform, write_journal, save, write_marker, result_of,
  write_result, unlink_marker, finish_as, finish, rollback, check_snapshot, seal, upgrade, rolled,
  attempt_rollback, attend, settle, guarded, new_journal, start_journal, refuse_pending, apply,
  load_journal, read_pending, pending, refuse_restore, reverify, resume, proceed_from,
  guarded_recovery, recover,
}
use resilient_datacenter.Upgrade.Invariant.{new, version, Consistent}
use resilient_datacenter.Upgrade.Answering.{Answered, Served, Fresh}
use resilient_datacenter.Upgrade.Safety.{
  apply-Answered, recover-Served, none_yet, interrupted_upgrade,
}
use resilient_datacenter.Upgrade.Finality.{Committed, Committed-upgrade_is_final}
use resilient_datacenter.Upgrade.Freezing.{Frozen, recover-Frozen}

-- The faults of the file system and the outcomes of the backend that are to come.
record Host : Type 0 where
  faults : List Fault
  outcomes : List (Out Done)

take_fault : List Fault → List (Out Done) → Fault × Host
take_fault [] os = (none_now, record { faults = []; outcomes = os })
take_fault (f ∷ fs) os = (f, record { faults = fs; outcomes = os })

take_outcome : List (Out Done) → List Fault → Out Done × Host
take_outcome [] fs = (ok tt, record { faults = fs; outcomes = [] })
take_outcome (o ∷ os) fs = (o, record { faults = fs; outcomes = os })

abbrev taken : Snapshot
taken = record {
  id = "0123456789abcdef0123456789abcdef0123456789abcdef0123456789abcdef";
  captured_at = some 1500;
}

abbrev node : Env Host
node = record {
  disturb = λ h. take_fault h.faults h.outcomes;
  valid_plan = λ p. true;
  directories = λ d h. (ok tt, h);
  new_id = λ h. 5;
  now = λ h. 1500;
  backend = λ o j d h. take_outcome h.outcomes h.faults;
  take_snapshot = λ j d h. (ok taken, h);
}

abbrev plan : Plan
plan = record { source_owner = "matrix-1"; target_owner = "matrix-2"; source_hashes = [] }

abbrev no_journal : Journal
no_journal = record {
  schema_version = 0;
  id = 0;
  phase = preparing;
  started_at = none;
  snapshot = none;
  plan = plan;
}

abbrev at_rest : Disk
at_rest = record {
  marker = absent;
  restore_pending = false;
  journals = λ i. absent;
  result = absent;
  calls = [];
}

abbrev start : List Fault → List (Out Done) → World Host
start fs os = record {
  disk = at_rest;
  memory = no_journal;
  host = record { faults = fs; outcomes = os };
}

abbrev fine_calls : ℕ → List (Out Done) → List (Out Done)
fine_calls zero os = os
fine_calls (suc n) os = ok tt ∷ fine_calls n os

abbrev fine_writes : ℕ → List Fault → List Fault
fine_writes zero fs = fs
fine_writes (suc n) fs = none_now ∷ fine_writes n fs

-- `apply` and `recover` with everything that they call open to computation.
run_apply : World Host → Out Outcome × World Host
unfolding apply refuse_pending start_journal new_journal save write_journal write_marker guarded
    settle attend attempt_rollback rolled upgrade check_snapshot seal rollback finish finish_as
    write_result result_of unlink_marker perform ask valid_journal memory call file_op land
    take_fault take_outcome
run_apply w = apply node plan w

run_recover : World Host → Out Verdict × World Host
unfolding run_apply recover pending read_pending load_journal refuse_restore guarded_recovery
    proceed_from resume reverify cleaned_up
run_recover w = recover node w

apply_succeeds : (run_apply (start [] [])).0 ≡ ok (result upgraded_service_verified)
unfolding run_apply
apply_succeeds = refl

-- The fifth call of the backend is migrate.
migration_fails :
    (run_apply (start [] (fine_calls 4 (raised failure ∷ [])))).0
    ≡ ok (upgrade_error (some true) false)
unfolding run_apply
migration_fails = refl

-- The new version is verified, but the journal cannot be written: apply answers that it is committed,
-- and recover restores the previous version.
abbrev uncommitted : World Host
uncommitted = start (fine_writes 3 (before failure ∷ [])) []

apply_claims_commit : (run_apply uncommitted).0 ≡ ok (upgrade_error none true)
unfolding run_apply
apply_claims_commit = refl

recover_reverts : (run_recover (run_apply uncommitted).1).0 ≡ ok previous_version_restored
unfolding run_recover
recover_reverts = refl

-- The rollback of a failed migration is interrupted: apply does not call freeze.
interrupted_rollback :
    (run_apply (start [] (fine_calls 4 (raised failure ∷ raised interrupt ∷ [])))).1.disk.calls
    ≡ record { operation = restore_original; returned = false }
      ∷ (run_apply (start [] (fine_calls 4 (raised crash ∷ [])))).1.disk.calls
unfolding run_apply
interrupted_rollback = refl

-- The process dies during the migration.
abbrev dying : List (Out Done)
dying = fine_calls 4 (raised crash ∷ [])

abbrev after_crash : World Host
after_crash = (apply node plan (start [] dying)).1

apply_dies : apply node plan (start [] dying) ≡ (raised crash, after_crash)
unfolding run_apply
apply_dies = refl

-- A new process knows nothing but the disk.
abbrev rebooted : List (Out Done) → World Host
rebooted os = record {
  disk = after_crash.disk;
  memory = no_journal;
  host = record { faults = []; outcomes = os };
}

recover_returns :
    recover node (rebooted []) ≡ (ok previous_version_restored, (recover node (rebooted [])).1)
unfolding run_recover
recover_returns = refl

at_rest-Fresh : Fresh node at_rest
at_rest-Fresh = (refl, refl)

abbrev Truthful : Out Outcome × World Host → Type 0
Truthful = Post (Answered node) (λ e d j. Consistent node d)

apply-Answered_example : Truthful (apply node plan (start [] dying))
apply-Answered_example = apply-Answered node plan (start [] dying) at_rest-Fresh

recover-Served_example :
    Post (Served node) (λ e d j. Consistent node d) (recover node (rebooted dying))
recover-Served_example =
    recover-Served node (rebooted dying) (subst Truthful apply_dies apply-Answered_example)

interrupted_upgrade_example :
    Served node previous_version_restored
      (recover node (rebooted [])).1.disk
      (recover node (rebooted [])).1.memory
interrupted_upgrade_example =
    interrupted_upgrade node plan (start [] dying) after_crash (rebooted [])
      (recover node (rebooted [])).1 crash previous_version_restored at_rest-Fresh apply_dies
      none_yet recover_returns

-- publish fails after the commit.
abbrev after_commit : Disk
after_commit = (apply node plan (start [] (fine_calls 6 (raised crash ∷ [])))).1.disk

abbrev unpublished : World Host
unpublished = record {
  disk = after_commit;
  memory = no_journal;
  host = record { faults = []; outcomes = fine_calls 2 (raised failure ∷ []) };
}

after_commit-Committed : Committed node after_commit
unfolding run_apply
after_commit-Committed = record {
  marker = record { schema_version = 1; transaction_id = 5 };
  journal = record {
    schema_version = 1;
    id = 5;
    phase = committed;
    started_at = some 1500;
    snapshot = some taken;
    plan = plan;
  };
  marked = refl;
  written = refl;
  safe = λ b. (refl, refl);
  phase = refl;
  migrated = refl;
}

recover_after_commit : (run_recover unpublished).0 ≡ raised failure
unfolding run_recover
recover_after_commit = refl

Committed-upgrade_is_final_example :
    Post
      (λ v d j. (v ≡ upgraded_service_verified) × (d.marker ≡ absent) × (version d.calls ≡ new))
      (λ e d j. version d.calls ≡ new)
      (recover node unpublished)
Committed-upgrade_is_final_example =
    Committed-upgrade_is_final node unpublished after_commit-Committed

recover-Frozen_example :
    Post
      (λ (v : Verdict) d j. Unit {0})
      (λ e d j. (e ≡ crash) ⊎ (d.calls ≡ unpublished.disk.calls) ⊎ Frozen d.calls)
      (recover node unpublished)
recover-Frozen_example = recover-Frozen node unpublished
