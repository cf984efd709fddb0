-- ===== src/Upgrade/Transaction.antt =====
-- save, pending, finish, rollback, apply and recover of scripts/upgrade_transaction.py.
use resilient_datacenter.Shared.{
  ℕ, Bool, true, false, not, ◌&&◌, ◌||◌, ◌==◌, Option, none, some, if◌then◌else◌,
}
use resilient_datacenter.Shared.Effects.{
  failure, interrupt, crash, Out, ok, raised, Done, pure, raise, refuse_if, ◌>>=◌, ◌>>◌,
}
use resilient_datacenter.Shared.Maintenance.{call, file_op, memory, cleaned_up}
use resilient_datacenter.Shared.Stored.{Stored, absent, unsafe, holds, Marker, put}
use resilient_datacenter.Upgrade.State.{
  Phase, preparing, migrating, committed, rolled_back, other_phase, Snapshot, Plan, Journal,
  Verdict, upgraded_service_verified, previous_version_restored, Result, Operation, prepare,
  quiesce, snapshot, stage, isolate, migrate, restore_original, publish, clean, freeze, verify,
  Disk, World, Action, Env, ask,
}
use resilient_datacenter.Upgrade.Journals.{valid_snapshot, valid_journal, readable_result}

-- How a call ends that is not stopped: with the result, or by raising
-- UpgradeError(recovered, committed=committed).
pub data Outcome : Type 0 where
  result : Verdict → Outcome
  upgrade_error : Option Bool → Bool → Outcome

abbrev pub is_present : {A : Type 0} → Stored A → Bool
is_present absent = false
is_present unsafe = true
is_present (holds a) = true

-- whether the phase lets finish publish, and the state that it then reports
abbrev pub verdict_of : Phase → Option Verdict
verdict_of committed = some upgraded_service_verified
verdict_of rolled_back = some previous_version_restored
verdict_of preparing = none
verdict_of migrating = none
verdict_of (other_phase p) = none

abbrev pub unlinked : Disk → Option Disk
unlinked d = if is_present d.marker then some (record d { marker = absent }) else none

module _ {H : Type 0} where
  abbrev pub set_phase : Phase → Action H Done
  set_phase p w = (ok tt, record w { memory = record w.memory { phase = p } })

  abbrev pub set_snapshot : Snapshot → Action H Done
  set_snapshot s w = (ok tt, record w { memory = record w.memory { snapshot = some s } })

  abbrev pub load : Journal → Action H Done
  load j w = (ok tt, record w { memory = j })

module _ {H : Type 0} (env : Env H) where
  -- backend.operation(journal)
  unfoldable pub perform : Operation → Action H Done
  perform o = ask o (env.backend o)

  unfoldable pub write_journal : Action H Done
  write_journal w =
      file_op env.disturb
        (λ d. some (record d { journals = put w.memory.id (holds w.memory) d.journals })) w

  unfoldable pub save : Action H Done
  save = do journal ← memory; refuse_if (not (valid_journal env journal)); write_journal

  unfoldable pub write_marker : Action H Done
  write_marker w =
      file_op env.disturb
        (λ d. some (record d {
          marker = holds (record { schema_version = 1; transaction_id = w.memory.id });
        }))
        w

  unfoldable pub result_of : Verdict → World H → Result
  result_of v w = record {
    schema_version = 1;
    transaction_id = w.memory.id;
    state = v;
    snapshot = w.memory.snapshot;
    completed_at = some (env.now w.host);
    user_operation = "not-recorded";
  }

  unfoldable pub write_result : Verdict → Action H Done
  write_result v w =
      (if readable_result w.disk.result
          then file_op env.disturb (λ d. some (record d { result = holds (result_of v w) }))
          else raise failure)
        w

  -- (root/PENDING).unlink()
  unfoldable pub unlink_marker : Action H Done
  unlink_marker = file_op env.disturb unlinked

  unfoldable pub finish_as : Option Verdict → Action H Verdict
  finish_as none = raise failure
  finish_as (some v) = do perform publish; perform clean; write_result v; unlink_marker; pure v

  unfoldable pub finish : Action H Verdict
  finish = do journal ← memory; finish_as (verdict_of journal.phase)

  unfoldable pub rollback : Action H Verdict
  rollback = do perform restore_original; perform (verify true); set_phase rolled_back; save; finish

  -- validate_snapshot(journal['snapshot'], started_at=journal['started_at'])
  unfoldable pub check_snapshot : Snapshot → Action H Done
  check_snapshot s w = refuse_if (not (valid_snapshot (env.now w.host) w.memory.started_at s)) w

  -- The end of the body of apply's `try`, from the verified snapshot on.
  unfoldable pub seal : Action H Verdict
  seal = do
    set_phase migrating
    save
    perform stage
    perform isolate
    perform migrate
    perform (verify false)
    set_phase committed
    save
    finish

  -- The body of apply's `try`.
  unfoldable pub upgrade : Action H Verdict
  upgrade = do
    perform prepare
    perform quiesce
    taken ← ask snapshot env.take_snapshot
    set_snapshot taken
    check_snapshot taken
    seal

  -- The end of apply's `except Exception`, after the rollback.
  unfoldable pub rolled : Out Verdict → Action H Outcome
  rolled (ok v) = pure (upgrade_error (some true) false)
  rolled (raised failure) = perform freeze >> pure (upgrade_error (some false) false)
  rolled (raised interrupt) = raise interrupt
  rolled (raised crash) = raise crash

  unfoldable pub attempt_rollback : Action H Outcome
  attempt_rollback w = let (r, w') = rollback w in rolled r w'

  unfoldable pub attend : Phase → Action H Outcome
  attend committed = perform freeze >> pure (upgrade_error none true)
  attend preparing = attempt_rollback
  attend migrating = attempt_rollback
  attend rolled_back = attempt_rollback
  attend (other_phase p) = attempt_rollback

  -- apply's `except` clauses
  unfoldable pub settle : Out Verdict → Action H Outcome
  settle (ok v) w = (ok (result v), w)
  settle (raised failure) w = attend w.memory.phase w
  settle (raised interrupt) w = (perform freeze >> raise interrupt) w
  settle (raised crash) w = (raised crash, w)

  unfoldable pub guarded : Action H Outcome
  guarded w = let (r, w') = upgrade w in settle r w'

  unfoldable pub new_journal : Plan → H → Journal
  new_journal plan h = record {
    schema_version = 1;
    id = env.new_id h;
    phase = preparing;
    started_at = some (env.now h);
    snapshot = none;
    plan = plan;
  }

  unfoldable pub start_journal : Plan → Action H Done
  start_journal plan w = load (new_journal plan w.host) w

  unfoldable pub refuse_pending : Action H Done
  refuse_pending w = refuse_if (is_present w.disk.marker || w.disk.restore_pending) w

  unfoldable pub apply : Plan → Action H Outcome
  apply plan = do
    refuse_if (not (env.valid_plan plan))
    refuse_pending
    call env.directories
    start_journal plan
    save
    write_marker
    guarded

  unfoldable pub load_journal : ℕ → Stored Journal → Action H Done
  load_journal id (holds j) = if valid_journal env j && (j.id == id) then load j else raise failure
  load_journal id absent = raise failure
  load_journal id unsafe = raise failure

  unfoldable pub read_pending : Stored Marker → Action H Done
  read_pending (holds m) w =
      (if m.schema_version == 1
          then load_journal m.transaction_id (w.disk.journals m.transaction_id)
          else raise failure)
        w
  read_pending absent w = (raised failure, w)
  read_pending unsafe w = (raised failure, w)

  unfoldable pub pending : Action H Done
  pending w = read_pending w.disk.marker w

  unfoldable pub refuse_restore : Action H Done
  refuse_restore w = refuse_if w.disk.restore_pending w

  unfoldable pub reverify : Bool → Action H Verdict
  reverify original = do perform isolate; perform (verify original); finish

  unfoldable pub resume : Phase → Action H Verdict
  resume committed = reverify false
  resume rolled_back = reverify true
  resume preparing = rollback
  resume migrating = rollback
  resume (other_phase p) = rollback

  -- The body of recover's `try`.
  unfoldable pub proceed_from : Action H Verdict
  proceed_from = do perform prepare; journal ← memory; resume journal.phase

  unfoldable pub guarded_recovery : Action H Verdict
  guarded_recovery w = let (r, w') = proceed_from w in cleaned_up r (perform freeze) w'

  unfoldable pub recover : Action H Verdict
  recover = do pending; refuse_restore; guarded_recovery
