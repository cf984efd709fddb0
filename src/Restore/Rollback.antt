-- ===== src/Restore/Rollback.antt =====
-- clean_workspaces, finish and rollback of scripts/restore_transaction.py, and the loops that they
-- share with apply. An index of `paths` stands for its resource and its workspace.
use resilient_datacenter.Shared.{
  ℕ, String, Bool, true, false, not, ◌||◌, Option, none, some, List, str_eq, any, if◌then◌else◌,
}
use resilient_datacenter.Shared.Effects.{failure, ok, Done, pure, raise, refuse_if, ◌>>=◌, ◌>>◌}
use resilient_datacenter.Shared.Maintenance.{
  call, file_op, for_each, for_each_reversed, for_all, for_all_reversed, memory,
}
use resilient_datacenter.Restore.State.{
  Phase, preparing, validating, committed, rolled_back, other_phase, Source, Stored, absent, unsafe,
  holds, Evidence, Workspace, World, Action,
}
use resilient_datacenter.Restore.Files.{
  Env, slot_op, save, unlink_marker, set_phase, removed, brought_back, cleared, has_old, is_linked,
}

module _ {T H : Type 0} where
  unfoldable pub workspace_of : ℕ → Action T H (Workspace T)
  workspace_of i w = (ok (w.disk.slots i).workspace, w)

module _ {T H : Type 0} (env : Env T H) where
  -- the body of the loop of clean_workspaces; a missing workspace is left alone
  unfoldable pub clean_workspace : ℕ → Action T H Done
  clean_workspace i = do
    temporary ← workspace_of i
    refuse_if (is_linked temporary)
    slot_op env i cleared

  unfoldable pub clean_workspaces : Action T H Done
  clean_workspaces = do journal ← memory; for_each 0 journal.paths (λ i n. clean_workspace i)

  -- record(root, journal) of scripts/restore_evidence.py
  unfoldable pub evidence_of : Source → World T H → Evidence
  evidence_of source w = record {
    transaction_id = w.memory.id;
    ownership = w.memory.ownership;
    source = source;
    completed_at = env.clock w.host;
    binary_sha256 = w.memory.binary_sha256;
  }

  unfoldable pub readable_evidence : Stored Evidence → Bool
  readable_evidence absent = true
  readable_evidence unsafe = false
  readable_evidence (holds e) = env.valid_evidence e

  unfoldable pub write_evidence : Source → Action T H Done
  write_evidence source w =
      (if not (env.valid_source source)
            || not (env.valid_evidence (evidence_of source w))
            || not (readable_evidence w.disk.evidence)
          then raise failure
          else file_op env.disturb
              (λ d. some (record d { evidence = holds (evidence_of source w) })))
        w

  unfoldable pub record_for : Phase → Option Source → Action T H Done
  record_for committed (some source) = write_evidence source
  record_for committed none = pure tt
  record_for preparing source = pure tt
  record_for validating source = pure tt
  record_for rolled_back source = pure tt
  record_for (other_phase p) source = pure tt

  unfoldable pub record_evidence : Action T H Done
  record_evidence w = record_for w.memory.phase w.memory.source w

  unfoldable pub finish : Action T H Done
  finish = do
    call env.finish_validation
    call env.release
    clean_workspaces
    record_evidence
    unlink_marker env

  -- the body of the first loop of rollback
  unfoldable pub put_back : ℕ → Action T H Done
  put_back i = do
    temporary ← workspace_of i
    refuse_if (is_linked temporary)
    if has_old temporary then slot_op env i removed >> slot_op env i brought_back else pure tt

  -- `for name,active in reversed(original_active): if active: runtime.start(name)`
  unfoldable pub restart_active : List (String × Bool) → Action T H Done
  restart_active services =
      for_all_reversed services
        (λ (entry : String × Bool). if entry.1 then call (env.start entry.0) else pure tt)

  unfoldable pub verify_if_any : List (String × Bool) → Action T H Done
  verify_if_any services = if any (λ e. e.1) services then call env.verify else pure tt

  unfoldable pub check_components : Action T H Done
  check_components w =
      refuse_if (not (str_eq (env.component_hashes w.host) w.memory.binary_sha256)) w

  unfoldable pub rollback : Action T H Done
  rollback = do
    for_all env.services (λ name. call (env.stop name))
    journal ← memory
    for_each_reversed 0 journal.paths (λ i n. put_back i)
    check_components
    call env.allow_validation
    restart_active journal.original_active
    verify_if_any journal.original_active
    set_phase rolled_back
    save env
    finish
