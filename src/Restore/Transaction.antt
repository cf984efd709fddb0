-- ===== src/Restore/Transaction.antt =====
-- apply and recover of scripts/restore_transaction.py.
use resilient_datacenter.Shared.{
  ℕ, String, Bool, true, false, ◌&&◌, Option, none, some, List, [], ◌∷◌, str_eq, map, same_texts,
  same_set, ◌==◌, if◌then◌else◌,
}
use resilient_datacenter.Shared.Effects.{
  failure, interrupt, crash, Out, ok, raised, Done, pure, raise, refuse_if, ◌>>=◌, ◌>>◌,
}
use resilient_datacenter.Shared.Maintenance.{
  call, cleaned_up, file_op, for_each, for_all, for_all_reversed, memory,
}
use resilient_datacenter.Restore.State.{
  Phase, preparing, validating, committed, rolled_back, other_phase, Journal, Source, Stored, holds,
  Marker, Workspace, folder, Action,
}
use resilient_datacenter.Restore.Files.{
  Env, gateway_store, on_target, slot_op, save, write_marker, set_phase, made, copied, set_aside,
  promoted,
}
use resilient_datacenter.Restore.Rollback.{
  rollback, finish, check_components, restart_active, verify_if_any,
}
use resilient_datacenter.Restore.Plan.{plan}

-- How a call ends that is not stopped: with the `state` of the returned dictionary, or by raising
-- RestoreError(recovered, committed=committed).
pub data Outcome : Type 0 where
  restored_service_verified previous_data_restored : Outcome
  restore_error : Option Bool → Bool → Outcome

module _ {T H : Type 0} (env : Env T H) where
  unfoldable pub write_candidate : ℕ → Option T → Action T H Done
  write_candidate i none w = (raised failure, w)
  write_candidate i (some t) w = slot_op env i (copied t) w

  unfoldable pub retained : ℕ → Option T → Workspace T → Action T H Done
  retained i (some current) (folder o (some candidate)) w =
      write_candidate i (env.retain i current candidate) w
  retained i _ _ w = (raised failure, w)

  -- retain_current_settings(root, name, temporary/'new', owner)
  unfoldable pub retain_current_settings : ℕ → Action T H Done
  retain_current_settings i w = retained i (w.disk.slots i).target (w.disk.slots i).workspace w

  -- The body of the first loop of apply. A copy that is stopped may be partial.
  unfoldable pub prepare_candidate : ℕ → String → Action T H Done
  prepare_candidate i n = do
    slot_op env i made
    slot_op env i (copied (env.partial i))
    slot_op env i (copied (env.staged i))
    retain_current_settings i
    call (env.permissions n)
    file_op env.disturb (λ d. some d)

  unfoldable pub stop_service : String → Action T H Done
  stop_service n = do call (env.stop n); active ← call (env.is_active n); refuse_if active

  -- The body of the second loop of apply.
  unfoldable pub swap : ℕ → Action T H Done
  swap i = slot_op env i set_aside >> slot_op env i promoted

  unfoldable pub start_service : String → Action T H Done
  start_service n =
      (if str_eq n "rdc-synapse" then call env.prepare_restored_application else pure tt)
      >> call (env.start n)

  -- One step of private_write in the gateway's store.
  unfoldable pub touch : (H → T → T) → Action T H Done
  touch f w = slot_op env (gateway_store env) (on_target (f w.host)) w

  -- write_reference of scripts/gateway_recovery.py, with the finally of private_write
  unfoldable pub write_reference : Action T H Done
  write_reference w =
      let (r, w') = (touch env.begun >> touch env.referenced) w in
      cleaned_up r (touch env.tidied) w'

  unfoldable pub begin_gateway_restore : Action T H Done
  begin_gateway_restore =
      if env.gateway
      then call env.begin_restore >> (write_reference >> call env.close_gateway)
      else pure tt

  -- From the copying of the candidates on.
  unfoldable pub promote_data : Action T H Outcome
  promote_data = do
    journal ← memory
    for_each 0 journal.paths prepare_candidate
    for_all env.services stop_service
    for_each 0 journal.paths (λ i n. swap i)
    set_phase validating
    save env
    check_components env
    call env.allow_validation
    for_all_reversed env.services start_service
    call env.verify
    set_phase committed
    save env
    finish env
    pure restored_service_verified

  -- The body of apply's `try`, after the isolation.
  unfoldable pub promote : Action T H Outcome
  promote = begin_gateway_restore >> promote_data

  -- The end of apply's `except Exception`, after the rollback.
  unfoldable pub rolled : Out Done → Action T H Outcome
  rolled (ok _) w = (ok (restore_error (some true) false), w)
  rolled (raised crash) w = (raised crash, w)
  rolled (raised interrupt) w = (raised interrupt, w)
  rolled (raised failure) w =
      (call env.finish_validation >> pure (restore_error (some false) false)) w

  unfoldable pub attend : Bool → Phase → Action T H Outcome
  attend isolated committed w = (ok (restore_error none true), w)
  attend false _ w = (ok (restore_error (some false) false), w)
  attend true _ w = let (r, w') = rollback env w in rolled r w'

  -- apply's `except` clauses
  unfoldable pub settle : Bool → Out Outcome → Action T H Outcome
  settle isolated (ok a) w = (ok a, w)
  settle isolated (raised crash) w = (raised crash, w)
  settle isolated (raised interrupt) w = (call env.finish_validation >> raise interrupt) w
  settle isolated (raised failure) w = attend isolated w.memory.phase w

  unfoldable pub isolated_run : Out Done → Action T H Outcome
  isolated_run (ok _) w = let (r, w') = promote w in settle true r w'
  isolated_run (raised e) w = settle false (raised e) w

  unfoldable pub guarded : Action T H Outcome
  guarded w = let (r, w') = call env.isolate w in isolated_run r w'

  -- original = {name: runtime.is_active(name) for name in services}
  unfoldable pub original_state : List String → Action T H (List (String × Bool))
  original_state [] = pure []
  original_state (n ∷ ns) = do
    active ← call (env.is_active n)
    rest ← original_state ns
    pure ((n, active) ∷ rest)

  unfoldable pub new_journal : List (String × Bool) → String → H → Journal
  new_journal original state h = record {
    schema_version = 1;
    id = env.new_id h;
    ownership = env.ownership;
    paths = env.paths;
    binary_sha256 = env.snapshot_hashes;
    original_active = original;
    phase = preparing;
    runtime_state = state;
    source = some env.captured;
  }

  unfoldable pub set_journal : List (String × Bool) → String → Action T H Done
  set_journal original state w = (ok tt, record w { memory = new_journal original state w.host })

  unfoldable pub announce : Action T H Done
  announce w = let (r, w') = (save env >> write_marker env) w in cleaned_up r (call env.release) w'

  unfoldable pub apply : Action T H Outcome
  apply = do
    plan env
    original ← original_state env.services
    file_op env.disturb (λ d. some d)
    state ← call (env.prepare none)
    set_journal original state
    announce
    guarded

  unfoldable pub known_phase : Phase → Bool
  known_phase (other_phase p) = false
  known_phase preparing = true
  known_phase validating = true
  known_phase committed = true
  known_phase rolled_back = true

  -- the test of recover on the journal that the marker names
  unfoldable pub belongs : ℕ → Journal → H → Bool
  belongs id j h =
      j.schema_version == 1
      && j.id == id
      && str_eq j.ownership env.ownership
      && same_texts j.paths env.paths
      && known_phase j.phase
      && same_set (map (λ (e : String × Bool). e.0) j.original_active) env.services
      && str_eq (env.component_hashes h) j.binary_sha256

  unfoldable pub source_valid : Option Source → Bool
  source_valid none = true
  source_valid (some s) = env.valid_source s

  unfoldable pub load_journal : ℕ → Stored Journal → Action T H Journal
  load_journal id (holds j) w =
      if belongs id j w.host && source_valid j.source
      then (ok j, record w { memory = j })
      else (raised failure, w)
  load_journal id _ w = (raised failure, w)

  unfoldable pub read_pending : Stored Marker → Action T H Journal
  read_pending (holds m) w =
      if m.schema_version == 1
      then load_journal m.transaction_id (w.disk.journals m.transaction_id) w
      else (raised failure, w)
  read_pending _ w = (raised failure, w)

  unfoldable pub pending_journal : Action T H Journal
  pending_journal w = read_pending w.disk.marker w

  -- What recover does once the node is isolated, by the phase of the journal.
  unfoldable pub resume : Phase → Journal → Action T H Outcome
  resume rolled_back journal = do
    call env.allow_validation
    restart_active env journal.original_active
    verify_if_any env journal.original_active
    finish env
    pure previous_data_restored
  resume committed journal = do
    call env.allow_validation
    for_all_reversed env.services (λ n. call (env.start n))
    call env.verify
    finish env
    pure restored_service_verified
  resume _ journal = rollback env >> pure previous_data_restored

  unfoldable pub recover : Action T H Outcome
  recover = do
    journal ← pending_journal
    call (env.prepare (some journal.runtime_state))
    call env.isolate
    call env.finish_validation
    resume journal.phase journal
