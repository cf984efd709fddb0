-- ===== src/Restore/Finishing.antt =====
-- The end of a settled transaction (finish): the resources stay as they are, and the marker goes.
use resilient_datacenter.Shared.{ℕ, ◌≡◌, refl, ◌⊎◌, inl, inr, Option, none, some, arith}
use resilient_datacenter.Shared.Effects.{Signal, failure}
use resilient_datacenter.Shared.Hoare.{
  Hoare, Pred, bind_rule, seq_rule, raising_rule, weaken_rule, pure_rule, call_rule, refuse_rule,
  raise_rule, reading_rule, if_rule, for_each_rule, memory_rule, write_rule,
}
use resilient_datacenter.Restore.State.{
  Phase, preparing, validating, committed, rolled_back, other_phase, Journal, Source, absent, holds,
  Stored, Evidence, Slot, Disk,
}
use resilient_datacenter.Restore.Files.{Env, cleared, unlink_marker, is_linked}
use resilient_datacenter.Restore.Rollback.{
  workspace_of, evidence_of, clean_workspace, clean_workspaces, write_evidence, record_for,
  record_evidence, finish,
}
use resilient_datacenter.Restore.Invariant.{
  Targets, the, Pending, ByPhase, Consistent, idle_original, idle_restored, pending, slot_rule,
}

cleared_target : {T : Type 0} (s s' : Slot T) → cleared s ≡ some s' → s'.target ≡ s.target
cleared_target s s' h = ground arith

module _ {T H : Type 0} where
  pub workspace_of_rule :
      {P : Pred (Disk T) Journal} {E : Signal → Pred (Disk T) Journal} (i : ℕ)
      → Hoare {H = H} P (workspace_of i) (λ t d j. P d j × ((d.slots i).workspace ≡ t)) E
  unfolding workspace_of
  workspace_of_rule i = record { at = λ w p. (p, refl) }

module _ {T H : Type 0} (env : Env T H) (count : ℕ) (p : Phase) (v : ℕ → Option T) where
  -- The journal on the disk says `p`, and the resources are as `v` says.
  abbrev pub Settled : Pred (Disk T) Journal
  Settled d j = (j.phase ≡ p) × Pending count p d j × Targets count v d

  -- The marker and the journals are what `Pending` speaks of.
  Pending-keep :
      {d : Disk T} {j : Journal} {slots : ℕ → Slot T} {evidence : Stored Evidence}
      → Pending count p d j
      → Pending count p (record d { slots = slots; evidence = evidence }) j
  Pending-keep h = record { marked = h.marked; written = h.written; counted = h.counted }

  clean_workspace-Settled :
      (i : ℕ) → Hoare Settled (clean_workspace env i) (λ _. Settled) (λ _. Settled)
  unfolding clean_workspace
  clean_workspace-Settled i = bind_rule (workspace_of_rule i) λ t.
      seq_rule (raising_rule (refuse_rule (is_linked t)) (λ e d j h. h.0)) (
        weaken_rule
          (slot_rule env i cleared
            (λ d s j h c.
              (h.0, Pending-keep h.1, λ k lt. ground (arith, h.2 k, cleared_target (d.slots i) s)))
            (λ e d j h. h) (λ e d j h. h))
          (λ d j h. h.0.0) (λ a d j h. h) (λ e d j h. h))

  clean_workspaces-Settled : Hoare Settled (clean_workspaces env) (λ _. Settled) (λ _. Settled)
  unfolding clean_workspaces
  clean_workspaces-Settled = bind_rule memory_rule λ j.
      weaken_rule (for_each_rule (λ _. Settled) 0 j.paths (λ i n. clean_workspace-Settled i))
        (λ d k h. h.0) (λ a d j h. h) (λ e d j h. h)

  write_evidence-Settled :
      (s : Source) → Hoare Settled (write_evidence env s) (λ _. Settled) (λ _. Settled)
  unfolding write_evidence
  write_evidence-Settled s = reading_rule _ λ w.
      if_rule _ (λ b. raise_rule failure)
        (λ b.
          write_rule env.disturb (λ j d. record d { evidence = holds (evidence_of env s w) })
            (λ d j h. (h.0, Pending-keep h.1, h.2)) (λ e d j h. h) (λ e d j h. h))

  record_for-Settled :
      (q : Phase) (s : Option Source)
      → Hoare Settled (record_for env q s) (λ _. Settled) (λ _. Settled)
  unfolding record_for
  record_for-Settled committed (some s) = write_evidence-Settled s
  record_for-Settled committed none = pure_rule tt
  record_for-Settled preparing s = pure_rule tt
  record_for-Settled validating s = pure_rule tt
  record_for-Settled rolled_back s = pure_rule tt
  record_for-Settled (other_phase x) s = pure_rule tt

  record_evidence-Settled : Hoare Settled (record_evidence env) (λ _. Settled) (λ _. Settled)
  unfolding record_evidence
  record_evidence-Settled = reading_rule _ λ w. record_for-Settled w.memory.phase w.memory.source

  -- At rest, with the resources as `v` says.
  abbrev pub Closed : Pred (Disk T) Journal
  Closed d j = (j.phase ≡ p) × (d.marker ≡ absent) × Targets count v d

  unlink-Closed :
      Hoare Settled (unlink_marker env) (λ _. Closed) (λ _ d j. Settled d j ⊎ Closed d j)
  unfolding unlink_marker
  unlink-Closed =
      write_rule env.disturb (λ j d. record d { marker = absent }) (λ d j h. (h.0, refl, h.2))
        (λ e d j h. inl h) (λ e d j h. inr h)

  -- finish leaves the resources alone, and ends with no pending marker.
  pub finish-Closed : Hoare Settled (finish env) (λ _. Closed) (λ _ d j. Settled d j ⊎ Closed d j)
  unfolding finish
  finish-Closed = seq_rule (raising_rule (call_rule env.finish_validation) (λ e d j h. inl h)) (
      seq_rule (raising_rule (call_rule env.release) (λ e d j h. inl h)) (
        seq_rule (raising_rule clean_workspaces-Settled (λ e d j h. inl h))
          (seq_rule (raising_rule record_evidence-Settled (λ e d j h. inl h)) unlink-Closed)))

module _ {T H : Type 0} (env : Env T H) (count : ℕ) (original : ℕ → T)
    (candidate : ℕ → Option T) where
  pub Pending-as :
      (p : Phase) (d : Disk T) (j : Journal)
      → Pending count p d j
      → ByPhase count original candidate p d
      → Consistent count original candidate d
  Pending-as p d j h b =
      pending (record j { phase = p })
        (record { marked = h.marked; written = h.written; counted = h.counted }) b

  pub rolled_back-Consistent :
      (d : Disk T) (j : Journal)
      → Settled env count rolled_back (the original) d j
        ⊎ Closed env count rolled_back (the original) d j
      → Consistent count original candidate d
  rolled_back-Consistent d j (inl h) = Pending-as rolled_back d j h.1 h.2
  rolled_back-Consistent d j (inr h) = idle_original h.1 h.2

  pub committed-Consistent :
      (d : Disk T) (j : Journal)
      → Settled env count committed candidate d j ⊎ Closed env count committed candidate d j
      → Consistent count original candidate d
  committed-Consistent d j (inl h) = Pending-as committed d j h.1 h.2
  committed-Consistent d j (inr h) = idle_restored h.1 h.2
