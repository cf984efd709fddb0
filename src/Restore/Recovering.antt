-- ===== src/Restore/Recovering.antt =====
-- recover, from any consistent disk: it finishes what the journal on the disk had decided.
use resilient_datacenter.Shared.{
  ℕ, ◌≡◌, refl, sym, subst, ap, inl, true, false, Option, none, some, arith,
}
use resilient_datacenter.Shared.Effects.{Signal, pure, ◌>>◌}
use resilient_datacenter.Shared.Hoare.{
  Hoare, Pred, bind_rule, seq_rule, raising_rule, weaken_rule, return_rule, call_rule,
}
use resilient_datacenter.Restore.State.{
  Phase, preparing, validating, committed, rolled_back, other_phase, Journal, absent, holds, Marker,
  Disk,
}
use resilient_datacenter.Restore.Files.{Env}
use resilient_datacenter.Restore.Rollback.{rollback}
use resilient_datacenter.Restore.Transaction.{
  Outcome, restored_service_verified, previous_data_restored, restore_error, pending_journal,
  resume, recover,
}
use resilient_datacenter.Restore.Invariant.{
  Kept, AllKept, Targets, the, Pending, Under, ByPhase, Consistent, idle_original, idle_restored,
  pending,
}
use resilient_datacenter.Restore.Finishing.{
  Settled, finish-Closed, rolled_back-Consistent, committed-Consistent,
}
use resilient_datacenter.Restore.Loading.{pending_journal_rule, committed_rule}
use resilient_datacenter.Restore.RollingBack.{
  restart_active_rule, verify_if_any_rule, rollback-Original,
}

module _ {T : Type 0} (count : ℕ) (original : ℕ → T) (candidate : ℕ → Option T) where
  -- What the answer of apply or recover says of the disk.
  abbrev pub Recovered : Outcome → Disk T → Type 0
  Recovered previous_data_restored d = (d.marker ≡ absent) × Targets count (the original) d
  Recovered restored_service_verified d = (d.marker ≡ absent) × Targets count candidate d
  Recovered (restore_error (some true) c) d = (d.marker ≡ absent) × Targets count (the original) d
  Recovered (restore_error (some false) c) d = Consistent count original candidate d
  Recovered (restore_error none c) d = Consistent count original candidate d

module _ {T H : Type 0} (env : Env T H) (count : ℕ) (original : ℕ → T)
    (candidate : ℕ → Option T) where
  abbrev Sound : Signal → Pred (Disk T) Journal
  Sound e d j = Consistent count original candidate d

  -- The journal in memory is the one on the disk.
  abbrev Loaded : Journal → Pred (Disk T) Journal
  Loaded a d j = (j ≡ a) × Pending count j.phase d j × ByPhase count original candidate j.phase d

  Loaded-Consistent :
      (a : Journal) (d : Disk T) (j : Journal)
      → Loaded a d j
      → Consistent count original candidate d
  Loaded-Consistent a d j h = pending j h.1 h.2

  -- A consistent disk holds one pending journal, and this is it.
  the_pending :
      (d : Disk T) (m : Marker) (j : Journal)
      → d.marker ≡ holds m
      → d.journals m.transaction_id ≡ holds j
      → Consistent count original candidate d
      → Loaded j d j
  the_pending d m j marked stored (idle_original e _) = cc
  the_pending d m j marked stored (idle_restored e _) = cc
  the_pending d m j marked stored (pending k p b) =
      let same : k ≡ j = ground (arith, marked, stored, p.marked, p.written) in
      subst (λ x. Loaded x d x) same (refl, p, b)

  pending_journal-Loaded :
      Hoare (λ d j. Consistent count original candidate d) (pending_journal env) Loaded Sound
  pending_journal-Loaded =
      pending_journal_rule env (Consistent count original candidate) Loaded the_pending

  rolled_back-resume :
      (a : Journal)
      → Hoare
          (Settled env count rolled_back (the original))
          (resume env rolled_back a)
          (λ o d j. Recovered count original candidate o d)
          Sound
  unfolding resume
  rolled_back-resume a = seq_rule (raising_rule (call_rule env.allow_validation) settled) (
      seq_rule (restart_active_rule env a.original_active settled) (
        seq_rule (verify_if_any_rule env a.original_active settled) (
          seq_rule
            (weaken_rule (finish-Closed env count rolled_back (the original)) (λ d j h. h)
              (λ a d j h. (h.1, h.2))
              (λ e d j h. rolled_back-Consistent env count original candidate d j h))
            (return_rule previous_data_restored))))
    where
      settled :
          (e : Signal) (d : Disk T) (j : Journal)
          → Settled env count rolled_back (the original) d j
          → Consistent count original candidate d
      settled e d j h = rolled_back-Consistent env count original candidate d j (inl h)

  committed-resume :
      (a : Journal)
      → Hoare
          (Settled env count committed candidate)
          (resume env committed a)
          (λ o d j. Recovered count original candidate o d)
          Sound
  committed-resume a =
      weaken_rule
        (committed_rule env count candidate
          (λ e d j h. committed-Consistent env count original candidate d j h) a)
        (λ d j h. h)
        (λ o d j h. subst (λ x. Recovered count original candidate x d) (sym h.0) (h.1, h.2))
        (λ e d j h. h)

  rollback-resume :
      (p : Phase)
      → ((d : Disk T) → AllKept count original d → ByPhase count original candidate p d)
      → Hoare
          (Under env count p (λ i. Kept (original i)))
          (rollback env >> pure previous_data_restored)
          (λ o d j. Recovered count original candidate o d)
          Sound
  rollback-resume p safe =
      seq_rule (rollback-Original env count original candidate p safe)
        (return_rule previous_data_restored)

  as_phase :
      (p : Phase) (a : Journal) (d : Disk T) (j : Journal)
      → Loaded a d j
      → j.phase ≡ p
      → Pending count p d j × ByPhase count original candidate p d
  as_phase p a d j h e =
      subst (λ q. Pending count q d j × ByPhase count original candidate q d) e (h.1, h.2)

  resume-Recovered :
      (p : Phase) (a : Journal)
      → Hoare
          (λ d j. Loaded a d j × (j.phase ≡ p))
          (resume env p a)
          (λ o d j. Recovered count original candidate o d)
          Sound
  unfolding resume
  resume-Recovered preparing a =
      weaken_rule (rollback-resume preparing (λ d h. h)) (λ d j h. as_phase preparing a d j h.0 h.1)
        (λ o d j h. h) (λ e d j h. h)
  resume-Recovered validating a =
      weaken_rule (rollback-resume validating (λ d h. h))
        (λ d j h. as_phase validating a d j h.0 h.1) (λ o d j h. h) (λ e d j h. h)
  resume-Recovered committed a =
      weaken_rule (committed-resume a)
        (λ d j h. let q = as_phase committed a d j h.0 h.1 in (h.1, q.0, q.1)) (λ o d j h. h)
        (λ e d j h. h)
  resume-Recovered rolled_back a =
      weaken_rule (rolled_back-resume a)
        (λ d j h. let q = as_phase rolled_back a d j h.0 h.1 in (h.1, q.0, q.1)) (λ o d j h. h)
        (λ e d j h. h)
  resume-Recovered (other_phase x) a = record {
    at = λ w h. absurd (as_phase (other_phase x) a w.disk w.memory h.0 h.1).1;
  }

  -- From a consistent disk, recover returns with the resources as its answer says and the marker
  -- gone, or it is stopped with the disk still consistent.
  pub recover-Recovered :
      Hoare
        (λ d j. Consistent count original candidate d)
        (recover env)
        (λ o d j. Recovered count original candidate o d)
        Sound
  unfolding recover
  recover-Recovered = bind_rule pending_journal-Loaded λ a.
      seq_rule (raising_rule (call_rule _) (λ e d j h. Loaded-Consistent a d j h)) (
        seq_rule (raising_rule (call_rule env.isolate) (λ e d j h. Loaded-Consistent a d j h)) (
          seq_rule
            (raising_rule (call_rule env.finish_validation) (λ e d j h. Loaded-Consistent a d j h))
            (weaken_rule (resume-Recovered a.phase a)
              (λ d j h. (h, ap (λ (x : Journal). x.phase) h.0)) (λ o d j h. h) (λ e d j h. h))))
