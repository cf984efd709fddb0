-- ===== src/Upgrade/Answering.antt =====
-- How apply of scripts/upgrade_transaction.py ends.
use resilient_datacenter.Shared.{
  ◌≡◌, refl, sym, subst, ap, ◌∙◌, inl, inr, true, false, Bool, none, some, [],
}
use resilient_datacenter.Shared.Effects.{Signal, failure, interrupt, crash, Out, ok, raised}
use resilient_datacenter.Shared.Hoare.{
  Hoare, Pred, Post, seq_rule, raising_rule, weaken_rule, reading_rule, refuse_rule, call_rule,
  write_rule, return_rule, raise_rule,
}
use resilient_datacenter.Shared.Stored.{absent, holds}
use resilient_datacenter.Upgrade.State.{
  Phase, preparing, migrating, committed, rolled_back, other_phase, Plan, Journal, Verdict,
  upgraded_service_verified, previous_version_restored, other_verdict, freeze, Disk, World, Env,
  noted,
}
use resilient_datacenter.Upgrade.Transaction.{
  Outcome, result, upgrade_error, perform, upgrade, rollback, rolled, attempt_rollback, attend,
  settle, guarded, new_journal, start_journal, refuse_pending, write_marker, apply,
}
use resilient_datacenter.Upgrade.Invariant.{
  version, begun, undecided, Undecided, Consistent, idle, pending, Undecided-Consistent,
  perform_rule, save_rule, put_here,
}
use resilient_datacenter.Upgrade.Finishing.{Closed, Reported, Finished}
use resilient_datacenter.Upgrade.RollingBack.{Sound, Previous, rollback-Previous}
use resilient_datacenter.Upgrade.Upgrading.{Trouble, Upgraded, Preparing, upgrade-Upgraded}

module _ {H : Type 0} (env : Env H) where
  -- What a result says of the disk: the node serves the version that it names, and no marker is left.
  abbrev pub Served : Verdict → Pred Disk Journal
  Served upgraded_service_verified d j =
      Closed env false d j × Reported upgraded_service_verified d j
  Served previous_version_restored d j =
      Closed env true d j × Reported previous_version_restored d j
  Served (other_verdict v) d j = ⊥

  -- What the answer of apply says of the disk.
  abbrev pub Answered : Outcome → Pred Disk Journal
  Answered (result v) d j = Served v d j
  Answered (upgrade_error (some true) c) d j = Served previous_version_restored d j
  Answered (upgrade_error (some false) c) d j = Consistent env d
  Answered (upgrade_error none c) d j = Consistent env d

  pub Finished-Served :
      {b : Bool} {p : Phase} {v : Verdict}
      → ((d : Disk) (j : Journal) → Closed env b d j → Reported v d j → Served v d j)
      → (a : Verdict) (d : Disk) (j : Journal) → Finished env b p v a d j
      → Served a d j
  Finished-Served serve a d j h = subst (λ x. Served x d j) (sym h.0) (serve d j h.2 h.3)

  pub frozen : (r : Bool) (d : Disk) → Consistent env d → Consistent env (noted freeze r d)
  frozen r d (idle a v) = idle a v
  frozen r d (pending m k marked written safe decided) = pending m k marked written safe decided

  pub freeze_rule :
      (K : Disk → Type 0)
      → ((r : Bool) (d : Disk) → K d → K (noted freeze r d))
      → Hoare (λ d j. K d) (perform env freeze) (λ _ d j. K d) (λ e d j. K d)
  freeze_rule K stays =
      perform_rule env freeze (λ d j h. stays true d h) (λ e d j h. stays false d h)

  freeze-Sound :
      Hoare (λ d j. Consistent env d) (perform env freeze) (λ _ d j. Consistent env d) (Sound env)
  freeze-Sound = freeze_rule (Consistent env) frozen

  rolled-Post :
      (r : Out Verdict × World H)
      → Post (Previous env) (Sound env) r
      → Post Answered (Sound env) (rolled env r.0 r.1)
  unfolding rolled
  rolled-Post (ok v, w) h = (h.2, h.3)
  rolled-Post (raised failure, w) h =
      (seq_rule freeze-Sound
          (return_rule {Q = Answered} {E = Sound env} (upgrade_error (some false) false))).at
        w h
  rolled-Post (raised interrupt, w) h = h
  rolled-Post (raised crash, w) h = h

  attempt_rollback-Answered : Hoare (Undecided env) (attempt_rollback env) Answered (Sound env)
  unfolding attempt_rollback
  attempt_rollback-Answered = record {
    at = λ w h. rolled-Post (rollback env w) ((rollback-Previous env).at w h);
  }

  Trouble-Consistent : (e : Signal) (d : Disk) (j : Journal) → Trouble env e d j → Consistent env d
  Trouble-Consistent e d j (inl h) = Undecided-Consistent env d j h
  Trouble-Consistent e d j (inr h) = h.1

  -- Nothing is decided where the journal in memory does not say `committed`.
  still_undecided :
      {p : Phase} (w : World H)
      → w.memory.phase ≡ p
      → (p ≡ committed → ⊥)
      → Trouble env failure w.disk w.memory
      → Undecided env w.disk w.memory
  still_undecided w e ne (inl h) = h
  still_undecided w e ne (inr h) = absurd (ne (sym e ∙ h.0))

  attend-Post :
      (p : Phase) (w : World H)
      → w.memory.phase ≡ p
      → Trouble env failure w.disk w.memory
      → Post Answered (Sound env) (attend env p w)
  unfolding attend
  attend-Post committed w e h =
      (seq_rule freeze-Sound
          (return_rule {Q = Answered} {E = Sound env} (upgrade_error none true))).at
        w (Trouble-Consistent failure w.disk w.memory h)
  attend-Post preparing w e h = attempt_rollback-Answered.at w (still_undecided w e (λ x. cc) h)
  attend-Post migrating w e h = attempt_rollback-Answered.at w (still_undecided w e (λ x. cc) h)
  attend-Post rolled_back w e h = attempt_rollback-Answered.at w (still_undecided w e (λ x. cc) h)
  attend-Post (other_phase x) w e h =
      attempt_rollback-Answered.at w (still_undecided w e (λ x. cc) h)

  settle-Post :
      (r : Out Verdict × World H)
      → Post (Upgraded env) (Trouble env) r
      → Post Answered (Sound env) (settle env r.0 r.1)
  unfolding settle
  settle-Post (ok v, w) h = Finished-Served (λ d j c q. (c, q)) v w.disk w.memory h
  settle-Post (raised failure, w) h = attend-Post w.memory.phase w refl h
  settle-Post (raised interrupt, w) h =
      (seq_rule freeze-Sound (raise_rule {Q = Answered} interrupt)).at w
        (Trouble-Consistent interrupt w.disk w.memory h)
  settle-Post (raised crash, w) h = Trouble-Consistent crash w.disk w.memory h

  guarded-Answered : Hoare (Preparing env) (guarded env) Answered (Sound env)
  unfolding guarded
  guarded-Answered = record {
    at = λ w h. settle-Post (upgrade env w) ((upgrade-Upgraded env).at w h);
  }

  -- No transaction is pending, and no call was made.
  abbrev pub Fresh : Disk → Type 0
  Fresh d = (d.marker ≡ absent) × (d.calls ≡ [])

  Fresh-Consistent : (d : Disk) → Fresh d → Consistent env d
  Fresh-Consistent d h = idle h.0 (inl (ap version h.1))

  not_begun : (d : Disk) → Fresh d → begun d.calls ≡ false
  not_begun d h = ap begun h.1

  -- The journal is new, and on the disk.
  abbrev Written : Pred Disk Journal
  Written d j = Fresh d × (j.phase ≡ preparing) × (d.journals j.id ≡ holds j)

  never : {A : Type 0} (d : Disk) → Fresh d → begun d.calls ≡ true → A
  never d h b = absurd (false-true (sym (not_begun d h) ∙ b))
    where
      false-true : false ≡ true → ⊥
      false-true e = cc

  announce_rule : Hoare Written (write_marker env) (λ _. Preparing env) (Sound env)
  unfolding write_marker
  announce_rule =
      write_rule env.disturb
        (λ j d. record d { marker = holds (record { schema_version = 1; transaction_id = j.id }) })
        (λ d j h. (
          (j, (refl, h.2, λ b. never d h.0 b, λ b. never d h.0 b), ap undecided h.1),
          not_begun d h.0,
        ))
        (λ e d j h. Fresh-Consistent d h.0) (λ e d j h. Undecided-Consistent env d j h.0)

  start_rule :
      (plan : Plan)
      → Hoare
          (λ d j. Fresh d)
          (start_journal env plan)
          (λ _ d j. Fresh d × (j.phase ≡ preparing))
          (Sound env)
  unfolding start_journal new_journal
  start_rule plan = record { at = λ w h. (h, refl) }

  refuse_pending_rule :
      Hoare (λ d j. Fresh d) (refuse_pending env) (λ _ d j. Fresh d) (λ _ d j. Fresh d)
  unfolding refuse_pending
  refuse_pending_rule =
      reading_rule _ λ w. weaken_rule (refuse_rule _) (λ d j h. h) (λ a d j h. h.0) (λ e d j h. h)

  -- apply, from a disk at rest: an answer that is true of the disk, or a consistent disk.
  pub apply-Answer : (plan : Plan) → Hoare (λ d j. Fresh d) (apply env plan) Answered (Sound env)
  unfolding apply
  apply-Answer plan =
      seq_rule
        (weaken_rule (refuse_rule _) (λ d j h. h) (λ a d j h. h.0)
          (λ e d j h. Fresh-Consistent d h))
        (seq_rule (raising_rule refuse_pending_rule (λ e d j h. Fresh-Consistent d h)) (
          seq_rule (raising_rule (call_rule env.directories) (λ e d j h. Fresh-Consistent d h)) (
            seq_rule (start_rule plan) (
              seq_rule
                (save_rule env {Q = Written} (λ d j h v. (h.0, h.1, put_here env j d.journals))
                  (λ e d j h. Fresh-Consistent d h.0) (λ e d j h. Fresh-Consistent d h.0))
                (seq_rule announce_rule guarded-Answered)))))
