-- ===== src/Upgrade/Upgrading.antt =====
-- The body of apply's `try` in scripts/upgrade_transaction.py.
use resilient_datacenter.Shared.{◌≡◌, refl, ap, ◌⊎◌, inl, inr, Bool, true, false, some}
use resilient_datacenter.Shared.Effects.{Signal}
use resilient_datacenter.Shared.Hoare.{
  Hoare, Pred, bind_rule, seq_rule, raising_rule, weaken_rule, remember_rule, reading_rule,
  refuse_rule,
}
use resilient_datacenter.Upgrade.State.{
  migrating, committed, Journal, Snapshot, Verdict, upgraded_service_verified, prepare, quiesce,
  snapshot, stage, isolate, migrate, verify, Disk, Env, noted,
}
use resilient_datacenter.Upgrade.Journals.{valid_journal}
use resilient_datacenter.Upgrade.Transaction.{upgrade, seal, check_snapshot}
use resilient_datacenter.Upgrade.Invariant.{
  new, version, begun, has_snapshot, undecided, Serves, Marked, Undecided, Consistent, Marked-write,
  ask_rule, perform_rule, save_rule,
}
use resilient_datacenter.Upgrade.Finishing.{
  Unfinished, Finished, finish_rule, Unfinished-Consistent,
}

module _ {H : Type 0} (env : Env H) where
  -- Where the body raises: nothing is decided on the disk, or `journal` says `committed`.
  abbrev pub Trouble : Signal → Pred Disk Journal
  Trouble e d j = Undecided env d j ⊎ ((j.phase ≡ committed) × Consistent env d)

  -- The new version is served and its verdict reported.
  abbrev pub Upgraded : Verdict → Pred Disk Journal
  Upgraded = Finished env false committed upgraded_service_verified

  -- Before the snapshot the migration was not called.
  abbrev pub Preparing : Pred Disk Journal
  Preparing d j = Undecided env d j × (begun d.calls ≡ false)

  -- The journal on the disk says `migrating`, and has the snapshot.
  abbrev Ready : Pred Disk Journal
  Ready d j =
      (j.phase ≡ migrating)
      × Marked env j d j
      × (has_snapshot j.snapshot ≡ true)
      × (valid_journal env j ≡ true)

  Ready-Undecided : (d : Disk) (j : Journal) → Ready d j → Undecided env d j
  Ready-Undecided d j h = (j, h.1, ap undecided h.0)

  Ready-migrate : (d : Disk) (j : Journal) (r : Bool) → Ready d j → Ready (noted migrate r d) j
  Ready-migrate d j r h = (h.0, (h.1.0, h.1.1, λ b. (h.2, h.3), λ b. h.2), h.2, h.3)

  Unfinished-Trouble :
      (e : Signal) (d : Disk) (j : Journal)
      → Unfinished env false committed upgraded_service_verified e d j
      → Trouble e d j
  Unfinished-Trouble e d j h =
      inr
        (phase h, Unfinished-Consistent env false committed upgraded_service_verified refl e d j h)
    where
      phase : Unfinished env false committed upgraded_service_verified e d j → j.phase ≡ committed
      phase (inl x) = x.0
      phase (inr x) = x.0

  check_rule :
      (s : Snapshot) {P : Pred Disk Journal} → Hoare P (check_snapshot env s) (λ _. P) (λ _. P)
  unfolding check_snapshot
  check_rule s =
      reading_rule _ λ w. weaken_rule (refuse_rule _) (λ d j h. h) (λ a d j h. h.0) (λ e d j h. h)

  -- From the snapshot on.
  captured_rule :
      Hoare (λ d j. Preparing d j × (has_snapshot j.snapshot ≡ true)) (seal env) Upgraded Trouble
  unfolding seal
  captured_rule =
      seq_rule
        (remember_rule
          {Q = λ d j. (j.phase ≡ migrating) × Undecided env d j × (has_snapshot j.snapshot ≡ true)}
          (λ (j : Journal). record j { phase = migrating }) (λ d j h. (refl, h.0.0, h.1)))
        (seq_rule
          (save_rule env {Q = Ready} (λ d j h v. (h.0, Marked-write env h.1.0 d j h.1.1 v, h.2, v))
            (λ e d j h. inl h.1) (λ e d j h. inl (Ready-Undecided d j h)))
          (seq_rule
            (perform_rule env {Q = Ready} stage (λ d j h. h)
              (λ e d j h. inl (Ready-Undecided d j h)))
            (seq_rule
              (perform_rule env {Q = Ready} isolate (λ d j h. h)
                (λ e d j h. inl (Ready-Undecided d j h)))
              (seq_rule
                (perform_rule env {Q = λ d j. Ready d j × (version d.calls ≡ new)} migrate
                  (λ d j h. (Ready-migrate d j true h, refl))
                  (λ e d j h.
                    inl (Ready-Undecided (noted migrate false d) j (Ready-migrate d j false h))))
                (seq_rule
                  (perform_rule env {Q = λ d j. Ready d j × Serves false d.calls} (verify false)
                    (λ d j h. (h.0, (h.1, refl))) (λ e d j h. inl (Ready-Undecided d j h.0)))
                  (seq_rule
                    (remember_rule
                      {Q = λ d j. (j.phase ≡ committed) × Undecided env d j × Serves false d.calls}
                      (λ (j : Journal). record j { phase = committed })
                      (λ d j h. (refl, Ready-Undecided d j h.0, h.1)))
                    (seq_rule
                      (save_rule env (λ d j h v. (h.0, Marked-write env h.1.0 d j h.1.1 v, h.2))
                        (λ e d j h. inl h.1) (λ e d j h. Unfinished-Trouble e d j (inl h)))
                      (raising_rule (finish_rule env false committed upgraded_service_verified refl)
                        Unfinished-Trouble))))))))

  -- The body of apply's `try` answers with the new version served, or raises.
  pub upgrade-Upgraded : Hoare Preparing (upgrade env) Upgraded Trouble
  unfolding upgrade
  upgrade-Upgraded = seq_rule (perform_rule env prepare (λ d j h. h) (λ e d j h. inl h.0)) (
      seq_rule (perform_rule env quiesce (λ d j h. h) (λ e d j h. inl h.0)) (
        bind_rule
          (ask_rule {Q = Preparing} snapshot env.take_snapshot (λ d j h. h) (λ e d j h. inl h.0))
          λ s.
            seq_rule
              (remember_rule {Q = λ d j. Preparing d j × (has_snapshot j.snapshot ≡ true)}
                (λ (j : Journal). record j { snapshot = some s })
                (λ d j h. (((h.0.0, (h.0.1.0, h.0.1.1, h.0.1.2, λ b. refl), h.0.2), h.1), refl)))
              (seq_rule (raising_rule (check_rule s) (λ e d j h. inl h.0.0)) captured_rule)))
