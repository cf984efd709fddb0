-- ===== src/Upgrade/Recovering.antt =====
-- recover of scripts/upgrade_transaction.py, from any consistent disk.
use resilient_datacenter.Shared.{
  ◌≡◌, refl, sym, subst, ap, ◌∙◌, Bool, true, false, some, arith, Bool-cases, inl, inr, ◌&&◌, ◌==◌,
}
use resilient_datacenter.Shared.Effects.{Signal, failure, interrupt, crash, Out, ok, raised}
use resilient_datacenter.Shared.Hoare.{
  Hoare, Pred, Post, seq_rule, bind_rule, raising_rule, weaken_rule, reading_rule, refuse_rule,
  memory_rule, raise_rule,
}
use resilient_datacenter.Shared.Maintenance.{cleaned_up}
use resilient_datacenter.Shared.Stored.{Stored, Marker, absent, unsafe, holds}
use resilient_datacenter.Upgrade.State.{
  Phase, preparing, migrating, committed, rolled_back, other_phase, Journal, Verdict,
  upgraded_service_verified, previous_version_restored, prepare, isolate, verify, freeze, Disk,
  World, Env, noted,
}
use resilient_datacenter.Upgrade.Journals.{valid_journal}
use resilient_datacenter.Upgrade.Transaction.{
  perform, load_journal, read_pending, pending, refuse_restore, reverify, resume, proceed_from,
  rollback, guarded_recovery, recover, verdict_of,
}
use resilient_datacenter.Upgrade.Invariant.{
  version, version_of, undecided, Decided, Protected, Marked, Consistent, idle,
  pending as pending_journal, Marked-Consistent, perform_rule,
}
use resilient_datacenter.Upgrade.Finishing.{
  Finished, Settled, Unfinished, finish_rule, Unfinished-Consistent,
}
use resilient_datacenter.Upgrade.RollingBack.{Sound, rollback-Previous}
use resilient_datacenter.Upgrade.Answering.{Served, Finished-Served, frozen, freeze_rule}

module _ {H : Type 0} (env : Env H) where
  -- The journal in memory is the one on the disk.
  abbrev pub Loaded : Pred Disk Journal
  Loaded d j = Marked env j d j × Decided j.phase (version d.calls)

  Loaded-Consistent : (d : Disk) (j : Journal) → Loaded d j → Consistent env d
  Loaded-Consistent d j h = Marked-Consistent env j d j h.0 h.1

  module _ (K : Disk → Type 0)
      (found : (d : Disk) (m : Marker) (j : Journal)
        → d.marker ≡ holds m
        → d.journals m.transaction_id ≡ holds j
        → K d
        → Protected env d j × Decided j.phase (version d.calls)) where
    found_Loaded :
        (d : Disk) (m : Marker) (j : Journal)
        → d.marker ≡ holds m
        → d.journals m.transaction_id ≡ holds j
        → (m.schema_version == 1) ≡ true
        → (valid_journal env j && (j.id == m.transaction_id)) ≡ true
        → K d
        → Loaded d j × K d
    found_Loaded d m j marked stored version_one same h =
        let p = found d m j marked stored h in
        (((ground (arith, marked), ground (arith, stored), p.0, λ b. (p.0 b).0), p.1), h)

    load_journal-Post :
        (w : World H) (m : Marker) (s : Stored Journal)
        → w.disk.marker ≡ holds m
        → w.disk.journals m.transaction_id ≡ s
        → (m.schema_version == 1) ≡ true
        → K w.disk
        → Post (λ _ d j. Loaded d j × K d) (λ e d j. K d) (load_journal env m.transaction_id s w)
    unfolding load_journal
    load_journal-Post w m absent marked stored one h = h
    load_journal-Post w m unsafe marked stored one h = h
    load_journal-Post w m (holds j) marked stored one h =
        elim (Bool-cases (valid_journal env j && (j.id == m.transaction_id))) [
          | inl b ↦ rw b (found_Loaded w.disk m j marked stored one b h)
          | inr b ↦ rw b h
        ]

    read_pending-Post :
        (w : World H) (s : Stored Marker)
        → w.disk.marker ≡ s
        → K w.disk
        → Post (λ _ d j. Loaded d j × K d) (λ e d j. K d) (read_pending env s w)
    unfolding read_pending
    read_pending-Post w absent marked h = h
    read_pending-Post w unsafe marked h = h
    read_pending-Post w (holds m) marked h = elim (Bool-cases (m.schema_version == 1)) [
      | inl b ↦ rw b (load_journal-Post w m _ marked refl b h)
      | inr b ↦ rw b h
    ]

    pub pending_rule : Hoare (λ d j. K d) (pending env) (λ _ d j. Loaded d j × K d) (λ e d j. K d)
    unfolding pending
    pending_rule = record { at = λ w h. read_pending-Post w w.disk.marker refl h }

  pub refuse_restore_rule : {P : Pred Disk Journal} → Hoare P (refuse_restore env) (λ _. P) (λ _. P)
  unfolding refuse_restore
  refuse_restore_rule =
      reading_rule _ λ w. weaken_rule (refuse_rule _) (λ d j h. h) (λ a d j h. h.0) (λ e d j h. h)

  -- A decided transaction is verified again and finished.
  module _ (b : Bool) (p : Phase) (decided : Decided p (version_of b)) where
    abbrev Standing : Pred Disk Journal
    Standing d j = (j.phase ≡ p) × Marked env j d j × (version d.calls ≡ version_of b)

    Standing-Consistent : (d : Disk) (j : Journal) → Standing d j → Consistent env d
    Standing-Consistent d j h =
        Marked-Consistent env j d j h.1
          (subst (λ q. Decided q (version d.calls)) (sym h.0) (subst (Decided p) (sym h.2) decided))

    -- Where it raises, the version is still the one that was decided.
    abbrev pub Kept : Disk → Type 0
    Kept d = (version d.calls ≡ version_of b) × Consistent env d

    Standing-Kept : (d : Disk) (j : Journal) → Standing d j → Kept d
    Standing-Kept d j h = (h.2, Standing-Consistent d j h)

    Unfinished-Kept :
        (v : Verdict) (e : Signal) (d : Disk) (j : Journal) → Unfinished env b p v e d j → Kept d
    Unfinished-Kept v e d j h = (kept h, Unfinished-Consistent env b p v decided e d j h)
      where
        kept : Unfinished env b p v e d j → version d.calls ≡ version_of b
        kept (inl x) = x.2.0
        kept (inr x) = x.1.1.0

    reverify_rule :
        (v : Verdict)
        → verdict_of p ≡ some v
        → Hoare Standing (reverify env b) (Finished env b p v) (λ e d j. Kept d)
    unfolding reverify
    reverify_rule v reports =
        seq_rule
          (perform_rule env {P = Standing} {Q = Standing} isolate (λ d j h. h)
            (λ e d j h. Standing-Kept (noted isolate false d) j h))
          (seq_rule
            (perform_rule env {P = Standing} {Q = Settled env b p v} (verify b)
              (λ d j h. (h.0, h.1, (h.2, refl)))
              (λ e d j h. Standing-Kept (noted (verify b) false d) j h))
            (raising_rule (finish_rule env b p v reports) (Unfinished-Kept v)))

  abbrev pub CommittedKept : Disk → Type 0
  CommittedKept = Kept false committed refl

  -- What recover does once it finds the phase `committed`.
  pub committed-reverify :
      Hoare
        (λ d j. Loaded d j × (j.phase ≡ committed))
        (reverify env false)
        (Finished env false committed upgraded_service_verified)
        (λ e d j. CommittedKept d)
  committed-reverify =
      weaken_rule (reverify_rule false committed refl upgraded_service_verified refl)
        (λ d j h. (h.1, h.0.0, subst (λ q. Decided q (version d.calls)) h.1 h.0.1)) (λ v d j h. h)
        (λ e d j h. h)

  rollback-Served :
      (p : Phase)
      → undecided p ≡ true
      → Hoare (λ d j. Loaded d j × (j.phase ≡ p)) (rollback env) (Served env) (Sound env)
  rollback-Served p u =
      weaken_rule (rollback-Previous env) (λ d j h. (j, h.0.0, ap undecided h.1 ∙ u))
        (Finished-Served env (λ d j c r. (c, r))) (λ e d j h. h)

  resume-Served :
      (p : Phase)
      → Hoare (λ d j. Loaded d j × (j.phase ≡ p)) (resume env p) (Served env) (Sound env)
  unfolding resume
  resume-Served committed =
      weaken_rule committed-reverify (λ d j h. h) (Finished-Served env (λ d j c r. (c, r)))
        (λ e d j h. h.1)
  resume-Served rolled_back =
      weaken_rule (reverify_rule true rolled_back refl previous_version_restored refl)
        (λ d j h. (h.1, h.0.0, subst (λ q. Decided q (version d.calls)) h.1 h.0.1))
        (Finished-Served env (λ d j c r. (c, r))) (λ e d j h. h.1)
  resume-Served preparing = rollback-Served preparing refl
  resume-Served migrating = rollback-Served migrating refl
  resume-Served (other_phase x) = rollback-Served (other_phase x) refl

  proceed_from-Served : Hoare Loaded (proceed_from env) (Served env) (Sound env)
  unfolding proceed_from
  proceed_from-Served =
      seq_rule
        (perform_rule env {P = Loaded} {Q = Loaded} prepare (λ d j h. h)
          (λ e d j h. Loaded-Consistent (noted prepare false d) j h))
        (bind_rule memory_rule λ a.
          weaken_rule (resume-Served a.phase) (λ d j h. (h.0, ap (λ (x : Journal). x.phase) h.1))
            (λ v d j h. h) (λ e d j h. h))

  pub cleaned_up-Post :
      (Q : Verdict → Pred Disk Journal) (K : Disk → Type 0)
      → ((r : Bool) (d : Disk) → K d → K (noted freeze r d))
      → (r : Out Verdict × World H) → Post Q (λ e d j. K d) r
      → Post Q (λ e d j. K d) (cleaned_up r.0 (perform env freeze) r.1)
  unfolding cleaned_up
  cleaned_up-Post Q K stays (ok a, w) h = h
  cleaned_up-Post Q K stays (raised crash, w) h = h
  cleaned_up-Post Q K stays (raised interrupt, w) h =
      (seq_rule (freeze_rule env K stays) (raise_rule {Q = Q} interrupt)).at w h
  cleaned_up-Post Q K stays (raised failure, w) h =
      (seq_rule (freeze_rule env K stays) (raise_rule {Q = Q} failure)).at w h

  -- From a consistent disk, recover answers with the truth, or it is stopped with the disk consistent.
  pub recover-Sound : Hoare (λ d j. Consistent env d) (recover env) (Served env) (Sound env)
  unfolding recover guarded_recovery
  recover-Sound = seq_rule (pending_rule (Consistent env) the_pending) (
      seq_rule (raising_rule refuse_restore_rule (λ e d j h. h.1)) (record {
        at = λ w h.
            cleaned_up-Post (Served env) (Consistent env) (frozen env) (proceed_from env w)
              (proceed_from-Served.at w h.0);
      }))
    where
      the_pending :
          (d : Disk) (m : Marker) (j : Journal)
          → d.marker ≡ holds m
          → d.journals m.transaction_id ≡ holds j
          → Consistent env d
          → Protected env d j × Decided j.phase (version d.calls)
      the_pending d m j marked stored (idle a v) = cc
      the_pending d m j marked stored (pending_journal n k marker journal safe decided) =
          let same : k ≡ j = ground (arith, marked, stored, marker, journal) in
          subst (λ x. Protected env d x × Decided x.phase (version d.calls)) same (safe, decided)
