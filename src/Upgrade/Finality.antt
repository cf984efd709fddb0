-- ===== src/Upgrade/Finality.antt =====
-- Once the journal on the disk says `committed`, recover never goes back to the previous version.
use resilient_datacenter.Shared.{◌≡◌, sym, subst, ap, ◌∙◌, Bool, false, arith}
use resilient_datacenter.Shared.Hoare.{
  Hoare, Pred, Post, bind_rule, seq_rule, raising_rule, weaken_rule, memory_rule, fact_rule,
}
use resilient_datacenter.Shared.Stored.{Marker, absent, holds}
use resilient_datacenter.Upgrade.State.{
  committed, Journal, Verdict, upgraded_service_verified, prepare, freeze, Disk, World, Env, noted,
}
use resilient_datacenter.Upgrade.Transaction.{resume, proceed_from, guarded_recovery, recover}
use resilient_datacenter.Upgrade.Invariant.{
  new, version, Decided, Protected, pending, Marked-Consistent, perform_rule,
}
use resilient_datacenter.Upgrade.Finishing.{Finished}
use resilient_datacenter.Upgrade.Answering.{frozen}
use resilient_datacenter.Upgrade.Recovering.{
  Loaded, CommittedKept, committed-reverify, pending_rule, refuse_restore_rule, cleaned_up-Post,
}

module _ {H : Type 0} (env : Env H) where
  -- The marker names a journal that says `committed` and the node has the new version.
  pub record Committed (d : Disk) : Type 0 where
    pub marker : Marker
    pub journal : Journal
    pub marked : d.marker ≡ holds marker
    pub written : d.journals marker.transaction_id ≡ holds journal
    pub safe : Protected env d journal
    pub phase : journal.phase ≡ committed
    pub migrated : version d.calls ≡ new

  Committed-Decided : (d : Disk) (c : Committed d) → Decided c.journal.phase (version d.calls)
  Committed-Decided d c = subst (λ p. Decided p (version d.calls)) (sym c.phase) c.migrated

  Committed-kept : (d : Disk) → Committed d → CommittedKept env d
  Committed-kept d c =
      (c.migrated, pending c.marker c.journal c.marked c.written c.safe (Committed-Decided d c))

  found-Committed :
      (d : Disk) (m : Marker) (j : Journal)
      → d.marker ≡ holds m
      → d.journals m.transaction_id ≡ holds j
      → Committed d
      → Protected env d j × Decided j.phase (version d.calls)
  found-Committed d m j marked stored c =
      let same : c.journal ≡ j = ground (arith, marked, stored, c.marked, c.written) in
      subst (λ x. Protected env d x × Decided x.phase (version d.calls)) same
        (c.safe, Committed-Decided d c)

  loaded_phase : (d : Disk) (j : Journal) → Loaded env d j → Committed d → j.phase ≡ committed
  loaded_phase d j h c =
      let same : c.journal ≡ j = ground (arith, h.0.0, h.0.1, c.marked, c.written) in
      subst (λ (x : Journal). x.phase ≡ committed) same c.phase

  abbrev Known : Pred Disk Journal
  Known d j = Loaded env d j × (j.phase ≡ committed)

  Known-kept : (d : Disk) (j : Journal) → Known d j → CommittedKept env d
  Known-kept d j h =
      let e = subst (λ p. Decided p (version d.calls)) h.1 h.0.1 in
      (e, Marked-Consistent env j d j h.0.0 h.0.1)

  abbrev Upgraded : Verdict → Pred Disk Journal
  Upgraded = Finished env false committed upgraded_service_verified

  proceed_from-kept : Hoare Known (proceed_from env) Upgraded (λ e d j. CommittedKept env d)
  unfolding proceed_from resume
  proceed_from-kept =
      seq_rule
        (perform_rule env {P = Known} {Q = Known} prepare (λ d j h. h)
          (λ e d j h. Known-kept (noted prepare false d) j h))
        (bind_rule memory_rule λ a.
          fact_rule (committed ≡ a.phase) (λ d j h. sym h.0.1 ∙ ap (λ (x : Journal). x.phase) h.1)
            λ same.
              subst
                (λ p.
                  Hoare (λ d j. Known d j × (j ≡ a)) (resume env p) Upgraded
                    (λ e d j. CommittedKept env d))
                same
                (weaken_rule (committed-reverify env) (λ d j h. h.0) (λ v d j h. h) (λ e d j h. h)))

  frozen_kept : (r : Bool) (d : Disk) → CommittedKept env d → CommittedKept env (noted freeze r d)
  frozen_kept r d h = (h.0, frozen env r d h.1)

  recover-kept : Hoare (λ d j. Committed d) (recover env) Upgraded (λ e d j. CommittedKept env d)
  unfolding recover guarded_recovery
  recover-kept =
      seq_rule
        (raising_rule (pending_rule env Committed found-Committed) (λ e d j h. Committed-kept d h))
        (seq_rule (raising_rule (refuse_restore_rule env) (λ e d j h. Committed-kept d h.1))
          (record {
            at = λ w h.
                cleaned_up-Post env Upgraded (CommittedKept env) frozen_kept (proceed_from env w)
                  (proceed_from-kept.at w (h.0, loaded_phase w.disk w.memory h.0 h.1));
          }))

  -- recover, from a committed upgrade, however it ends: where it returns, the result is that the new
  -- version is verified, and the marker is gone; returned or stopped at any step, no call of
  -- restore_original was made after the migration, so the node has the new version.
  pub Committed-upgrade_is_final :
      (w : World H)
      → Committed w.disk
      → Post
          (λ v d j. (v ≡ upgraded_service_verified) × (d.marker ≡ absent) × (version d.calls ≡ new))
          (λ e d j. version d.calls ≡ new)
          (recover env w)
  Committed-upgrade_is_final w c =
      (weaken_rule recover-kept (λ d j h. h) (λ v d j h. (h.0, h.2.0, h.2.1.0)) (λ e d j h. h.0)).at
        w c
