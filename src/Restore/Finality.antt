-- ===== src/Restore/Finality.antt =====
-- Once a journal on the disk says `committed`, no recovery takes the restored data away.
use resilient_datacenter.Shared.{
  ℕ, ◌≡◌, refl, sym, subst, ap, ◌∙◌, ◌⊎◌, inl, inr, Option, length, arith,
}
use resilient_datacenter.Shared.Effects.{Signal}
use resilient_datacenter.Shared.Hoare.{
  Hoare, Pred, Post, bind_rule, seq_rule, raising_rule, weaken_rule, call_rule, fact_rule,
}
use resilient_datacenter.Restore.State.{Journal, committed, Marker, absent, holds, Disk, World}
use resilient_datacenter.Restore.Files.{Env}
use resilient_datacenter.Restore.Transaction.{Outcome, restored_service_verified, resume, recover}
use resilient_datacenter.Restore.Invariant.{Targets, Pending}
use resilient_datacenter.Restore.Finishing.{Settled, Closed}
use resilient_datacenter.Restore.Loading.{pending_journal_rule, committed_rule}

module _ {T H : Type 0} (env : Env T H) (v : ℕ → Option T) where
  abbrev resources : ℕ
  resources = length env.paths

  -- The marker names a journal that says `committed`, and the resources hold `v`.
  pub record Committed (d : Disk T) : Type 0 where
    pub journal : Journal
    pub pending : Pending resources committed d journal
    pub held : Targets resources v d

  abbrev Loaded : Journal → Pred (Disk T) Journal
  Loaded a d j = (j ≡ a) × Settled env resources committed v d j

  the_committed :
      (d : Disk T) (m : Marker) (j : Journal)
      → d.marker ≡ holds m
      → d.journals m.transaction_id ≡ holds j
      → Committed d
      → Loaded j d j
  the_committed d m j marked stored c =
      let k : Journal = record c.journal { phase = committed } in
      let same : k ≡ j = ground (arith, marked, stored, c.pending.marked, c.pending.written) in
      subst (λ x. Loaded x d x) same
        (
          refl,
          (
            refl,
            record {
              marked = c.pending.marked;
              written = c.pending.written;
              counted = c.pending.counted;
            },
            c.held,
          ),
        )

  abbrev Answered : Outcome → Pred (Disk T) Journal
  Answered o d j = (o ≡ restored_service_verified) × (d.marker ≡ absent) × Targets resources v d

  abbrev Held : Signal → Pred (Disk T) Journal
  Held e d j = Targets resources v d

  committed-resume : (a : Journal) → Hoare (Loaded a) (resume env committed a) Answered Held
  committed-resume a =
      weaken_rule (committed_rule env resources v ended a) (λ d j h. h.1) (λ o d j h. h)
        (λ e d j h. h)
    where
      ended :
          (e : Signal) (d : Disk T) (j : Journal)
          → Settled env resources committed v d j ⊎ Closed env resources committed v d j
          → Targets resources v d
      ended e d j (inl h) = h.2
      ended e d j (inr h) = h.2

  recover-Held : Hoare (λ d j. Committed d) (recover env) Answered Held
  unfolding recover
  recover-Held =
      bind_rule
        (raising_rule (pending_journal_rule env Committed Loaded the_committed) (λ e d j h. h.held))
        λ a. seq_rule (raising_rule (call_rule _) kept) (
          seq_rule (raising_rule (call_rule env.isolate) kept) (
            seq_rule (raising_rule (call_rule env.finish_validation) kept) (
              fact_rule (committed ≡ a.phase)
                (λ d j h. sym h.1.0 ∙ ap (λ (x : Journal). x.phase) h.0)
                λ phase.
                  subst (λ p. Hoare (Loaded a) (resume env p a) Answered Held) phase
                    (committed-resume a))))
    where
      kept : {a : Journal} (e : Signal) (d : Disk T) (j : Journal) → Loaded a d j → Held e d j
      kept e d j h = h.1.2

  -- recover, from a committed transaction, however it ends: where it answers, the answer is that the
  -- restored service is verified, and the marker is gone; answered or stopped at any step, every
  -- resource still holds what it held.
  pub Committed-is_final :
      (w : World T H)
      → Committed w.disk
      → Post
          (λ o d j. (o ≡ restored_service_verified) × (d.marker ≡ absent) × Targets resources v d)
          (λ e d j. Targets resources v d)
          (recover env w)
  Committed-is_final w c = recover-Held.at w c
