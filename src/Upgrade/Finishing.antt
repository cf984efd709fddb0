-- ===== src/Upgrade/Finishing.antt =====
-- finish of scripts/upgrade_transaction.py: the version is published, the result is written and the
-- marker goes, for a phase `p` that lets it report `v` about the version that `original` says.
use resilient_datacenter.Shared.{
  ◌≡◌, refl, sym, subst, ap, ◌∙◌, ◌⊎◌, inl, inr, Bool, true, false, some,
}
use resilient_datacenter.Shared.Effects.{Signal, failure}
use resilient_datacenter.Shared.Hoare.{
  Hoare, Pred, bind_rule, seq_rule, weaken_rule, raising_rule, memory_rule, write_rule, file_rule,
  observing_rule, if_rule, raise_rule, return_rule, fact_rule,
}
use resilient_datacenter.Shared.Stored.{Stored, absent, unsafe, holds}
use resilient_datacenter.Upgrade.State.{Phase, Journal, Verdict, Result, publish, clean, Disk, Env}
use resilient_datacenter.Upgrade.Transaction.{
  verdict_of, result_of, write_result, unlinked, unlink_marker, finish_as, finish,
}
use resilient_datacenter.Upgrade.Invariant.{
  version, version_of, Serves, Decided, Marked, Consistent, idle, Marked-Consistent, perform_rule,
}

-- The result on the disk is that of the journal.
abbrev pub Reported : Verdict → Disk → Journal → Type 0
Reported v d j =
    (r : Result) × (d.result ≡ holds r)
    × (r.state ≡ v)
    × (r.transaction_id ≡ j.id)
    × (r.snapshot ≡ j.snapshot)

unlinked-eq : (d d' : Disk) → unlinked d ≡ some d' → d' ≡ record d { marker = absent }
unlinked-eq d d' h = elim_marker d.marker refl
  where
    elim_marker : (s : Stored _) → d.marker ≡ s → d' ≡ record d { marker = absent }
    elim_marker absent e = cc
    elim_marker unsafe e = cc
    elim_marker (holds m) e = cc

module _ {H : Type 0} (env : Env H) (original : Bool) where
  -- The marker is gone, and the node serves.
  abbrev pub Closed : Pred Disk Journal
  Closed d j = (d.marker ≡ absent) × Serves original d.calls

  pub Closed-Consistent : (d : Disk) (j : Journal) → Closed d j → Consistent env d
  Closed-Consistent d j h = idle h.0 (standing original h.1.0)
    where
      standing :
          (b : Bool)
          → version d.calls ≡ version_of b
          → (version d.calls ≡ version_of true) ⊎ (version d.calls ≡ version_of false)
      standing true e = inl e
      standing false e = inr e

  module _ (p : Phase) (v : Verdict) where
    -- The journal on the disk and in memory says `p`, and the node serves.
    abbrev pub Settled : Pred Disk Journal
    Settled d j = (j.phase ≡ p) × Marked env j d j × Serves original d.calls

    -- What a call of finish that raises leaves.
    abbrev pub Unfinished : Signal → Pred Disk Journal
    Unfinished e d j = Settled d j ⊎ ((j.phase ≡ p) × Closed d j)

    -- What a call of finish that answers leaves.
    abbrev pub Finished : Verdict → Pred Disk Journal
    Finished a d j = (a ≡ v) × (j.phase ≡ p) × Closed d j × Reported v d j

    write_result_rule :
        Hoare Settled (write_result env v) (λ _ d j. Settled d j × Reported v d j) (λ _. Settled)
    unfolding write_result result_of
    write_result_rule = observing_rule _ λ w.
        if_rule _
          (λ b.
            write_rule env.disturb (λ j d. record d { result = holds (result_of env v w) })
              (λ d j h. (
                h.0,
                (
                  result_of env v w,
                  refl,
                  refl,
                  ap (λ (x : Journal). x.id) (sym h.2),
                  ap (λ (x : Journal). x.snapshot) (sym h.2),
                ),
              ))
              (λ e d j h. h.0) (λ e d j h. h.0))
          (λ b. weaken_rule (raise_rule failure) (λ d j h. h.0) (λ a d j h. h) (λ e d j h. h))

    unlink_rule :
        Hoare
          (λ d j. Settled d j × Reported v d j)
          (unlink_marker env)
          (λ _ d j. (j.phase ≡ p) × Closed d j × Reported v d j)
          Unfinished
    unfolding unlink_marker
    unlink_rule =
        file_rule env.disturb (λ j d. unlinked d)
          (λ d d' j h u.
            subst (λ x. (j.phase ≡ p) × Closed x j × Reported v x j) (sym (unlinked-eq d d' u))
              (h.0.0, (refl, h.0.2), h.1))
          (λ e d j h. inl h.0) (λ e d j h. inr (h.0, h.1))

    -- finish answers `v` with the marker gone and the result written, or it raises while the
    -- transaction is settled or closed.
    pub finish_rule : verdict_of p ≡ some v → Hoare Settled (finish env) Finished Unfinished
    unfolding finish finish_as
    finish_rule reports = bind_rule memory_rule λ a.
        fact_rule (some v ≡ verdict_of a.phase)
          (λ d j h.
            sym
              (ap (λ (x : Journal). verdict_of x.phase) (sym h.1) ∙ ap verdict_of h.0.0 ∙ reports))
          λ same.
            subst (λ x. Hoare (λ d j. Settled d j × (j ≡ a)) (finish_as env x) Finished Unfinished)
              same
              (seq_rule (perform_rule env publish (λ d j h. h.0) (λ e d j h. inl h.0)) (
                seq_rule (perform_rule env clean (λ d j h. h) (λ e d j h. inl h)) (
                  seq_rule (raising_rule write_result_rule (λ e d j h. inl h)) (
                    seq_rule unlink_rule (
                      weaken_rule (return_rule {Q = Finished} v) (λ d j h. (refl, h.0, h.1, h.2))
                        (λ a d j h. h) (λ e d j h. h))))))

    pub Unfinished-Consistent :
        Decided p (version_of original)
        → (e : Signal) (d : Disk) (j : Journal) → Unfinished e d j
        → Consistent env d
    Unfinished-Consistent decided e d j (inl h) =
        Marked-Consistent env j d j h.1 (
          subst (λ q. Decided q (version d.calls)) (sym h.0)
            (subst (Decided p) (sym h.2.0) decided))
    Unfinished-Consistent decided e d j (inr h) = Closed-Consistent d j h.1
