-- ===== src/Upgrade/Freezing.antt =====
-- What recover of scripts/upgrade_transaction.py calls last where it is stopped.
use resilient_datacenter.Shared.{ℕ, ◌≡◌, refl, ◌⊎◌, inl, inr, List, [], ◌∷◌, ◌==◌, ◌&&◌, Bool-cases}
use resilient_datacenter.Shared.Effects.{
  Signal, failure, interrupt, crash, Out, ok, raised, raise, ◌>>◌,
}
use resilient_datacenter.Shared.Hoare.{Hoare, Pred, Post, seq_rule, raising_rule, raise_rule}
use resilient_datacenter.Shared.Maintenance.{cleaned_up}
use resilient_datacenter.Shared.Stored.{Stored, Marker, absent, unsafe, holds}
use resilient_datacenter.Upgrade.State.{Journal, Verdict, freeze, Event, Disk, World, Env}
use resilient_datacenter.Upgrade.Journals.{valid_journal}
use resilient_datacenter.Upgrade.Transaction.{
  perform, load_journal, read_pending, pending, proceed_from, guarded_recovery, recover,
}
use resilient_datacenter.Upgrade.Invariant.{perform_rule}
use resilient_datacenter.Upgrade.Recovering.{refuse_restore_rule}

-- The last call of the backend was freeze.
abbrev pub Frozen : List Event → Type 0
Frozen [] = ⊥
Frozen (e ∷ es) = e.operation ≡ freeze

module _ {H : Type 0} (env : Env H) (before : List Event) where
  -- No call was made, or the last one was freeze; a crash may come at any moment.
  abbrev pub Closing : Signal → Pred Disk Journal
  Closing e d j = (e ≡ crash) ⊎ (d.calls ≡ before) ⊎ Frozen d.calls

  abbrev Uncalled : Pred Disk Journal
  Uncalled d j = d.calls ≡ before

  load_journal-Uncalled :
      (w : World H) (id : ℕ) (s : Stored Journal)
      → Uncalled w.disk w.memory
      → Post (λ _. Uncalled) (λ _. Uncalled) (load_journal env id s w)
  unfolding load_journal
  load_journal-Uncalled w id absent h = h
  load_journal-Uncalled w id unsafe h = h
  load_journal-Uncalled w id (holds j) h = elim (Bool-cases (valid_journal env j && (j.id == id))) [
    | inl b ↦ rw b h
    | inr b ↦ rw b h
  ]

  read_pending-Uncalled :
      (w : World H) (s : Stored Marker)
      → Uncalled w.disk w.memory
      → Post (λ _. Uncalled) (λ _. Uncalled) (read_pending env s w)
  unfolding read_pending
  read_pending-Uncalled w absent h = h
  read_pending-Uncalled w unsafe h = h
  read_pending-Uncalled w (holds m) h = elim (Bool-cases (m.schema_version == 1)) [
    | inl b ↦ rw b (load_journal-Uncalled w m.transaction_id _ h)
    | inr b ↦ rw b h
  ]

  pending-Uncalled : Hoare Uncalled (pending env) (λ _. Uncalled) (λ _. Uncalled)
  unfolding pending
  pending-Uncalled = record { at = λ w h. read_pending-Uncalled w w.disk.marker h }

  freezing :
      (e : Signal)
      → Hoare
          (λ d j. Unit {0})
          (perform env freeze >> raise e)
          (λ (v : Verdict) d j. Unit {0})
          Closing
  freezing e =
      seq_rule
        (perform_rule env {Q = λ d j. Frozen d.calls} freeze (λ d j h. refl)
          (λ s d j h. inr (inr refl)))
        (raising_rule (raise_rule e) (λ s d j h. inr (inr h)))

  cleaned_up-Closing :
      (r : Out Verdict × World H)
      → Post (λ v d j. Unit {0}) Closing (cleaned_up r.0 (perform env freeze) r.1)
  unfolding cleaned_up
  cleaned_up-Closing (ok v, w) = tt
  cleaned_up-Closing (raised crash, w) = inl refl
  cleaned_up-Closing (raised interrupt, w) = (freezing interrupt).at w tt
  cleaned_up-Closing (raised failure, w) = (freezing failure).at w tt

  recover-Closing : Hoare Uncalled (recover env) (λ v d j. Unit {0}) Closing
  unfolding recover guarded_recovery
  recover-Closing = seq_rule (raising_rule pending-Uncalled (λ e d j h. inr (inl h))) (
      seq_rule (raising_rule (refuse_restore_rule env) (λ e d j h. inr (inl h)))
        (record { at = λ w h. cleaned_up-Closing (proceed_from env w) }))

-- recover, from any state, either returns a result, or is ended by a crash, or has not called the
-- backend at all, or its last call of the backend was freeze, which closes the validation window.
pub recover-Frozen :
    {H : Type 0} (env : Env H) (w : World H)
    → Post
        (λ v d j. Unit {0})
        (λ e d j. (e ≡ crash) ⊎ (d.calls ≡ w.disk.calls) ⊎ Frozen d.calls)
        (recover env w)
recover-Frozen env w = (recover-Closing env w.disk.calls).at w refl
