-- ===== src/Restore/Loading.antt =====
-- How recover finds its journal, and how it ends a committed transaction.
use resilient_datacenter.Shared.{ℕ, ◌≡◌, refl, ◌⊎◌, inl, inr, Option, ◌==◌, ◌&&◌, Bool-cases}
use resilient_datacenter.Shared.Effects.{Signal}
use resilient_datacenter.Shared.Hoare.{
  Hoare, Pred, Post, seq_rule, raising_rule, weaken_rule, return_rule, call_rule,
  for_all_reversed_rule,
}
use resilient_datacenter.Restore.State.{
  committed, Journal, Stored, absent, unsafe, holds, Marker, Disk, World,
}
use resilient_datacenter.Restore.Files.{Env}
use resilient_datacenter.Restore.Transaction.{
  restored_service_verified, belongs, source_valid, load_journal, read_pending, pending_journal,
  resume,
}
use resilient_datacenter.Restore.Invariant.{Targets}
use resilient_datacenter.Restore.Finishing.{Settled, Closed, finish-Closed}

-- `K` is known of the disk, and says what holds of the journal that the marker names.
module _ {T H : Type 0} (env : Env T H) (K : Disk T → Type 0) (L : Journal → Pred (Disk T) Journal)
    (found : (d : Disk T) (m : Marker) (j : Journal)
      → d.marker ≡ holds m
      → d.journals m.transaction_id ≡ holds j
      → K d
      → L j d j) where
  load_journal-Post :
      (w : World T H) (m : Marker) (s : Stored Journal)
      → w.disk.marker ≡ holds m
      → w.disk.journals m.transaction_id ≡ s
      → K w.disk
      → Post L (λ e d j. K d) (load_journal env m.transaction_id s w)
  unfolding load_journal
  load_journal-Post w m absent marked stored h = h
  load_journal-Post w m unsafe marked stored h = h
  load_journal-Post w m (holds j) marked stored h =
      elim (Bool-cases (belongs env m.transaction_id j w.host && source_valid env j.source)) [
        | inl b ↦ rw b (found w.disk m j marked stored h)
        | inr b ↦ rw b h
      ]

  read_pending-Post :
      (w : World T H) (s : Stored Marker)
      → w.disk.marker ≡ s
      → K w.disk
      → Post L (λ e d j. K d) (read_pending env s w)
  unfolding read_pending
  read_pending-Post w absent marked h = h
  read_pending-Post w unsafe marked h = h
  read_pending-Post w (holds m) marked h = elim (Bool-cases (m.schema_version == 1)) [
    | inl b ↦ rw b (load_journal-Post w m _ marked refl h)
    | inr b ↦ rw b h
  ]

  pub pending_journal_rule : Hoare (λ d j. K d) (pending_journal env) L (λ e d j. K d)
  unfolding pending_journal
  pending_journal_rule = record { at = λ w h. read_pending-Post w w.disk.marker refl h }

-- What recover does after a commit leaves the resources as they are.
module _ {T H : Type 0} (env : Env T H) (count : ℕ) (v : ℕ → Option T)
    {E : Signal → Pred (Disk T) Journal}
    (ending : (e : Signal) (d : Disk T) (j : Journal)
      → Settled env count committed v d j ⊎ Closed env count committed v d j
      → E e d j) where
  pub committed_rule :
      (a : Journal)
      → Hoare
          (Settled env count committed v)
          (resume env committed a)
          (λ o d j. (o ≡ restored_service_verified) × (d.marker ≡ absent) × Targets count v d)
          E
  unfolding resume
  committed_rule a =
      seq_rule (raising_rule (call_rule env.allow_validation) (λ e d j h. ending e d j (inl h))) (
        seq_rule
          (for_all_reversed_rule env.services
            λ n. raising_rule (call_rule _) (λ e d j h. ending e d j (inl h)))
          (seq_rule (raising_rule (call_rule env.verify) (λ e d j h. ending e d j (inl h))) (
            seq_rule (raising_rule (finish-Closed env count committed v) ending) (
              weaken_rule
                (return_rule
                  {Q = λ o d j. (o ≡ restored_service_verified) × Closed env count committed v d j}
                  restored_service_verified)
                (λ d j h. (refl, h)) (λ o d j h. (h.0, h.1.1, h.1.2)) (λ e d j h. h)))))
