-- ===== src/Restore/Safety.antt =====
-- The promises of scripts/restore_transaction.py: whatever fails, the previous data or the restored
-- data is whole, the answer says which, and an interrupted transaction can always be resumed.
use resilient_datacenter.Shared.{ℕ, ◌≡◌, refl, sym, subst, Option, length}
use resilient_datacenter.Shared.Effects.{Signal, Out, ok, raised}
use resilient_datacenter.Shared.Hoare.{Post}
use resilient_datacenter.Restore.State.{Disk, World}
use resilient_datacenter.Restore.Files.{Env}
use resilient_datacenter.Restore.Transaction.{Outcome, apply, recover}
use resilient_datacenter.Restore.Invariant.{Consistent}
use resilient_datacenter.Restore.Preparing.{candidate}
use resilient_datacenter.Restore.Recovering.{Recovered, recover-Recovered}
use resilient_datacenter.Restore.Answering.{Fresh, Answered, Halted, apply-Answered}
use resilient_datacenter.Restore.Suspending.{Previous}

module _ {T H : Type 0} (env : Env T H) (original : ℕ → T) where
  abbrev pub resources : ℕ
  resources = length env.paths

  abbrev pub restored : ℕ → Option T
  restored = candidate env resources original

  -- What a call that has ended leaves: a true answer, or a consistent disk where it was stopped.
  abbrev pub Truthful : Out Outcome × World T H → Type 0
  Truthful =
      Post (λ o d j. Recovered resources original restored o d)
        (λ e d j. Consistent resources original restored d)

  -- The same for some previous data: what was there, except that the store of a gateway may have the
  -- recovery reference, which apply writes to it first, or what an interrupted write of it leaves.
  abbrev pub TruthfulOnce : Out Outcome × World T H → Type 0
  TruthfulOnce = Post (Answered env resources original) (Halted env resources original)

  -- From a disk with no pending transaction, the previous data in place and no data in a workspace,
  -- apply ends in one of these ways: it answers that the service is restored, and every resource
  -- holds its candidate and no marker is left; it raises RestoreError with recovered=True, and every
  -- resource holds its previous data and no marker is left; or it ends otherwise, by RestoreError,
  -- by any exception, or by a crash at any step, and the disk is consistent. The previous data of the
  -- store of a gateway may have the recovery reference besides, or what an interrupted write of it
  -- leaves; that of every other resource is the one that apply has found.
  pub apply-Truthful :
      (w : World T H) → Fresh env resources original w.disk → TruthfulOnce (apply env w)
  apply-Truthful w h = (apply-Answered env resources original refl).at w h

  -- From any consistent disk, recover ends in one of these ways: it answers that the previous data is
  -- restored, and every resource holds it; it answers that the restored service is verified, and
  -- every resource holds its candidate; in both cases no marker is left; or it is stopped by an
  -- exception or a crash at any step, and the disk is consistent.
  pub recover-Truthful :
      (w : World T H) → Consistent resources original restored w.disk → Truthful (recover env w)
  recover-Truthful w h = (recover-Recovered env resources original restored).at w h

module _ {T H : Type 0} (env : Env T H) where
  -- The disk after a number of recoveries that were stopped. Each starts in a new process, from any
  -- memory and any state of the host.
  pub data Resumed (d : Disk T) : Disk T → Type 0 where
    none_yet : Resumed d d
    once_more :
        {d' : Disk T}
        → Resumed d d'
        → (w w' : World T H) (e : Signal) → w.disk ≡ d'
        → recover env w ≡ (raised e, w')
        → Resumed d w'.disk

  Resumed-Consistent :
      (o : ℕ → T) {d d' : Disk T}
      → Consistent (resources env o) o (restored env o) d
      → Resumed d d'
      → Consistent (resources env o) o (restored env o) d'
  Resumed-Consistent o h none_yet = h
  Resumed-Consistent o h (once_more r w w' e same stopped) = subst (Truthful env o) stopped (
      recover-Truthful env o w (
        subst (Consistent (resources env o) o (restored env o)) (sym same)
          (Resumed-Consistent o h r)))

  -- However apply is stopped, and however many recoveries are stopped after it, a recovery that
  -- answers has brought every resource to the state that its answer says. The previous data of the
  -- store of a gateway may have the recovery reference besides, or what an interrupted write of it
  -- leaves; that of every other resource is the one that apply has found.
  pub interrupted_restoration :
      (original : ℕ → T) (w w' v v' : World T H) (e : Signal) (a : Outcome)
      → Fresh env (resources env original) original w.disk
      → apply env w ≡ (raised e, w')
      → Resumed w'.disk v.disk
      → recover env v ≡ (ok a, v')
      → (o : ℕ → T) × (Previous env original o
          × Recovered (resources env o) o (restored env o) a v'.disk)
  interrupted_restoration original w w' v v' e a h stopped r answered =
      let (o, (p, steady)) =
        subst (TruthfulOnce env original) stopped (apply-Truthful env original w h) in
      (
        o,
        (
          p,
          subst (Truthful env o) answered
              (recover-Truthful env o v (Resumed-Consistent o steady r)),
        ),
      )
