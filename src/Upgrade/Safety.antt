-- ===== src/Upgrade/Safety.antt =====
-- The promises of scripts/upgrade_transaction.py: no migration without a verified snapshot on
-- record, a truthful answer, and a transaction that can always be resumed.
use resilient_datacenter.Shared.{◌≡◌, sym, subst}
use resilient_datacenter.Shared.Effects.{Signal, ok, raised}
use resilient_datacenter.Shared.Hoare.{Post}
use resilient_datacenter.Upgrade.State.{Plan, Verdict, Disk, World, Env}
use resilient_datacenter.Upgrade.Transaction.{apply, recover}
use resilient_datacenter.Upgrade.Invariant.{Consistent}
use resilient_datacenter.Upgrade.Answering.{Answered, Served, Fresh, apply-Answer}
use resilient_datacenter.Upgrade.Recovering.{recover-Sound}

module _ {H : Type 0} (env : Env H) where
  -- From a disk with no pending upgrade and no call of the backend yet, apply ends in one of these
  -- ways: it returns the result that the new version is verified, and the last change of the node was
  -- a migration that returned, followed by a verification of the new version that returned, the
  -- marker is gone and the result on the disk says the same; it raises UpgradeError with
  -- recovered=True, and the same holds of the previous version; or it ends otherwise, by UpgradeError,
  -- by any exception or by a crash at any step, and the disk is consistent: where a transaction is
  -- pending and the migration was called, the journal on the disk is valid and has a snapshot.
  pub apply-Answered :
      (plan : Plan) (w : World H)
      → Fresh env w.disk
      → Post (Answered env) (λ e d j. Consistent env d) (apply env plan w)
  apply-Answered plan w h = (apply-Answer env plan).at w h

  -- From any consistent disk, recover ends in one of these ways: it returns a result, and the node
  -- serves the version that it names, verified since the last change, the marker is gone and the
  -- result on the disk says the same; or it is stopped by an exception or a crash at any step, and
  -- the disk is consistent.
  pub recover-Served :
      (w : World H)
      → Consistent env w.disk
      → Post (Served env) (λ e d j. Consistent env d) (recover env w)
  recover-Served w h = (recover-Sound env).at w h

  -- The disk after a number of recoveries that were stopped. Each starts in a new process, from any
  -- memory and any state of the host.
  pub data Resumed (d : Disk) : Disk → Type 0 where
    none_yet : Resumed d d
    once_more :
        {d' : Disk}
        → Resumed d d'
        → (w w' : World H) (e : Signal) → w.disk ≡ d'
        → recover env w ≡ (raised e, w')
        → Resumed d w'.disk

  Resumed-Consistent : {d d' : Disk} → Consistent env d → Resumed d d' → Consistent env d'
  Resumed-Consistent h none_yet = h
  Resumed-Consistent h (once_more r w w' e same stopped) =
      subst (Post (Served env) (λ e d j. Consistent env d)) stopped
        (recover-Served w (subst (Consistent env) (sym same) (Resumed-Consistent h r)))

  -- However apply is stopped, and however many recoveries are stopped after it, a recovery that
  -- returns a result has the node serve the version that the result names.
  pub interrupted_upgrade :
      (plan : Plan) (w w' v v' : World H) (e : Signal) (verdict : Verdict)
      → Fresh env w.disk
      → apply env plan w ≡ (raised e, w')
      → Resumed w'.disk v.disk
      → recover env v ≡ (ok verdict, v')
      → Served env verdict v'.disk v'.memory
  interrupted_upgrade plan w w' v v' e verdict h stopped r answered =
      subst (Post (Served env) (λ e d j. Consistent env d)) answered (
        recover-Served v (
          Resumed-Consistent
            (subst (Post (Answered env) (λ e d j. Consistent env d)) stopped
              (apply-Answered plan w h))
            r))
