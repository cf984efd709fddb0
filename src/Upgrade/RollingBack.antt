-- ===== src/Upgrade/RollingBack.antt =====
-- rollback of scripts/upgrade_transaction.py, from a transaction of which nothing is decided.
use resilient_datacenter.Shared.{◌≡◌, refl, sym, subst, true}
use resilient_datacenter.Shared.Effects.{Signal}
use resilient_datacenter.Shared.Hoare.{Hoare, Pred, seq_rule, raising_rule, remember_rule}
use resilient_datacenter.Upgrade.State.{
  rolled_back, Journal, Verdict, previous_version_restored, restore_original, verify, Disk, Env,
}
use resilient_datacenter.Upgrade.Transaction.{rollback, finish}
use resilient_datacenter.Upgrade.Invariant.{
  previous, version, Serves, Decided, Undecided, Consistent, Undecided-Consistent,
  Marked-Consistent, Marked-write, perform_rule, save_rule,
}
use resilient_datacenter.Upgrade.Finishing.{Settled, Finished, finish_rule, Unfinished-Consistent}

module _ {H : Type 0} (env : Env H) where
  abbrev pub Sound : Signal → Pred Disk Journal
  Sound e d j = Consistent env d

  -- The previous version is served and its verdict reported.
  abbrev pub Previous : Verdict → Pred Disk Journal
  Previous = Finished env true rolled_back previous_version_restored

  pub finish-Previous :
      Hoare (Settled env true rolled_back previous_version_restored) (finish env) Previous Sound
  finish-Previous =
      raising_rule (finish_rule env true rolled_back previous_version_restored refl)
        (Unfinished-Consistent env true rolled_back previous_version_restored refl)

  pub rollback-Previous : Hoare (Undecided env) (rollback env) Previous Sound
  unfolding rollback
  rollback-Previous =
      seq_rule
        (perform_rule env {Q = λ d j. Undecided env d j × (version d.calls ≡ previous)}
          restore_original (λ d j h. (h, refl)) (λ e d j h. Undecided-Consistent env _ j h))
        (seq_rule
          (perform_rule env {Q = λ d j. Undecided env d j × Serves true d.calls} (verify true)
            (λ d j h. (h.0, (h.1, refl))) (λ e d j h. Undecided-Consistent env _ j h.0))
          (seq_rule
            (remember_rule
              {Q = λ d j. (j.phase ≡ rolled_back) × Undecided env d j × Serves true d.calls}
              (λ (j : Journal). record j { phase = rolled_back }) (λ d j h. (refl, h.0, h.1)))
            (seq_rule
              (save_rule env (λ d j h v. (h.0, Marked-write env h.1.0 d j h.1.1 v, h.2))
                (λ e d j h. Undecided-Consistent env d j h.1)
                (λ e d j h.
                  Marked-Consistent env j d j h.1
                    (subst (λ q. Decided q (version d.calls)) (sym h.0) h.2.0)))
              finish-Previous)))
