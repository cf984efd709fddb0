-- ===== src/Capture/Recovering.antt =====
-- recover_services of Capturing, the end of _capture in scripts/backup_snapshot.py.
use resilient_datacenter.Shared.{
  String, Bool, true, false, ◌||◌, Option, some, List, [], contains, ◌≡◌, subst, ap, if◌then◌else◌,
}
use resilient_datacenter.Shared.Effects.{failure, pure}
use resilient_datacenter.Shared.Hoare.{
  Hoare, Pred, bind_rule, seq_rule, weaken_rule, raising_rule, pure_rule, raise_rule, return_rule,
  observing_rule, reading_rule, write_rule, if_rule,
}
use resilient_datacenter.Shared.Maintenance.{file_op}
use resilient_datacenter.Shared.Stored.{absent}
use resilient_datacenter.Capture.State.{Event, queried, start_requested, Disk}
use resilient_datacenter.Capture.Capturing.{
  Env, noted, is_there, remove_destination, restart_all, recover_services,
}
use resilient_datacenter.Capture.Events.{Covers, NoneStopped, Answered}
use resilient_datacenter.Capture.Stopping.{Memory}
use resilient_datacenter.Capture.Restarting.{Halted, NoneStopped-Halted, restart_all_rule}

module _ {H : Type 0} (env : Env H) where
  -- Removing the destination is no event.
  pub remove_rule :
      (P : List Event → Memory → Type 0)
      → Hoare
          (λ d j. P d.events j)
          (remove_destination env)
          (λ a d j. P d.events j)
          (λ s d j. P d.events j)
  unfolding remove_destination
  remove_rule P =
      reading_rule
        (λ w.
          if is_there w.disk.destination
          then file_op env.disturb (λ d. some (record d { destination = absent }))
          else pure tt)
        (λ w.
          if_rule (is_there w.disk.destination)
            (λ t.
              write_rule env.disturb (λ j d. record d { destination = absent }) (λ d j h. h)
                (λ s d j h. h) (λ s d j h. h))
            (λ f. pure_rule tt))

module _ {H : Type 0} (env : Env H) (F : Pred Disk Memory)
    (asked : (n : String) (a : Option Bool) (d : Disk) (j : Memory)
      → F d j
      → F (noted (queried n a) d) j)
    (started : (n : String) (d : Disk) (j : Memory)
      → F d j
      → F (noted (start_requested n) d) j) where
  -- Where it returns, nothing is left stopped, and each service that it started answers that it is
  -- active.
  pub recover_services_rule :
      Hoare
        (λ d j. Covers j d.events × F d j)
        (recover_services env)
        (λ a d j. NoneStopped d.events × F d j × Answered true j d.events)
        Halted
  unfolding recover_services
  recover_services_rule =
      bind_rule {Q = λ b d j. NoneStopped d.events × F d j × (b ≡ false → Answered true j d.events)}
        (observing_rule (λ w. restart_all env w.memory)
          (λ w.
            weaken_rule
              (restart_all_rule env (λ d j. F d j × (j ≡ w.memory))
                (λ n a d j f. (asked n a d j f.0, f.1)) (λ n d j f. (started n d j f.0, f.1))
                w.memory [] false)
              (λ d j p. record {
                covers = subst (λ m. Covers m d.events) p.2 p.0.0;
                answers = λ e n i. absurd (cc);
                frame = (p.0.1, p.2);
              })
              (λ b d j p. (
                p.0,
                p.1.0,
                λ e n i. p.2 e n (ap (λ x. x || false) (subst (λ m. contains n m ≡ true) p.1.1 i)),
              ))
              (λ s d j e. e)))
        (λ b.
          if_rule b
            (λ t.
              seq_rule
                (weaken_rule (remove_rule env (λ es j. NoneStopped es)) (λ d j p. p.0)
                  (λ a d j p. p) (λ s d j h. NoneStopped-Halted s d j h))
                (raising_rule (raise_rule failure) (λ s d j h. NoneStopped-Halted s d j h)))
            (λ f.
              weaken_rule (return_rule tt) (λ d j p. (p.0, p.1, p.2 f)) (λ a d j p. p)
                (λ s d j e. e)))
