-- ===== src/Guest/Once.antt =====
-- No operation of scripts/guest_installation.py starts the installer or the disk a second time.
use resilient_datacenter.Shared.{
  ℕ, ◌≤◌, ◌≡◌, refl, sym, subst, Bool, true, not, arith, not-false, String,
}
use resilient_datacenter.Shared.Effects.{Signal, refuse_if}
use resilient_datacenter.Shared.Hoare.{
  Hoare, Pred, bind_rule, seq_rule, raising_rule, weaken_rule, call_rule, refuse_rule, pure_rule,
  if_rule,
}
use resilient_datacenter.Guest.State.{Power, Record, Disk, Env}
use resilient_datacenter.Guest.Observing.{
  Stage, shell, attached, ready, attachable, startable, finishable, bootable, confirmable,
  is_requested, is_disk_ready, is_stopped,
}
use resilient_datacenter.Guest.Console.{
  stage_at_finish, stage_seen, stage_of, attach_medium, attach, start_medium, start, detach_medium,
  finish, request_disk_start, start_from_disk, boot, status, confirm_login,
}
use resilient_datacenter.Guest.Accepting.{
  attachable-grade, finishable-grade, confirmable-grade, bootable-grade, is_disk_ready-grade,
  unrequested-grade,
}
use resilient_datacenter.Guest.Grades.{
  Sound, Below, Loaded, advance_rule, record_start_rule, record_disk_rule, change_rule,
  start_installer_rule, start_disk_rule, enter_rule, observed_rule, accept_rule, load_rule, kept,
}

module _ {C H : Type 0} (env : Env C H) (r : ℕ) where
  abbrev Safe : Signal → Pred Disk Unit
  Safe e d j = Sound r d

  low : {m : ℕ} (e : Signal) (d : Disk) (j : Unit) → Below r m d j → Sound r d
  low e d j h = h.0

  attach_medium-Below :
      (s : Stage) (digest : String)
      → Hoare (Below r 0) (attach_medium env s digest) (λ _. Below r 0) Safe
  unfolding attach_medium
  attach_medium-Below attached digest = pure_rule tt
  attach_medium-Below ready digest = pure_rule tt
  attach_medium-Below shell digest = seq_rule (advance_rule env r 0 _ (omega arith)) (
      seq_rule (raising_rule (change_rule env r 0 _ digest) low)
        (seq_rule (raising_rule (observed_rule env attached) low) (pure_rule tt)))

  pub attach-Sound : Hoare (λ d j. Sound r d) (attach env) (λ a d j. Sound r d) Safe
  unfolding attach
  attach-Sound = seq_rule (enter_rule env) (
      bind_rule (load_rule env r) λ a.
        seq_rule (accept_rule env r 0 attachable attachable-grade a) (
          bind_rule (raising_rule (call_rule env.get_config) low) λ c.
            seq_rule (raising_rule (kept env _) low) (
              bind_rule (raising_rule (observed_rule env (stage_of env c)) low) λ f.
                seq_rule (raising_rule (kept env _) low) (
                  seq_rule (attach_medium-Below (stage_of env c) f.0.digest) (
                    seq_rule (advance_rule env r 0 _ (omega arith))
                      (weaken_rule (pure_rule _) (λ d j h. h.0) (λ x d j h. h) (λ e d j h. h)))))))

  -- The journal in hand is the one on the disk, and a test of its phase holds.
  abbrev Accepted : Record → Bool → Pred Disk Unit
  Accepted a b d j = Loaded r a d j × (b ≡ true)

  accepted_rule :
      (a : Record) (b : Bool)
      → Hoare {H = H} (Loaded r a) (refuse_if (not b)) (λ _. Accepted a b) Safe
  accepted_rule a b =
      weaken_rule (refuse_rule (not b)) (λ d j h. h) (λ u d j h. (h.0, not-false b h.1))
        (λ e d j h. h.0)

  start_medium-Sound :
      (a : Record) (p : Power)
      → Hoare (Accepted a (startable a.phase)) (start_medium env a p) (λ x d j. Sound r d) Safe
  unfolding start_medium
  start_medium-Sound a p =
      if_rule (is_requested a.phase)
        (λ t.
          seq_rule (raising_rule (kept env _) (λ e d j h. h.0.0))
            (weaken_rule (pure_rule _) (λ d j h. h.0.0) (λ x d j h. h) (λ e d j h. h)))
        (λ f. seq_rule (raising_rule (kept env _) (λ e d j h. h.0.0)) (
          seq_rule
            (weaken_rule (record_start_rule env r _ refl)
              (λ d j h. (h.0.0, subst (λ n. n ≤ 0) (sym h.0.1) (unrequested-grade a.phase h.1 f)))
              (λ x d j h. h) (λ e d j h. h))
            (seq_rule (raising_rule (start_installer_rule env r) low)
              (weaken_rule (pure_rule _) (λ d j h. h.0) (λ x d j h. h) (λ e d j h. h)))))

  pub start-Sound : Hoare (λ d j. Sound r d) (start env) (λ a d j. Sound r d) Safe
  unfolding start
  start-Sound = seq_rule (enter_rule env) (
      bind_rule (load_rule env r) λ a. seq_rule (accepted_rule a (startable a.phase)) (
        bind_rule (raising_rule (observed_rule env attached) (λ e d j h. h.0.0))
          λ f. start_medium-Sound a f.1))

  detach_medium-Below :
      (operator : String) (s : Stage) (digest : String)
      → Hoare (Below r 2) (detach_medium env operator s digest) (λ _. Below r 2) Safe
  unfolding detach_medium
  detach_medium-Below operator ready digest = pure_rule tt
  detach_medium-Below operator shell digest = pure_rule tt
  detach_medium-Below operator attached digest = seq_rule (advance_rule env r 2 _ (omega arith)) (
      seq_rule (raising_rule (change_rule env r 2 _ digest) low)
        (seq_rule (raising_rule (observed_rule env ready) low) (pure_rule tt)))

  pub finish-Sound :
      (operator : String) → Hoare (λ d j. Sound r d) (finish env operator) (λ a d j. Sound r d) Safe
  unfolding finish
  finish-Sound operator = seq_rule (kept env _) (
      seq_rule (enter_rule env) (
        bind_rule (load_rule env r) λ a.
          seq_rule (accept_rule env r 2 finishable finishable-grade a) (
            bind_rule (raising_rule (call_rule env.get_config) low) λ c.
              bind_rule (raising_rule (observed_rule env (stage_at_finish env c)) low) λ f.
                seq_rule (raising_rule (kept env _) low) (
                  seq_rule (detach_medium-Below operator (stage_at_finish env c) f.0.digest) (
                    seq_rule (advance_rule env r 2 _ (omega arith))
                      (weaken_rule (pure_rule _) (λ d j h. h.0) (λ x d j h. h) (λ e d j h. h)))))))

  request_disk_start-Below :
      (a : Record) → Hoare (Loaded r a) (request_disk_start env a) (λ x. Below r 4) Safe
  unfolding request_disk_start
  request_disk_start-Below a = seq_rule (accept_rule env r 2 is_disk_ready is_disk_ready-grade a) (
      seq_rule (record_disk_rule env r _ refl) (
        seq_rule (raising_rule (start_disk_rule env r) low)
          (weaken_rule (pure_rule _) (λ d j h. (h.0, omega arith)) (λ x d j h. h) (λ e d j h. h))))

  start_from_disk-Below :
      (a : Record) (p : Power)
      → Hoare (Accepted a (bootable a.phase)) (start_from_disk env a p) (λ x. Below r 4) Safe
  unfolding start_from_disk
  start_from_disk-Below a p =
      if_rule (is_stopped p)
        (λ t. weaken_rule (request_disk_start-Below a) (λ d j h. h.0) (λ x d j h. h) (λ e d j h. h))
        (λ f.
          weaken_rule {E = Safe} (pure_rule a)
            (λ d j h. (h.0.0, subst (λ n. n ≤ 4) (sym h.0.1) (bootable-grade a.phase h.1)))
            (λ x d j h. h) (λ e d j h. h))

  pub boot-Sound : Hoare (λ d j. Sound r d) (boot env) (λ a d j. Sound r d) Safe
  unfolding boot
  boot-Sound = seq_rule (enter_rule env) (
      bind_rule (load_rule env r) λ a. seq_rule (accepted_rule a (bootable a.phase)) (
        bind_rule (raising_rule (observed_rule env ready) (λ e d j h. h.0.0)) λ f.
          bind_rule (start_from_disk-Below a f.1) λ x.
            bind_rule (raising_rule (observed_rule env ready) low) λ g.
              seq_rule (raising_rule (kept env _) low) (
                seq_rule (advance_rule env r 4 _ (omega arith))
                  (weaken_rule (pure_rule _) (λ d j h. h.0) (λ y d j h. h) (λ e d j h. h)))))

  pub status-Sound : Hoare (λ d j. Sound r d) (status env) (λ a d j. Sound r d) Safe
  unfolding status
  status-Sound = seq_rule (enter_rule env) (
      bind_rule (load_rule env r) λ a.
        bind_rule (raising_rule (call_rule env.get_config) (λ e d j h. h.0)) λ c.
          bind_rule (raising_rule (observed_rule env (stage_seen env c)) (λ e d j h. h.0))
            λ f. weaken_rule (pure_rule _) (λ d j h. h.0) (λ y d j h. h) (λ e d j h. h))

  pub confirm_login-Sound :
      (operator : String)
      → Hoare (λ d j. Sound r d) (confirm_login env operator) (λ a d j. Sound r d) Safe
  unfolding confirm_login
  confirm_login-Sound operator = seq_rule (kept env _) (
      seq_rule (enter_rule env) (
        bind_rule (load_rule env r) λ a.
          seq_rule (accept_rule env r 5 confirmable confirmable-grade a) (
            bind_rule (raising_rule (observed_rule env ready) low) λ f.
              seq_rule (raising_rule (kept env _) low) (
                seq_rule (advance_rule env r 5 _ (omega arith))
                  (weaken_rule (pure_rule _) (λ d j h. h.0) (λ y d j h. h) (λ e d j h. h))))))
