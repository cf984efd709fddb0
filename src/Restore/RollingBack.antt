-- ===== src/Restore/RollingBack.antt =====
-- rollback puts the previous data back, from any state that an interrupted restoration can leave.
use resilient_datacenter.Shared.{
  ℕ, suc, ◌≤◌, String, ◌≡◌, refl, inl, inr, Bool, true, false, Option, none, some, List, arith,
  ◌==◌, any, length, ap, Bool-cases,
}
use resilient_datacenter.Shared.Effects.{Signal, ◌>>◌}
use resilient_datacenter.Shared.Maintenance.{call}
use resilient_datacenter.Shared.Hoare.{
  Hoare, Pred, bind_rule, seq_rule, raising_rule, weaken_rule, pure_rule, call_rule, refuse_rule,
  reading_rule, if_rule, for_all_rule, for_all_reversed_rule, for_each_reversed_rule, remember_rule,
  memory_rule, beyond-eq-add,
}
use resilient_datacenter.Restore.State.{Phase, rolled_back, Journal, absent, Workspace, Slot, Disk}
use resilient_datacenter.Restore.Files.{
  Env, removed, brought_back, save, set_phase, is_linked, has_old,
}
use resilient_datacenter.Restore.Rollback.{
  put_back, restart_active, verify_if_any, check_components, finish, rollback,
}
use resilient_datacenter.Restore.Invariant.{
  old_of, Kept, AllKept, Targets, the, ByPhase, Consistent, pending, Under, under_rule, save_rule,
}
use resilient_datacenter.Restore.Finishing.{
  workspace_of_rule, Settled, finish-Closed, Pending-as, rolled_back-Consistent,
}

module _ {T : Type 0} where
  -- The previous data is in place, and nothing is set aside.
  abbrev pub InPlace : T → Slot T → Type 0
  InPlace o s = (s.target ≡ some o) × (old_of s.workspace ≡ none)

  abbrev Back : (ℕ → T) → ℕ → ℕ → Slot T → Type 0
  Back original k i s = Kept (original i) s × (k ≤ i → InPlace (original i) s)

  abbrev Lifted : (ℕ → T) → ℕ → ℕ → Slot T → Type 0
  Lifted original k i s =
      Back original (suc k) i s × (i ≡ k → old_of s.workspace ≡ some (original i))

  removed_old :
      (o : T) (s s' : Slot T)
      → has_old s.workspace ≡ true
      → Kept o s
      → removed s ≡ some s'
      → old_of s'.workspace ≡ some o
  removed_old o s s' b h e = ground arith

  brought_back-InPlace :
      (o : T) (s s' : Slot T)
      → old_of s.workspace ≡ some o
      → brought_back s ≡ some s'
      → InPlace o s'
  brought_back-InPlace o s s' h e = ground arith

  InPlace-of_no_old :
      (o : T) (s : Slot T)
      → is_linked s.workspace ≡ false
      → has_old s.workspace ≡ false
      → Kept o s
      → InPlace o s
  InPlace-of_no_old o s l b h = ground arith

  -- What put_back has read of its workspace.
  abbrev Seen : (ℕ → T) → ℕ → Bool → ℕ → Slot T → Type 0
  Seen original k b i s =
      Back original (suc k) i s
      × (i ≡ k → (is_linked s.workspace ≡ false) × (has_old s.workspace ≡ b))

  Seen-Back :
      (original : ℕ → T) (k i : ℕ) (s : Slot T) → Seen original k false i s → Back original k i s
  Seen-Back original k i s h = elim (Bool-cases (i == k)) [
    | inl e ↦
        let seen = h.1 (ground arith) in
        (h.0.0, λ l. InPlace-of_no_old (original i) s seen.0 seen.1 h.0.0)
    | inr e ↦ (h.0.0, λ l. h.0.1 (ground arith))
  ]

module _ {T H : Type 0} (env : Env T H) {P : Pred (Disk T) Journal}
    {E : Signal → Pred (Disk T) Journal} where
  -- Services are started and verified, and the disk stays as it is.
  pub restart_active_rule :
      (services : List (String × Bool))
      → ((e : Signal) (d : Disk T) (j : Journal) → P d j → E e d j)
      → Hoare P (restart_active env services) (λ _. P) E
  unfolding restart_active
  restart_active_rule services k =
      for_all_reversed_rule services
        λ e. if_rule e.1 (λ b. raising_rule (call_rule _) k) (λ b. pure_rule tt)

  pub verify_if_any_rule :
      (services : List (String × Bool))
      → ((e : Signal) (d : Disk T) (j : Journal) → P d j → E e d j)
      → Hoare P (verify_if_any env services) (λ _. P) E
  unfolding verify_if_any
  verify_if_any_rule services k =
      if_rule (any (λ (e : String × Bool). e.1) services) {m = call env.verify}
        (λ b. raising_rule (call_rule env.verify) k) (λ b. pure_rule tt)

module _ {T H : Type 0} (env : Env T H) {P : Pred (Disk T) Journal} where
  pub check_components_rule : Hoare P (check_components env) (λ _. P) (λ _. P)
  unfolding check_components
  check_components_rule =
      reading_rule _ λ w. weaken_rule (refuse_rule _) (λ d j h. h) (λ a d j h. h.0) (λ e d j h. h)

module _ {T H : Type 0} (env : Env T H) (count : ℕ) (original : ℕ → T) (candidate : ℕ → Option T)
    (p : Phase) where
  abbrev AllBack : ℕ → Pred (Disk T) Journal
  AllBack k = Under env count p (Back original k)

  AllBack-Kept :
      (k : ℕ) (d : Disk T) (j : Journal)
      → AllBack k d j
      → Under env count p (λ i. Kept (original i)) d j
  AllBack-Kept k d j h = (h.0, λ i lt. (h.1 i lt).0)

  module _
      (safe : (d : Disk T) → AllKept count original d → ByPhase count original candidate p d) where
    Kept-Consistent :
        (d : Disk T) (j : Journal)
        → Under env count p (λ i. Kept (original i)) d j
        → Consistent count original candidate d
    Kept-Consistent d j h =
        pending (record j { phase = p })
          (record { marked = h.0.marked; written = h.0.written; counted = h.0.counted })
          (safe d h.1)

    saw :
        (k : ℕ) (t : Workspace T) (b : Bool) (d : Disk T) (j : Journal)
        → AllBack (suc k) d j
        → (d.slots k).workspace ≡ t
        → is_linked t ≡ false
        → has_old t ≡ b
        → Under env count p (Seen original k b) d j
    saw k t b d j h w l o = (h.0, λ i lt. (h.1 i lt, λ e. (rw (e, w) l, rw (e, w) o)))

    put_back-Back :
        (k : ℕ)
        → Hoare
            (AllBack (suc k))
            (put_back env k)
            (λ _. AllBack k)
            (λ _ d j. Consistent count original candidate d)
    unfolding put_back
    put_back-Back k = bind_rule (workspace_of_rule k) λ t.
        seq_rule
          (raising_rule (refuse_rule (is_linked t))
            (λ e d j h. Kept-Consistent d j (AllBack-Kept (suc k) d j h.0)))
          (if_rule (has_old t)
            (λ b.
              seq_rule
                (weaken_rule
                  (under_rule env {X = Seen original k true} {Y = Lifted original k} k removed
                    (λ i s x ne. (x.0, λ e. absurd (ne e)))
                    (λ s s' x c lt.
                      let old = removed_old (original k) s s' (x.1 refl).1 x.0.0 c in
                      ((inl old, λ l. absurd (omega arith)), λ e. old))
                    (λ e d j h. Kept-Consistent d j (h.0, λ i lt. (h.1 i lt).0.0))
                    (λ e d j h. Kept-Consistent d j (h.0, λ i lt. (h.1 i lt).0.0)))
                  (λ d j h. saw k t true d j h.0.0 h.0.1 h.1 b) (λ a d j h. h) (λ e d j h. h))
                (under_rule env {X = Lifted original k} {Y = Back original k} k brought_back
                  (λ i s x ne. (x.0.0, λ l. x.0.1 (omega arith)))
                  (λ s s' x c lt.
                    let q = brought_back-InPlace (original k) s s' (x.1 refl) c in
                    (inr (q.1, q.0), λ l. q))
                  (λ e d j h. Kept-Consistent d j (h.0, λ i lt. (h.1 i lt).0.0))
                  (λ e d j h. Kept-Consistent d j (h.0, λ i lt. (h.1 i lt).0))))
            (λ b.
              weaken_rule (pure_rule tt)
                (λ d j h.
                  let seen = saw k t false d j h.0.0 h.0.1 h.1 b in
                  (seen.0, λ i lt. Seen-Back original k i (d.slots i) (seen.1 i lt)))
                (λ a d j h. h) (λ e d j h. h)))

    settled-Back :
        (d : Disk T) (j : Journal)
        → Under env count rolled_back (Back original 0) d j
        → j.phase ≡ rolled_back
        → Settled env count rolled_back (the original) d j
    settled-Back d j h e = (e, h.0, λ i lt. ((h.1 i lt).1 (omega arith)).0)

    record_rollback :
        Hoare
          (AllBack 0)
          (set_phase rolled_back >> (save env >> finish env))
          (λ _ d j. (d.marker ≡ absent) × Targets count (the original) d)
          (λ _ d j. Consistent count original candidate d)
    record_rollback =
        seq_rule
          (remember_rule {Q = λ d j. AllBack 0 d j × (j.phase ≡ rolled_back)}
            (λ j. record j { phase = rolled_back })
            (λ d j h. (
              (record { marked = h.0.marked; written = h.0.written; counted = h.0.counted }, h.1),
              refl,
            )))
          (seq_rule
            (save_rule env count p rolled_back (Back original 0)
              (λ e d j h. Kept-Consistent d j (AllBack-Kept 0 d j h.0))
              (λ e d j h.
                Pending-as env count original candidate rolled_back d j h.0.0
                  (λ i lt. ((h.0.1 i lt).1 (omega arith)).0)))
            (weaken_rule (finish-Closed env count rolled_back (the original))
              (λ d j h. settled-Back d j h.0 h.1) (λ a d j h. (h.1, h.2))
              (λ e d j h. rolled_back-Consistent env count original candidate d j h)))

    -- After the rollback the previous data is in place and the marker is gone; where it is stopped,
    -- the disk is still consistent.
    pub rollback-Original :
        Hoare
          (Under env count p (λ i. Kept (original i)))
          (rollback env)
          (λ _ d j. (d.marker ≡ absent) × Targets count (the original) d)
          (λ _ d j. Consistent count original candidate d)
    unfolding rollback
    rollback-Original =
        seq_rule
          (for_all_rule env.services
            λ n. raising_rule (call_rule _) (λ e d j h. Kept-Consistent d j h))
          (bind_rule memory_rule λ j.
            seq_rule
              (weaken_rule (for_each_reversed_rule AllBack 0 j.paths λ k n. put_back-Back k)
                (λ d k h. (
                  h.0.0,
                  λ i lt. (
                    h.0.1 i lt,
                    λ l. absurd (
                        omega (
                          arith,
                          beyond-eq-add 0 j.paths,
                          h.0.0.counted,
                          ap (λ (x : Journal). length x.paths) h.1,
                        )),
                  ),
                ))
                (λ a d j h. h) (λ e d j h. h))
              (seq_rule
                (raising_rule (check_components_rule env)
                  (λ e d j h. Kept-Consistent d j (AllBack-Kept 0 d j h)))
                (seq_rule
                  (raising_rule (call_rule _)
                    (λ e d j h. Kept-Consistent d j (AllBack-Kept 0 d j h)))
                  (seq_rule
                    (restart_active_rule env j.original_active
                      (λ e d j h. Kept-Consistent d j (AllBack-Kept 0 d j h)))
                    (seq_rule
                      (verify_if_any_rule env j.original_active
                        (λ e d j h. Kept-Consistent d j (AllBack-Kept 0 d j h)))
                      record_rollback)))))
