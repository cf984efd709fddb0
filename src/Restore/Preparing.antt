-- ===== src/Restore/Preparing.antt =====
-- The two loops of apply: building the candidates beside the previous data, and swapping them in.
use resilient_datacenter.Shared.{
  ℕ, suc, ◌<◌, String, ◌≡◌, refl, sym, ap, ◌∙◌, inr, Option, none, some, arith,
}
use resilient_datacenter.Shared.Effects.{Signal, failure}
use resilient_datacenter.Shared.Hoare.{
  Hoare, Pred, Post, seq_rule, raising_rule, call_rule, write_rule, some-eq,
}
use resilient_datacenter.Restore.State.{
  Phase, Journal, missing, linked, folder, Workspace, Slot, Disk, World,
}
use resilient_datacenter.Restore.Files.{Env, made, copied, slot_op}
use resilient_datacenter.Restore.Transaction.{
  write_candidate, retained, retain_current_settings, prepare_candidate,
}
use resilient_datacenter.Restore.Invariant.{new_of, Kept, Under, under_rule}
use resilient_datacenter.Restore.RollingBack.{InPlace}

module _ {T : Type 0} where
  made-InPlace : (o : T) (s s' : Slot T) → InPlace o s → made s ≡ some s' → InPlace o s'
  made-InPlace o s s' h e = ground arith

  copied-InPlace :
      (o t : T) (s s' : Slot T)
      → InPlace o s
      → copied t s ≡ some s'
      → InPlace o s' × (new_of s'.workspace ≡ some t)
  copied-InPlace o t s s' h e = ground arith

module _ {T H : Type 0} (env : Env T H) (count : ℕ) (original : ℕ → T) where
  -- What becomes of the snapshot's copy of resource `i`: its current settings are retained.
  abbrev pub candidate : ℕ → Option T
  candidate i = env.retain i (original i) (env.staged i)

  -- The previous data is in place, and below `k` the candidate is ready.
  abbrev pub Prepared : ℕ → ℕ → Slot T → Type 0
  Prepared k i s = InPlace (original i) s × (i < k → new_of s.workspace ≡ candidate i)

  abbrev Staged : ℕ → ℕ → Slot T → Type 0
  Staged k i s = Prepared k i s × (i ≡ k → new_of s.workspace ≡ some (env.staged i))

  module _ (p : Phase) {E : Signal → Pred (Disk T) Journal}
      (trouble : (e : Signal) (d : Disk T) (j : Journal)
        → Under env count p (λ i. Kept (original i)) d j
        → E e d j) where
    Prepared-trouble :
        (k : ℕ) (e : Signal) (d : Disk T) (j : Journal)
        → Under env count p (Prepared k) d j
        → E e d j
    Prepared-trouble k e d j h = trouble e d j (h.0, λ i lt. inr ((h.1 i lt).0.1, (h.1 i lt).0.0))

    Staged-trouble :
        (k : ℕ) (e : Signal) (d : Disk T) (j : Journal) → Under env count p (Staged k) d j → E e d j
    Staged-trouble k e d j h = Prepared-trouble k e d j (h.0, λ i lt. (h.1 i lt).0)

    copy-Staged :
        (k : ℕ)
        → Hoare
            (Under env count p (Prepared k))
            (slot_op env k (copied (env.staged k)))
            (λ _. Under env count p (Staged k))
            E
    copy-Staged k =
        under_rule env {X = Prepared k} {Y = Staged k} k (copied (env.staged k))
          (λ i s x ne. (x, λ e. absurd (ne e)))
          (λ s s' x c lt.
            let q = copied-InPlace (original k) (env.staged k) s s' x.0 c in
            ((q.0, λ l. absurd (omega arith)), λ e. q.1))
          (Prepared-trouble k) (Staged-trouble k)

    retain-Prepared :
        (k : ℕ) (r : T) (w : World T H)
        → Under env count p (Staged k) w.disk w.memory
        → (k < count → candidate k ≡ some r)
        → Post (λ _. Under env count p (Prepared (suc k))) E (slot_op env k (copied r) w)
    retain-Prepared k r w h e =
        (under_rule env {X = Staged k} {Y = Prepared (suc k)} k (copied r)
            (λ i s x ne. (x.0.0, λ l. x.0.1 (omega arith)))
            (λ s s' x c lt.
              let q = copied-InPlace (original k) r s s' x.0.0 c in (q.0, λ l. q.1 ∙ sym (e lt)))
            (Staged-trouble k) (Prepared-trouble (suc k))).at
          w h

    write_candidate-Prepared :
        (k : ℕ) (r : Option T) (w : World T H)
        → Under env count p (Staged k) w.disk w.memory
        → (k < count → candidate k ≡ r)
        → Post (λ _. Under env count p (Prepared (suc k))) E (write_candidate env k r w)
    unfolding write_candidate
    write_candidate-Prepared k none w h e = Staged-trouble k failure w.disk w.memory h
    write_candidate-Prepared k (some r) w h e = retain-Prepared k r w h e

    retained-Prepared :
        (k : ℕ) (t : Option T) (ws : Workspace T) (w : World T H)
        → (w.disk.slots k).target ≡ t
        → (w.disk.slots k).workspace ≡ ws
        → Under env count p (Staged k) w.disk w.memory
        → Post (λ _. Under env count p (Prepared (suc k))) E (retained env k t ws w)
    unfolding retained
    retained-Prepared k none missing w et ew h = Staged-trouble k failure w.disk w.memory h
    retained-Prepared k none linked w et ew h = Staged-trouble k failure w.disk w.memory h
    retained-Prepared k none (folder o n) w et ew h = Staged-trouble k failure w.disk w.memory h
    retained-Prepared k (some t) missing w et ew h = Staged-trouble k failure w.disk w.memory h
    retained-Prepared k (some t) linked w et ew h = Staged-trouble k failure w.disk w.memory h
    retained-Prepared k (some t) (folder o none) w et ew h =
        Staged-trouble k failure w.disk w.memory h
    retained-Prepared k (some t) (folder o (some c)) w et ew h =
        write_candidate-Prepared k (env.retain k t c) w h (λ lt.
          let x = h.1 k lt in
          cc (
            some-eq (original k) t (sym x.0.0.0 ∙ et),
            some-eq (env.staged k) c (sym (x.1 refl) ∙ ap new_of ew),
          ))

    pub prepare_candidate-Prepared :
        (k : ℕ) (n : String)
        → Hoare
            (Under env count p (Prepared k))
            (prepare_candidate env k n)
            (λ _. Under env count p (Prepared (suc k)))
            E
    unfolding prepare_candidate retain_current_settings
    prepare_candidate-Prepared k n =
        seq_rule
          (under_rule env {X = Prepared k} {Y = Prepared k} k made (λ i s x ne. x)
            (λ s s' x c lt. (made-InPlace (original k) s s' x.0 c, λ l. absurd (omega arith)))
            (Prepared-trouble k) (Prepared-trouble k))
          (seq_rule
            (under_rule env {X = Prepared k} {Y = Prepared k} k (copied (env.partial k))
              (λ i s x ne. x)
              (λ s s' x c lt. (
                (copied-InPlace (original k) (env.partial k) s s' x.0 c).0,
                λ l. absurd (omega arith),
              ))
              (Prepared-trouble k) (Prepared-trouble k))
            (seq_rule (copy-Staged k) (
              seq_rule (record { at = λ w h. retained-Prepared k _ _ w refl refl h })
                (seq_rule (raising_rule (call_rule (env.permissions n)) (Prepared-trouble (suc k)))
                  (write_rule env.disturb (λ j d. d) (λ d j h. h) (Prepared-trouble (suc k))
                    (Prepared-trouble (suc k)))))))
