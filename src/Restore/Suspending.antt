-- ===== src/Restore/Suspending.antt =====
-- The gateway's store before its restoration: what a suspension may have written to it.
use resilient_datacenter.Shared.{ℕ, ◌≢◌, true, false, ◌≡◌, refl, arith, some, ◌==◌}
use resilient_datacenter.Shared.Effects.{
  Signal, failure, interrupt, crash, Out, ok, raised, Done, ◌>>◌,
}
use resilient_datacenter.Shared.Maintenance
use resilient_datacenter.Shared.Maintenance.{call, cleaned_up}
use resilient_datacenter.Shared.Hoare.{
  Hoare, Pred, Post, seq_rule, raising_rule, pure_rule, raise_rule, call_rule, if_rule,
  reading_rule,
}
use resilient_datacenter.Restore.State.{Journal, Slot, Disk, World, put}
use resilient_datacenter.Restore.Files.{Env, gateway_store, on_target, slot_op}
use resilient_datacenter.Restore.Transaction.{
  touch, write_reference, begin_gateway_restore, promote,
}
use resilient_datacenter.Restore.Invariant.{put_all, slot_rule}
use resilient_datacenter.Restore.RollingBack.{InPlace}
use resilient_datacenter.Restore.Preparing.{Prepared}
use resilient_datacenter.Restore.Recovering.{Recovered}
use resilient_datacenter.Restore.Applying.{
  built, Trouble, Untouched, untouched, promote_data-Restored,
}

module _ {T H : Type 0} (env : Env T H) (original : ℕ → T) where
  -- The previous data: what was there at first, where the store of a gateway may have got the recovery
  -- reference, or what an interrupted write of it leaves.
  pub data Previous : (ℕ → T) → Type 0 where
    unchanged : Previous original
    has_begun :
        env.gateway ≡ true
        → (h : H) (o : ℕ → T) → Previous o
        → Previous (put (gateway_store env) (env.begun h (o (gateway_store env))) o)
    has_reference :
        env.gateway ≡ true
        → (h : H) (o : ℕ → T) → Previous o
        → Previous (put (gateway_store env) (env.referenced h (o (gateway_store env))) o)
    has_tidied :
        env.gateway ≡ true
        → (h : H) (o : ℕ → T) → Previous o
        → Previous (put (gateway_store env) (env.tidied h (o (gateway_store env))) o)

  pub Previous-unchanged : env.gateway ≡ false → (o : ℕ → T) → Previous o → o ≡ original
  Previous-unchanged e o unchanged = refl
  Previous-unchanged e o (has_begun g h p q) = absurd (cc (e, g))
  Previous-unchanged e o (has_reference g h p q) = absurd (cc (e, g))
  Previous-unchanged e o (has_tidied g h p q) = absurd (cc (e, g))

-- A write to the file of a resource in place.
touched-InPlace :
    {T : Type 0} (o : T) (f : T → T) (s s' : Slot T)
    → InPlace o s
    → on_target f s ≡ some s'
    → InPlace (f o) s'
touched-InPlace o f s s' h e = ground arith

module _ {T H : Type 0} (env : Env T H) (count : ℕ) (original : ℕ → T) where
  -- For some previous data.
  abbrev pub Some : ((ℕ → T) → Pred (Disk T) Journal) → Pred (Disk T) Journal
  Some P d j = (o : ℕ → T) × (Previous env original o × P o d j)

  abbrev pub Suspended : Pred (Disk T) Journal
  Suspended = Some (Untouched env count)

  touch_rule :
      (f : H → T → T)
      → ((h : H) (o : ℕ → T)
          → Previous env original o
          → Previous env original (put (gateway_store env) (f h (o (gateway_store env))) o))
      → Hoare Suspended (touch env f) (λ _. Suspended) (λ _. Suspended)
  unfolding touch
  touch_rule f step =
      reading_rule (λ w. slot_op env (gateway_store env) (on_target (f w.host)))
        (λ w.
          slot_rule env (gateway_store env) (on_target (f w.host))
            (λ d s j b e. written w.host d s j b e) (λ e d j b. b) (λ e d j b. b))
    where
      written :
          (h : H) (d : Disk T) (s : Slot T) (j : Journal)
          → Suspended d j
          → on_target (f h) (d.slots (gateway_store env)) ≡ some s
          → Suspended (record d { slots = put (gateway_store env) s d.slots }) j
      written h d s j (o, (p, (pending, placed))) e = (
        put (gateway_store env) (f h (o (gateway_store env))) o,
        (
          step h o p,
          (
            record {
              marked = pending.marked;
              written = pending.written;
              counted = pending.counted;
            },
            put_all (Prepared env count (put (gateway_store env) (f h (o (gateway_store env))) o) 0)
                (gateway_store env) s d.slots
                (λ i lt ne. (elsewhere i s d ne (placed i lt).0, λ l. absurd (omega arith)))
                (λ lt. (
                  here s (
                      touched-InPlace (o (gateway_store env)) (f h) (d.slots (gateway_store env)) s
                        (placed (gateway_store env) lt).0 e),
                  λ l. absurd (omega arith),
                )),
          ),
        ),
      )
        where
          elsewhere :
              (i : ℕ) (s : Slot T) (d : Disk T)
              → i ≢ gateway_store env
              → InPlace (o i) (d.slots i)
              → InPlace (put (gateway_store env) (f h (o (gateway_store env))) o i) (d.slots i)
          elsewhere i s d ne x =
              let apart : i == gateway_store env ≡ false = ground arith in rw (apart, put) x

          here :
              (s : Slot T)
              → InPlace (f h (o (gateway_store env))) s
              → InPlace
                  (put (gateway_store env) (f h (o (gateway_store env))) o (gateway_store env))
                  s
          here s x =
              let same : gateway_store env == gateway_store env ≡ true = ground arith in
              rw (same, put) x

  write_reference_rule :
      env.gateway ≡ true → Hoare Suspended (write_reference env) (λ _. Suspended) (λ _. Suspended)
  unfolding write_reference cleaned_up
  write_reference_rule g = record {
    at = λ w b. cleaned ((touch env env.begun >> touch env env.referenced) w) (
        (seq_rule (touch_rule env.begun (has_begun g))
            (touch_rule env.referenced (has_reference g))).at
          w b);
  }
    where
      cleaned :
          (r : Out Done × World T H)
          → Post (λ _. Suspended) (λ _. Suspended) r
          → Post (λ _. Suspended) (λ _. Suspended) (cleaned_up r.0 (touch env env.tidied) r.1)
      cleaned (ok a, w) b = b
      cleaned (raised crash, w) b = b
      cleaned (raised failure, w) b =
          (seq_rule (touch_rule env.tidied (has_tidied g))
              (raise_rule {Q = λ _. Suspended} failure)).at
            w b
      cleaned (raised interrupt, w) b =
          (seq_rule (touch_rule env.tidied (has_tidied g))
              (raise_rule {Q = λ _. Suspended} interrupt)).at
            w b

  begin_rule : Hoare Suspended (begin_gateway_restore env) (λ _. Suspended) (λ _. Suspended)
  unfolding begin_gateway_restore
  begin_rule =
      if_rule env.gateway
        (λ g.
          seq_rule (call_rule env.begin_restore)
            (seq_rule (write_reference_rule g) (call_rule env.close_gateway)))
        (λ g. pure_rule tt)

  -- What is proved for any previous data holds for the one that there is.
  pub some_rule :
      {A : Type 0} {m : Maintenance.Action (Disk T) Journal H A}
      {P : (ℕ → T) → Pred (Disk T) Journal} {Q : (ℕ → T) → A → Pred (Disk T) Journal}
      {E : (ℕ → T) → Signal → Pred (Disk T) Journal}
      → ((o : ℕ → T) → Hoare (P o) m (Q o) (E o))
      → Hoare (Some P) m (λ a. Some (λ o. Q o a)) (λ e. Some (λ o. E o e))
  some_rule {A} {m} {Q} {E} h = record { at = λ w b. wrapped (m w) b.0 b.1.0 ((h b.0).at w b.1.1) }
    where
      wrapped :
          (r : Out A × World T H) (o : ℕ → T)
          → Previous env original o
          → Post (Q o) (E o) r
          → Post (λ a. Some (λ o. Q o a)) (λ e. Some (λ o. E o e)) r
      wrapped (ok a, w) o p x = (o, (p, x))
      wrapped (raised e, w) o p x = (o, (p, x))

  -- The body of apply's `try`, after the isolation.
  pub promote-Restored :
      Hoare Suspended
        (promote env)
        (λ a. Some (λ o d j. Recovered count o (built env count o) a d))
        (λ e. Some (λ o d j. Trouble env count o d j))
  unfolding promote
  promote-Restored =
      seq_rule
        (raising_rule begin_rule (λ e d j b. (b.0, (b.1.0, untouched env count b.0 e d j b.1.1))))
        (some_rule (λ o. promote_data-Restored env count o))
