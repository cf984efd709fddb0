-- ===== src/Gateway/Closing.antt =====
-- What apply of scripts/gateway_transition.py leaves, step by step.
use resilient_datacenter.Shared.{
  ◌≡◌, refl, ◌⊎◌, inl, inr, true, false, Option, none, some, List, [], ◌∷◌, arith,
}
use resilient_datacenter.Shared.Effects.{Signal, failure, interrupt, crash, Out, ok, raised, Done}
use resilient_datacenter.Shared.Hoare.{
  Hoare, Pred, Post, bind_rule, seq_rule, raising_rule, weaken_rule, write_rule, return_rule,
}
use resilient_datacenter.Shared.Stored.{Stored, absent, unsafe, holds}
use resilient_datacenter.Gateway.State.{
  Policy, Operation, close_access, validate, install, restart, open_access, Event, Disk, World, Env,
}
use resilient_datacenter.Gateway.Store.{
  pending, read_pending, write_pending, begin_after, begin, unlink_pending, finish,
}
use resilient_datacenter.Gateway.Transition.{
  Outcome, applied, transition_error, returns, noted, perform, transition, closed_after,
  close_again, settle, guarded, apply,
}
use resilient_datacenter.Gateway.Reading.{state_rule, pending_rule, review_rule}
use resilient_datacenter.Gateway.History.{kept, Grown, Kept, Committed, commit-Committed}

-- The intent is on record.
abbrev pub Marked : {A : Type 0} → Disk A → Type 0
Marked {A} d = (p : Policy A) × (d.pending ≡ holds p)

-- The last call of the runtime, and whether it returned.
abbrev pub last_call : List Event → Option Event
last_call [] = none
last_call (e ∷ es) = some e

module _ {A H : Type 0} (env : Env A H) (s c : Policy A) (before : List Event) where
  -- The policy on the disk has grown from `s`; the intent is on record, or the policy is `c`.
  abbrev pub Guarded : Pred (Disk A) Unit
  Guarded d j = (p : Policy A) × (d.state ≡ holds p) × Grown s p × (Marked d ⊎ (d.state ≡ holds c))

  -- The same, or the runtime was not called.
  abbrev pub Stopped : Signal → Pred (Disk A) Unit
  Stopped e d j =
      (p : Policy A) × (d.state ≡ holds p)
      × Grown s p
      × ((d.calls ≡ before) ⊎ Marked d ⊎ (d.state ≡ holds c))

  -- What the end of apply says.
  abbrev pub Ended : Outcome → Pred (Disk A) Unit
  Ended applied d j =
      (d.state ≡ holds c)
      × Grown s c
      × (d.pending ≡ absent)
      × (last_call d.calls ≡ some (record { operation = open_access; returned = true }))
  Ended (transition_error closed) d j =
      Guarded d j
      × (last_call d.calls ≡ some (record { operation = close_access; returned = closed }))

  abbrev Before : Pred (Disk A) Unit
  Before = Kept env Marked (λ d p h. h) s

  abbrev After : Pred (Disk A) Unit
  After = Committed env Marked (λ d p h. h) s c

  Before-Guarded : (e : Signal) (d : Disk A) (j : Unit) → Before d j → Guarded d j
  Before-Guarded e d j h = (h.0, h.1, h.2, inl h.3)

  After-Guarded : (e : Signal) (d : Disk A) (j : Unit) → After d j → Guarded d j
  After-Guarded e d j h = (c, h.0, h.1, inl h.2)

  perform_rule :
      {P Q : Pred (Disk A) Unit} {E : Signal → Pred (Disk A) Unit} (o : Operation) (p : Policy A)
      → ((d : Disk A) (j : Unit) → P d j → Q (noted o true d) j)
      → ((e : Signal) (d : Disk A) (j : Unit) → P d j → E e (noted o false d) j)
      → Hoare P (perform env o p) (λ _. Q) E
  unfolding perform
  perform_rule {P} {Q} {E} o p q e = record {
    at = λ w h. performed w (env.runtime o p w.disk w.host) h;
  }
    where
      performed :
          (w : World A H) (r : Out Done × H)
          → P w.disk w.memory
          → Post
              (λ _. Q)
              E
              (let (x, h) = r in (x, record w { disk = noted o (returns x) w.disk; host = h }))
      performed w (ok u, h) k = q w.disk w.memory k
      performed w (raised x, h) k = e x w.disk w.memory k

  -- Opened: the last call was open.
  abbrev Opened : Pred (Disk A) Unit
  Opened d j =
      After d j × (last_call d.calls ≡ some (record { operation = open_access; returned = true }))

  finish_rule : Hoare Opened (finish env) (λ _. Ended applied) (λ e. Guarded)
  unfolding finish unlink_pending
  finish_rule = bind_rule (raising_rule (pending_rule env) opened) λ o.
      bind_rule (raising_rule (state_rule env) opened) λ q.
        seq_rule (raising_rule (kept env _) opened) (
          write_rule env.disturb (λ j d. record d { pending = absent })
            (λ d j h. (h.0.0, h.0.1, refl, h.1)) opened (λ e d j h. (c, h.0, h.1, inr h.0)))
    where
      opened : (e : Signal) (d : Disk A) (j : Unit) → Opened d j → Guarded d j
      opened e d j h = (c, h.0.0, h.0.1, inl h.0.2)

  transition_rule : Hoare Before (transition env c) (λ _. Ended applied) (λ e. Guarded)
  unfolding transition
  transition_rule =
      seq_rule (perform_rule {Q = Before} close_access c (λ d j h. h) Before-Guarded) (
        seq_rule (perform_rule {Q = Before} validate c (λ d j h. h) Before-Guarded) (
          seq_rule (raising_rule (commit-Committed env Marked (λ d p h. h) s c) Before-Guarded) (
            seq_rule (perform_rule {Q = After} install c (λ d j h. h) After-Guarded) (
              seq_rule (perform_rule {Q = After} restart c (λ d j h. h) After-Guarded) (
                seq_rule (raising_rule (review_rule env {P = After} (λ d j r h. h) c) After-Guarded)
                  (seq_rule
                    (perform_rule {Q = Opened} open_access c (λ d j h. (h, refl)) After-Guarded)
                    finish_rule))))))

  Guarded-Stopped : (e : Signal) (d : Disk A) (j : Unit) → Guarded d j → Stopped e d j
  Guarded-Stopped e d j h = (h.0, h.1, h.2, inr h.3)

  closed_after-Post :
      (x : Out Done × World A H)
      → Post
          (λ _ d j. Ended (transition_error true) d j)
          (λ e d j. Ended (transition_error false) d j)
          x
      → Post Ended Stopped (closed_after env x.0 x.1)
  unfolding closed_after
  closed_after-Post (ok u, w) h = h
  closed_after-Post (raised failure, w) h = h
  closed_after-Post (raised interrupt, w) h = h
  closed_after-Post (raised crash, w) h = Guarded-Stopped crash w.disk w.memory h.0

  close_again_rule : Hoare Guarded (close_again env c) Ended Stopped
  unfolding close_again
  close_again_rule = record {
    at = λ w h. closed_after-Post (perform env close_access c w) (
        (perform_rule {P = Guarded} {Q = Ended (transition_error true)}
            {E = λ e. Ended (transition_error false)} close_access c (λ d j k. (k, refl))
            (λ e d j k. (k, refl))).at
          w h);
  }

  settle-Post :
      (x : Out Done × World A H)
      → Post (λ _. Ended applied) (λ e. Guarded) x
      → Post Ended Stopped (settle env c x.0 x.1)
  unfolding settle
  settle-Post (ok u, w) h = h
  settle-Post (raised failure, w) h = close_again_rule.at w h
  settle-Post (raised interrupt, w) h = close_again_rule.at w h
  settle-Post (raised crash, w) h = Guarded-Stopped crash w.disk w.memory h

  guarded_rule : Hoare Before (guarded env c) Ended Stopped
  unfolding guarded
  guarded_rule = record { at = λ w h. settle-Post (transition env c w) (transition_rule.at w h) }

  -- apply starts from the policy `s`, with the runtime not called yet.
  abbrev pub Starting : Pred (Disk A) Unit
  Starting d j = (d.state ≡ holds s) × (d.calls ≡ before)

  Starting-Stopped : (e : Signal) (d : Disk A) (j : Unit) → Starting d j → Stopped e d j
  Starting-Stopped e d j h = (s, h.0, (omega arith, λ x k. k), inl h.1)

  abbrev Found : Option (Policy A) → Disk A → Type 0
  Found none d = Unit
  Found (some p) d = Marked d

  read_pending-Found :
      (w : World A H) (x : Stored (Policy A))
      → w.disk.pending ≡ x
      → Starting w.disk w.memory
      → Post (λ o d j. Starting d j × Found o d) (λ _. Starting) (read_pending env x w)
  unfolding read_pending
  read_pending-Found w absent e h = (h, tt)
  read_pending-Found w unsafe e h = h
  read_pending-Found w (holds p) e h =
      (seq_rule (raising_rule (kept env {P = λ d j. Starting d j × Marked d} _) (λ x d j k. k.0)) (
          bind_rule (raising_rule (state_rule env) (λ x d j k. k.0)) λ q.
            seq_rule (raising_rule (kept env _) (λ x d j k. k.0))
              (return_rule {Q = λ o d j. Starting d j × Found o d} (some p)))).at
        w (h, (p, e))

  pending-Found : Hoare Starting (pending env) (λ o d j. Starting d j × Found o d) (λ _. Starting)
  unfolding pending
  pending-Found = record { at = λ w h. read_pending-Found w w.disk.pending refl h }

  Marked-Before : (d : Disk A) (j : Unit) → d.state ≡ holds s → Marked d → Before d j
  Marked-Before d j h m = (s, h, (omega arith, λ x k. k), m)

  begin_after-Before :
      (q : Policy A) (o : Option (Policy A))
      → Hoare (λ d j. Starting d j × Found o d) (begin_after env c q o) (λ _. Before) Stopped
  unfolding begin_after write_pending
  begin_after-Before q (some p) =
      weaken_rule (kept env _) (λ d j h. h) (λ a d j h. Marked-Before d j h.0.0 h.1)
        (λ e d j h. Starting-Stopped e d j h.0)
  begin_after-Before q none =
      seq_rule {Q = Starting}
        (weaken_rule (kept env _) (λ d j h. h.0) (λ a d j h. h) Starting-Stopped)
        (write_rule env.disturb (λ j d. record d { pending = holds c })
          (λ d j h. (s, h.0, (omega arith, λ x k. k), (c, refl))) Starting-Stopped
          (λ e d j h. Guarded-Stopped e d j (Before-Guarded e d j h)))

  -- apply, from the policy `s`.
  pub apply_rule : Hoare Starting (apply env c) Ended Stopped
  unfolding apply begin
  apply_rule =
      seq_rule
        (seq_rule (raising_rule (kept env _) Starting-Stopped) (
          bind_rule (raising_rule (state_rule env) Starting-Stopped) λ q.
            bind_rule (raising_rule pending-Found Starting-Stopped) λ o. begin_after-Before q o))
        guarded_rule
