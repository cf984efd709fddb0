-- ===== src/Gateway/Progress.antt =====
-- A change of policy on a gateway that works: no fault of the file system, and a runtime that returns.
use resilient_datacenter.Shared.{◌≡◌, refl, sym, subst, Bool, true, false, not, some}
use resilient_datacenter.Shared.Effects.{Signal, Out, ok, raised, Done, refuse_if, ◌>>=◌}
use resilient_datacenter.Shared.Hoare.{
  Hoare, Pred, Post, bind_rule, seq_rule, weaken_rule, fact_rule, return_rule,
}
use resilient_datacenter.Shared.Maintenance.{Fault, none_now, before, after, land, file_op}
use resilient_datacenter.Shared.Stored.{Stored, holds}
use resilient_datacenter.Gateway.State.{Policy, Operation, Disk, World, Action, Env}
use resilient_datacenter.Gateway.Store.{
  valid_policy, validated, state, follows, read_pending, pending,
}
use resilient_datacenter.Gateway.Transition.{noted, returns, perform}

-- The action does not raise.
abbrev pub Never : {A : Type 0} → Signal → Pred (Disk A) Unit
Never e d j = ⊥

module _ {A H : Type 0} where
  -- An action whose value is known.
  pub bind_at :
      {X Y : Type 0} {P Q : Pred (Disk A) Unit} {R : Y → Pred (Disk A) Unit} {m : Action A H X}
      (f : X → Action A H Y) (v : X)
      → Hoare P m (λ a d j. (a ≡ v) × Q d j) Never
      → Hoare Q (f v) R Never
      → Hoare P (m >>= f) R Never
  bind_at {Q} {R} f v h k = bind_rule h λ a.
      fact_rule (v ≡ a) (λ d j p. sym p.0)
        λ e.
          subst (λ x. Hoare (λ d j. (a ≡ v) × Q d j) (f x) R Never) e
            (weaken_rule k (λ d j p. p.1) (λ y d j r. r) (λ s d j n. n))

  pub passed :
      {P : Pred (Disk A) Unit} (b : Bool)
      → b ≡ true
      → Hoare {H = H} P (refuse_if (not b)) (λ _. P) Never
  passed true e = record { at = λ w p. p }
  passed false e = cc

  module _ (env : Env A H) (quiet : (h : H) → (env.disturb h).0 ≡ none_now)
      (answers : (o : Operation) (p : Policy A) (d : Disk A) (h : H)
        → (env.runtime o p d h).0 ≡ ok tt) where
    pub write_total :
        {P Q : Pred (Disk A) Unit} (g : Disk A → Disk A)
        → ((d : Disk A) (j : Unit) → P d j → Q (g d) j)
        → Hoare P (file_op env.disturb (λ d. some (g d))) (λ _. Q) Never
    unfolding file_op land
    write_total {Q} g q = record {
      at = λ w p. landed w (env.disturb w.host) (quiet w.host) (q w.disk w.memory p);
    }
      where
        landed :
            (w : World A H) (x : Fault × H)
            → x.0 ≡ none_now
            → Q (g w.disk) w.memory
            → Post
                (λ _. Q)
                Never
                (let (f, h) = x in land f (some (g w.disk)) (record w { host = h }))
        landed w (none_now, h) e k = k
        landed w (before s, h) e k = cc
        landed w (after s, h) e k = cc

    pub perform_total :
        {P Q : Pred (Disk A) Unit} (o : Operation) (p : Policy A)
        → ((d : Disk A) (j : Unit) → P d j → Q (noted o true d) j)
        → Hoare P (perform env o p) (λ _. Q) Never
    unfolding perform
    perform_total {Q} o p q = record {
      at = λ w h.
          called w (env.runtime o p w.disk w.host) (answers o p w.disk w.host)
            (q w.disk w.memory h);
    }
      where
        called :
            (w : World A H) (x : Out Done × H)
            → x.0 ≡ ok tt
            → Q (noted o true w.disk) w.memory
            → Post
                (λ _. Q)
                Never
                (let (r, h) = x in (r, record w { disk = noted o (returns r) w.disk; host = h }))
        called w (ok u, h) e k = k
        called w (raised s, h) e k = cc

    -- The policy on the disk is `p` and passes.
    pub state_total :
        {P : Pred (Disk A) Unit} (p : Policy A)
        → valid_policy env p ≡ true
        → ((d : Disk A) (j : Unit) → P d j → d.state ≡ holds p)
        → Hoare P (state env) (λ q d j. (q ≡ p) × P d j) Never
    unfolding state validated
    state_total {P} p v at_p = record { at = λ w h. read w w.disk.state (at_p w.disk w.memory h) h }
      where
        read :
            (w : World A H) (x : Stored (Policy A))
            → x ≡ holds p
            → P w.disk w.memory
            → Post (λ q d j. (q ≡ p) × P d j) Never (validated env x w)
        read w x e h =
            subst (λ y. Post (λ q d j. (q ≡ p) × P d j) Never (validated env y w)) (sym e)
              ((seq_rule (passed (valid_policy env p) v) (
                  weaken_rule (return_rule {Q = λ q d j. (q ≡ p) × P d j} {E = Never} p)
                    (λ d j k. (refl, k)) (λ q d j k. k) (λ s d j k. k))).at
                w h)

    -- The pending policy is `c`, which follows the one on the disk.
    pub pending_total :
        {P : Pred (Disk A) Unit} (s c : Policy A)
        → valid_policy env s ≡ true
        → valid_policy env c ≡ true
        → follows env s c ≡ true
        → ((d : Disk A) (j : Unit) → P d j → d.state ≡ holds s)
        → ((d : Disk A) (j : Unit) → P d j → d.pending ≡ holds c)
        → Hoare P (pending env) (λ o d j. (o ≡ some c) × P d j) Never
    unfolding pending read_pending
    pending_total {P} s c vs vc f at_s at_c = record {
      at = λ w h. read w w.disk.pending (at_c w.disk w.memory h) h;
    }
      where
        read :
            (w : World A H) (x : Stored (Policy A))
            → x ≡ holds c
            → P w.disk w.memory
            → Post (λ o d j. (o ≡ some c) × P d j) Never (read_pending env x w)
        read w x e h =
            subst (λ y. Post (λ o d j. (o ≡ some c) × P d j) Never (read_pending env y w)) (sym e)
              ((seq_rule (passed (valid_policy env c) vc) (
                  bind_at _ s (state_total s vs at_s) (
                    seq_rule (passed (follows env s c) f) (
                      weaken_rule
                        (return_rule {Q = λ o d j. (o ≡ some c) × P d j} {E = Never} (some c))
                        (λ d j k. (refl, k)) (λ q d j k. k) (λ x d j k. k))))).at
                w h)
