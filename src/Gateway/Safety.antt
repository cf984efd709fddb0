-- ===== src/Gateway/Safety.antt =====
-- The promises of scripts/gateway_transition.py: a change of policy fails closed, and revocations are
-- never rolled back.
use resilient_datacenter.Shared.{◌≡◌, refl, sym, subst, arith}
use resilient_datacenter.Shared.Effects.{Out, ok, raised}
use resilient_datacenter.Shared.Hoare.{Post}
use resilient_datacenter.Shared.Stored.{holds}
use resilient_datacenter.Gateway.State.{Policy, Disk, World, Env}
use resilient_datacenter.Gateway.Transition.{Outcome, applied, transition_error, apply}
use resilient_datacenter.Gateway.History.{Grown, Grown-trans}
use resilient_datacenter.Gateway.Closing.{Ended, Stopped, apply_rule}

module _ {A H : Type 0} (env : Env A H) where
  -- apply of a candidate `c` on a gateway whose policy is `s` ends in one of these ways, under any
  -- fault: it returns, the policy is `c`, no change is pending, and the last call of the runtime was
  -- open; it raises TransitionError(closed), and the last call of the runtime was close, which
  -- returned exactly when `closed` is True; or it is stopped by an exception of begin or a crash at
  -- any step. Unless it returns, the runtime was not called, or the intent is on record, or the
  -- policy is `c`; and always the policy on the disk revokes all that `s` revokes.
  pub apply-Ended :
      (c s : Policy A) (w : World A H)
      → w.disk.state ≡ holds s
      → Post (Ended env s c w.disk.calls) (Stopped env s c w.disk.calls) (apply env c w)
  apply-Ended c s w h = (apply_rule env s c w.disk.calls).at w (h, refl)

  -- The policy on the disk has grown from `s`.
  abbrev pub Remembers : Policy A → Disk A → Type 0
  Remembers s d = (p : Policy A) × (d.state ≡ holds p) × Grown s p

  ended-Remembers :
      (c s : Policy A) (w : World A H) (x : Out Outcome × World A H)
      → Post (Ended env s c w.disk.calls) (Stopped env s c w.disk.calls) x
      → Remembers s x.1.disk
  ended-Remembers c s w (ok applied, v) h = (c, h.0, h.1)
  ended-Remembers c s w (ok (transition_error b), v) h = (h.0.0, h.0.1, h.0.2)
  ended-Remembers c s w (raised e, v) h = (h.0, h.1, h.2)

  -- The disk after a number of changes, each of any candidate, from any state of the host.
  pub data Changes (d : Disk A) : Disk A → Type 0 where
    none_yet : Changes d d
    then_apply :
        {d' : Disk A}
        → Changes d d'
        → (c : Policy A) (w : World A H) → w.disk ≡ d'
        → Changes d (apply env c w).1.disk

  -- After any number of changes of policy, each of which may return, be refused or be stopped at any
  -- step, the generation has not gone back, and every agreement that was revoked is still revoked.
  pub Changes-Remembers :
      {d d' : Disk A} (s : Policy A) → d.state ≡ holds s → Changes d d' → Remembers s d'
  Changes-Remembers s h none_yet = (s, h, (omega arith, λ x k. k))
  Changes-Remembers s h (then_apply r c w same) =
      let (p, e, g) = Changes-Remembers s h r in
      let (q, e', g') =
        ended-Remembers c p w (apply env c w)
          (apply-Ended c p w (subst (λ x. x.state ≡ holds p) (sym same) e)) in
      (q, e', Grown-trans s p q g g')
