-- ===== src/Gateway/Transition.antt =====
-- apply of scripts/gateway_transition.py.
use resilient_datacenter.Shared.{Bool, true, false, ◌∷◌}
use resilient_datacenter.Shared.Effects.{
  failure, interrupt, crash, Out, ok, raised, Done, pure, raise, ◌>>◌,
}
use resilient_datacenter.Gateway.State.{
  Policy, Operation, close_access, validate, install, restart, open_access, Disk, Action, Env,
}
use resilient_datacenter.Gateway.Store.{begin, commit, finish, review}

-- How apply ends that is not stopped: it returns, or it raises TransitionError(closed).
pub data Outcome : Type 0 where
  applied : Outcome
  transition_error : Bool → Outcome

abbrev pub returns : {X : Type 0} → Out X → Bool
returns (ok x) = true
returns (raised e) = false

abbrev pub noted : {A : Type 0} → Operation → Bool → Disk A → Disk A
noted o r d = record d { calls = record { operation = o; returned = r } ∷ d.calls }

module _ {A H : Type 0} (env : Env A H) where
  -- runtime.operation(candidate)
  unfoldable pub perform : Operation → Policy A → Action A H Done
  perform o p w =
      let (r, h) = env.runtime o p w.disk w.host in
      (r, record w { disk = noted o (returns r) w.disk; host = h })

  -- The body of apply's `try`.
  unfoldable pub transition : Policy A → Action A H Done
  transition candidate = do
    perform close_access candidate
    perform validate candidate
    commit env candidate
    perform install candidate
    perform restart candidate
    review env candidate
    perform open_access candidate
    finish env

  -- `try: runtime.close(); closed=True` with `except BaseException: closed=False`
  unfoldable pub closed_after : Out Done → Action A H Outcome
  closed_after (ok u) = pure (transition_error true)
  closed_after (raised failure) = pure (transition_error false)
  closed_after (raised interrupt) = pure (transition_error false)
  closed_after (raised crash) = raise crash

  unfoldable pub close_again : Policy A → Action A H Outcome
  close_again candidate w = let (r, w') = perform close_access candidate w in closed_after r w'

  -- apply's `except BaseException`
  unfoldable pub settle : Policy A → Out Done → Action A H Outcome
  settle candidate (ok u) = pure applied
  settle candidate (raised crash) = raise crash
  settle candidate (raised failure) = close_again candidate
  settle candidate (raised interrupt) = close_again candidate

  unfoldable pub guarded : Policy A → Action A H Outcome
  guarded candidate w = let (r, w') = transition candidate w in settle candidate r w'

  unfoldable pub apply : Policy A → Action A H Outcome
  apply candidate = begin env candidate >> guarded candidate
