-- ===== src/Allocation/Waiting.antt =====
-- The loop of wait_task of scripts/proxmox_provision.py ends.
use resilient_datacenter.Shared.{
  ℕ, suc, zero, ◌+◌, ◌*◌, ◌≤◌, false, ltb, String, Option, none, some, ◌≡◌, refl, inl, inr,
  Bool-cases, arith,
}
use resilient_datacenter.Shared.Effects.{failure, Out, ok, proceed, raised, Done, ◌>>=◌, ◌>>◌}
use resilient_datacenter.Shared.Maintenance.{call}
use resilient_datacenter.Allocation.State.{
  Task, task_running, task_stopped, other_task, World, Action, Env,
}
use resilient_datacenter.Allocation.Provisioning.{demand, after_task, slept, poll, wait_task}

module _ {C H : Type 0} (env : Env C H) where
  -- The clock does not go back during a request, and a sleep of two seconds lasts that long.
  pub record Advances : Type 0 where
    pub request : (upid : String) (h : H) → env.clock h ≤ env.clock (env.get_task upid h).1
    pub slept_on : (h : H) → env.clock h + 2 ≤ env.clock (env.sleep h)

  -- One round on the answer to a request, where what follows a sleep is the same.
  answered :
      (o : Out (Option Task)) (v : World H) (again again' : Action H Done)
      → again (record v { host = env.sleep v.host }) ≡ again' (record v { host = env.sleep v.host })
      → proceed o (λ answer. demand answer >>= λ task. after_task task (slept env >> again)) v
        ≡ proceed o (λ answer. demand answer >>= λ task. after_task task (slept env >> again')) v
  answered (raised s) v again again' e = refl
  answered (ok none) v again again' e = refl
  answered (ok (some (task_stopped b))) v again again' e = refl
  answered (ok (some other_task)) v again again' e = refl
  answered (ok (some task_running)) v again again' e = e

  late :
      (fuel : ℕ) (upid : String) (deadline : ℕ) (w : World H)
      → ltb (env.clock w.host) deadline ≡ false
      → poll env fuel upid deadline w ≡ (raised failure, w)
  unfolding poll
  late zero upid deadline w e = refl
  late (suc fuel) upid deadline w e = rw e refl

  poll-more :
      (fuel more : ℕ) (upid : String) (deadline : ℕ) (w : World H)
      → Advances
      → fuel ≤ more
      → deadline ≤ env.clock w.host + 2 * fuel
      → poll env more upid deadline w ≡ poll env fuel upid deadline w
  unfolding poll call
  poll-more zero more upid deadline w advances le enough = late more upid deadline w (ground arith)
  poll-more (suc fuel) zero upid deadline w advances le enough = absurd (omega (arith, le))
  poll-more (suc fuel) (suc more) upid deadline w advances le enough =
      elim (Bool-cases (ltb (env.clock w.host) deadline)) [
        | inl t ↦
            let (o, h) = env.get_task upid w.host in
            let later : deadline ≤ env.clock (env.sleep h) + 2 * fuel =
              omega (arith, enough, advances.request upid w.host, advances.slept_on h) in
            rw t (
              answered o (record w { host = h }) (poll env more upid deadline)
                (poll env fuel upid deadline)
                (poll-more fuel more upid deadline (record w { host = env.sleep h }) advances
                  (omega (arith, le)) later))
        | inr f ↦ rw f refl
      ]

  -- The loop of wait_task ends at its deadline and not for want of fuel: if the clock does not go
  -- back during a request and a sleep lasts two seconds, any fuel of 60 rounds or more gives the same.
  pub wait_task-enough :
      (more : ℕ) (upid : String) (w : World H)
      → Advances
      → 60 ≤ more
      → poll env more upid (env.clock w.host + 120) w ≡ wait_task env (some upid) w
  unfolding wait_task
  wait_task-enough more upid w advances le =
      poll-more 60 more upid (env.clock w.host + 120) w advances le (omega arith)
