-- ===== src/Allocation/Inspecting.antt =====
-- What check and wait_task of scripts/proxmox_provision.py leave as it is.
use resilient_datacenter.Shared.{
  ℕ, suc, zero, ◌+◌, Bool, not, ltb, str_eq, ◌&&◌, String, Option, none, some, List, [], ◌∷◌, map,
  ◌≡◌, refl, sym, ap, ◌∙◌, if◌then◌else◌,
}
use resilient_datacenter.Shared.Effects.{failure, Out, Done, pure, raise, refuse_if, ◌>>=◌, ◌>>◌}
use resilient_datacenter.Shared.Hoare.{
  Hoare, seq_rule, bind_rule, weaken_rule, return_rule, raise_rule, refuse_rule, reading_rule,
  call_rule, if_rule,
}
use resilient_datacenter.Site.Plan.{Plan, valid, has_number}
use resilient_datacenter.Allocation.State.{
  Wanted, payloads, Resource, Task, task_running, task_stopped, other_task, Disk, Action, Env,
}
use resilient_datacenter.Allocation.Provisioning.{
  demand, bridges_ok, resource_of, missing_from, total_disk, total_memory, storage_ok, memory_ok,
  ask, owned, check_owned, inspect, survey, list_resources, check, after_task, slept, poll,
  wait_task, latest,
}

module _ {C H : Type 0} (env : Env C H) where
  -- What holds before the action holds after it, however it ends.
  abbrev pub Keeps : {A : Type 0} → (Disk → Type 0) → Action H A → Type 0
  Keeps P m = Hoare (λ d j. P d) m (λ a d j. P d) (λ s d j. P d)

  pub demanded : {A : Type 0} {P : Disk → Type 0} (o : Option A) → Keeps P (demand o)
  demanded none = record { at = λ w p. p }
  demanded (some a) = record { at = λ w p. p }

  pub refused : {P : Disk → Type 0} (b : Bool) → Keeps P (refuse_if b)
  refused b = weaken_rule (refuse_rule b) (λ d j p. p) (λ a d j p. p.0) (λ s d j p. p)

  asked :
      {A B : Type 0} {P : Disk → Type 0} (f : H → Out (Option A) × H) {k : A → Action H B}
      {Q : B → Disk → Type 0}
      → ((a : A) → Hoare (λ d j. P d) (k a) (λ b d j. Q b d) (λ s d j. P d))
      → Hoare
          (λ d j. P d)
          (ask env f >>= λ answer. demand answer >>= k)
          (λ b d j. Q b d)
          (λ s d j. P d)
  asked f h = bind_rule (call_rule (λ d. f)) (λ answer. bind_rule (demanded answer) h)

  pub check_owned-Keeps : {P : Disk → Type 0} (m : Wanted) → Keeps P (check_owned env m)
  unfolding check_owned
  check_owned-Keeps m = asked (env.get_config m.vmid) (λ config. refused (not (owned env m config)))

  inspect-Keeps :
      {P : Disk → Type 0} (p : Plan) (rs : List Resource) (m : Wanted)
      → Keeps P (inspect env p rs m)
  unfolding inspect
  inspect-Keeps p rs m = bind_rule (demanded (resource_of m.vmid rs)) (λ r.
      seq_rule (refused (not (str_eq r.node p.proxmox.node && r.is_qemu))) (
        seq_rule (check_owned-Keeps m)
          (bind_rule (call_rule (λ d. env.get_is_stopped m.vmid)) (λ b. refused (not b)))))

  survey_rule :
      {P : Disk → Type 0} (p : Plan) (rs : List Resource) (listed : List ℕ) (ms : List Wanted)
      → Hoare
          (λ d j. P d)
          (survey env p rs listed ms)
          (λ r d j. P d × (r ≡ missing_from listed ms))
          (λ s d j. P d)
  unfolding survey missing_from
  survey_rule p rs listed [] = record { at = λ w h. (h, refl) }
  survey_rule {P} p rs listed (m ∷ ms) =
      if_rule (has_number m.vmid listed)
        (λ t. rw t (seq_rule (inspect-Keeps p rs m) (survey_rule p rs listed ms)))
        (λ f. rw f (
          bind_rule (survey_rule p rs listed ms)
            (λ r. record { at = λ w h. (h.0, ap (λ x. m ∷ x) h.1) })))

  module _ {P : Disk → Type 0}
      (grows : (d : Disk) (l : List ℕ) → P d → P (record d { listings = l ∷ d.listings })) where
    list_rule :
        Hoare
          (λ d j. P d)
          (list_resources env)
          (λ rs d j. P d × (latest d.listings ≡ map (λ r. r.vmid) rs))
          (λ s d j. P d)
    unfolding list_resources
    list_rule =
        asked env.get_resources
          (λ rs. record { at = λ w h. (grows w.disk (map (λ r. r.vmid) rs) h, refl) })

    abbrev Reported : Plan → List Wanted → Disk → Type 0
    Reported p r d = P d × (r ≡ missing_from (latest d.listings) (payloads env.digest p))

    -- The end of check.
    room_rule :
        (p : Plan) (r : List Wanted)
        → Hoare {H = H}
            (λ d j. Reported p r d)
            (ask env env.get_storage >>= λ answer. demand answer >>= λ storage.
              refuse_if (not (storage_ok storage (total_disk r)))
              >> (ask env env.get_free_memory >>= λ free.
                  refuse_if (not (memory_ok free (total_memory (payloads env.digest p))))
                  >> pure r))
            (λ x d j. Reported p x d)
            (λ s d j. Reported p r d)
    room_rule p r = asked env.get_storage (λ storage.
        seq_rule (refused (not (storage_ok storage (total_disk r)))) (
          bind_rule (call_rule (λ d. env.get_free_memory)) (λ free.
            seq_rule (refused (not (memory_ok free (total_memory (payloads env.digest p)))))
              (return_rule {Q = λ x d j. Reported p x d} r))))

    -- check reports the machines that the listing has not shown, and posts nothing.
    pub check_rule :
        (p : Plan)
        → Hoare
            (λ d j. P d)
            (check env p)
            (λ r d j. P d × (r ≡ missing_from (latest d.listings) (payloads env.digest p)))
            (λ s d j. P d)
    unfolding check
    check_rule p = seq_rule (refused (not (valid p))) (
        asked env.get_version (λ version. seq_rule (refused (not (env.is_version_nine version))) (
          asked env.get_bridges (λ bridges. seq_rule (refused (not (bridges_ok p bridges))) (
            bind_rule list_rule (λ rs.
              bind_rule {Q = λ r d j. Reported p r d}
                (weaken_rule
                  (survey_rule {P = λ d. P d × (latest d.listings ≡ map (λ r. r.vmid) rs)} p rs
                    (map (λ r. r.vmid) rs) (payloads env.digest p))
                  (λ d j h. h)
                  (λ r d j h.
                    (h.0.0, h.1 ∙ ap (λ l. missing_from l (payloads env.digest p)) (sym h.0.1)))
                  (λ s d j h. h.0))
                (λ r.
                  weaken_rule (room_rule p r) (λ d j h. h) (λ x d j h. h) (λ s d j h. h.0))))))))

  after_task-Keeps :
      {P : Disk → Type 0} (t : Task) {again : Action H Done}
      → Keeps P again
      → Keeps P (after_task t again)
  after_task-Keeps (task_stopped b) h = refused (not b)
  after_task-Keeps other_task h = raise_rule failure
  after_task-Keeps task_running h = h

  poll-Keeps :
      {P : Disk → Type 0} (fuel : ℕ) (upid : String) (deadline : ℕ)
      → Keeps P (poll env fuel upid deadline)
  unfolding poll
  poll-Keeps zero upid deadline = record { at = λ w p. p }
  poll-Keeps {P} (suc fuel) upid deadline =
      reading_rule
        (λ w.
          if ltb (env.clock w.host) deadline
          then (ask env (env.get_task upid) >>= λ answer.
              demand answer >>= λ task. after_task task (slept env >> poll env fuel upid deadline))
          else raise failure)
        (λ w.
          if_rule (ltb (env.clock w.host) deadline)
            (λ t. asked (env.get_task upid) (λ task. after_task-Keeps task (
              seq_rule {Q = λ d j. P d} {m = slept env} (record { at = λ v p. p })
                (poll-Keeps fuel upid deadline))))
            (λ f. raise_rule failure))

  pub wait_task-Keeps : {P : Disk → Type 0} (upid : Option String) → Keeps P (wait_task env upid)
  unfolding wait_task
  wait_task-Keeps none = record { at = λ w p. p }
  wait_task-Keeps (some upid) =
      reading_rule (λ w. poll env 60 upid (env.clock w.host + 120))
        (λ w. poll-Keeps 60 upid (env.clock w.host + 120))
