-- ===== src/Allocation/Provisioning.antt =====
-- owned, check, wait_task and allocate of scripts/proxmox_provision.py.
use resilient_datacenter.Shared.{
  ℕ, suc, zero, ◌+◌, ◌*◌, String, Bool, false, not, ◌&&◌, leb, ltb, ◌==◌, str_eq, Option, none,
  some, List, [], ◌∷◌, map, any, all, if◌then◌else◌,
}
use resilient_datacenter.Shared.Effects.{
  failure, Out, ok, raised, Done, pure, raise, refuse_if, ◌>>=◌, ◌>>◌,
}
use resilient_datacenter.Shared.Maintenance.{call}
use resilient_datacenter.Site.Plan.{zones, Plan, valid, has_number}
use resilient_datacenter.Allocation.State.{
  Wanted, payloads, Bridge, Resource, Config, Storage, Task, task_running, task_stopped, other_task,
  Disk, Action, Env,
}

abbrev pub demand : {H A : Type 0} → Option A → Action H A
demand none = raise failure
demand (some a) = pure a

abbrev pub later_or : {A : Type 0} → Option A → Option A → Option A
later_or none o = o
later_or (some a) o = some a

-- by_name.get(name) and by_id.get(vmid), where a later entry replaces an earlier one
unfoldable pub bridge_named : String → List Bridge → Option Bridge
bridge_named n [] = none
bridge_named n (b ∷ bs) =
    let rest = bridge_named n bs in later_or rest (if str_eq b.iface n then some b else none)

unfoldable pub resource_of : ℕ → List Resource → Option Resource
resource_of n [] = none
resource_of n (r ∷ rs) =
    let rest = resource_of n rs in later_or rest (if r.vmid == n then some r else none)

abbrev pub is_usable_bridge : Option Bridge → Bool
is_usable_bridge none = false
is_usable_bridge (some b) = b.is_bridge && b.is_active

abbrev pub is_exposed : Option Bridge → Bool
is_exposed none = false
is_exposed (some b) = b.has_address

unfoldable pub bridges_ok : Plan → List Bridge → Bool
bridges_ok p bs =
    all (λ n. is_usable_bridge (bridge_named n bs))
      (p.proxmox.wan_bridge ∷ map (λ z. (p.networks z).bridge) zones)
    && not (is_exposed (bridge_named p.proxmox.wan_bridge bs))

unfoldable pub missing_from : List ℕ → List Wanted → List Wanted
missing_from listed [] = []
missing_from listed (m ∷ ms) =
    let rest = missing_from listed ms in if has_number m.vmid listed then rest else m ∷ rest

abbrev pub is_missing_id : ℕ → List Wanted → Bool
is_missing_id n ms = any (λ m. m.vmid == n) ms

-- sum(plan['vms'][role]['disk_gib'] … for the missing machines), and the memory of all
abbrev pub total_disk : List Wanted → ℕ
total_disk [] = 0
total_disk (m ∷ ms) = m.disk_gib + total_disk ms

abbrev pub total_memory : List Wanted → ℕ
total_memory [] = 0
total_memory (m ∷ ms) = m.memory + total_memory ms

abbrev pub has_room : Option ℕ → ℕ → Bool
has_room none need = false
has_room (some n) need = leb need n

unfoldable pub storage_ok : Storage → ℕ → Bool
storage_ok s need_gib =
    s.is_active
    && s.is_enabled
    && s.has_images
    && s.is_supported
    && has_room s.available ((need_gib + 10) * 1073741824)

unfoldable pub memory_ok : Option ℕ → ℕ → Bool
memory_ok free need_mib = has_room free (need_mib * 1048576 + 2147483648)

abbrev pub latest : List (List ℕ) → List ℕ
latest [] = []
latest (l ∷ ls) = l

abbrev pub noted : Wanted → Disk → Disk
noted m d = record d { posted = record { wanted = m; listed = latest d.listings } ∷ d.posted }

abbrev pub after_task : {H : Type 0} → Task → Action H Done → Action H Done
after_task (task_stopped is_ok) again = refuse_if (not is_ok)
after_task other_task again = raise failure
after_task task_running again = again

module _ {C H : Type 0} (env : Env C H) where
  -- api.request('GET', …)
  abbrev pub ask : {A : Type 0} → (H → Out A × H) → Action H A
  ask f = call (λ d h. f h)

  unfoldable pub owned : Wanted → Config C → Bool
  owned wanted c =
      str_eq c.description wanted.description && not c.is_locked && env.owned_others wanted c.others

  unfoldable pub check_owned : Wanted → Action H Done
  check_owned wanted = do
    answer ← ask (env.get_config wanted.vmid)
    config ← demand answer
    refuse_if (not (owned wanted config))

  unfoldable pub inspect : Plan → List Resource → Wanted → Action H Done
  inspect p resources wanted = do
    resource ← demand (resource_of wanted.vmid resources)
    refuse_if (not (str_eq resource.node p.proxmox.node && resource.is_qemu))
    check_owned wanted
    is_stopped ← ask (env.get_is_stopped wanted.vmid)
    refuse_if (not is_stopped)

  -- The loop of check over the machines; it gives the missing ones.
  unfoldable pub survey : Plan → List Resource → List ℕ → List Wanted → Action H (List Wanted)
  survey p resources listed [] = pure []
  survey p resources listed (m ∷ ms) =
      let rest = survey p resources listed ms in
      if has_number m.vmid listed
      then (inspect p resources m >> rest)
      else (rest >>= λ r. pure (m ∷ r))

  -- resources=api.request('GET','/cluster/resources?type=vm')
  unfoldable pub list_resources : Action H (List Resource)
  list_resources = do
    answer ← ask env.get_resources
    resources ← demand answer
    (λ w. (
      ok resources,
      record w {
        disk = record w.disk { listings = map (λ r. r.vmid) resources ∷ w.disk.listings };
      },
    ))

  -- check, which gives the missing machines
  unfoldable pub check : Plan → Action H (List Wanted)
  check p = do
    refuse_if (not (valid p))
    version_answer ← ask env.get_version
    version ← demand version_answer
    refuse_if (not (env.is_version_nine version))
    bridges_answer ← ask env.get_bridges
    bridges ← demand bridges_answer
    refuse_if (not (bridges_ok p bridges))
    resources ← list_resources
    missing ← survey p resources (map (λ r. r.vmid) resources) (payloads env.digest p)
    storage_answer ← ask env.get_storage
    storage ← demand storage_answer
    refuse_if (not (storage_ok storage (total_disk missing)))
    free ← ask env.get_free_memory
    refuse_if (not (memory_ok free (total_memory (payloads env.digest p))))
    pure missing

  abbrev pub slept : Action H Done
  slept w = (ok tt, record w { host = env.sleep w.host })

  -- The loop of wait_task until the deadline; where the fuel is used up it ends as at the deadline.
  unfoldable pub poll : ℕ → String → ℕ → Action H Done
  poll zero upid deadline w = (raised failure, w)
  poll (suc fuel) upid deadline w =
      let again = poll fuel upid deadline in
      (if ltb (env.clock w.host) deadline
          then (do
            answer ← ask (env.get_task upid)
            task ← demand answer
            after_task task (slept >> again))
          else raise failure)
        w

  -- 60 rounds of at least two seconds are more than the 120 seconds of the timeout.
  unfoldable pub wait_task : Option String → Action H Done
  wait_task none w = (raised failure, w)
  wait_task (some upid) w = poll 60 upid (env.clock w.host + 120) w

  -- The creation is noted when it is posted, whether the answer comes or not.
  unfoldable pub post : Wanted → Action H (Option String)
  post m w = let (r, h) = env.create m w.host in (r, record w { disk = noted m w.disk; host = h })

  unfoldable pub create_machine : Wanted → Action H Done
  create_machine m = do upid ← post m; wait_task upid; check_owned m

  unfoldable pub create_missing : List Wanted → List Wanted → Action H Done
  create_missing missing [] = pure tt
  create_missing missing (m ∷ ms) =
      let rest = create_missing missing ms in
      if is_missing_id m.vmid missing then (create_machine m >> rest) else rest

  unfoldable pub allocate : Plan → Action H Done
  allocate p = do
    missing ← check p
    create_missing missing (payloads env.digest p)
    check p >> pure tt
