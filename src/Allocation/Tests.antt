-- ===== src/Allocation/Tests.antt =====
-- Machines that are allocated on a Proxmox host.
use resilient_datacenter.Shared.{
  ℕ, ◌+◌, String, true, false, Option, none, some, List, [], ◌∷◌, map, ◌≡◌, refl, ◌==◌, arith,
  if◌then◌else◌,
}
use resilient_datacenter.Shared.Apart.{All}
use resilient_datacenter.Shared.Effects.{failure, Out, ok, raised, Done}
use resilient_datacenter.Shared.Hoare.{Post}
use resilient_datacenter.Shared.Maintenance.{call}
use resilient_datacenter.Shared.Texts.{parts}
use resilient_datacenter.Site.Addresses.{
  strict, size, subnet_of, broadcast, usable_in, within, overlaps,
}
use resilient_datacenter.Site.Plan.{
  valid, endpoint_ok, domain, networks_ok, planned, vms_ok, domains_ok,
}
use resilient_datacenter.Site.Tests.{site_plan}
use resilient_datacenter.Allocation.State.{
  first_chars, Wanted, payload, payloads, Bridge, Config, task_running, task_stopped, World, Env,
}
use resilient_datacenter.Allocation.Provisioning.{
  bridge_named, resource_of, bridges_ok, missing_from, storage_ok, memory_ok, owned, check_owned,
  inspect, survey, list_resources, check, poll, wait_task, post, create_machine, create_missing,
  allocate,
}
use resilient_datacenter.Allocation.Creating.{Lawful, Accounted, allocate-Lawful}
use resilient_datacenter.Allocation.Waiting.{Advances, wait_task-enough}

-- The machines of the host, and the time.
record Host : Type 0 where
  machines : List Wanted
  seconds : ℕ

description_of : ℕ → List Wanted → Option (Config Unit)
description_of n [] = none
description_of n (m ∷ ms) =
    let rest = description_of n ms in
    if m.vmid == n
    then some (record { description = m.description; is_locked = false; others = tt })
    else rest

abbrev bridge : String → Bridge
bridge n = record { iface = n; is_bridge = true; is_active = true; has_address = false }

-- Each sleep takes two seconds, and a task has stopped by the second request for it.
abbrev proxmox : Env Unit Host
proxmox = record {
  digest = λ p. "d1";
  is_version_nine = λ v. true;
  get_version = λ h. (ok (some "9.0"), h);
  get_bridges = λ h. (
    ok (
        some (
          bridge "vmbr0"
          ∷ bridge "vmbr1"
          ∷ bridge "vmbr2"
          ∷ bridge "vmbr3"
          ∷ bridge "vmbr4"
          ∷ bridge "vmbr5"
          ∷ [])),
    h,
  );
  get_resources = λ h.
      (ok (some (map (λ m. record { vmid = m.vmid; node = "pve"; is_qemu = true }) h.machines)), h);
  get_config = λ n h. (ok (description_of n h.machines), h);
  get_is_stopped = λ n h. (ok true, h);
  get_storage = λ h. (
    ok (
        some (record {
          is_active = true;
          is_enabled = true;
          has_images = true;
          is_supported = true;
          available = some 1099511627776;
        })),
    h,
  );
  get_free_memory = λ h. (ok (some 68719476736), h);
  create = λ m h. (ok (some "UPID:1"), record h { machines = m ∷ h.machines });
  get_task = λ u h. (ok (some (task_stopped true)), h);
  owned_others = λ m c. true;
  clock = λ h. h.seconds;
  sleep = λ h. record h { seconds = h.seconds + 2 };
}

-- The edge machine is there already.
abbrev with_edge : List Wanted → World Host
with_edge ms = record {
  disk = record { listings = []; posted = [] };
  memory = tt;
  host = record { machines = ms; seconds = 7 };
}

edge_machine : List Wanted → List Wanted
edge_machine [] = []
edge_machine (m ∷ ms) = m ∷ []

run_allocate : World Host → Out Done × World Host
unfolding allocate create_missing create_machine post wait_task poll check list_resources survey
    inspect check_owned owned memory_ok storage_ok missing_from bridges_ok resource_of bridge_named
    payloads payload first_chars call description_of edge_machine valid endpoint_ok domain parts
    networks_ok planned strict size subnet_of broadcast usable_in within overlaps vms_ok domains_ok
run_allocate w = allocate proxmox site_plan w

abbrev partly_there : World Host
partly_there = with_edge (edge_machine (payloads proxmox.digest site_plan))

five_created :
    map (λ c. c.wanted.vmid) (run_allocate partly_there).1.disk.posted
    ≡ 107 ∷ 106 ∷ 105 ∷ 104 ∷ 103 ∷ []
unfolding run_allocate
five_created = refl

allocation_returns : (run_allocate partly_there).0 ≡ ok tt
unfolding run_allocate
allocation_returns = refl

allocate-Lawful_example :
    Post
      (λ u d j.
        Lawful (payloads proxmox.digest site_plan) d
        × All (Accounted d) (payloads proxmox.digest site_plan))
      (λ s d j. Lawful (payloads proxmox.digest site_plan) d)
      (allocate proxmox site_plan partly_there)
allocate-Lawful_example = allocate-Lawful proxmox site_plan partly_there tt

abbrev busy : Env Unit Host
busy = record proxmox { get_task = λ u h. (ok (some task_running), h) }

run_wait : World Host → Out Done
unfolding wait_task poll call
run_wait w = (wait_task busy (some "UPID:1") w).0

wait_times_out : run_wait partly_there ≡ raised failure
unfolding run_wait
wait_times_out = refl

busy-Advances : Advances busy
busy-Advances = record { request = λ u h. omega arith; slept_on = λ h. omega arith }

wait_task-enough_example :
    poll busy 75 "UPID:1" (busy.clock partly_there.host + 120) partly_there
    ≡ wait_task busy (some "UPID:1") partly_there
wait_task-enough_example =
    wait_task-enough busy 75 "UPID:1" partly_there busy-Advances (omega arith)
