-- ===== src/Upgrade/FilesTests.antt =====
-- The files of a chat server, staged for an upgrade that is given up.
use resilient_datacenter.Shared.{ℕ, ◌+◌, true, none, some, List, [], ◌∷◌, ◌≡◌, refl}
use resilient_datacenter.Shared.Effects.{failure, crash, Out, ok, Done}
use resilient_datacenter.Shared.Hoare.{Post}
use resilient_datacenter.Shared.Maintenance.{
  Fault, none_now, before, after, land, file_op, for_each, for_each_reversed,
}
use resilient_datacenter.Restore.Plan.{need, any_too_small}
use resilient_datacenter.Restore.State.{missing, folder}
use resilient_datacenter.Upgrade.Files.{
  Tree, World, Env, slot_op, inspect, measure, preflight, copy_resource, stage, put_back, restore,
  clean,
}
use resilient_datacenter.Upgrade.Originals.{Same}
use resilient_datacenter.Upgrade.Replacing.{Restored}
use resilient_datacenter.Upgrade.Upgrades.{written_by, untouched, used, tried, restore-Original}

take_fault : List Fault → Fault × List Fault
take_fault [] = (none_now, [])
take_fault (f ∷ fs) = (f, fs)

abbrev server : Env ℕ (List Fault)
server = record {
  disturb = take_fault;
  names = "etc/rdc-services" ∷ "var/lib/rdc-services" ∷ [];
  partial = λ t. t + 1000;
  place = λ h i. record { is_owned = true; device = 1; size = 100 };
  free = λ h device. 1073741824;
}

-- The resource i has the data 10 + i.
abbrev installed : Tree ℕ
installed i = record { target = some (10 + i); workspace = missing }

abbrev on_disk : Tree ℕ → List Fault → World ℕ (List Fault)
on_disk d fs = record { disk = d; memory = tt; host = fs }

run_stage : World ℕ (List Fault) → Out Done × World ℕ (List Fault)
unfolding stage preflight measure copy_resource slot_op need any_too_small for_each file_op land
    take_fault
run_stage w = stage server w

run_restore : World ℕ (List Fault) → Out Done × World ℕ (List Fault)
unfolding restore put_back inspect slot_op for_each for_each_reversed file_op land take_fault
run_restore w = restore server w

run_clean : World ℕ (List Fault) → Out Done × World ℕ (List Fault)
unfolding clean slot_op for_each file_op land take_fault
run_clean w = clean server w

staged_slot :
    (run_stage (on_disk installed [])).1.disk 1
    ≡ record { target = some 11; workspace = folder (some 11) none }
unfolding run_stage
staged_slot = refl

-- The machine is lost after the first resource has been set aside.
abbrev lost : List Fault
lost = none_now ∷ none_now ∷ none_now ∷ none_now ∷ none_now ∷ none_now ∷ after crash ∷ []

lost_slot :
    (run_stage (on_disk installed lost)).1.disk 0
    ≡ record { target = none; workspace = folder (some 10) (some 10) }
unfolding run_stage
lost_slot = refl

restored_slot :
    ((run_restore (on_disk (run_stage (on_disk installed lost)).1.disk [])).1.disk 0).target
    ≡ some 10
unfolding run_stage run_restore
restored_slot = refl

cleaned_slot :
    (run_clean (on_disk (run_restore (run_stage (on_disk installed [])).1).1.disk [])).1.disk 1
    ≡ record { target = some 11; workspace = missing }
unfolding run_stage run_restore run_clean
cleaned_slot = refl

stage_returns : (stage server (on_disk installed [])).0 ≡ ok tt
unfolding run_stage stage preflight measure copy_resource slot_op need any_too_small for_each
    file_op land take_fault
stage_returns = refl

-- The migration has written 99 to each candidate, and a first restore is interrupted.
abbrev migrated : World ℕ (List Fault)
migrated = record (on_disk installed []) {
  disk = written_by 2 (λ i. some 99) (stage server (on_disk installed [])).1.disk;
  host = none_now ∷ none_now ∷ before failure ∷ [];
}

restore-Original_example :
    Post
      (λ a e j. Same installed e × Restored server installed e)
      (λ s e j. Same installed e)
      (restore server (restore server migrated).1)
restore-Original_example = restore-Original server {d = installed} (restore server migrated).1 (
    tried migrated migrated.host (
      used (on_disk installed []) migrated.host (λ i. some 99)
        (untouched (on_disk installed []) refl) stage_returns))
