-- ===== src/Rotation/Tests.antt =====
-- A controller whose certificate is renewed.
use resilient_datacenter.Shared.{String, true, false, none, some, List, [], ◌∷◌, ◌≡◌, refl}
use resilient_datacenter.Shared.Effects.{failure, crash, Out, ok, raised, Done}
use resilient_datacenter.Shared.Hoare.{Post}
use resilient_datacenter.Shared.Maintenance.{Fault, none_now, before, land, file_op, for_all}
use resilient_datacenter.Shared.Stored.{absent, holds}
use resilient_datacenter.Rotation.State.{
  Info, Generation, Disk, World, Env, lookup, written, removed, names, point,
}
use resilient_datacenter.Rotation.Activation.{
  Request, Outcome, active, activation_error, restart, verify, restart_and_verify, validate,
  verify_again, unchanged, write_generation, create_generation, stage_generation, old_info,
  recovered_after, verify_old, fall_back, remove_generation, clean_generation, point_previous,
  complete, settle, switch, change, proceed_with, activate,
}
use resilient_datacenter.Rotation.Soundness.{Good}
use resilient_datacenter.Rotation.Switching.{Ending}
use resilient_datacenter.Rotation.Safety.{
  activate-Answered, untouched, then_activate, Activations-Good,
}

-- The faults and the answers of the runtime that are to come.
record Host : Type 0 where
  faults : List Fault
  answers : List (Out Done)

take_fault : List Fault → List (Out Done) → Fault × Host
take_fault [] os = (none_now, record { faults = []; answers = os })
take_fault (f ∷ fs) os = (f, record { faults = fs; answers = os })

take_answer : List (Out Done) → List Fault → Out Done × Host
take_answer [] fs = (ok tt, record { faults = fs; answers = [] })
take_answer (o ∷ os) fs = (o, record { faults = fs; answers = os })

abbrev info_of : String → Info
info_of c = record { fingerprint = c; expires_at = "2027" }

abbrev controller : Env Host
controller = record {
  disturb = λ h. take_fault h.faults h.answers;
  digest = λ c k. c;
  validator = λ c k n h. (ok (info_of c), h);
  restart = λ s d h. take_answer h.answers h.faults;
  verify = λ n fp d h. take_answer h.answers h.faults;
  remains = λ g. record g { certificate = none };
}

abbrev complete_generation : String → Generation
complete_generation c = record {
  is_linked = false;
  has_linked_files = false;
  metadata = some (info_of c);
  certificate = some c;
  private_key = some "key";
  host_certificate = some c;
  host_key = some "key";
}

abbrev serving : Disk
serving = record {
  active = holds "one";
  previous = absent;
  is_active_new = false;
  is_previous_new = false;
  is_linked = false;
  generations = ("one", complete_generation "one") ∷ [];
  verified = none;
}

abbrev on_disk : Disk → List Fault → List (Out Done) → World Host
on_disk d fs os = record { disk = d; memory = tt; host = record { faults = fs; answers = os } }

abbrev request : String → Request
request c = record {
  hostname = "controller.example.org";
  role = "controller";
  certificate = c;
  key = "key";
  is_initial = false;
}

run_activate : Request → World Host → Out Outcome × World Host
unfolding activate proceed_with change switch settle complete point_previous clean_generation
    remove_generation fall_back verify_old recovered_after old_info stage_generation
    create_generation write_generation unchanged verify_again validate restart_and_verify verify
    restart point names removed written lookup file_op land for_all take_fault take_answer
run_activate q w = activate controller q w

renewed : (run_activate (request "two") (on_disk serving [] [])).0 ≡ ok (active (info_of "two"))
unfolding run_activate
renewed = refl

-- The third certificate is the active one, the second the previous one, and the first is gone.
twice_renewed :
    names
      (run_activate
        (request "three")
        (run_activate (request "two") (on_disk serving [] [])).1).1.disk.generations
    ≡ "two" ∷ "three" ∷ []
unfolding run_activate names
twice_renewed = refl

-- The service does not serve the new certificate, and serves the old one again.
abbrev rejecting : World Host
rejecting = on_disk serving [] (ok tt ∷ raised failure ∷ [])

fallen_back : (run_activate (request "two") rejecting).0 ≡ ok (activation_error true)
unfolding run_activate
fallen_back = refl

-- A stop between the two files of the host leaves a generation that the next activation takes.
abbrev stopping : World Host
stopping = on_disk serving (none_now ∷ none_now ∷ none_now ∷ none_now ∷ before crash ∷ []) []

incomplete_generation :
    lookup "two"
      (run_activate (request "two") (run_activate (request "two") stopping).1).1.disk.generations
    ≡ some (record (complete_generation "two") { host_certificate = none; host_key = none })
unfolding run_activate lookup
incomplete_generation = refl

incomplete_accepted :
    (run_activate (request "two") (run_activate (request "two") stopping).1).0
    ≡ ok (active (info_of "two"))
unfolding run_activate
incomplete_accepted = refl

serving-Good : Good controller.digest serving
unfolding lookup
serving-Good = (
  record {
    generation = complete_generation "one";
    certificate = "one";
    key = "key";
    found = refl;
    has_certificate = refl;
    has_key = refl;
    named = refl;
  },
  tt,
)

activate-Answered_example :
    Post
      (λ o d j. Good controller.digest d × Ending "two" (holds "one") o d)
      (λ s d j. Good controller.digest d)
      (activate controller (request "two") rejecting)
activate-Answered_example = activate-Answered controller (request "two") rejecting serving-Good

Activations-Good_example :
    Good controller.digest
      (activate controller (request "two") (record stopping { host = rejecting.host })).1.disk
Activations-Good_example =
    Activations-Good controller serving-Good
      (then_activate stopping rejecting.host (request "two") (untouched stopping refl))

abbrev unmanaged : Request
unmanaged = record (request "two") { role = "storage" }
