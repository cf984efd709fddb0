-- ===== src/Gateway/Tests.antt =====
-- A gateway whose partners change, under chosen faults.
use resilient_datacenter.Shared.{
  false, contains, String, arith, ℕ, ◌≡◌, refl, true, List, [], ◌∷◌, ◌==◌,
}
use resilient_datacenter.Shared.Effects.{failure, Out, ok, raised, Done}
use resilient_datacenter.Shared.Hoare.{Post}
use resilient_datacenter.Shared.Maintenance.{Fault, none_now, land, file_op}
use resilient_datacenter.Shared.Stored.{absent, holds}
use resilient_datacenter.Gateway.State.{Policy, World, Env}
use resilient_datacenter.Gateway.Store.{
  candidate, peers, same_policy, valid_policy, validated, state, follows, read_pending, pending,
  write_pending, write_state, begin_after, begin, is_policy, commit, unlink_pending, finish,
  known_floor, load_recovery, fresh_documents, reviewed, review_if_any, review,
}
use resilient_datacenter.Gateway.Transition.{
  Outcome, applied, transition_error, perform, transition, closed_after, close_again, settle,
  guarded, apply,
}
use resilient_datacenter.Gateway.Closing.{Ended, Stopped}
use resilient_datacenter.Gateway.Progress.{Never}
use resilient_datacenter.Gateway.Applying.{Working, Acceptable, apply-progress}
use resilient_datacenter.Gateway.Candidates.{candidate-Acceptable}
use resilient_datacenter.Gateway.State.{Recovery}
use resilient_datacenter.Gateway.Floors.{
  clock_floor, write_recovery, write_reference, suspend, Floor, Suspended, suspend-Floor,
}
use resilient_datacenter.Gateway.Safety.{
  apply-Ended, Remembers, none_yet, then_apply, Changes-Remembers,
}

-- The faults and the outcomes of the runtime that are to come.
record Host : Type 0 where
  faults : List Fault
  outcomes : List (Out Done)

take_fault : List Fault → List (Out Done) → Fault × Host
take_fault [] os = (none_now, record { faults = []; outcomes = os })
take_fault (f ∷ fs) os = (f, record { faults = fs; outcomes = os })

take_outcome : List (Out Done) → List Fault → Out Done × Host
take_outcome [] fs = (ok tt, record { faults = fs; outcomes = [] })
take_outcome (o ∷ os) fs = (o, record { faults = fs; outcomes = os })

abbrev gateway : Env ℕ Host
gateway = record {
  disturb = λ h. take_fault h.faults h.outcomes;
  peer_rules = λ ds rs t. true;
  same_document = λ a b. a == b;
  issued_at = λ a. a;
  accepted_at = λ a. a;
  runtime = λ o p d h. take_outcome h.outcomes h.faults;
}

abbrev previous_policy : Policy ℕ
previous_policy = record {
  schema_version = 1;
  generation = 4;
  agreements = 10 ∷ [];
  revoked_ids = "0123456789abcdef0123456789abcdef" ∷ [];
}

abbrev next : Policy ℕ
next = record {
  schema_version = 1;
  generation = 5;
  agreements = 12 ∷ [];
  revoked_ids = "0123456789abcdef0123456789abcdef" ∷ "1123456789abcdef0123456789abcdef" ∷ [];
}

-- It forgets the revocation.
abbrev forgetful : Policy ℕ
forgetful = record next { revoked_ids = [] }

abbrev start : List Fault → List (Out Done) → World ℕ Host
start fs os = record {
  disk = record {
    state = holds previous_policy;
    pending = absent;
    recovery = absent;
    reference = absent;
    calls = [];
  };
  memory = tt;
  host = record { faults = fs; outcomes = os };
}

-- `apply` with everything that it calls open to computation.
run_apply : Policy ℕ → World ℕ Host → Out Outcome × World ℕ Host
unfolding apply guarded settle close_again closed_after transition perform begin begin_after review
    review_if_any reviewed load_recovery known_floor fresh_documents commit is_policy finish
    unlink_pending write_state write_pending pending read_pending follows state validated
    valid_policy same_policy file_op land take_fault take_outcome
run_apply c w = apply gateway c w

change_succeeds : (run_apply next (start [] [])).0 ≡ ok applied
unfolding run_apply
change_succeeds = refl

revocation_kept : (run_apply forgetful (start [] [])).0 ≡ raised failure
unfolding run_apply
revocation_kept = refl

-- install fails after the commit: access is closed, and the new policy stays.
abbrev failing : World ℕ Host
failing = start [] (ok tt ∷ ok tt ∷ raised failure ∷ [])

change_fails : (run_apply next failing).0 ≡ ok (transition_error true)
unfolding run_apply
change_fails = refl

change_stays : (run_apply next failing).1.disk.state ≡ holds next
unfolding run_apply
change_stays = refl

apply-Ended_example :
    Post
      (Ended gateway previous_policy next [])
      (Stopped gateway previous_policy next [])
      (apply gateway next failing)
apply-Ended_example = apply-Ended gateway next previous_policy failing refl

Changes-Remembers_example :
    Remembers gateway previous_policy
      (apply gateway forgetful (apply gateway next failing).1).1.disk
Changes-Remembers_example = Changes-Remembers gateway {d = failing.disk} previous_policy refl (
    then_apply (then_apply none_yet next failing refl) forgetful (apply gateway next failing).1
      refl)

abbrev quiet_gateway : Env ℕ Host
quiet_gateway = record gateway { disturb = λ h. (none_now, h); runtime = λ o p d h. (ok tt, h) }

quiet_gateway-Working : Working quiet_gateway
quiet_gateway-Working = record {
  quiet = λ h. refl;
  answers = λ o p d h. refl;
  alike = λ x. ground arith;
}

next-Acceptable : Acceptable quiet_gateway previous_policy next
unfolding valid_policy
next-Acceptable = record {
  valid_before = refl;
  valid_after = refl;
  next_generation = refl;
  revokes = refl;
}

abbrev reviewed_before : World ℕ Host
reviewed_before = record (start [] []) {
  disk = record (start [] []).disk {
    recovery = holds (record { approval_floor = 70; review_pending = false });
    reference = holds 60;
  };
}

apply-progress_example :
    Post
      (λ o d j. (o ≡ applied) × ((d.state ≡ holds next) × (d.pending ≡ absent)))
      Never
      (apply quiet_gateway next reviewed_before)
apply-progress_example =
    apply-progress quiet_gateway quiet_gateway-Working previous_policy next next-Acceptable
      reviewed_before (refl, refl, (refl, refl))

abbrev newly_revoked : List String
newly_revoked = "1123456789abcdef0123456789abcdef" ∷ []

run_candidate : World ℕ Host → Out (Policy ℕ) × World ℕ Host
unfolding run_apply candidate peers
run_candidate w = candidate gateway (12 ∷ []) newly_revoked 1000 w

candidate_proposes : (run_candidate (start [] [])).0 ≡ ok next
unfolding run_candidate
candidate_proposes = refl

candidate-Acceptable_example :
    Post
      (λ p d j.
        (Acceptable gateway previous_policy p
          × ((x : String) → contains x newly_revoked ≡ true → contains x p.revoked_ids ≡ true))
        × (d ≡ (start [] []).disk))
      (λ e d j. d ≡ (start [] []).disk)
      (candidate gateway (12 ∷ []) newly_revoked 1000 (start [] []))
candidate-Acceptable_example =
    candidate-Acceptable gateway (12 ∷ []) newly_revoked 1000 previous_policy (start [] []) refl

run_suspend : World ℕ Host → Out Recovery × World ℕ Host
unfolding run_apply suspend clock_floor write_recovery write_reference
run_suspend w = suspend gateway "0123456789abcdef0123456789abcdef" (holds 90) 80 w

suspend_raises :
    (run_suspend reviewed_before).0 ≡ ok (record { approval_floor = 90; review_pending = true })
unfolding run_suspend
suspend_raises = refl

suspend-Floor_example :
    Post
      (Suspended gateway 70)
      (λ e d j. Floor 70 d)
      (suspend gateway "0123456789abcdef0123456789abcdef" (holds 90) 80 reviewed_before)
suspend-Floor_example =
    suspend-Floor gateway "0123456789abcdef0123456789abcdef" (holds 90) 80 reviewed_before
      (λ n e. ground arith)
