-- ===== src/Journey/Tests.antt =====
-- A journey that is planned, taken back and saved.
use resilient_datacenter.Shared.{
  String, str_eq, Option, Bool, true, false, none, some, List, [], ◌∷◌, ◌≡◌, refl, map, ◌||◌,
  if◌then◌else◌,
}
use Prim.Native.Char.{Char}
use resilient_datacenter.Shared.Texts.{lower, digit}
use resilient_datacenter.Shared.Apart.{Apart, Among}
use resilient_datacenter.Journey.Answers.{
  purpose, institution_id, services, responsible_operator, primary_location, recovery_location,
  network, Answers, acceptable, one_place, valid_answers,
}
use resilient_datacenter.Journey.Machines.{
  machines_for, machines, selected, Document, document_of, record_of, recorded, same_machines, load,
}
use resilient_datacenter.Journey.Wizard.{
  Outcome, prepared, invalid, unread, Target, no_bundle, unreadable_bundle, turned_down, save,
  choose, shown, ask, wizard,
}
use resilient_datacenter.Journey.Saving.{Good, wizard-Good}
use resilient_datacenter.Journey.Loading.{Opened, load-Opened}
use resilient_datacenter.Journey.Replacing.{Recoverable, machines-Recoverable}
use resilient_datacenter.Journey.Roles.{Unlike}

abbrev ascii_alnum : Char → Bool
ascii_alnum c = lower c || digit c

abbrev unanswered : Answers
unanswered f = none

abbrev home : Answers
home purpose = some "personal"
home institution_id = some "my-home"
home services = some "both"
home responsible_operator = some "ops@home"
home primary_location = some "tallinn"
home recovery_location = some "tartu"
home network = some "new"

abbrev new_directory : Target
new_directory = record { bundle = no_bundle; can_write = λ draft overwrite. true }

run_wizard : List String → Outcome
unfolding wizard ask choose shown save record_of document_of turned_down acceptable valid_answers
    one_place machines machines_for
run_wizard typed = wizard ascii_alnum new_directory unanswered typed

-- An unknown purpose is asked again, and an answer is taken back.
abbrev typed_home : List String
typed_home =
    "business" ∷ "personal" ∷ "home" ∷ ":back" ∷ "my-home" ∷ "both" ∷ "ops@home" ∷ "tallinn"
    ∷ "tallinn" ∷ "tartu" ∷ "new" ∷ "SAVE" ∷ []

saved_roles : Outcome → List String
saved_roles (prepared d) = map (λ m. m.machine) d.machines
saved_roles _ = []

home_saved :
    saved_roles (run_wizard typed_home)
    ≡ "my-home-controller" ∷ "my-home-relay" ∷ "my-home-matrix" ∷ "my-home-matrix-replacement"
      ∷ "my-home-nextcloud" ∷ "my-home-nextcloud-replacement" ∷ "my-home-backup" ∷ []
unfolding run_wizard saved_roles
home_saved = refl

-- The primary location is changed to the recovery location, and the draft is saved: ValueError.
abbrev typed_same_place : List String
typed_same_place =
    "personal" ∷ "my-home" ∷ "both" ∷ "ops@home" ∷ "tallinn" ∷ "tartu" ∷ ":back" ∷ ":back" ∷ "tartu"
    ∷ ":save" ∷ []

is_invalid : Outcome → Bool
is_invalid (invalid a) = true
is_invalid _ = false

draft_crashes : is_invalid (run_wizard typed_same_place) ≡ true
unfolding run_wizard is_invalid
draft_crashes = refl

-- A resumed draft whose BUNDLE.json is damaged.
abbrev damaged_directory : Target
damaged_directory = record { bundle = unreadable_bundle; can_write = λ draft overwrite. true }

is_unread : Outcome → Bool
is_unread unread = true
is_unread _ = false

damaged_crashes : is_unread (wizard ascii_alnum damaged_directory unanswered (":save" ∷ [])) ≡ true
unfolding run_wizard is_unread
damaged_crashes = refl

wizard-Good_example :
    Good ascii_alnum new_directory (wizard ascii_alnum new_directory unanswered typed_same_place)
wizard-Good_example = wizard-Good ascii_alnum new_directory unanswered typed_same_place (λ g. refl)

home_valid : valid_answers ascii_alnum false home ≡ true
unfolding valid_answers acceptable one_place
home_valid = refl

machines-Recoverable_example :
    Apart Unlike (machines home)
    × ((s : String) → Among s (selected home) → Recoverable home (machines home) s)
machines-Recoverable_example = machines-Recoverable ascii_alnum home home_valid

abbrev parse_home : String → Option Document
parse_home text = if str_eq text "journey" then some (document_of ascii_alnum false home) else none

home_loaded :
    load ascii_alnum parse_home false "journey" ≡ some (document_of ascii_alnum false home)
unfolding load recorded valid_answers acceptable one_place document_of machines machines_for
    same_machines
home_loaded = refl

damaged_refused : load ascii_alnum parse_home false "damaged" ≡ none
unfolding load
damaged_refused = refl

load-Opened_example : Opened ascii_alnum (document_of ascii_alnum false home)
load-Opened_example =
    load-Opened ascii_alnum parse_home "journey" (document_of ascii_alnum false home) home_loaded
