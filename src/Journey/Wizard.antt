-- ===== src/Journey/Wizard.antt =====
-- wizard of scripts/product_journey.py, over what is typed.
use resilient_datacenter.Shared.{
  ℕ, suc, ◌-◌, String, Bool, true, false, not, ◌&&◌, ◌||◌, ◌==◌, str_eq, Option, none, some, List,
  [], ◌∷◌, if◌then◌else◌,
}
use Prim.Native.Char.{Char}
use resilient_datacenter.Journey.Answers.{
  Field, purpose, institution_id, services, responsible_operator, primary_location,
  recovery_location, network, Answers, with_answer, text_of, acceptable,
}
use resilient_datacenter.Journey.Machines.{Document, record_of}

-- `invalid` is the ValueError of record, `unread` an error in reading what is in the directory, and
-- `unwritten` one of write_bundle; the wizard catches none of these.
pub data Outcome : Type 0 where
  cancelled : Outcome
  drafted prepared : Document → Outcome
  invalid : Answers → Outcome
  unread unwritten : Outcome

-- The directory where a journey is saved: without a BUNDLE.json; with one that is not the resumed
-- draft's alone; with the resumed draft alone, which its BUNDLE.json matches or not; or one where
-- finding this out raises.
pub data Bundle : Type 0 where
  no_bundle other_bundle unreadable_bundle : Bundle
  draft_bundle : Bool → Bundle

-- `can_write` tells whether write_bundle returns, for a draft or not, and with overwrite or not.
pub record Target : Type 0 where
  pub bundle : Bundle
  pub can_write : Bool → Bool → Bool

abbrev pub field_at : ℕ → Option Field
field_at i =
    if i == 0
    then some purpose
    else if i == 1
    then some institution_id
    else if i == 2
    then some services
    else if i == 3
    then some responsible_operator
    else if i == 4
    then some primary_location
    else if i == 5
    then some recovery_location
    else if i == 6
    then some network
    else none

pub data Command : Type 0 where
  cancel save_draft back answer : Command

abbrev pub command_of : String → Command
command_of v =
    if str_eq v ":cancel"
    then cancel
    else if str_eq v ":save"
    then save_draft
    else if str_eq v ":back"
    then back
    else answer

abbrev pub is_services : Field → Bool
is_services services = true
is_services _ = false

abbrev pub default_of : Answers → Field → Option String → String
default_of a f (some v) = v
default_of a f none =
    if is_services f && str_eq (text_of (a purpose)) "institution" then "both" else ""

-- value or default
abbrev pub value_of : Answers → Field → String → String
value_of a f v = if str_eq v "" then default_of a f (a f) else v

abbrev pub is_recovery : Field → Bool
is_recovery recovery_location = true
is_recovery _ = false

abbrev pub is_same : String → Option String → Bool
is_same v none = false
is_same v (some w) = str_eq w v

module _ (is_alnum : Char → Bool) where
  unfoldable pub turned_down : Answers → Field → String → Bool
  turned_down a f v =
      not (acceptable is_alnum f v) || (is_recovery f && is_same v (a primary_location))

  abbrev pub saved : Bool → Document → Outcome
  saved true d = drafted d
  saved false d = prepared d

  -- The prompt before files are replaced; an end of the input cancels.
  abbrev pub confirmed : List String → Bool
  confirmed [] = false
  confirmed (v ∷ typed) = str_eq v "REPLACE"

  abbrev pub written : Target → Bool → Bool → Document → Outcome
  written target draft overwrite d =
      if target.can_write draft overwrite then saved draft d else unwritten

  abbrev pub replaced : Target → Bool → List String → Document → Outcome
  replaced target draft typed d = if confirmed typed then written target draft true d else cancelled

  abbrev pub save_over : Bundle → Target → Bool → List String → Document → Outcome
  save_over no_bundle target draft typed d = written target draft false d
  save_over other_bundle target draft typed d = replaced target draft typed d
  save_over unreadable_bundle target draft typed d = unread
  save_over (draft_bundle true) target draft typed d = written target draft true d
  save_over (draft_bundle false) target draft typed d = replaced target draft typed d

  abbrev pub save_document : Target → Bool → Answers → List String → Option Document → Outcome
  save_document target draft a typed none = invalid a
  save_document target draft a typed (some d) = save_over target.bundle target draft typed d

  unfoldable pub save : Target → Bool → Answers → List String → Outcome
  save target draft a typed = save_document target draft a typed (record_of is_alnum draft a)

  abbrev pub unless_refused : Answers → Outcome → Option Document → Outcome
  unless_refused a outcome none = invalid a
  unless_refused a outcome (some d) = outcome

  -- The checklist of the answers is shown, and then `outcome` comes about.
  unfoldable pub shown : Answers → Outcome → Outcome
  shown a outcome = unless_refused a outcome (record_of is_alnum false a)

  unfoldable pub choose : Target → Answers → String → List String → Outcome
  choose target a v typed =
      if str_eq v ":save"
      then save target true a typed
      else if str_eq v "SAVE"
      then save target false a typed
      else cancelled

  -- The loop from an index on; what is typed is stripped.
  unfoldable pub ask : Target → List String → ℕ → Answers → Outcome
  ask target [] i a = elim (field_at i) [ none ↦ shown a cancelled | some f ↦ cancelled ]
  ask target (v ∷ typed) i a = elim (field_at i) [
    | none ↦ shown a (choose target a v typed)
    | some f ↦ elim (command_of v) [
      | cancel ↦ cancelled
      | save_draft ↦ save target true a typed
      | back ↦ ask target typed (i - 1) a
      | answer ↦ elim (turned_down a f (value_of a f v)) [
        | true ↦ ask target typed i a
        | false ↦ ask target typed (suc i) (with_answer a f (value_of a f v))
      ]
    ]
  ]

  unfoldable pub wizard : Target → Answers → List String → Outcome
  wizard target resumed typed = ask target typed 0 resumed
