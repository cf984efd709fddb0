-- ===== src/Journey/Machines.antt =====
-- machines, record and load of scripts/product_journey.py.
use resilient_datacenter.Shared.{
  ℕ, String, Bool, true, false, not, ◌&&◌, ◌||◌, ◌==◌, str_eq, Option, none, some, List, [], ◌∷◌,
  ◌++◌, if◌then◌else◌,
}
use Prim.Native.Char.{Char}
use Prim.Native.String.{◌++◌ as ◌+++◌}
use resilient_datacenter.Journey.Answers.{
  purpose, institution_id, services, primary_location, recovery_location, network, Answers, text_of,
  valid_answers,
}

pub record Machine : Type 0 where
  pub role : String
  pub machine : String
  pub network : String
  pub location : String
  pub state : String
  pub forwarding_disabled : Bool

unfoldable pub machine_of : Answers → String → String → String → Machine
machine_of a role reach place = record {
  role = role;
  machine = text_of (a institution_id) +++ ("-" +++ role);
  network = reach;
  location = place;
  state = "to-prepare";
  forwarding_disabled = false;
}

abbrev pub capacity : Machine → Machine
capacity m = record m { state = "capacity-to-prepare" }

abbrev pub unforwarded : Machine → Machine
unforwarded m = record m { forwarding_disabled = true }

abbrev pub is_regional : Answers → Bool
is_regional a = str_eq (text_of (a purpose)) "regional"

abbrev pub selected : Answers → List String
selected a =
    if str_eq (text_of (a services)) "both"
    then "matrix" ∷ "nextcloud" ∷ []
    else text_of (a services) ∷ []

-- A controller and a relay for a new network, on the reach of the purpose.
unfoldable pub network_machines : Answers → Bool → Bool → List Machine
network_machines a is_new regional =
    let reach = if regional then "regional" else "institutional" in
    if is_new
    then machine_of a "controller" reach "choose-an-offsite-location"
      ∷ machine_of a "relay" reach "choose-an-offsite-location"
      ∷ []
    else []

unfoldable pub service_machines : Answers → List String → List Machine
service_machines a [] = []
service_machines a (s ∷ rest) =
    machine_of a s "institutional" (text_of (a primary_location))
    ∷ capacity (machine_of a (s +++ "-replacement") "institutional" (text_of (a recovery_location)))
    ∷ service_machines a rest

unfoldable pub gateway_machines : Answers → Bool → List Machine
gateway_machines a regional =
    if regional
    then unforwarded (machine_of a "gateway" "regional" (text_of (a primary_location)))
      ∷ machine_of a "gateway-backup" "regional" (text_of (a recovery_location))
      ∷ unforwarded
          (capacity (machine_of a "gateway-replacement" "regional" (text_of (a recovery_location))))
      ∷ []
    else []

unfoldable pub backup_machine : Answers → Machine
backup_machine a = machine_of a "backup" "institutional" (text_of (a recovery_location))

unfoldable pub machines_for : Answers → Bool → Bool → List String → List Machine
unfolding network_machines service_machines gateway_machines backup_machine machine_of
machines_for a is_new regional chosen =
    network_machines a is_new regional
    ++ (service_machines a chosen ++ (backup_machine a ∷ gateway_machines a regional))

unfoldable pub machines : Answers → List Machine
machines a = machines_for a (str_eq (text_of (a network)) "new") (is_regional a) (selected a)

-- A saved journey with the fields that it must have.
pub record Document : Type 0 where
  pub kind : String
  pub schema_version : ℕ
  pub state : String
  pub answers : Answers
  pub machines : List Machine

abbrev pub same_machine : Machine → Machine → Bool
same_machine m n =
    str_eq m.role n.role
    && str_eq m.machine n.machine
    && str_eq m.network n.network
    && str_eq m.location n.location
    && str_eq m.state n.state
    && (if m.forwarding_disabled then n.forwarding_disabled else not n.forwarding_disabled)

unfoldable pub same_machines : List Machine → List Machine → Bool
same_machines [] [] = true
same_machines (m ∷ ms) (n ∷ ns) = same_machine m n && same_machines ms ns
same_machines _ _ = false

module _ (is_alnum : Char → Bool) where
  -- what record returns for answers that pass
  unfoldable pub document_of : Bool → Answers → Document
  document_of draft a = record {
    kind = "product-journey";
    schema_version = 1;
    state = if draft then "draft" else "prepared";
    answers = a;
    machines = if draft then [] else machines a;
  }

  unfoldable pub record_of : Bool → Answers → Option Document
  record_of draft a = if valid_answers is_alnum draft a then some (document_of draft a) else none

  -- whether data == record(data['answers'], draft=draft), where record does not raise
  unfoldable pub recorded : Bool → Document → Bool
  recorded draft d =
      valid_answers is_alnum draft d.answers
      && same_machines d.machines (document_of draft d.answers).machines

  -- the tests of load on a document that was read
  abbrev pub loadable : Bool → Document → Bool
  loadable allow_draft d =
      str_eq d.kind "product-journey"
      && d.schema_version == 1
      && (str_eq d.state "draft" || str_eq d.state "prepared")
      && (not (str_eq d.state "draft") || allow_draft)
      && recorded (str_eq d.state "draft") d

  abbrev pub checked : Bool → Option Document → Option Document
  checked allow_draft none = none
  checked allow_draft (some d) = if loadable allow_draft d then some d else none

  -- `parse` is load_profile on the text of the file, where it returns a mapping of these five fields
  -- with such values; where load raises, the result is `none`.
  unfoldable pub load : (String → Option Document) → Bool → String → Option Document
  load parse allow_draft text = checked allow_draft (parse text)
