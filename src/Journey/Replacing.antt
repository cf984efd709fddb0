-- ===== src/Journey/Replacing.antt =====
-- The promise of machines of scripts/product_journey.py.
use resilient_datacenter.Shared.{
  String, Bool, true, false, not, ◌&&◌, str_eq, eq_iff, Option, none, some, List, [], ◌∷◌, ◌++◌,
  all, ◌≡◌, ◌≢◌, refl, sym, subst, ap, ◌∙◌, arith, Bool-cases, inl, inr, and-true, not-true,
}
use Prim.Native.Char.{Char}
use resilient_datacenter.Shared.Texts.{identifier}
use Prim.Native.String.{◌++◌ as ◌+++◌}
use resilient_datacenter.Shared.Apart.{All, Apart, Among, all-All}
use resilient_datacenter.Journey.Answers.{
  Field, services, primary_location, recovery_location, network, fields, Answers, text_of,
  is_answered, acceptable, acceptable_answer, one_place, valid_answers,
}
use resilient_datacenter.Journey.Machines.{
  Machine, machine_of, is_regional, selected, network_machines, service_machines, gateway_machines,
  backup_machine, machines_for, machines, capacity,
}
use resilient_datacenter.Journey.Roles.{
  Unlike, machines_for-Labelled, roles-labels, all_different-Apart, Chosen-Different,
  selected-Chosen, Chosen,
}

-- A service has a machine at the primary location, and a replacement at the recovery location.
abbrev pub Recoverable : Answers → List Machine → String → Type 0
Recoverable a ms s =
    (m : Machine) × (n : Machine) × Among m ms
    × Among n ms
    × (m.role ≡ s)
    × (m.location ≡ text_of (a primary_location))
    × (n.role ≡ s +++ "-replacement")
    × (n.location ≡ text_of (a recovery_location))
    × (m.location ≢ n.location)

Among-append_left : (m : Machine) (xs ys : List Machine) → Among m xs → Among m (xs ++ ys)
Among-append_left m [] ys h = absurd h
Among-append_left m (x ∷ xs) ys (inl e) = inl e
Among-append_left m (x ∷ xs) ys (inr h) = inr (Among-append_left m xs ys h)

Among-append_right : (m : Machine) (xs ys : List Machine) → Among m ys → Among m (xs ++ ys)
Among-append_right m [] ys h = h
Among-append_right m (x ∷ xs) ys h = inr (Among-append_right m xs ys h)

-- The machine of a service, and its replacement.
abbrev primary_machine : Answers → String → Machine
primary_machine a s = machine_of a s "institutional" (text_of (a primary_location))

abbrev replacement : Answers → String → Machine
replacement a s =
    capacity (machine_of a (s +++ "-replacement") "institutional" (text_of (a recovery_location)))

service-Among :
    (a : Answers) (s : String) (chosen : List String)
    → Among s chosen
    → Among (primary_machine a s) (service_machines a chosen)
      × Among (replacement a s) (service_machines a chosen)
unfolding service_machines
service-Among a s [] h = absurd h
service-Among a s (t ∷ rest) (inl e) =
    (inl (ap (primary_machine a) e), inr (inl (ap (replacement a) e)))
service-Among a s (t ∷ rest) (inr h) =
    let (m, n) = service-Among a s rest h in (inr (inr m), inr (inr n))

services-Among :
    (a : Answers) (m : Machine) (n r : Bool) (chosen : List String)
    → Among m (service_machines a chosen)
    → Among m (machines_for a n r chosen)
unfolding machines_for
services-Among a m n r chosen h =
    Among-append_right m (network_machines a n r) _
      (Among-append_left m (service_machines a chosen) (backup_machine a ∷ gateway_machines a r) h)

answered_text : (o : Option String) → is_answered o ≡ true → (v : String) × (o ≡ some v)
answered_text none h = cc
answered_text (some v) h = (v, refl)

named : (p : String) → identifier p ≡ true → str_eq p "" ≡ false
named p h = elim (Bool-cases (str_eq p "")) [
  | inl e ↦
      let bad : identifier "" ≡ true = subst (λ t. identifier t ≡ true) ((eq_iff p "").0 e) h in cc
  | inr e ↦ e
]

distinct : (p r : String) → identifier p ≡ true → one_place (some p) (some r) ≡ false → p ≢ r
unfolding one_place
distinct p r ok free same = ground (arith, eq_iff p r, named p ok)

different_texts :
    (o q : Option String) (p r : String)
    → o ≡ some p
    → q ≡ some r
    → identifier p ≡ true
    → one_place o q ≡ false
    → text_of o ≢ text_of q
different_texts o q p r e f ok free same =
    distinct p r ok (ap (one_place (some p)) (sym f) ∙ (ap (λ t. one_place t q) (sym e) ∙ free))
      (ap text_of (sym e) ∙ (same ∙ ap text_of f))

module _ (is_alnum : Char → Bool) (a : Answers) (v : valid_answers is_alnum false a ≡ true) where
  parts :
      (all (λ f. is_answered (a f)) fields ≡ true)
      × (all (λ f. acceptable_answer is_alnum f (a f)) fields ≡ true)
      × (one_place (a primary_location) (a recovery_location) ≡ false)
  unfolding valid_answers
  parts =
      let (both, one) =
        and-true
          (all (λ f. is_answered (a f)) fields
            && all (λ f. acceptable_answer is_alnum f (a f)) fields)
          (not (one_place (a primary_location) (a recovery_location))) v in
      let (given, fine) =
        and-true (all (λ f. is_answered (a f)) fields)
          (all (λ f. acceptable_answer is_alnum f (a f)) fields) both in
      (given, fine, not-true _ one)

  given : All (λ f. is_answered (a f) ≡ true) fields
  given = all-All (λ f. is_answered (a f)) fields parts.0

  fine : All (λ f. acceptable_answer is_alnum f (a f) ≡ true) fields
  fine = all-All (λ f. acceptable_answer is_alnum f (a f)) fields parts.1

  accepted :
      (f : Field) (t : String)
      → a f ≡ some t
      → acceptable_answer is_alnum f (a f) ≡ true
      → acceptable is_alnum f t ≡ true
  accepted f t e h = subst (λ o. acceptable_answer is_alnum f o ≡ true) e h

  locations_apart : text_of (a primary_location) ≢ text_of (a recovery_location)
  unfolding acceptable
  locations_apart =
      let (p, known) = answered_text (a primary_location) given.1.1.1.1.0 in
      let (r, found) = answered_text (a recovery_location) given.1.1.1.1.1.0 in
      different_texts (a primary_location) (a recovery_location) p r known found
        (accepted primary_location p known fine.1.1.1.1.0) parts.2

  Chosen-services : Chosen (selected a)
  Chosen-services =
      let (s, known) = answered_text (a services) given.1.1.0 in
      selected-Chosen is_alnum a s known (accepted services s known fine.1.1.0)

  -- For complete answers that validate_answers accepts, any two machines have different labels, and
  -- each selected service has a machine at the primary location and a replacement at the recovery
  -- location, which is another place.
  pub machines-Recoverable :
      Apart Unlike (machines a)
      × ((s : String) → Among s (selected a) → Recoverable a (machines a) s)
  unfolding machines machine_of
  machines-Recoverable =
      let n = str_eq (text_of (a network)) "new" in
      let r = is_regional a in
      let chosen = selected a in
      (
        roles-labels a (machines_for a n r chosen) (machines_for-Labelled a n r chosen) (
            all_different-Apart (machines_for a n r chosen)
              (Chosen-Different a n r chosen Chosen-services)),
        λ s h.
            let (m, k) = service-Among a s chosen h in
            (
              primary_machine a s,
              replacement a s,
              services-Among a (primary_machine a s) n r chosen m,
              services-Among a (replacement a s) n r chosen k,
              refl,
              refl,
              refl,
              refl,
              locations_apart,
            ),
      )
