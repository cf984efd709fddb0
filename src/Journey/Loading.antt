-- ===== src/Journey/Loading.antt =====
-- load of scripts/product_journey.py: what it returns is what record makes.
use resilient_datacenter.Shared.{
  String, Bool, true, false, not, ◌&&◌, ◌||◌, ◌==◌, str_eq, eq_iff, Option, none, some, List, [],
  ◌∷◌, ◌≡◌, refl, arith, Bool-cases, inl, inr, if◌then◌else◌, sym, ap, ◌∙◌, subst,
}
use Prim.Native.Char.{Char}
use resilient_datacenter.Shared.Hoare.{some-eq}
use resilient_datacenter.Journey.Answers.{valid_answers}
use resilient_datacenter.Shared.Apart.{Apart, Among}
use resilient_datacenter.Journey.Roles.{Unlike}
use resilient_datacenter.Journey.Replacing.{Recoverable, machines-Recoverable}
use resilient_datacenter.Journey.Machines.{
  Document, Machine, machines, selected, same_machine, same_machines, document_of, record_of,
  recorded, loadable, checked, load,
}

and-true : (a b : Bool) → (a && b) ≡ true → (a ≡ true) × (b ≡ true)
and-true true b h = (refl, h)
and-true false b h = cc

flags-eq : (a b : Bool) → (if a then b else not b) ≡ true → a ≡ b
flags-eq true true h = refl
flags-eq false false h = refl
flags-eq true false h = cc
flags-eq false true h = cc

pub same_machine-eq : (m n : Machine) → same_machine m n ≡ true → m ≡ n
same_machine-eq m n h =
    let role : m.role ≡ n.role = (eq_iff _ _).0 (ground (arith, h)) in
    let machine : m.machine ≡ n.machine = (eq_iff _ _).0 (ground (arith, h)) in
    let network : m.network ≡ n.network = (eq_iff _ _).0 (ground (arith, h)) in
    let location : m.location ≡ n.location = (eq_iff _ _).0 (ground (arith, h)) in
    let state : m.state ≡ n.state = (eq_iff _ _).0 (ground (arith, h)) in
    let forwarding : m.forwarding_disabled ≡ n.forwarding_disabled =
      flags-eq _ _ (ground (arith, h)) in
    λ i. record {
      role = role i;
      machine = machine i;
      network = network i;
      location = location i;
      state = state i;
      forwarding_disabled = forwarding i;
    }

pub same_machines-eq : (ms ns : List Machine) → same_machines ms ns ≡ true → ms ≡ ns
unfolding same_machines
same_machines-eq [] [] h = refl
same_machines-eq (m ∷ ms) (n ∷ ns) h =
    let (x, y) = and-true _ _ h in rw (same_machine-eq m n x, same_machines-eq ms ns y) refl
same_machines-eq [] (n ∷ ns) h = cc
same_machines-eq (m ∷ ms) [] h = cc

state-eq :
    (s : String)
    → (str_eq s "draft" || str_eq s "prepared") ≡ true
    → s ≡ (if str_eq s "draft" then "draft" else "prepared")
state-eq s h = elim (Bool-cases (str_eq s "draft")) [
  | inl t ↦ rw t ((eq_iff _ _).0 t)
  | inr f ↦ let p : str_eq s "prepared" ≡ true = ground (arith, f, h) in rw f ((eq_iff _ _).0 p)
]

module _ (is_alnum : Char → Bool) where
  recorded-eq :
      (draft : Bool) (d : Document)
      → d.kind ≡ "product-journey"
      → d.schema_version ≡ 1
      → d.state ≡ (if draft then "draft" else "prepared")
      → recorded is_alnum draft d ≡ true
      → record_of is_alnum draft d.answers ≡ some d
  unfolding recorded record_of document_of
  recorded-eq draft d kind version state r =
      let (fine, same) = and-true (valid_answers is_alnum draft d.answers) _ r in
      let same_list =
        same_machines-eq d.machines (document_of is_alnum draft d.answers).machines same in
      rw fine (
        ap some (λ i. record {
          kind = sym kind i;
          schema_version = sym version i;
          state = sym state i;
          answers = d.answers;
          machines = sym same_list i;
        }))

  loadable-eq :
      (allow_draft : Bool) (d : Document)
      → loadable is_alnum allow_draft d ≡ true
      → (record_of is_alnum (str_eq d.state "draft") d.answers ≡ some d)
        × (str_eq d.state "draft" ≡ true → allow_draft ≡ true)
  loadable-eq allow_draft d h =
      let kind : str_eq d.kind "product-journey" ≡ true = ground (arith, h) in
      let version : (d.schema_version == 1) ≡ true = ground (arith, h) in
      let state : (str_eq d.state "draft" || str_eq d.state "prepared") ≡ true =
        ground (arith, h) in
      let same : recorded is_alnum (str_eq d.state "draft") d ≡ true = ground (arith, h) in
      (
        recorded-eq (str_eq d.state "draft") d ((eq_iff _ _).0 kind) (ground (arith, version))
            (state-eq d.state state) same,
        λ t. ground (arith, h, t),
      )

  checked-record_of :
      (allow_draft : Bool) (o : Option Document) (d : Document)
      → checked is_alnum allow_draft o ≡ some d
      → (record_of is_alnum (str_eq d.state "draft") d.answers ≡ some d)
        × (str_eq d.state "draft" ≡ true → allow_draft ≡ true)
  checked-record_of allow_draft none d h = cc
  checked-record_of allow_draft (some x) d h = elim (Bool-cases (loadable is_alnum allow_draft x)) [
    | inr bad ↦
        let t : checked is_alnum allow_draft (some x) ≡ none =
          ap (λ b. if b then some x else none) bad in
        absurd (cc)
    | inl fine ↦
        let e : x ≡ d = some-eq _ _ (sym (ap (λ b. if b then some x else none) fine) ∙ h) in
        loadable-eq allow_draft d (subst (λ y. loadable is_alnum allow_draft y ≡ true) e fine)
  ]

  opened :
      (draft : Bool) (d : Document)
      → record_of is_alnum draft d.answers ≡ some d
      → draft ≡ false
      → (valid_answers is_alnum false d.answers ≡ true) × (d ≡ document_of is_alnum false d.answers)
  unfolding record_of
  opened true d h e = cc
  opened false d h e = elim (Bool-cases (valid_answers is_alnum false d.answers)) [
    | inl fine ↦
        let t : (if valid_answers is_alnum false d.answers
              then some (document_of is_alnum false d.answers)
              else none)
            ≡ some (document_of is_alnum false d.answers) =
          ap (λ b. if b then some (document_of is_alnum false d.answers) else none) fine in
        (fine, some-eq _ _ (sym h ∙ t))
    | inr bad ↦
        let t : (if valid_answers is_alnum false d.answers
              then some (document_of is_alnum false d.answers)
              else none)
            ≡ none =
          ap (λ b. if b then some (document_of is_alnum false d.answers) else none) bad in
        absurd (cc)
  ]

  no_draft : (b : Bool) → (b ≡ true → false ≡ true) → b ≡ false
  no_draft true h = sym (h refl)
  no_draft false h = refl

  abbrev pub Opened : Document → Type 0
  Opened d =
      (valid_answers is_alnum false d.answers ≡ true)
      × (d ≡ document_of is_alnum false d.answers)
      × Apart Unlike d.machines
      × ((s : String) → Among s (selected d.answers) → Recoverable d.answers d.machines s)

  -- Whatever the parser reads, a journey that load returns where drafts are not allowed, as before
  -- the deployment tasks, has acceptable answers to every question with two locations, and is the
  -- document that record makes of them. Any two of its machines have different labels, and
  -- each selected service has a machine at the primary location and a replacement at the recovery
  -- location, which is another place.
  pub load-Opened :
      (parse : String → Option Document) (text : String) (d : Document)
      → load is_alnum parse false text ≡ some d
      → Opened d
  unfolding load document_of
  load-Opened parse text d h =
      let (recorded_so, none_allowed) = checked-record_of false (parse text) d h in
      let (fine, same) =
        opened (str_eq d.state "draft") d recorded_so
          (no_draft (str_eq d.state "draft") none_allowed) in
      let (apart, recoverable) = machines-Recoverable is_alnum d.answers fine in
      let same_list : machines d.answers ≡ d.machines = sym (ap (λ x. x.machines) same) in
      (
        fine,
        same,
        subst (λ ms. Apart Unlike ms) same_list apart,
        λ s among. subst (λ ms. Recoverable d.answers ms s) same_list (recoverable s among),
      )
