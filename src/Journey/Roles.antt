-- ===== src/Journey/Roles.antt =====
-- The machines of a journey: their labels, and where the services are replaced.
use resilient_datacenter.Shared.{
  String, Bool, true, false, str_eq, eq_iff, some, List, [], ◌∷◌, map, contains, ◌≡◌, ◌≢◌, ◌⊎◌,
  refl, sym, subst, ap, ◌∙◌, arith, Bool-cases, inl, inr, and-true, not-true,
}
use Prim.Native.Char.{Char}
use Prim.Native.String.{◌++◌ as ◌+++◌}
use text.Mathlib.TextLemmas.{append_cancel_left}
use resilient_datacenter.Shared.Apart.{All, Apart, All-append}
use resilient_datacenter.Agreement.Verifying.{all_different}
use resilient_datacenter.Journey.Answers.{institution_id, services, Answers, text_of, acceptable}
use resilient_datacenter.Journey.Machines.{
  Machine, machine_of, selected, backup_machine, machines_for, network_machines, service_machines,
  gateway_machines,
}

-- A machine is labelled with the institution and its role.
abbrev pub Labelled : Answers → Machine → Type 0
Labelled a m = m.machine ≡ text_of (a institution_id) +++ ("-" +++ m.role)

abbrev pub Unlike : Machine → Machine → Type 0
Unlike m n = m.machine ≢ n.machine

pub role_of : Machine → String
role_of m = m.role

contains-false :
    (m : Machine) (ms : List Machine)
    → contains m.role (map role_of ms) ≡ false
    → All (λ n. m.role ≢ n.role) ms
unfolding role_of
contains-false m [] h = tt
contains-false m (n ∷ ns) h =
    (λ e. ground (arith, eq_iff n.role m.role), contains-false m ns (ground arith))

pub all_different-Apart :
    (ms : List Machine) → all_different (map role_of ms) ≡ true → Apart (λ m n. m.role ≢ n.role) ms
unfolding role_of
all_different-Apart [] h = tt
all_different-Apart (m ∷ ms) h =
    let (fresh, rest) = and-true _ _ h in
    (contains-false m ms (not-true _ fresh), all_different-Apart ms rest)

label-role :
    (a : Answers) (m n : Machine)
    → Labelled a m
    → Labelled a n
    → m.machine ≡ n.machine
    → m.role ≡ n.role
label-role a m n l k e =
    let inst = text_of (a institution_id) in
    append_cancel_left "-" m.role n.role
      (append_cancel_left inst ("-" +++ m.role) ("-" +++ n.role) (sym l ∙ (e ∙ k)))

labels-apart :
    (a : Answers) (m : Machine) (ms : List Machine)
    → Labelled a m
    → All (Labelled a) ms
    → All (λ n. m.role ≢ n.role) ms
    → All (Unlike m) ms
labels-apart a m [] l k h = tt
labels-apart a m (n ∷ ns) l k h =
    (λ e. h.0 (label-role a m n l k.0 e), labels-apart a m ns l k.1 h.1)

pub roles-labels :
    (a : Answers) (ms : List Machine)
    → All (Labelled a) ms
    → Apart (λ m n. m.role ≢ n.role) ms
    → Apart Unlike ms
roles-labels a [] l h = tt
roles-labels a (m ∷ ms) l h = (labels-apart a m ms l.0 l.1 h.0, roles-labels a ms l.1 h.1)

network_machines-Labelled : (a : Answers) (n r : Bool) → All (Labelled a) (network_machines a n r)
unfolding network_machines machine_of
network_machines-Labelled a true r = (refl, (refl, tt))
network_machines-Labelled a false r = tt

service_machines-Labelled :
    (a : Answers) (chosen : List String) → All (Labelled a) (service_machines a chosen)
unfolding service_machines machine_of
service_machines-Labelled a [] = tt
service_machines-Labelled a (s ∷ rest) = (refl, (refl, service_machines-Labelled a rest))

gateway_machines-Labelled : (a : Answers) (r : Bool) → All (Labelled a) (gateway_machines a r)
unfolding gateway_machines machine_of
gateway_machines-Labelled a true = (refl, (refl, (refl, tt)))
gateway_machines-Labelled a false = tt

pub machines_for-Labelled :
    (a : Answers) (n r : Bool) (chosen : List String) → All (Labelled a) (machines_for a n r chosen)
unfolding machines_for
machines_for-Labelled a n r chosen =
    All-append (Labelled a) (network_machines a n r) _ (network_machines-Labelled a n r) (
      All-append (Labelled a) (service_machines a chosen) (backup_machine a ∷ gateway_machines a r)
        (service_machines-Labelled a chosen) (refl, gateway_machines-Labelled a r))

-- The answers for services.
abbrev pub Chosen : List String → Type 0
Chosen chosen =
    (chosen ≡ "matrix" ∷ "nextcloud" ∷ [])
    ⊎ ((chosen ≡ "matrix" ∷ []) ⊎ (chosen ≡ "nextcloud" ∷ []))

abbrev pub Different : Answers → Bool → Bool → List String → Type 0
Different a n r chosen = all_different (map role_of (machines_for a n r chosen)) ≡ true

both-Different : (a : Answers) (n r : Bool) → Different a n r ("matrix" ∷ "nextcloud" ∷ [])
unfolding machines_for role_of
both-Different a true true = refl
both-Different a true false = refl
both-Different a false true = refl
both-Different a false false = refl

matrix-Different : (a : Answers) (n r : Bool) → Different a n r ("matrix" ∷ [])
unfolding machines_for role_of
matrix-Different a true true = refl
matrix-Different a true false = refl
matrix-Different a false true = refl
matrix-Different a false false = refl

nextcloud-Different : (a : Answers) (n r : Bool) → Different a n r ("nextcloud" ∷ [])
unfolding machines_for role_of
nextcloud-Different a true true = refl
nextcloud-Different a true false = refl
nextcloud-Different a false true = refl
nextcloud-Different a false false = refl

pub Chosen-Different :
    (a : Answers) (n r : Bool) (chosen : List String) → Chosen chosen → Different a n r chosen
Chosen-Different a n r chosen (inl e) = subst (Different a n r) (sym e) (both-Different a n r)
Chosen-Different a n r chosen (inr (inl e)) =
    subst (Different a n r) (sym e) (matrix-Different a n r)
Chosen-Different a n r chosen (inr (inr e)) =
    subst (Different a n r) (sym e) (nextcloud-Different a n r)

pub selected-Chosen :
    (is_alnum : Char → Bool) (a : Answers) (v : String)
    → a services ≡ some v
    → acceptable is_alnum services v ≡ true
    → Chosen (selected a)
unfolding acceptable
selected-Chosen is_alnum a v e ok = elim (Bool-cases (str_eq v "both")) [
  | inl both ↦ inl (rw (e, both) refl)
  | inr one ↦ elim (Bool-cases (str_eq v "matrix")) [
    | inl chat ↦ inr (inl (rw (e, one) (ap (λ t. t ∷ []) ((eq_iff v "matrix").0 chat))))
    | inr other ↦ inr (
        inr (
          rw (e, one)
            (ap (λ t. t ∷ [])
              ((eq_iff v "nextcloud").0 (
                ground (
                  arith,
                  eq_iff "matrix" v,
                  eq_iff v "matrix",
                  eq_iff "both" v,
                  eq_iff v "both",
                  eq_iff "nextcloud" v,
                  eq_iff v "nextcloud",
                ))))))
  ]
]
