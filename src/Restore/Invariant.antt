-- ===== src/Restore/Invariant.antt =====
-- What the disk shows at every moment of a restoration: for each phase of the pending journal, where
-- the previous data of each resource is.
use resilient_datacenter.Shared.{
  ℕ, ◌<◌, ◌≡◌, refl, subst, ◌≢◌, ◌⊎◌, inl, inr, Bool-cases, Option, none, some, arith, length, ◌==◌,
}
use resilient_datacenter.Shared.Effects.{Signal}
use resilient_datacenter.Shared.Hoare.{Hoare, Pred, file_rule, write_rule}
use resilient_datacenter.Restore.State.{
  Phase, preparing, validating, committed, rolled_back, other_phase, Journal, Stored, absent, holds,
  Workspace, missing, linked, folder, Slot, Disk, put,
}
use resilient_datacenter.Restore.Files.{Env, on_slot, slot_op, save}

abbrev pub old_of : {T : Type 0} → Workspace T → Option T
old_of missing = none
old_of linked = none
old_of (folder o n) = o

abbrev pub new_of : {T : Type 0} → Workspace T → Option T
new_of missing = none
new_of linked = none
new_of (folder o n) = n

-- The previous data is the entry `old` of the workspace, or it is in place and there is no `old`.
abbrev pub Kept : {T : Type 0} → T → Slot T → Type 0
Kept o s = (old_of s.workspace ≡ some o) ⊎ ((old_of s.workspace ≡ none) × (s.target ≡ some o))

abbrev pub the : {T : Type 0} → (ℕ → T) → ℕ → Option T
the original i = some (original i)

module _ {T : Type 0} (count : ℕ) where
  -- Every resource holds the data that `v` says.
  abbrev pub Targets : (ℕ → Option T) → Disk T → Type 0
  Targets v d = (i : ℕ) → i < count → (d.slots i).target ≡ v i

  abbrev pub AllKept : (ℕ → T) → Disk T → Type 0
  AllKept original d = (i : ℕ) → i < count → Kept (original i) (d.slots i)

  -- The marker names the journal `j`, which is on the disk with the phase `p`.
  pub record Pending (p : Phase) (d : Disk T) (j : Journal) : Type 0 where
    pub marked : d.marker ≡ holds (record { schema_version = 1; transaction_id = j.id })
    pub written : d.journals j.id ≡ holds (record j { phase = p })
    pub counted : length j.paths ≡ count

  module _ (original : ℕ → T) (candidate : ℕ → Option T) where
    -- What a phase on the disk says of the resources.
    abbrev pub ByPhase : Phase → Disk T → Type 0
    ByPhase preparing d = AllKept original d
    ByPhase validating d = AllKept original d
    ByPhase committed d = Targets candidate d
    ByPhase rolled_back d = Targets (the original) d
    ByPhase (other_phase p) d = ⊥

    -- At rest the resources are all previous or all restored; while a transaction is pending they
    -- are as the phase of its journal says.
    pub data Consistent (d : Disk T) : Type 0 where
      idle_original : d.marker ≡ absent → Targets (the original) d → Consistent d
      idle_restored : d.marker ≡ absent → Targets candidate d → Consistent d
      pending : (j : Journal) → Pending j.phase d j → ByPhase j.phase d → Consistent d

-- A predicate of all resources after a write to one of them.
pub put_all :
    {T : Type 0} {count : ℕ} (X : ℕ → Slot T → Type 0) (k : ℕ) (s : Slot T) (slots : ℕ → Slot T)
    → ((i : ℕ) → i < count → i ≢ k → X i (slots i))
    → (k < count → X k s)
    → (i : ℕ) → i < count
    → X i (put k s slots i)
put_all X k s slots h o i lt = elim (Bool-cases (i == k)) [
  | inl e ↦ rw (e, put) (subst (λ x. X x s) (ground arith) (o (ground arith)))
  | inr e ↦ rw (e, put) (h i lt (ground arith))
]

module _ {T H : Type 0} (env : Env T H) where
  on_slot-some :
      (i : ℕ) (o : Option (Slot T)) (d d' : Disk T)
      → elim o [ none ↦ none | some s ↦ some (record d { slots = put i s d.slots }) ] ≡ some d'
      → (s : Slot T) × (o ≡ some s) × (d' ≡ record d { slots = put i s d.slots })
  on_slot-some i none d d' h = cc
  on_slot-some i (some s) d d' h = (s, refl, cc)

  -- An operation on one slot leaves the rest of the disk alone.
  pub slot_rule :
      {P Q : Pred (Disk T) Journal} {E : Signal → Pred (Disk T) Journal} (i : ℕ)
      (g : Slot T → Option (Slot T))
      → ((d : Disk T) (s : Slot T) (j : Journal)
          → P d j
          → g (d.slots i) ≡ some s
          → Q (record d { slots = put i s d.slots }) j)
      → ((e : Signal) (d : Disk T) (j : Journal) → P d j → E e d j)
      → ((e : Signal) (d : Disk T) (j : Journal) → Q d j → E e d j)
      → Hoare P (slot_op env i g) (λ _. Q) E
  unfolding slot_op
  slot_rule {Q} i g q e l =
      file_rule env.disturb (λ j d. on_slot i g d)
        (λ d d' j p h.
          let (s, gs, eq) = on_slot-some i (g (d.slots i)) d d' h in rw eq (q d s j p gs))
        e l

  -- The marker names the journal, which says `p`, and every resource is as `X` says.
  abbrev pub Under : ℕ → Phase → (ℕ → Slot T → Type 0) → Pred (Disk T) Journal
  Under count p X d j = Pending count p d j × ((i : ℕ) → i < count → X i (d.slots i))

  pub under_rule :
      {count : ℕ} {p : Phase} {X Y : ℕ → Slot T → Type 0} {E : Signal → Pred (Disk T) Journal}
      (k : ℕ) (g : Slot T → Option (Slot T))
      → ((i : ℕ) (s : Slot T) → X i s → i ≢ k → Y i s)
      → ((s s' : Slot T) → X k s → g s ≡ some s' → k < count → Y k s')
      → ((e : Signal) (d : Disk T) (j : Journal) → Under count p X d j → E e d j)
      → ((e : Signal) (d : Disk T) (j : Journal) → Under count p Y d j → E e d j)
      → Hoare (Under count p X) (slot_op env k g) (λ _. Under count p Y) E
  under_rule {Y} k g other own e l =
      slot_rule k g
        (λ d s j h c. (
          record { marked = h.0.marked; written = h.0.written; counted = h.0.counted },
          put_all Y k s d.slots (λ i lt ne. other i (d.slots i) (h.1 i lt) ne)
              (λ lt. own (d.slots k) s (h.1 k lt) c lt),
        ))
        e l

  written_phase :
      (p : Phase) (j : Journal) (journals : ℕ → Stored Journal)
      → j.phase ≡ p
      → put j.id (holds j) journals j.id ≡ holds (record j { phase = p })
  written_phase p j journals h = ground arith

  -- save writes the phase in memory, and leaves the resources alone.
  pub save_rule :
      {E : Signal → Pred (Disk T) Journal} (count : ℕ) (p q : Phase) (X : ℕ → Slot T → Type 0)
      → ((e : Signal) (d : Disk T) (j : Journal) → Under count p X d j × (j.phase ≡ q) → E e d j)
      → ((e : Signal) (d : Disk T) (j : Journal) → Under count q X d j × (j.phase ≡ q) → E e d j)
      → Hoare
          (λ d j. Under count p X d j × (j.phase ≡ q))
          (save env)
          (λ _ d j. Under count q X d j × (j.phase ≡ q))
          E
  unfolding save
  save_rule count p q X e l =
      write_rule env.disturb (λ j d. record d { journals = put j.id (holds j) d.journals })
        (λ d j h. (
          (
            record {
              marked = h.0.0.marked;
              written = written_phase q j d.journals h.1;
              counted = h.0.0.counted;
            },
            h.0.1,
          ),
          h.1,
        ))
        e l
