-- ===== src/Upgrade/Invariant.antt =====
-- What the calls of the backend say of the node, what the disk shows at every moment of an upgrade,
-- and how the steps of the transaction keep it.
use resilient_datacenter.Shared.{
  not-false, ℕ, ◌≡◌, sym, subst, ◌⊎◌, Bool, true, false, not, Option, none, some, List, [], ◌∷◌,
  arith,
}
use resilient_datacenter.Shared.Effects.{Signal, Out, ok, raised}
use resilient_datacenter.Shared.Hoare.{
  Hoare, Pred, Post, bind_rule, seq_rule, write_rule, memory_rule, refuse_rule, raising_rule,
}
use resilient_datacenter.Shared.Stored.{Stored, absent, holds, Marker, put}
use resilient_datacenter.Upgrade.State.{
  Phase, preparing, migrating, committed, rolled_back, other_phase, Snapshot, Journal, Operation,
  migrate, restore_original, verify, Event, Disk, World, Call, Env, noted, returns, ask,
}
use resilient_datacenter.Upgrade.Journals.{valid_journal}
use resilient_datacenter.Upgrade.Transaction.{perform, save, write_journal}

-- The version that the last migration or restoration left; `uncertain` where it did not return.
pub data Version : Type 0 where
  previous new uncertain : Version

abbrev pub effect : Operation → Bool → Version → Version
effect migrate true v = new
effect migrate false v = uncertain
effect restore_original true v = previous
effect restore_original false v = uncertain
effect _ _ v = v

abbrev pub version : List Event → Version
version [] = previous
version (e ∷ es) = effect e.operation e.returned (version es)

-- Whether the migration was ever called.
abbrev pub migration : Operation → Bool → Bool
migration migrate b = true
migration _ b = b

abbrev pub begun : List Event → Bool
begun [] = false
begun (e ∷ es) = migration e.operation (begun es)

-- The argument of the last verification, where it returned and nothing has been changed since.
abbrev pub check : Operation → Bool → Option Bool → Option Bool
check migrate r c = none
check restore_original r c = none
check (verify b) true c = some b
check (verify b) false c = none
check _ _ c = c

abbrev pub checked : List Event → Option Bool
checked [] = none
checked (e ∷ es) = check e.operation e.returned (checked es)

abbrev pub version_of : Bool → Version
version_of true = previous
version_of false = new

-- The node runs the previous version (`true`) or the new one, and it was verified since the change.
abbrev pub Serves : Bool → List Event → Type 0
Serves original es = (version es ≡ version_of original) × (checked es ≡ some original)

abbrev pub has_snapshot : Option Snapshot → Bool
has_snapshot none = false
has_snapshot (some s) = true

-- If the migration was called, there is a snapshot.
abbrev pub Covered : Disk → Journal → Type 0
Covered d j = begun d.calls ≡ true → has_snapshot j.snapshot ≡ true

-- What a phase on the disk says of the node.
abbrev pub Decided : Phase → Version → Type 0
Decided preparing v = Unit
Decided migrating v = Unit
Decided committed v = v ≡ new
Decided rolled_back v = v ≡ previous
Decided (other_phase p) v = Unit

abbrev pub undecided : Phase → Bool
undecided committed = false
undecided rolled_back = false
undecided preparing = true
undecided migrating = true
undecided (other_phase p) = true

module _ {H : Type 0} (env : Env H) where
  -- If the migration was called, the journal has a snapshot, and validate passes on it.
  abbrev pub Protected : Disk → Journal → Type 0
  Protected d k =
      begun d.calls ≡ true → (has_snapshot k.snapshot ≡ true) × (valid_journal env k ≡ true)

  -- The marker names the journal in memory, which is on the disk as `k`.
  abbrev pub Marked : Journal → Disk → Journal → Type 0
  Marked k d j =
      (d.marker ≡ holds (record { schema_version = 1; transaction_id = j.id }))
      × (d.journals j.id ≡ holds k)
      × Protected d k
      × Covered d j

  -- Nothing is decided on the disk.
  abbrev pub Undecided : Pred Disk Journal
  Undecided d j = (k : Journal) × Marked k d j × (undecided k.phase ≡ true)

  -- At rest the node runs one of the versions; while a transaction is pending, a migration that was
  -- called has a snapshot in the journal on the disk, and the version is the one that was decided.
  pub data Consistent (d : Disk) : Type 0 where
    idle : d.marker ≡ absent → (version d.calls ≡ previous) ⊎ (version d.calls ≡ new) → Consistent d
    pending :
        (m : Marker) (k : Journal)
        → d.marker ≡ holds m
        → d.journals m.transaction_id ≡ holds k
        → Protected d k
        → Decided k.phase (version d.calls)
        → Consistent d

undecided-Decided : (p : Phase) (v : Version) → undecided p ≡ true → Decided p v
undecided-Decided preparing d h = tt
undecided-Decided migrating d h = tt
undecided-Decided committed d h = cc
undecided-Decided rolled_back d h = cc
undecided-Decided (other_phase p) d h = tt

pub Marked-Consistent :
    {H : Type 0} (env : Env H) (k : Journal) (d : Disk) (j : Journal)
    → Marked env k d j
    → Decided k.phase (version d.calls)
    → Consistent env d
Marked-Consistent env k d j m u =
    pending (record { schema_version = 1; transaction_id = j.id }) k m.0 m.1 m.2 u

pub Undecided-Consistent :
    {H : Type 0} (env : Env H) (d : Disk) (j : Journal) → Undecided env d j → Consistent env d
Undecided-Consistent env d j (k, m, u) =
    pending (record { schema_version = 1; transaction_id = j.id }) k m.0 m.1 m.2
      (undecided-Decided k.phase (version d.calls) u)

module _ {H A : Type 0} where
  ask-Post :
      (P Q : Pred Disk Journal) (E : Signal → Pred Disk Journal) (o : Operation) (w : World H)
      (r : Out A × H)
      → P w.disk w.memory
      → ((d : Disk) (j : Journal) → P d j → Q (noted o true d) j)
      → ((e : Signal) (d : Disk) (j : Journal) → P d j → E e (noted o false d) j)
      → Post
          (λ _. Q)
          E
          (let (x, h) = r in (x, record w { disk = noted o (returns x) w.disk; host = h }))
  ask-Post P Q E o w (ok a, h) p q e = q w.disk w.memory p
  ask-Post P Q E o w (raised s, h) p q e = e s w.disk w.memory p

  -- A call of the backend is noted, whether it returns or raises.
  pub ask_rule :
      {P Q : Pred Disk Journal} {E : Signal → Pred Disk Journal} (o : Operation)
      (f : Journal → Call H A)
      → ((d : Disk) (j : Journal) → P d j → Q (noted o true d) j)
      → ((e : Signal) (d : Disk) (j : Journal) → P d j → E e (noted o false d) j)
      → Hoare P (ask o f) (λ _. Q) E
  unfolding ask
  ask_rule o f q e = record { at = λ w p. ask-Post _ _ _ o w (f w.memory w.disk w.host) p q e }

module _ {H : Type 0} (env : Env H) where
  pub perform_rule :
      {P Q : Pred Disk Journal} {E : Signal → Pred Disk Journal} (o : Operation)
      → ((d : Disk) (j : Journal) → P d j → Q (noted o true d) j)
      → ((e : Signal) (d : Disk) (j : Journal) → P d j → E e (noted o false d) j)
      → Hoare P (perform env o) (λ _. Q) E
  unfolding perform
  perform_rule o q e = ask_rule o (env.backend o) q e

  pub put_here :
      (j : Journal) (journals : ℕ → Stored Journal) → put j.id (holds j) journals j.id ≡ holds j
  put_here j journals = ground arith

  -- save leaves a valid journal on the disk, or raises with the disk as it was or as it is after.
  pub save_rule :
      {P Q : Pred Disk Journal} {E : Signal → Pred Disk Journal}
      → ((d : Disk) (j : Journal)
          → P d j
          → valid_journal env j ≡ true
          → Q (record d { journals = put j.id (holds j) d.journals }) j)
      → ((e : Signal) (d : Disk) (j : Journal) → P d j → E e d j)
      → ((e : Signal) (d : Disk) (j : Journal) → Q d j → E e d j)
      → Hoare P (save env) (λ _. Q) E
  unfolding save write_journal
  save_rule q e l = bind_rule memory_rule λ a.
      seq_rule (raising_rule (refuse_rule (not (valid_journal env a))) (λ s d j h. e s d j h.0)) (
        write_rule env.disturb (λ j d. record d { journals = put j.id (holds j) d.journals })
          (λ d j h.
            q d j h.0.0 (subst (λ x. valid_journal env x ≡ true) (sym h.0.1) (not-false _ h.1)))
          (λ s d j h. e s d j h.0.0) l)

  -- Afterwards the journal in memory is the one on the disk.
  pub Marked-write :
      (k : Journal) (d : Disk) (j : Journal)
      → Marked env k d j
      → valid_journal env j ≡ true
      → Marked env j (record d { journals = put j.id (holds j) d.journals }) j
  Marked-write k d j h v = (h.0, put_here j d.journals, λ b. (h.3 b, v), h.3)
