-- ===== src/Capture/Events.antt =====
-- The events of scripts/backup_snapshot.py, service by service.
use resilient_datacenter.Shared.{
  String, Bool, true, false, str_eq, Option, List, ◌∷◌, contains, ◌≡◌, subst, ◌||◌, inl, inr, arith,
  Bool-cases,
}
use resilient_datacenter.Capture.State.{
  Event, queried, stop_requested, start_requested, copied, is_stopped, answered, is_answer,
}

-- Nothing is stopped that is not in the list.
abbrev pub Covers : List String → List Event → Type 0
Covers ms es = (n : String) → is_stopped n es ≡ true → contains n ms ≡ true

abbrev pub NoneStopped : List Event → Type 0
NoneStopped es = (n : String) → is_stopped n es ≡ false

-- The last answer of each, since the last request, is this.
abbrev pub Answered : Bool → List String → List Event → Type 0
Answered b ms es = (n : String) → contains n ms ≡ true → answered b n es ≡ true

-- The same, one apart.
abbrev pub AnsweredBut : Bool → String → List String → List Event → Type 0
AnsweredBut b m ms es =
    (n : String) → contains n ms ≡ true → str_eq m n ≡ false → answered b n es ≡ true

pub Covers-stop :
    (m : String) (ms : List String) (es : List Event)
    → ((n : String) → str_eq m n ≡ true → contains n ms ≡ true)
    → Covers ms es
    → Covers ms (stop_requested m ∷ es)
unfolding is_stopped
Covers-stop m ms es i h n s = elim (Bool-cases (str_eq m n)) [
  | inl t ↦ i n t
  | inr f ↦ h n (ground arith)
]

pub Covers-start :
    (m : String) (ms : List String) (es : List Event)
    → Covers (m ∷ ms) es
    → Covers ms (start_requested m ∷ es)
unfolding is_stopped
Covers-start m ms es h n s = elim (Bool-cases (str_eq m n)) [
  | inl t ↦ absurd (ground arith)
  | inr f ↦ let was : contains n (m ∷ ms) ≡ true = h n (ground arith) in ground arith
]

pub AnsweredBut-again :
    (b : Bool) (m : String) (ms : List String) (es : List Event)
    → AnsweredBut b m ms es
    → AnsweredBut b m ms (stop_requested m ∷ es)
unfolding answered
AnsweredBut-again b m ms es h n i f = rw f (h n i f)

pub AnsweredBut-start :
    (b : Bool) (m : String) (ms : List String) (es : List Event)
    → Answered b ms es
    → AnsweredBut b m ms (start_requested m ∷ es)
unfolding answered
AnsweredBut-start b m ms es h n i f = rw f (h n i)

pub Answered-query :
    (b : Bool) (m : String) (a : Option Bool) (ms : List String) (es : List Event)
    → is_answer b a ≡ true
    → AnsweredBut b m ms es
    → Answered b ms (queried m a ∷ es)
unfolding answered
Answered-query b m a ms es y h n i = elim (Bool-cases (str_eq m n)) [
  | inl t ↦ rw t y
  | inr f ↦ rw f (h n i f)
]

pub Covers-query :
    (m : String) (a : Option Bool) (ms : List String) (es : List Event)
    → Covers ms es
    → Covers ms (queried m a ∷ es)
unfolding is_stopped
Covers-query m a ms es h = h

pub Covers-copy :
    (m : String) (ms : List String) (es : List Event) → Covers ms es → Covers ms (copied m ∷ es)
unfolding is_stopped
Covers-copy m ms es h = h

pub Answered-copy :
    (b : Bool) (m : String) (ms : List String) (es : List Event)
    → Answered b ms es
    → Answered b ms (copied m ∷ es)
unfolding answered
Answered-copy b m ms es h = h

pub AnsweredBut-own :
    (b : Bool) (m : String) (ms : List String) (es : List Event)
    → AnsweredBut b m ms es
    → AnsweredBut b m (m ∷ ms) es
AnsweredBut-own b m ms es h n i f = h n (subst (λ x. x || contains n ms ≡ true) f i) f

pub NoneStopped-query :
    (m : String) (a : Option Bool) (es : List Event)
    → NoneStopped es
    → NoneStopped (queried m a ∷ es)
unfolding is_stopped
NoneStopped-query m a es h = h
