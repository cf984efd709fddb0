-- ===== src/Shared/Optional.antt =====
-- Code that only reads and may raise: `none` is an exception.
use mathlib.Core.Bool.{Bool, true, false}
use mathlib.Core.Path.{◌≡◌, refl, subst}
use mathlib.Core.Option.{Option, none, some}
use resilient_datacenter.Shared.Tests.{if◌then◌else◌}

module _ {A B : Type 0} where
  infixl 10 ◌>>=◌ ◌>>◌
  abbrev pub ◌>>=◌ : Option A → (A → Option B) → Option B
  ◌>>=◌ none f = none
  ◌>>=◌ (some a) f = f a

  abbrev pub ◌>>◌ : Option A → Option B → Option B
  m >> n = m >>= λ _. n

-- `if test: raise ValueError(...)`
abbrev pub raise_if : Bool → Option (Unit {0})
raise_if true = none
raise_if false = some tt

-- What holds of the value where nothing is raised.
abbrev pub Returns : {A : Type 0} → (A → Type 0) → Option A → Type 0
Returns P none = Unit {0}
Returns P (some a) = P a

module _ {A B : Type 0} where
  pub bind_rule :
      (Q : B → Type 0) (m : Option A) (f : A → Option B)
      → ((a : A) → m ≡ some a → Returns Q (f a))
      → Returns Q (m >>= f)
  bind_rule Q none f h = tt
  bind_rule Q (some a) f h = h a refl

pub raise_rule :
    {B : Type 0} (Q : B → Type 0) (b : Bool) (m : Option B)
    → (b ≡ false → Returns Q m)
    → Returns Q (raise_if b >> m)
raise_rule Q true m h = tt
raise_rule Q false m h = h refl

pub if_rule :
    {B : Type 0} (Q : B → Type 0) (b : Bool) (m n : Option B)
    → (b ≡ true → Returns Q m)
    → (b ≡ false → Returns Q n)
    → Returns Q (if b then m else n)
if_rule Q true m n h k = h refl
if_rule Q false m n h k = k refl

pub returned : {A : Type 0} (P : A → Type 0) (o : Option A) (a : A) → Returns P o → o ≡ some a → P a
returned P none a h e = absurd (cc)
returned P (some b) a h e = subst P (some-eq b a e) h
  where
    some-eq : {A : Type 0} (a b : A) → some a ≡ some b → a ≡ b
    some-eq a b h = cc

pub weaken_rule :
    {A : Type 0} (P Q : A → Type 0) (o : Option A)
    → ((a : A) → P a → Q a)
    → Returns P o
    → Returns Q o
weaken_rule P Q none f h = tt
weaken_rule P Q (some a) f h = f a h
