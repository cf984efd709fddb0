-- ===== src/Journey/Asking.antt =====
-- What holds of the answers at each question of the wizard of scripts/product_journey.py.
use resilient_datacenter.Shared.{
  ℕ, suc, ◌-◌, ◌≤◌, ◌<◌, String, Bool, true, false, ◌&&◌, ◌==◌, Option, none, some, ◌≡◌, refl, sym,
  subst, ap, ◌∙◌, arith, Bool-cases, inl, inr,
}
use Prim.Native.Char.{Char}
use resilient_datacenter.Shared.Hoare.{some-eq}
use resilient_datacenter.Journey.Answers.{
  Field, purpose, institution_id, services, responsible_operator, primary_location,
  recovery_location, network, position, Answers, with_answer, is_answered, acceptable,
  acceptable_answer, one_place,
}
use resilient_datacenter.Journey.Wizard.{field_at, is_recovery, is_same, turned_down}

field_at-position : (f : Field) → field_at (position f) ≡ some f
field_at-position purpose = refl
field_at-position institution_id = refl
field_at-position services = refl
field_at-position responsible_operator = refl
field_at-position primary_location = refl
field_at-position recovery_location = refl
field_at-position network = refl

pub position-field_at : (i : ℕ) (f : Field) → field_at i ≡ some f → position f ≡ i
position-field_at i purpose h = ground arith
position-field_at i institution_id h = ground arith
position-field_at i services h = ground arith
position-field_at i responsible_operator h = ground arith
position-field_at i primary_location h = ground arith
position-field_at i recovery_location h = ground arith
position-field_at i network h = ground arith

pub field_at-none : (i : ℕ) → field_at i ≡ none → 6 < i
field_at-none i h = ground arith

position-eq : (f g : Field) → position f ≡ position g → f ≡ g
position-eq f g e = some-eq f g (sym (field_at-position f) ∙ (ap field_at e ∙ field_at-position g))

pub position-le : (f : Field) → position f ≤ 6
position-le purpose = omega arith
position-le institution_id = omega arith
position-le services = omega arith
position-le responsible_operator = omega arith
position-le primary_location = omega arith
position-le recovery_location = omega arith
position-le network = omega arith

module _ (is_alnum : Char → Bool) where
  -- What holds of the answers when question `i` is asked.
  pub record Asked (i : ℕ) (a : Answers) : Type 0 where
    pub answered : (g : Field) → position g < i → is_answered (a g) ≡ true
    pub fine : (g : Field) → acceptable_answer is_alnum g (a g) ≡ true
    pub apart : 5 < i → one_place (a primary_location) (a recovery_location) ≡ false
    pub low : i ≤ 7

  pub back-Asked : (i : ℕ) (a : Answers) → Asked i a → Asked (i - 1) a
  back-Asked i a k = record {
    answered = λ g l. k.answered g (omega arith);
    fine = k.fine;
    apart = λ l. k.apart (omega arith);
    low = let l = k.low in omega arith;
  }

  same_place : (p : Option String) (w : String) → is_same w p ≡ false → one_place p (some w) ≡ false
  unfolding one_place
  same_place none w h = refl
  same_place (some p) w h = ground arith

  pub accepted-Asked :
      (i : ℕ) (a : Answers) (f : Field) (w : String)
      → Asked i a
      → position f ≡ i
      → acceptable is_alnum f w ≡ true
      → is_recovery f && is_same w (a primary_location) ≡ false
      → Asked (suc i) (with_answer a f w)
  accepted-Asked i a f w k e ok other = record {
    answered = λ g l. elim (Bool-cases (position f == position g)) [
      | inl here ↦ rw here refl
      | inr there ↦ rw there (k.answered g (ground arith))
    ];
    fine = λ g. elim (Bool-cases (position f == position g)) [
      | inl here ↦
          rw here (subst (λ t. acceptable is_alnum t w ≡ true) (position-eq f g (ground arith)) ok)
      | inr there ↦ rw there (k.fine g)
    ];
    apart = places f e other;
    low = let e' = e in omega (arith, position-le f);
  }
    where
      places :
          (f : Field)
          → position f ≡ i
          → is_recovery f && is_same w (a primary_location) ≡ false
          → 5 < suc i
          → one_place (with_answer a f w primary_location) (with_answer a f w recovery_location)
            ≡ false
      places purpose e o l = absurd (omega arith)
      places institution_id e o l = absurd (omega arith)
      places services e o l = absurd (omega arith)
      places responsible_operator e o l = absurd (omega arith)
      places primary_location e o l = absurd (omega arith)
      places recovery_location e o l = same_place (a primary_location) w o
      places network e o l = k.apart (omega arith)

  pub turned_down-false :
      (a : Answers) (f : Field) (v : String)
      → turned_down is_alnum a f v ≡ false
      → (acceptable is_alnum f v ≡ true) × (is_recovery f && is_same v (a primary_location) ≡ false)
  unfolding turned_down
  turned_down-false a f v h = elim (Bool-cases (acceptable is_alnum f v)) [
    | inl ok ↦ (ok, ground arith)
    | inr bad ↦ absurd (ground arith)
  ]
