-- ===== src/Journey/Saving.antt =====
-- What the wizard of scripts/product_journey.py saves.
use resilient_datacenter.Shared.{
  ℕ, suc, ◌-◌, ◌<◌, String, Bool, true, false, str_eq, List, [], ◌∷◌, all, ◌≡◌, refl, subst, arith,
  Bool-cases, Option-cases, inl, inr,
}
use Prim.Native.Char.{Char}
use resilient_datacenter.Journey.Answers.{
  Field, purpose, institution_id, services, responsible_operator, primary_location,
  recovery_location, network, fields, Answers, with_answer, is_answered, acceptable_answer,
  one_place, valid_answers,
}
use resilient_datacenter.Journey.Machines.{document_of, record_of}
use resilient_datacenter.Journey.Asking.{
  position-le, position-field_at, field_at-none, Asked, back-Asked, accepted-Asked,
  turned_down-false,
}
use resilient_datacenter.Journey.Wizard.{
  Outcome, cancelled, drafted, prepared, invalid, field_at, value_of, turned_down, Bundle,
  no_bundle, other_bundle, unreadable_bundle, draft_bundle, Target, unread, unwritten, saved,
  confirmed, written, replaced, save_over, save, choose, shown, ask, wizard,
}

abbrev pub has_bundle : Bundle → Bool
has_bundle no_bundle = false
has_bundle _ = true

module _ (is_alnum : Char → Bool) (target : Target) where
  -- A saved draft has acceptable answers, a saved journey all of them, with two locations; nothing is
  -- refused but a draft whose locations are the same; and nothing else goes wrong but that the
  -- directory cannot be read or the files cannot be written.
  abbrev pub Good : Outcome → Type 0
  Good cancelled = Unit {0}
  Good (drafted d) =
      (valid_answers is_alnum true d.answers ≡ true) × (d ≡ document_of is_alnum true d.answers)
  Good (prepared d) =
      (valid_answers is_alnum false d.answers ≡ true) × (d ≡ document_of is_alnum false d.answers)
  Good (invalid a) = one_place (a primary_location) (a recovery_location) ≡ true
  Good unread = target.bundle ≡ unreadable_bundle
  Good unwritten = (draft : Bool) × (target.can_write draft (has_bundle target.bundle) ≡ false)

  all_fine :
      (a : Answers)
      → ((g : Field) → acceptable_answer is_alnum g (a g) ≡ true)
      → all (λ f. acceptable_answer is_alnum f (a f)) fields ≡ true
  all_fine a h =
      rw
        (
          h purpose,
          h institution_id,
          h services,
          h responsible_operator,
          h primary_location,
          h recovery_location,
          h network,
        )
        refl

  all_answered :
      (a : Answers)
      → ((g : Field) → is_answered (a g) ≡ true)
      → all (λ f. is_answered (a f)) fields ≡ true
  all_answered a h =
      rw
        (
          h purpose,
          h institution_id,
          h services,
          h responsible_operator,
          h primary_location,
          h recovery_location,
          h network,
        )
        refl

  draft-valid :
      (i : ℕ) (a : Answers)
      → Asked is_alnum i a
      → one_place (a primary_location) (a recovery_location) ≡ false
      → valid_answers is_alnum true a ≡ true
  unfolding valid_answers
  draft-valid i a k o = rw (all_fine a k.fine, o) refl

  draft-invalid :
      (i : ℕ) (a : Answers)
      → Asked is_alnum i a
      → one_place (a primary_location) (a recovery_location) ≡ true
      → valid_answers is_alnum true a ≡ false
  unfolding valid_answers
  draft-invalid i a k o = rw (all_fine a k.fine, o) refl

  full-valid : (a : Answers) → Asked is_alnum 7 a → valid_answers is_alnum false a ≡ true
  unfolding valid_answers
  full-valid a k =
      rw
        (
          all_answered a (λ g. k.answered g (omega (arith, position-le g))),
          all_fine a k.fine,
          k.apart (omega arith),
        )
        refl

  saved-Good :
      (draft : Bool) (a : Answers)
      → valid_answers is_alnum draft a ≡ true
      → Good (saved is_alnum draft (document_of is_alnum draft a))
  unfolding document_of
  saved-Good true a v = (v, refl)
  saved-Good false a v = (v, refl)

  written-Good :
      (draft overwrite : Bool) (a : Answers)
      → has_bundle target.bundle ≡ overwrite
      → valid_answers is_alnum draft a ≡ true
      → Good (written is_alnum target draft overwrite (document_of is_alnum draft a))
  written-Good draft overwrite a there v = elim (Bool-cases (target.can_write draft overwrite)) [
    | inl can ↦ rw can (saved-Good draft a v)
    | inr cannot ↦ rw cannot (draft, rw there cannot)
  ]

  replaced-Good :
      (draft : Bool) (a : Answers) (typed : List String)
      → has_bundle target.bundle ≡ true
      → valid_answers is_alnum draft a ≡ true
      → Good (replaced is_alnum target draft typed (document_of is_alnum draft a))
  replaced-Good draft a typed there v = elim (Bool-cases (confirmed is_alnum typed)) [
    | inl agreed ↦ rw agreed (written-Good draft true a there v)
    | inr declined ↦ rw declined tt
  ]

  save_over-Good :
      (b : Bundle) (draft : Bool) (a : Answers) (typed : List String)
      → target.bundle ≡ b
      → valid_answers is_alnum draft a ≡ true
      → Good (save_over is_alnum b target draft typed (document_of is_alnum draft a))
  save_over-Good no_bundle draft a typed e v = written-Good draft false a (rw e refl) v
  save_over-Good other_bundle draft a typed e v = replaced-Good draft a typed (rw e refl) v
  save_over-Good unreadable_bundle draft a typed e v = e
  save_over-Good (draft_bundle true) draft a typed e v = written-Good draft true a (rw e refl) v
  save_over-Good (draft_bundle false) draft a typed e v = replaced-Good draft a typed (rw e refl) v

  valid-Good :
      (draft : Bool) (a : Answers) (typed : List String)
      → valid_answers is_alnum draft a ≡ true
      → Good (save is_alnum target draft a typed)
  unfolding save record_of
  valid-Good draft a typed v = rw v (save_over-Good target.bundle draft a typed refl v)

  refused-Good :
      (a : Answers) (typed : List String)
      → valid_answers is_alnum true a ≡ false
      → one_place (a primary_location) (a recovery_location) ≡ true
      → Good (save is_alnum target true a typed)
  unfolding save record_of
  refused-Good a typed v same = rw v same

  draft-Good :
      (i : ℕ) (a : Answers) (typed : List String)
      → Asked is_alnum i a
      → Good (save is_alnum target true a typed)
  draft-Good i a typed k =
      elim (Bool-cases (one_place (a primary_location) (a recovery_location))) [
        | inl same ↦ refused-Good a typed (draft-invalid i a k same) same
        | inr apart ↦ valid-Good true a typed (draft-valid i a k apart)
      ]

  choose-Good :
      (a : Answers) (v : String) (typed : List String)
      → Asked is_alnum 7 a
      → Good (choose is_alnum target a v typed)
  unfolding choose
  choose-Good a v typed k = elim (Bool-cases (str_eq v ":save")) [
    | inl draft ↦ rw draft (draft-Good 7 a typed k)
    | inr other ↦ elim (Bool-cases (str_eq v "SAVE")) [
      | inl full ↦ rw (other, full) (valid-Good false a typed (full-valid a k))
      | inr neither ↦ rw (other, neither) tt
    ]
  ]

  shown-Good : (a : Answers) (o : Outcome) → Asked is_alnum 7 a → Good o → Good (shown is_alnum a o)
  unfolding shown record_of
  shown-Good a o k g = rw (full-valid a k) g

  at_end : (i : ℕ) (a : Answers) → 6 < i → Asked is_alnum i a → Asked is_alnum 7 a
  at_end i a over k =
      let low = k.low in let e : i ≡ 7 = omega arith in subst (λ j. Asked is_alnum j a) e k

  ask-Good :
      (typed : List String) (i : ℕ) (a : Answers)
      → Asked is_alnum i a
      → Good (ask is_alnum target typed i a)
  unfolding ask
  ask-Good [] i a k = elim (Option-cases (field_at i)) [
    | inl ended ↦ rw (ended, ask) (shown-Good a cancelled (at_end i a (field_at-none i ended) k) tt)
    | inr (f, found) ↦ rw (found, ask) tt
  ]
  ask-Good (v ∷ typed) i a k =
      let ih = ask-Good typed in
      elim (Option-cases (field_at i)) [
        | inl ended ↦
            rw (ended, ask)
              (shown-Good a (choose is_alnum target a v typed)
                (at_end i a (field_at-none i ended) k)
                (choose-Good a v typed (at_end i a (field_at-none i ended) k)))
        | inr (f, found) ↦
            rw (found, ask)
              (elim (Bool-cases (str_eq v ":cancel")) [
                | inl e ↦ rw (e, ask) tt
                | inr no_cancel ↦ elim (Bool-cases (str_eq v ":save")) [
                  | inl e ↦ rw (no_cancel, e, ask) (draft-Good i a typed k)
                  | inr no_save ↦ elim (Bool-cases (str_eq v ":back")) [
                    | inl e ↦
                        rw (no_cancel, no_save, e, ask) (ih (i - 1) a (back-Asked is_alnum i a k))
                    | inr no_back ↦ elim (Bool-cases (turned_down is_alnum a f (value_of a f v))) [
                      | inl e ↦ rw (no_cancel, no_save, no_back, e, ask) (ih i a k)
                      | inr e ↦
                          let (ok, other) = turned_down-false is_alnum a f (value_of a f v) e in
                          rw (no_cancel, no_save, no_back, e, ask)
                            (ih (suc i) (with_answer a f (value_of a f v)) (
                              accepted-Asked is_alnum i a f (value_of a f v) k
                                (position-field_at i f found) ok other))
                    ]
                  ]
                ]
              ])
      ]

  -- From no answers, or from those of a saved draft, the wizard saves a draft only with acceptable
  -- answers, and a journey only where every question has an acceptable answer and the two locations
  -- differ, with the machines of these answers; and it stops with an error only where a draft is to
  -- be saved whose two locations are the same, or where what is in the directory cannot be read, or
  -- where write_bundle fails on it.
  pub wizard-Good :
      (a : Answers) (typed : List String)
      → ((g : Field) → acceptable_answer is_alnum g (a g) ≡ true)
      → Good (wizard is_alnum target a typed)
  unfolding wizard
  wizard-Good a typed fine = ask-Good typed 0 a (record {
    answered = λ g l. absurd (omega arith);
    fine = fine;
    apart = λ l. absurd (omega arith);
    low = omega arith;
  })
