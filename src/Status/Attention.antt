-- ===== src/Status/Attention.antt =====
-- When needs_attention of scripts/product_status.py asks for nothing.
use resilient_datacenter.Shared.{
  String, Bool, true, false, not, ◌||◌, contains, any, Option, some, List, [], ◌∷◌, ◌≡◌, refl,
  subst, inl, inr, Bool-cases,
}
use resilient_datacenter.Shared.Apart.{All, All-map}
use resilient_datacenter.Shared.Hoare.{some-eq}
use resilient_datacenter.Status.States.{Dimension, dimensions, states, informational}
use resilient_datacenter.Status.Collecting.{
  StateField, text, other_value, unhashable, Evidence, Item, is_known, item_of, collect,
  needs_attention,
}
use resilient_datacenter.Status.Bounds.{Bounded, Backed, collect-Bounded}

-- The probe returned evidence of a state that asks for nothing.
abbrev pub Fine : Dimension → Option (Option Evidence) → Type 0
Fine d v =
    (e : Evidence) × ((s : String) × ((v ≡ some (some e))
        × ((e.state ≡ text s)
            × ((contains s (states d) ≡ true) × (contains s informational ≡ true)))))

pub known_text :
    (d : Dimension) (f : StateField)
    → is_known d f ≡ some true
    → (s : String) × ((f ≡ text s) × (contains s (states d) ≡ true))
known_text d (text s) e = (s, (refl, some-eq (contains s (states d)) true e))
known_text d other_value e = absurd (cc)
known_text d unhashable e = absurd (cc)

module _ (is_zoned : String → Bool) where
  state_text :
      (d : Dimension) (e : Evidence) (s : String)
      → e.state ≡ text s
      → (item_of is_zoned d e).state ≡ s
  unfolding item_of
  state_text d e s h = rw h refl

  Backed-Fine :
      (d : Dimension) (v : Option (Option Evidence)) (item : Item)
      → Backed is_zoned d v item
      → contains item.state informational ≡ true
      → Fine d v
  unfolding item_of
  Backed-Fine d v item (inl e) calm = cc (subst (λ i. contains i.state informational ≡ true) e calm)
  Backed-Fine d v item (inr (e, (given, (known, same)))) calm =
      let (s, (is_text, listed)) = known_text d e.state known in
      (
        e,
        (
          s,
          (
            given,
            (
              is_text,
              (
                listed,
                subst (λ x. contains x informational ≡ true) (state_text d e s is_text)
                    (subst (λ i. contains i.state informational ≡ true) same calm),
              ),
            ),
          ),
        ),
      )

  calm_items :
      (probe : Dimension → Option (Option Evidence)) (xs : List (Dimension × Item))
      → All (λ x. Backed is_zoned x.0 (probe x.0) x.1) xs
      → any (λ x. not (contains x.1.state informational)) xs ≡ false
      → All (λ x. Fine x.0 (probe x.0)) xs
  calm_items probe [] backed calm = tt
  calm_items probe ((d, i) ∷ xs) backed calm = elim (Bool-cases (contains i.state informational)) [
    | inl t ↦ (
      Backed-Fine d (probe d) i backed.0 t,
      calm_items probe xs backed.1 (
          subst (λ b. not b || any (λ x. not (contains x.1.state informational)) xs ≡ false) t
            calm),
    )
    | inr f ↦
        cc (
          subst (λ b. not b || any (λ x. not (contains x.1.state informational)) xs ≡ false) f calm)
  ]

  -- Attention is asked for unless every probe has returned evidence with a state of its dimension
  -- that is informational: an exception, a value of another type and an unknown state all ask for it.
  pub needs_attention-Fine :
      (probe : Dimension → Option (Option Evidence))
      → needs_attention (collect is_zoned probe) ≡ false
      → All (λ d. Fine d (probe d)) dimensions
  unfolding needs_attention collect
  needs_attention-Fine probe calm =
      calm_items probe (collect is_zoned probe)
        (All-map (λ x. Bounded is_zoned x.0 x.1 × Backed is_zoned x.0 (probe x.0) x.1)
          (λ x. Backed is_zoned x.0 (probe x.0) x.1) (collect is_zoned probe) (λ x b. b.1)
          (collect-Bounded is_zoned probe))
        calm
