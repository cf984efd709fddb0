-- ===== src/Status/Bounds.antt =====
-- What an item of scripts/product_status.py may contain.
use resilient_datacenter.Shared.{
  ℕ, String, Bool, true, ltb, contains, Option, none, some, ◌≡◌, refl, sym, subst, ap, ◌⊎◌, inl,
  inr, if◌then◌else◌, Bool-cases, Option-cases, ◌∙◌, List, map, [], ◌∷◌,
}
use resilient_datacenter.Shared.Apart.{All}
use resilient_datacenter.Shared.Hoare.{some-eq}
use resilient_datacenter.Status.States.{
  Dimension, network, applications, certificates, backup, recovery, partners, states, dimensions,
}
use resilient_datacenter.Status.Collecting.{
  StateField, text, other_value, unhashable, Count, Time, Evidence, Item, unknown, is_known,
  filtered, is_attempt, is_time, item_of, sanitize, after_probe, one, collect, text_of,
}

module _ (is_zoned : String → Bool) where
  pub record Bounded (d : Dimension) (item : Item) : Type 0 where
    pub known : contains item.state (states d) ≡ true
    pub small : (c : Count) (n : ℕ) → item.counts c ≡ some n → ltb n 9007199254740992 ≡ true
    pub zoned : (t : Time) (s : String) → item.times t ≡ some s → is_time is_zoned s ≡ true
    pub attempted : (s : String) → item.last_attempt ≡ some s → is_attempt s ≡ true

  -- The item is that of evidence which the probe returned with a known state, or the unknown one.
  abbrev pub Backed : Dimension → Option (Option Evidence) → Item → Type 0
  Backed d v item =
      (item ≡ item_of is_zoned d unknown)
      ⊎ ((e : Evidence) × ((v ≡ some (some e))
            × ((is_known d e.state ≡ some true) × (item ≡ item_of is_zoned d e))))

  pub after_probe-Backed :
      (d : Dimension) (v : Option (Option Evidence)) → Backed d v (after_probe is_zoned d v)
  unfolding after_probe sanitize
  after_probe-Backed d none = inl refl
  after_probe-Backed d (some none) = inl refl
  after_probe-Backed d (some (some e)) = elim (Option-cases (is_known d e.state)) [
    | inl raises ↦ inl (rw raises refl)
    | inr (b, known) ↦ elim (Bool-cases b) [
      | inl t ↦
          let found : is_known d e.state ≡ some true = known ∙ ap some t in
          inr (e, (refl, (found, rw found refl)))
      | inr f ↦ inl (rw (known ∙ ap some f) refl)
    ]
  ]

filtered-holds :
    {A : Type 0} (p : A → Bool) (o : Option A) (a : A) → filtered p o ≡ some a → p a ≡ true
filtered-holds p none a e = cc
filtered-holds p (some b) a e = elim (Bool-cases (p b)) [
  | inl t ↦
      subst (λ x. p x ≡ true) (some-eq b a (subst (λ c. (if c then some b else none) ≡ some a) t e))
        t
  | inr f ↦ cc (subst (λ c. (if c then some b else none) ≡ some a) f e)
]

known_state :
    (d : Dimension) (s : StateField)
    → is_known d s ≡ some true
    → contains (text_of s) (states d) ≡ true
known_state d (text s) e = some-eq (contains s (states d)) true e
known_state d other_value e = cc
known_state d unhashable e = cc

unknown_state : (d : Dimension) → contains "unknown" (states d) ≡ true
unknown_state network = refl
unknown_state applications = refl
unknown_state certificates = refl
unknown_state backup = refl
unknown_state recovery = refl
unknown_state partners = refl

module _ (is_zoned : String → Bool) where
  item_of-Bounded :
      (d : Dimension) (e : Evidence)
      → contains (text_of e.state) (states d) ≡ true
      → Bounded is_zoned d (item_of is_zoned d e)
  unfolding item_of
  item_of-Bounded d e known = record {
    known = known;
    small = λ c n h. filtered-holds (λ k. ltb k 9007199254740992) (e.counts c) n h;
    zoned = λ t s h. filtered-holds (is_time is_zoned) (e.times t) s h;
    attempted = λ s h. filtered-holds is_attempt e.last_attempt s h;
  }

  Backed-Bounded :
      (d : Dimension) (v : Option (Option Evidence)) (item : Item)
      → Backed is_zoned d v item
      → Bounded is_zoned d item
  Backed-Bounded d v item (inl e) =
      subst (Bounded is_zoned d) (sym e) (item_of-Bounded d unknown (unknown_state d))
  Backed-Bounded d v item (inr (e, (given, (known, same)))) =
      subst (Bounded is_zoned d) (sym same) (item_of-Bounded d e (known_state d e.state known))

  each :
      (probe : Dimension → Option (Option Evidence)) (ds : List Dimension)
      → All {A = Dimension × Item}
          (λ x. Bounded is_zoned x.0 x.1 × Backed is_zoned x.0 (probe x.0) x.1)
          (map (λ d. (d, one is_zoned probe d)) ds)
  unfolding one
  each probe [] = tt
  each probe (d ∷ ds) =
      let backed = after_probe-Backed is_zoned d (probe d) in
      (
        (Backed-Bounded d (probe d) (after_probe is_zoned d (probe d)) backed, backed),
        each probe ds,
      )

  -- Whatever the probes return, or raise among the exceptions that collect catches, each item of
  -- collect has a state of its dimension, counts below 2 ^ 53, times with a zone of less than 64
  -- characters, and no last attempt but a failed or a succeeded one. It is the item of evidence that
  -- its probe has returned with a state of the dimension, or the unknown item.
  pub collect-Bounded :
      (probe : Dimension → Option (Option Evidence))
      → All
          (λ x. Bounded is_zoned x.0 x.1 × Backed is_zoned x.0 (probe x.0) x.1)
          (collect is_zoned probe)
  unfolding collect
  collect-Bounded probe = each probe dimensions
