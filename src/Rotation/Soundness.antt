-- ===== src/Rotation/Soundness.antt =====
-- What the pointers of scripts/certificate_lifecycle.py name.
use resilient_datacenter.Shared.{
  String, false, str_eq, eq_iff, none, some, ◌∷◌, [], ◌≡◌, refl, sym, subst, ap, ◌∙◌, Bool-cases,
  inl, inr, if◌then◌else◌,
}
use resilient_datacenter.Shared.Stored.{Stored, absent, unsafe, holds}
use resilient_datacenter.Rotation.State.{Generation, Generations, Disk, lookup, written, removed}

pub lookup-written :
    (n : String) (g : Generation) (gs : Generations) → lookup n (written n g gs) ≡ some g
unfolding lookup written
lookup-written n g [] = rw ((eq_iff n n).1 refl) refl
lookup-written n g ((m, h) ∷ gs) = elim (Bool-cases (str_eq m n)) [
  | inl t ↦ rw t (rw ((eq_iff n n).1 refl) refl)
  | inr f ↦ rw f (rw f (lookup-written n g gs))
]

pub lookup-written_other :
    (n k : String) (g : Generation) (gs : Generations)
    → str_eq n k ≡ false
    → lookup k (written n g gs) ≡ lookup k gs
unfolding lookup written
lookup-written_other n k g [] differ = rw differ refl
lookup-written_other n k g ((m, h) ∷ gs) differ = elim (Bool-cases (str_eq m n)) [
  | inl t ↦
      let other : str_eq m k ≡ false =
        subst (λ x. str_eq x k ≡ false) (sym ((eq_iff m n).0 t)) differ in
      rw t (rw (differ, other) refl)
  | inr f ↦ rw f (ap (λ x. if str_eq m k then some h else x) (lookup-written_other n k g gs differ))
]

pub lookup-removed_other :
    (n k : String) (gs : Generations) → str_eq n k ≡ false → lookup k (removed n gs) ≡ lookup k gs
unfolding lookup removed
lookup-removed_other n k [] differ = refl
lookup-removed_other n k ((m, h) ∷ gs) differ = elim (Bool-cases (str_eq m n)) [
  | inl t ↦
      let other : str_eq m k ≡ false =
        subst (λ x. str_eq x k ≡ false) (sym ((eq_iff m n).0 t)) differ in
      rw (t, other) (lookup-removed_other n k gs differ)
  | inr f ↦ rw f (ap (λ x. if str_eq m k then some h else x) (lookup-removed_other n k gs differ))
]

module _ (digest : String → String → String) where
  -- The generation is there with a certificate and a key, of which its name is the digest.
  pub record Sound (gs : Generations) (n : String) : Type 0 where
    pub generation : Generation
    pub certificate : String
    pub key : String
    pub found : lookup n gs ≡ some generation
    pub has_certificate : generation.certificate ≡ some certificate
    pub has_key : generation.private_key ≡ some key
    pub named : digest certificate key ≡ n

  pub Sound-lookup :
      (gs gs' : Generations) (n : String) → lookup n gs' ≡ lookup n gs → Sound gs n → Sound gs' n
  Sound-lookup gs gs' n e s = record {
    generation = s.generation;
    certificate = s.certificate;
    key = s.key;
    found = e ∙ s.found;
    has_certificate = s.has_certificate;
    has_key = s.has_key;
    named = s.named;
  }

  abbrev pub Names : Generations → Stored String → Type 0
  Names gs absent = Unit {0}
  Names gs unsafe = Unit {0}
  Names gs (holds n) = Sound gs n

  -- Both pointers name sound generations, where they name one.
  abbrev pub Good : Disk → Type 0
  Good d = Names d.generations d.active × Names d.generations d.previous

  abbrev pub Other : String → Stored String → Type 0
  Other n absent = Unit {0}
  Other n unsafe = Unit {0}
  Other n (holds m) = str_eq n m ≡ false

  pub missing-Other :
      (gs : Generations) (n : String) (x : Stored String)
      → lookup n gs ≡ none
      → Names gs x
      → Other n x
  missing-Other gs n absent e s = tt
  missing-Other gs n unsafe e s = tt
  missing-Other gs n (holds m) e s = elim (Bool-cases (str_eq n m)) [
    | inl t ↦ cc (s.found, ap (λ k. lookup k gs) ((eq_iff n m).0 t))
    | inr f ↦ f
  ]

  pub Names-Other :
      (n : String) (gs gs' : Generations) (x : Stored String)
      → ((k : String) → str_eq n k ≡ false → lookup k gs' ≡ lookup k gs)
      → Other n x
      → Names gs x
      → Names gs' x
  Names-Other n gs gs' absent h o s = tt
  Names-Other n gs gs' unsafe h o s = tt
  Names-Other n gs gs' (holds m) h o s = Sound-lookup gs gs' m (h m o) s

  pub Names-holds :
      (gs : Generations) (x : Stored String) (n : String) → x ≡ holds n → Names gs x → Sound gs n
  Names-holds gs x n e s = subst (Names gs) e s

  pub Sound-holds :
      (gs : Generations) (x : Stored String) (n : String) → x ≡ holds n → Sound gs n → Names gs x
  Sound-holds gs x n e s = subst (Names gs) (sym e) s
