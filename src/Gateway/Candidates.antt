-- ===== src/Gateway/Candidates.antt =====
-- What candidate of scripts/gateway_store.py proposes.
use Prim.Native.Nat.{Ordering}
use Prim.Native.String.{compare}
use text.Mathlib.TextEquality.{path_by_compare}
use resilient_datacenter.Shared.{
  ◌∙◌, ◌≡◌, refl, ◌⊎◌, inl, inr, Bool, true, false, ◌||◌, List, [], ◌∷◌, ◌++◌, contains, str_eq,
  eq_iff, String, Bool-cases, subst, sym, ap, suc, ℕ, not, not-false,
}
use resilient_datacenter.Shared.Effects.{refuse_if}
use resilient_datacenter.Shared.Hoare.{
  Hoare, Pred, Post, bind_rule, seq_rule, weaken_rule, raising_rule, refuse_rule, return_rule,
  fact_rule,
}
use resilient_datacenter.Shared.Stored.{Stored, holds}
use resilient_datacenter.Gateway.State.{Policy, Disk, World, Env}
use resilient_datacenter.Shared.Sorted.{insert_sorted, sorted_set}
use resilient_datacenter.Gateway.Store.{
  valid_policy, validated, state, next_policy, peers, candidate,
}
use resilient_datacenter.Gateway.History.{kept}
use resilient_datacenter.Gateway.Reading.{pending_rule, load_recovery_rule}
use resilient_datacenter.Gateway.Applying.{Acceptable, contains-subset_of}

or-left : (a b : Bool) → a ≡ true → (a || b) ≡ true
or-left true b h = refl
or-left false b h = cc

contains-here : (x : String) (xs : List String) → contains x (x ∷ xs) ≡ true
contains-here x xs = or-left (str_eq x x) (contains x xs) ((eq_iff x x).1 refl)

contains-later :
    (x y : String) (xs : List String) → contains x xs ≡ true → contains x (y ∷ xs) ≡ true
contains-later x y xs h = or-right (str_eq y x) h
  where
    or-right : (a : Bool) → contains x xs ≡ true → (a || contains x xs) ≡ true
    or-right true k = refl
    or-right false k = k

or-second : (a b : Bool) → (a || b) ≡ true → a ≡ false → b ≡ true
or-second true b h e = cc
or-second false b h e = h

contains-cases :
    (x y : String) (xs : List String)
    → contains x (y ∷ xs) ≡ true
    → (y ≡ x) ⊎ (contains x xs ≡ true)
contains-cases x y xs h = elim (Bool-cases (str_eq y x)) [
  | inl e ↦ inl ((eq_iff y x).0 e)
  | inr e ↦ inr (or-second (str_eq y x) (contains x xs) h e)
]

-- One step of insert_sorted, where it keeps what the rest of the list is about.
module _ (z x y : String) (ys : List String)
    (rest : (z ≡ x) ⊎ (contains z ys ≡ true) → contains z (insert_sorted x ys) ≡ true) where
  kept_later : (z ≡ x) ⊎ (contains z (y ∷ ys) ≡ true) → contains z (y ∷ insert_sorted x ys) ≡ true
  kept_later (inl e) = contains-later z y (insert_sorted x ys) (rest (inl e))
  kept_later (inr c) = elim (contains-cases z y ys c) [
    | inl e ↦
        subst (λ u. contains z (u ∷ insert_sorted x ys) ≡ true) (sym e)
          (contains-here z (insert_sorted x ys))
    | inr k ↦ contains-later z y (insert_sorted x ys) (rest (inr k))
  ]

  kept_at :
      (o : Ordering)
      → compare x y ≡ o
      → (z ≡ x) ⊎ (contains z (y ∷ ys) ≡ true)
      → contains z (elim o [
        | Ordering.lt ↦ x ∷ y ∷ ys
        | Ordering.eq ↦ y ∷ ys
        | Ordering.gt ↦ y ∷ insert_sorted x ys
      ])
        ≡ true
  kept_at Ordering.lt q (inl e) =
      subst (λ u. contains u (x ∷ y ∷ ys) ≡ true) (sym e) (contains-here x (y ∷ ys))
  kept_at Ordering.lt q (inr c) = contains-later z x (y ∷ ys) c
  kept_at Ordering.eq q (inl e) =
      subst (λ u. contains u (y ∷ ys) ≡ true) (sym (e ∙ path_by_compare x y q)) (contains-here y ys)
  kept_at Ordering.eq q (inr c) = c
  kept_at Ordering.gt q k = kept_later k

-- Putting a text in its place keeps it and all others.
insert_sorted-contains :
    (z x : String) (ys : List String)
    → (z ≡ x) ⊎ (contains z ys ≡ true)
    → contains z (insert_sorted x ys) ≡ true
insert_sorted-contains z x [] (inl e) =
    subst (λ u. contains u (x ∷ []) ≡ true) (sym e) (contains-here x [])
insert_sorted-contains z x [] (inr e) = cc
insert_sorted-contains z x (y ∷ ys) h =
    kept_at z x y ys (insert_sorted-contains z x ys) (compare x y) refl h

sorted_set-contains :
    (z : String) (xs : List String) → contains z xs ≡ true → contains z (sorted_set xs) ≡ true
sorted_set-contains z [] h = cc
sorted_set-contains z (x ∷ xs) h =
    insert_sorted-contains z x (sorted_set xs) (elim (contains-cases z x xs h) [
      | inl e ↦ inl (sym e)
      | inr k ↦ inr (sorted_set-contains z xs k)
    ])

-- A text of either list is in their concatenation.
contains-append :
    (z : String) (xs ys : List String)
    → (contains z xs ≡ true) ⊎ (contains z ys ≡ true)
    → contains z (xs ++ ys) ≡ true
contains-append z [] ys (inl h) = cc
contains-append z [] ys (inr h) = h
contains-append z (x ∷ xs) ys (inl h) = elim (contains-cases z x xs h) [
  | inl e ↦ subst (λ u. contains z (u ∷ (xs ++ ys)) ≡ true) (sym e) (contains-here z (xs ++ ys))
  | inr k ↦ contains-later z x (xs ++ ys) (contains-append z xs ys (inl k))
]
contains-append z (x ∷ xs) ys (inr h) =
    contains-later z x (xs ++ ys) (contains-append z xs ys (inr h))

module _ {A H : Type 0} (env : Env A H) where
  kept_disk :
      {P : Pred (Disk A) Unit} (b : Bool)
      → Hoare {H = H} P (refuse_if (not b)) (λ _ d j. P d j × (b ≡ true)) (λ _. P)
  kept_disk b =
      weaken_rule (refuse_rule (not b)) (λ d j h. h) (λ a d j h. (h.0, not-false b h.1))
        (λ e d j h. h)

  -- The disk is `d`, and its policy is `s`.
  abbrev Same : Disk A → Policy A → Pred (Disk A) Unit
  Same e s d j = (d ≡ e) × (d.state ≡ holds s)

  state-Valid :
      (e : Disk A) (s : Policy A)
      → Hoare
          (Same e s)
          (state env)
          (λ q d j. (q ≡ s) × (valid_policy env s ≡ true) × Same e s d j)
          (λ _. Same e s)
  unfolding state validated
  state-Valid e s = record { at = λ w h. read w w.disk.state h.1 h }
    where
      read :
          (w : World A H) (x : Stored (Policy A))
          → x ≡ holds s
          → Same e s w.disk w.memory
          → Post
              (λ q d j. (q ≡ s) × (valid_policy env s ≡ true) × Same e s d j)
              (λ _. Same e s)
              (validated env x w)
      read w x q h =
          subst
            (λ y.
              Post (λ q d j. (q ≡ s) × (valid_policy env s ≡ true) × Same e s d j) (λ _. Same e s)
                (validated env y w))
            (sym q)
            ((seq_rule (kept_disk {P = Same e s} (valid_policy env s)) (
                weaken_rule
                  (return_rule {Q = λ q d j. (q ≡ s) × (valid_policy env s ≡ true) × Same e s d j}
                    {E = λ _. Same e s} s)
                  (λ d j k. (refl, k.1, k.0)) (λ q d j k. k) (λ x d j k. k))).at
              w h)

  peers_rule :
      {P : Pred (Disk A) Unit} (p : Policy A) (now : ℕ)
      → Hoare P (peers env p now) (λ _. P) (λ _. P)
  unfolding peers
  peers_rule p now = seq_rule (kept env _) (bind_rule (load_recovery_rule env) λ r. kept env _)

  abbrev Proposed : List String → Policy A → Policy A → Type 0
  Proposed revoked s p =
      Acceptable env s p
      × ((x : String) → contains x revoked ≡ true → contains x p.revoked_ids ≡ true)

  -- The proposal is about the policy that was read, which is the one on the disk.
  next_policy-Proposed :
      (documents : List A) (revoked : List String) (s q : Policy A)
      → q ≡ s
      → valid_policy env s ≡ true
      → valid_policy env (next_policy env q documents revoked) ≡ true
      → Proposed revoked s (next_policy env q documents revoked)
  next_policy-Proposed documents revoked s q same v n = (
    record {
      valid_before = v;
      valid_after = n;
      next_generation = ap (λ (x : Policy A). suc x.generation) same;
      revokes = contains-subset_of s.revoked_ids _ (λ x k.
          sorted_set-contains x (q.revoked_ids ++ revoked) (
            contains-append x q.revoked_ids revoked
              (inl (subst (λ (u : Policy A). contains x u.revoked_ids ≡ true) (sym same) k))));
    },
    λ x k.
        sorted_set-contains x (q.revoked_ids ++ revoked)
          (contains-append x q.revoked_ids revoked (inr k)),
  )

  proposing_rule :
      (documents : List A) (revoked : List String) (now : ℕ) (e : Disk A) (s : Policy A)
      → Hoare
          (Same e s)
          (candidate env documents revoked now)
          (λ p d j. Proposed revoked s p × (d ≡ e))
          (λ _. Same e s)
  unfolding candidate
  proposing_rule documents revoked now e s = bind_rule (pending_rule env) λ o.
      seq_rule (kept env _) (
        bind_rule (state-Valid e s) λ q.
          fact_rule ((q ≡ s) × (valid_policy env s ≡ true)) (λ d j h. (h.0, h.1))
            λ f.
              weaken_rule {E = λ _. Same e s}
                (seq_rule (kept env {P = Same e s} _) (
                  seq_rule (kept_disk (valid_policy env (next_policy env q documents revoked))) (
                    bind_rule (raising_rule (load_recovery_rule env) (λ x d j h. h.0)) λ r.
                      seq_rule (raising_rule (kept env _) (λ x d j h. h.0)) (
                        seq_rule (raising_rule (peers_rule _ now) (λ x d j h. h.0)) (
                          weaken_rule {E = λ _. Same e s}
                            (return_rule {Q = λ p d j. Proposed revoked s p × (d ≡ e)}
                              (next_policy env q documents revoked))
                            (λ d j h.
                              (next_policy-Proposed documents revoked s q f.0 f.1 h.1, h.0.0))
                            (λ p d j h. h) (λ x d j h. h))))))
                (λ d j h. h.2) (λ p d j h. h) (λ x d j h. h))

  -- candidate writes nothing. Where it returns, begin accepts what it returns as a change from the
  -- policy on the disk, and every identifier that it was given is revoked by it.
  pub candidate-Acceptable :
      (documents : List A) (revoked : List String) (now : ℕ) (s : Policy A) (w : World A H)
      → w.disk.state ≡ holds s
      → Post
          (λ p d j.
            (Acceptable env s p
              × ((x : String) → contains x revoked ≡ true → contains x p.revoked_ids ≡ true))
            × (d ≡ w.disk))
          (λ e d j. d ≡ w.disk)
          (candidate env documents revoked now w)
  candidate-Acceptable documents revoked now s w h =
      (weaken_rule (proposing_rule documents revoked now w.disk s) (λ d j k. k) (λ p d j k. k)
          (λ e d j k. k.0)).at
        w (refl, h)
