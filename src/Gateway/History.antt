-- ===== src/Gateway/History.antt =====
-- What the operations on a gateway's store leave of the policy's history: revocations stay, and the
-- generation does not go back.
use mathlib.Core.Path.{ap₂}
use resilient_datacenter.Shared.{
  ◌≤◌, ◌≡◌, refl, subst, Bool, true, false, not, ◌&&◌, ◌||◌, Option, none, some, List, [], ◌∷◌,
  arith, Bool-cases, not-false, inl, inr, String, contains, same_texts, str_eq, eq_iff,
}
use resilient_datacenter.Shared.Effects.{refuse_if, failure}
use resilient_datacenter.Shared.Hoare.{
  Hoare, Pred, Post, bind_rule, seq_rule, weaken_rule, refuse_rule, raise_rule, write_rule,
  return_rule, reading_rule,
}
use resilient_datacenter.Shared.Stored.{Stored, absent, unsafe, holds}
use resilient_datacenter.Gateway.State.{Policy, Disk, World, Env}
use resilient_datacenter.Shared.Sorted.{subset}
use resilient_datacenter.Gateway.Store.{
  same_policy, validated, state, follows, read_pending, pending, write_state, is_policy, commit,
}

and-both : (a b : Bool) → (a && b) ≡ true → (a ≡ true) × (b ≡ true)
and-both true b h = (refl, h)
and-both false b h = cc

or-second : (a b : Bool) → (a || b) ≡ true → a ≡ false → b ≡ true
or-second true b h e = cc
or-second false b h e = h

contains-subset :
    (x : String) (xs ys : List String)
    → subset xs ys ≡ true
    → contains x xs ≡ true
    → contains x ys ≡ true
contains-subset x [] ys h c = cc
contains-subset x (y ∷ xs) ys h c =
    let both = and-both (contains y ys) (subset xs ys) h in
    elim (Bool-cases (str_eq y x)) [
      | inl e ↦ subst (λ z. contains z ys ≡ true) ((eq_iff y x).0 e) both.0
      | inr e ↦ contains-subset x xs ys both.1 (or-second (str_eq y x) (contains x xs) c e)
    ]

same_texts-eq : (xs ys : List String) → same_texts xs ys ≡ true → xs ≡ ys
same_texts-eq [] [] h = refl
same_texts-eq [] (y ∷ ys) h = cc
same_texts-eq (x ∷ xs) [] h = cc
same_texts-eq (x ∷ xs) (y ∷ ys) h =
    let both = and-both (str_eq x y) (same_texts xs ys) h in
    ap₂ (λ z zs. z ∷ zs) ((eq_iff x y).0 both.0) (same_texts-eq xs ys both.1)

-- What was revoked stays revoked, and the generation does not go back.
abbrev pub Grown : {A : Type 0} → Policy A → Policy A → Type 0
Grown p q =
    (p.generation ≤ q.generation)
    × ((x : String) → contains x p.revoked_ids ≡ true → contains x q.revoked_ids ≡ true)

pub Grown-trans : {A : Type 0} (p q r : Policy A) → Grown p q → Grown q r → Grown p r
Grown-trans p q r g h = (omega (arith, g.0, h.0), λ x c. h.1 x (g.1 x c))

module _ {A H : Type 0} (env : Env A H) where
  pub kept : {P : Pred (Disk A) Unit} (b : Bool) → Hoare {H = H} P (refuse_if b) (λ _. P) (λ _. P)
  kept b = weaken_rule (refuse_rule b) (λ d j h. h) (λ a d j h. h.0) (λ e d j h. h)

  same_policy-eq :
      (p q : Policy A)
      → same_policy env p q ≡ true
      → (p.generation ≡ q.generation) × (p.revoked_ids ≡ q.revoked_ids)
  unfolding same_policy
  same_policy-eq p q h =
      (ground (arith, h), same_texts-eq p.revoked_ids q.revoked_ids (ground (arith, h)))

  follows-Grown : (p q : Policy A) → follows env p q ≡ true → Grown p q
  unfolding follows
  follows-Grown p q h = (
    ground (arith, h),
    λ x c. contains-subset x p.revoked_ids q.revoked_ids (ground (arith, h)) c,
  )

module _ {A H : Type 0} (env : Env A H) (R : Disk A → Type 0)
    (stays : (d : Disk A) (p : Policy A) → R d → R (record d { state = holds p })) where
  -- The policy on the disk has grown from `s`, and `R` holds.
  abbrev pub Kept : Policy A → Pred (Disk A) Unit
  Kept s d j = (p : Policy A) × (d.state ≡ holds p) × Grown s p × R d

  Kept-Grown : (s p : Policy A) (d : Disk A) (j : Unit) → Kept s d j → d.state ≡ holds p → Grown s p
  Kept-Grown s p d j h e = let same : h.0 ≡ p = ground (arith, h.1, e) in subst (Grown s) same h.2

  -- A policy that the store returns is the one on the disk.
  abbrev Current : Policy A → Policy A → Pred (Disk A) Unit
  Current s p d j = Kept s d j × (d.state ≡ holds p)

  validated-Post :
      (s : Policy A) (x : Stored (Policy A)) (w : World A H)
      → w.disk.state ≡ x
      → Kept s w.disk w.memory
      → Post (Current s) (λ _. Kept s) (validated env x w)
  unfolding validated
  validated-Post s absent w e h = h
  validated-Post s unsafe w e h = h
  validated-Post s (holds p) w e h =
      (seq_rule
          (weaken_rule (kept env {P = Current s p} _) (λ d j h. h) (λ a d j h. h) (λ e d j h. h.0))
          (return_rule {Q = Current s} p)).at
        w (h, e)

  pub state-Kept : (s : Policy A) → Hoare (Kept s) (state env) (Current s) (λ _. Kept s)
  unfolding state
  state-Kept s = record { at = λ w h. validated-Post s w.disk.state w refl h }

  -- A pending policy that the store returns follows the one on the disk.
  abbrev Following : Policy A → Option (Policy A) → Pred (Disk A) Unit
  Following s none d j = Kept s d j
  Following s (some p) d j = Kept s d j × Grown s p

  read_pending-Following :
      (s : Policy A) (x : Stored (Policy A))
      → Hoare (Kept s) (read_pending env x) (Following s) (λ _. Kept s)
  unfolding read_pending
  read_pending-Following s absent = return_rule {Q = Following s} none
  read_pending-Following s unsafe =
      weaken_rule (raise_rule failure) (λ d j h. h) (λ a d j h. h) (λ e d j h. h)
  read_pending-Following s (holds p) = seq_rule (kept env _) (
      bind_rule (state-Kept s) λ q.
        seq_rule
          (weaken_rule (refuse_rule {P = Current s q} (not (follows env q p))) (λ d j h. h)
            (λ a d j h. (
              h.0.0,
              Grown-trans s q p (Kept-Grown s q d j h.0.0 h.0.1)
                  (follows-Grown env q p (not-false _ h.1)),
            ))
            (λ e d j h. h.0))
          (return_rule {Q = Following s} (some p)))

  pub pending-Following : (s : Policy A) → Hoare (Kept s) (pending env) (Following s) (λ _. Kept s)
  unfolding pending
  pending-Following s = reading_rule _ λ w. read_pending-Following s w.disk.pending

  Following-Kept :
      (s : Policy A) (o : Option (Policy A)) (d : Disk A) (j : Unit)
      → Following s o d j
      → Kept s d j
  Following-Kept s none d j h = h
  Following-Kept s (some p) d j h = h.0

  chosen-Grown :
      (s c : Policy A) (o : Option (Policy A)) (d : Disk A) (j : Unit)
      → Following s o d j
      → is_policy env c o ≡ true
      → Grown s c
  unfolding is_policy
  chosen-Grown s c none d j h e = cc
  chosen-Grown s c (some p) d j h e =
      let same = same_policy-eq env p c e in
      (omega (arith, h.1.0, same.0), λ x k. subst (λ l. contains x l ≡ true) same.1 (h.1.1 x k))

  -- The policy is `c`, which has grown from `s`, and `R` holds.
  abbrev pub Committed : Policy A → Policy A → Pred (Disk A) Unit
  Committed s c d j = (d.state ≡ holds c) × Grown s c × R d

  pub Committed-Kept : (s c : Policy A) (d : Disk A) (j : Unit) → Committed s c d j → Kept s d j
  Committed-Kept s c d j h = (c, h.0, h.1, h.2)

  pub commit-Committed :
      (s c : Policy A) → Hoare (Kept s) (commit env c) (λ _. Committed s c) (λ _. Kept s)
  unfolding commit write_state
  commit-Committed s c = bind_rule (pending-Following s) λ o.
      seq_rule {Q = λ d j. Kept s d j × Grown s c}
        (weaken_rule (refuse_rule {P = Following s o} (not (is_policy env c o))) (λ d j h. h)
          (λ a d j h. (Following-Kept s o d j h.0, chosen-Grown s c o d j h.0 (not-false _ h.1)))
          (λ e d j h. Following-Kept s o d j h))
        (write_rule env.disturb (λ j d. record d { state = holds c })
          (λ d j h. (refl, h.1, stays d c h.0.3)) (λ e d j h. h.0)
          (λ e d j h. Committed-Kept s c d j h))
