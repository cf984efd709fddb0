-- ===== src/Restore/Swapping.antt =====
-- The second loop of apply: each resource is set aside, and its candidate is put in its place.
use resilient_datacenter.Shared.{
  ℕ, suc, ◌≤◌, ◌<◌, ◌≡◌, refl, inl, inr, Option, some, arith, ◌==◌, ltb, Bool-cases,
}
use resilient_datacenter.Shared.Effects.{Signal}
use resilient_datacenter.Shared.Hoare.{Hoare, Pred, seq_rule}
use resilient_datacenter.Restore.State.{Phase, Journal, Slot, Disk}
use resilient_datacenter.Restore.Files.{Env, set_aside, promoted}
use resilient_datacenter.Restore.Transaction.{swap}
use resilient_datacenter.Restore.Invariant.{old_of, new_of, Kept, Under, under_rule}
use resilient_datacenter.Restore.RollingBack.{InPlace}
use resilient_datacenter.Restore.Preparing.{candidate}

module _ {T : Type 0} where
  set_aside-Kept :
      (o : T) (c : Option T) (s s' : Slot T)
      → InPlace o s
      → new_of s.workspace ≡ c
      → set_aside s ≡ some s'
      → (old_of s'.workspace ≡ some o) × (new_of s'.workspace ≡ c)
  set_aside-Kept o c s s' h n e = ground arith

  promoted-Kept :
      (o : T) (c : Option T) (s s' : Slot T)
      → old_of s.workspace ≡ some o
      → new_of s.workspace ≡ c
      → promoted s ≡ some s'
      → (old_of s'.workspace ≡ some o) × (s'.target ≡ c)
  promoted-Kept o c s s' h n e = ground arith

module _ {T H : Type 0} (env : Env T H) (count : ℕ) (original : ℕ → T) where
  -- From `k` on the candidate env count original is ready; below `k` it is in place and the previous data set aside.
  abbrev Ready : ℕ → Slot T → Type 0
  Ready i s = InPlace (original i) s × (new_of s.workspace ≡ candidate env count original i)

  abbrev pub Swapped : ℕ → Slot T → Type 0
  Swapped i s =
      (old_of s.workspace ≡ some (original i)) × (s.target ≡ candidate env count original i)

  abbrev pub Swapping : ℕ → ℕ → Slot T → Type 0
  Swapping k i s = (k ≤ i → Ready i s) × (i < k → Swapped i s)

  abbrev Aside : ℕ → ℕ → Slot T → Type 0
  Aside k i s =
      (k < i → Ready i s)
      × (i < k → Swapped i s)
      × (i ≡ k
          → (old_of s.workspace ≡ some (original i))
            × (new_of s.workspace ≡ candidate env count original i))

  Swapping-Kept : (k i : ℕ) (s : Slot T) → Swapping k i s → Kept (original i) s
  Swapping-Kept k i s h = elim (Bool-cases (ltb i k)) [
    | inl e ↦ inl (h.1 (ground arith)).0
    | inr e ↦ let r = (h.0 (ground arith)).0 in inr (r.1, r.0)
  ]

  Aside-Kept : (k i : ℕ) (s : Slot T) → Aside k i s → Kept (original i) s
  Aside-Kept k i s h = elim (Bool-cases (i == k)) [
    | inl e ↦ inl (h.2 (ground arith)).0
    | inr e ↦ Swapping-Kept k i s ((λ l. h.0 (ground arith)), h.1)
  ]

  module _ (p : Phase) {E : Signal → Pred (Disk T) Journal}
      (trouble : (e : Signal) (d : Disk T) (j : Journal)
        → Under env count p (λ i. Kept (original i)) d j
        → E e d j) where
    Swapping-trouble :
        (k : ℕ) (e : Signal) (d : Disk T) (j : Journal)
        → Under env count p (Swapping k) d j
        → E e d j
    Swapping-trouble k e d j h =
        trouble e d j (h.0, λ i lt. Swapping-Kept k i (d.slots i) (h.1 i lt))

    Aside-trouble :
        (k : ℕ) (e : Signal) (d : Disk T) (j : Journal) → Under env count p (Aside k) d j → E e d j
    Aside-trouble k e d j h = trouble e d j (h.0, λ i lt. Aside-Kept k i (d.slots i) (h.1 i lt))

    pub swap-Swapping :
        (k : ℕ)
        → Hoare
            (Under env count p (Swapping k))
            (swap env k)
            (λ _. Under env count p (Swapping (suc k)))
            E
    unfolding swap
    swap-Swapping k =
        seq_rule
          (under_rule env {X = Swapping k} {Y = Aside k} k set_aside
            (λ i s x ne. (λ l. x.0 (omega arith), x.1, λ e. absurd (ne e)))
            (λ s s' x c lt.
              let r = x.0 (omega arith) in
              (
                λ l. absurd (omega arith),
                λ l. absurd (omega arith),
                λ e. set_aside-Kept (original k) (candidate env count original k) s s' r.0 r.1 c,
              ))
            (Swapping-trouble k) (Aside-trouble k))
          (under_rule env {X = Aside k} {Y = Swapping (suc k)} k promoted
            (λ i s x ne. (λ l. x.0 (omega arith), λ l. x.1 (omega arith)))
            (λ s s' x c lt.
              let a = x.2 refl in
              (
                λ l. absurd (omega arith),
                λ l. promoted-Kept (original k) (candidate env count original k) s s' a.0 a.1 c,
              ))
            (Aside-trouble k) (Swapping-trouble (suc k)))
