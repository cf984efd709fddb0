-- ===== src/Allocation/Missing.antt =====
-- Which machines check of scripts/proxmox_provision.py reports as missing.
use resilient_datacenter.Shared.{
  ℕ, Bool, true, false, ◌||◌, ◌==◌, any, List, [], ◌∷◌, ◌≡◌, refl, subst, inl, inr, Bool-cases,
  arith, if◌then◌else◌,
}
use resilient_datacenter.Shared.Apart.{Among}
use resilient_datacenter.Site.Plan.{has_number}
use resilient_datacenter.Allocation.State.{Wanted}
use resilient_datacenter.Allocation.Provisioning.{missing_from, is_missing_id, latest}

number_eq : (a b : ℕ) → a == b ≡ true → a ≡ b
number_eq a b e = ground arith

pub missing-unlisted :
    (listed : List ℕ) (ms : List Wanted) (n : ℕ)
    → is_missing_id n (missing_from listed ms) ≡ true
    → has_number n listed ≡ false
unfolding missing_from
missing-unlisted listed [] n e = cc
missing-unlisted listed (m ∷ ms) n e = elim (Bool-cases (has_number m.vmid listed)) [
  | inl t ↦ missing-unlisted listed ms n (
      subst
        (λ b.
          is_missing_id n (if b then missing_from listed ms else m ∷ missing_from listed ms) ≡ true)
        t e)
  | inr f ↦
      let found : (m.vmid == n) || is_missing_id n (missing_from listed ms) ≡ true =
        subst
          (λ b.
            is_missing_id n (if b then missing_from listed ms else m ∷ missing_from listed ms)
            ≡ true)
          f e in
      elim (Bool-cases (m.vmid == n)) [
        | inl same ↦ subst (λ k. has_number k listed ≡ false) (number_eq m.vmid n same) f
        | inr differ ↦
            missing-unlisted listed ms n
              (subst (λ b. b || is_missing_id n (missing_from listed ms) ≡ true) differ found)
      ]
]

pub number_refl : (n : ℕ) → n == n ≡ true
number_refl n = ground arith

pub or-true : (a b : Bool) → b ≡ true → a || b ≡ true
or-true true b e = refl
or-true false b e = e

pub unlisted-missing :
    (listed : List ℕ) (ms : List Wanted) (m : Wanted)
    → Among m ms
    → has_number m.vmid listed ≡ false
    → is_missing_id m.vmid (missing_from listed ms) ≡ true
unfolding missing_from
unlisted-missing listed [] m among e = absurd among
unlisted-missing listed (k ∷ ks) m (inl same) e =
    subst (λ x. is_missing_id m.vmid (missing_from listed (x ∷ ks)) ≡ true) same
      (rw (e, number_refl m.vmid) refl)
unlisted-missing listed (k ∷ ks) m (inr among) e =
    let rest = unlisted-missing listed ks m among e in
    elim (Bool-cases (has_number k.vmid listed)) [
      | inl t ↦ rw t rest
      | inr f ↦ rw f (or-true (k.vmid == m.vmid) _ rest)
    ]

pub latest-any :
    (n : ℕ) (ls : List (List ℕ)) → has_number n (latest ls) ≡ true → any (has_number n) ls ≡ true
latest-any n [] e = cc
latest-any n (l ∷ ls) e = rw e refl
