-- ===== src/Shared/Apart.antt =====
-- Members of lists, and lists in which any two members are apart.
use mathlib.Core.Path.{◌≡◌, sym, ◌∙◌, subst, ap}
use mathlib.Core.Logic.{◌≢◌, ◌⊎◌, inl, inr}
use mathlib.Core.Bool.{Bool, true, false, ◌&&◌}
use mathlib.Core.List.{List, [], ◌∷◌, ◌++◌, map}
use native.Mathlib.Omega.{arith}
use resilient_datacenter.Shared.Lists.{any, all}

module _ {A : Type 0} where
  abbrev pub Among : A → List A → Type 0
  Among x [] = ⊥
  Among x (y ∷ ys) = (x ≡ y) ⊎ Among x ys

  abbrev pub All : (A → Type 0) → List A → Type 0
  All P [] = Unit {0}
  All P (x ∷ xs) = P x × All P xs

  abbrev pub Apart : (A → A → Type 0) → List A → Type 0
  Apart R [] = Unit {0}
  Apart R (x ∷ xs) = All (R x) xs × Apart R xs

  pub All-Among : (P : A → Type 0) (xs : List A) {x : A} → All P xs → Among x xs → P x
  All-Among P [] h m = absurd m
  All-Among P (y ∷ ys) h (inl e) = subst P (sym e) h.0
  All-Among P (y ∷ ys) h (inr m) = All-Among P ys h.1 m

  pub All-map : (P Q : A → Type 0) (xs : List A) → ((x : A) → P x → Q x) → All P xs → All Q xs
  All-map P Q [] f h = tt
  All-map P Q (x ∷ xs) f h = (f x h.0, All-map P Q xs f h.1)

  pub All-append : (P : A → Type 0) (xs ys : List A) → All P xs → All P ys → All P (xs ++ ys)
  All-append P [] ys h k = k
  All-append P (x ∷ xs) ys h k = (h.0, All-append P xs ys h.1 k)

  pub Apart-Among :
      (R : A → A → Type 0)
      → ((x y : A) → R x y → R y x)
      → (xs : List A) {x y : A} → Apart R xs
      → Among x xs
      → Among y xs
      → x ≢ y
      → R x y
  Apart-Among R flip [] h m n ne = absurd m
  Apart-Among R flip (z ∷ zs) h (inl e) (inl e') ne = absurd (ne (e ∙ sym e'))
  Apart-Among R flip (z ∷ zs) {y} h (inl e) (inr n) ne =
      subst (λ t. R t y) (sym e) (All-Among (R z) zs h.0 n)
  Apart-Among R flip (z ∷ zs) {x} h (inr m) (inl e) ne =
      flip _ _ (subst (λ t. R t x) (sym e) (All-Among (R z) zs h.0 m))
  Apart-Among R flip (z ∷ zs) h (inr m) (inr n) ne = Apart-Among R flip zs h.1 m n ne

  -- A member refutes `any`.
  pub any-Among : (p : A → Bool) (xs : List A) {x : A} → any p xs ≡ false → Among x xs → p x ≡ false
  any-Among p [] h m = absurd m
  any-Among p (y ∷ ys) h (inl e) = subst (λ t. p t ≡ false) (sym e) (ground arith)
  any-Among p (y ∷ ys) h (inr m) = any-Among p ys (ground arith) m

  pub all-All : (p : A → Bool) (xs : List A) → all p xs ≡ true → All (λ x. p x ≡ true) xs
  all-All p [] h = tt
  all-All p (x ∷ xs) h = (ground arith, all-All p xs (ground arith))

pub Among-map :
    {A B : Type 0} (f : A → B) (xs : List A) (x : A) → Among x xs → Among (f x) (map f xs)
Among-map f [] x m = absurd m
Among-map f (y ∷ ys) x (inl e) = inl (ap f e)
Among-map f (y ∷ ys) x (inr m) = inr (Among-map f ys x m)

-- The test of Apart, over the pairs of a list.
abbrev pub pairwise : {A : Type 0} → (A → A → Bool) → List A → Bool
pairwise r [] = true
pairwise r (x ∷ xs) = all (r x) xs && pairwise r xs

pub pairwise-Apart :
    {A : Type 0} (r : A → A → Bool) (xs : List A)
    → pairwise r xs ≡ true
    → Apart (λ x y. r x y ≡ true) xs
pairwise-Apart r [] h = tt
pairwise-Apart r (x ∷ xs) h = (all-All (r x) xs (ground arith), pairwise-Apart r xs (ground arith))
