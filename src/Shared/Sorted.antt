-- ===== src/Shared/Sorted.antt =====
-- Sorted lists of texts without repetitions, which stand for Python's sets.
use Prim.Native.Nat.{Ordering}
use Prim.Native.String.{String, compare}
use mathlib.Core.Bool.{Bool, true, false, ◌&&◌}
use mathlib.Core.List.{List, [], ◌∷◌}
use resilient_datacenter.Shared.Lists.{all, contains}

abbrev pub is_less : String → String → Bool
is_less a b = elim (compare a b) [ Ordering.lt ↦ true | _ ↦ false ]

-- values == sorted(set(values))
abbrev pub increasing : List String → Bool
increasing [] = true
increasing (x ∷ xs) = all (is_less x) xs && increasing xs

-- set(xs) <= set(ys)
abbrev pub subset : List String → List String → Bool
subset xs ys = all (λ x. contains x ys) xs

-- A text goes to its place in an increasing list, once.
abbrev pub insert_sorted : String → List String → List String
insert_sorted x [] = x ∷ []
insert_sorted x (y ∷ ys) =
    let rest = insert_sorted x ys in
    elim (compare x y) [ Ordering.lt ↦ x ∷ y ∷ ys | Ordering.eq ↦ y ∷ ys | Ordering.gt ↦ y ∷ rest ]

-- sorted(set(xs))
abbrev pub sorted_set : List String → List String
sorted_set [] = []
sorted_set (x ∷ xs) = insert_sorted x (sorted_set xs)
