-- ===== src/Scope/Separation.antt =====
-- The paths of a backup are apart, so that each can be copied and replaced by itself.
use resilient_datacenter.Shared.{
  String, Bool, true, false, not, ◌&&◌, str_eq, all, and-true, Option, none, some, List, ◌≡◌, refl,
}
use resilient_datacenter.Shared.Apart.{All, All-map, Apart, all-All, pairwise, pairwise-Apart}
use resilient_datacenter.Shared.Optional.{Returns, bind_rule}
use resilient_datacenter.Status.Host.{
  Package, matrix, nextcloud, gateway, Role, controller, relay, peer, portable, other_role,
}
use resilient_datacenter.Scope.Resources
use resilient_datacenter.Scope.Resources.{
  Owner, Contracts, within, catalogue, binaries, scope, resources, binary_paths,
}

-- Neither path is the other or lies in it.
abbrev pub separate : String → String → Bool
separate p q = not (within p q) && not (within q p)

abbrev pub differ : String → String → Bool
differ m n = not (str_eq m n)

-- No program lies in what is backed up.
abbrev pub outside : List String → String → Bool
outside paths b = all (λ p. separate p b) paths

abbrev apart : Role → Option Package → Bool → Bool
apart r p m =
    pairwise separate (catalogue r p m).paths
    && (pairwise differ (catalogue r p m).services
        && (pairwise differ (binaries r p) && all (outside (catalogue r p m).paths) (binaries r p)))

catalogue-apart : (r : Role) (p : Option Package) (m : Bool) → apart r p m ≡ true
unfolding within
catalogue-apart controller none true = refl
catalogue-apart controller none false = refl
catalogue-apart controller (some matrix) true = refl
catalogue-apart controller (some matrix) false = refl
catalogue-apart controller (some nextcloud) true = refl
catalogue-apart controller (some nextcloud) false = refl
catalogue-apart controller (some gateway) true = refl
catalogue-apart controller (some gateway) false = refl
catalogue-apart relay none true = refl
catalogue-apart relay none false = refl
catalogue-apart relay (some matrix) true = refl
catalogue-apart relay (some matrix) false = refl
catalogue-apart relay (some nextcloud) true = refl
catalogue-apart relay (some nextcloud) false = refl
catalogue-apart relay (some gateway) true = refl
catalogue-apart relay (some gateway) false = refl
catalogue-apart peer none true = refl
catalogue-apart peer none false = refl
catalogue-apart peer (some matrix) true = refl
catalogue-apart peer (some matrix) false = refl
catalogue-apart peer (some nextcloud) true = refl
catalogue-apart peer (some nextcloud) false = refl
catalogue-apart peer (some gateway) true = refl
catalogue-apart peer (some gateway) false = refl
catalogue-apart portable none true = refl
catalogue-apart portable none false = refl
catalogue-apart portable (some matrix) true = refl
catalogue-apart portable (some matrix) false = refl
catalogue-apart portable (some nextcloud) true = refl
catalogue-apart portable (some nextcloud) false = refl
catalogue-apart portable (some gateway) true = refl
catalogue-apart portable (some gateway) false = refl
catalogue-apart other_role none true = refl
catalogue-apart other_role none false = refl
catalogue-apart other_role (some matrix) true = refl
catalogue-apart other_role (some matrix) false = refl
catalogue-apart other_role (some nextcloud) true = refl
catalogue-apart other_role (some nextcloud) false = refl
catalogue-apart other_role (some gateway) true = refl
catalogue-apart other_role (some gateway) false = refl

abbrev pub Separated : Resources.Resources → List String → Type 0
Separated r bs =
    Apart (λ p q. separate p q ≡ true) r.paths
    × Apart (λ m n. differ m n ≡ true) r.services
    × Apart (λ m n. differ m n ≡ true) bs
    × All (λ b. All (λ p. separate p b ≡ true) r.paths) bs

tested :
    (r : Resources.Resources) (bs : List String)
    → pairwise separate r.paths
        && (pairwise differ r.services && (pairwise differ bs && all (outside r.paths) bs))
      ≡ true
    → Separated r bs
tested r bs h =
    let (paths, rest) = and-true (pairwise separate r.paths) _ h in
    let (services, others) = and-true (pairwise differ r.services) _ rest in
    let (programs, apart_from) = and-true (pairwise differ bs) _ others in
    (
      pairwise-Apart separate r.paths paths,
      pairwise-Apart differ r.services services,
      pairwise-Apart differ bs programs,
      All-map (λ b. outside r.paths b ≡ true) (λ b. All (λ p. separate p b ≡ true) r.paths) bs
          (λ b o. all-All (λ p. separate p b) r.paths o) (all-All (outside r.paths) bs apart_from),
    )

catalogue-Separated :
    (r : Role) (p : Option Package) (m : Bool) → Separated (catalogue r p m) (binaries r p)
catalogue-Separated r p m = tested (catalogue r p m) (binaries r p) (catalogue-apart r p m)

module _ {N A : Type 0} (contracts : Contracts N A) where
  -- For every ownership that is accepted: no path that is backed up is another one or lies in it, the
  -- services have different names, and no installed program whose digest is recorded lies in a path
  -- that is backed up, or contains it.
  pub resources-Separated :
      (owner : Owner N A)
      → Returns
          (λ r. Returns (Separated r) (binary_paths contracts owner))
          (resources contracts owner)
  unfolding resources binary_paths
  resources-Separated owner =
      bind_rule (λ r. Returns (Separated r) (binary_paths contracts owner)) (scope contracts owner)
        _ (λ s e. rw e (catalogue-Separated s.0 s.1.0 s.1.1))
