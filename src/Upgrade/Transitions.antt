-- ===== src/Upgrade/Transitions.antt =====
-- What path, transition and for_owner of scripts/application_catalogue.py return.
use resilient_datacenter.Shared.{
  ℕ, String, Bool, true, false, not, ◌||◌, and-true, not-false, length, ◌==◌, str_eq, same_set,
  same_texts, Option, none, some, List, [], ◌∷◌, map, ◌≡◌, refl, subst, arith, if◌then◌else◌,
}
use resilient_datacenter.Shared.Apart.{All, All-map, all-All}
use resilient_datacenter.Shared.Hoare.{some-eq}
use resilient_datacenter.Shared.Optional.{
  raise_if, ◌>>=◌, Returns, bind_rule, raise_rule, if_rule, returned, weaken_rule,
}
use resilient_datacenter.Status.Host.{Package, matrix, nextcloud, gateway}
use resilient_datacenter.Upgrade.Catalogue
use resilient_datacenter.Upgrade.Catalogue.{
  Pin, Pins, UpgradePath, pin_of, names, same_pin, same_pins, earlier, same_major, component_of,
  is_reviewed, upgrades, version_at, Catalogue, package_named, current, check_item, check_items,
  next_item, path, predecessor, images_of, same_images, for_owner, transition,
}

module _ (c : Catalogue) where
  -- A component other than the package's own has the pin of the target.
  abbrev pub Companion : String → Pins → String × Pin → Type 0
  Companion component target x =
      str_eq x.0 component ≡ false
      → (q : Pin) × ((pin_of x.0 target ≡ some q) × (same_pin x.1 q ≡ true))

  -- The path leads to the current pins, with a later version of the same major of one component.
  pub record Reviewed (item : UpgradePath) : Type 0 where
    pub target : Pins
    pub old_version : List ℕ
    pub new_version : List ℕ
    pub is_current : current c item.package_name ≡ some target
    pub targets : same_pins item.target target ≡ true
    pub companions : All (Companion (component_of item.package_name) target) item.source
    pub from_version : version_at (component_of item.package_name) item.source ≡ some old_version
    pub to_version : version_at (component_of item.package_name) target ≡ some new_version
    pub later : earlier old_version new_version ≡ true
    pub is_same_major : same_major old_version new_version ≡ true

  reviewed-Companion :
      (component : String) (target : Pins) (x : String × Pin)
      → is_reviewed component x.0 x.1 (pin_of x.0 target) ≡ true
      → Companion component target x
  reviewed-Companion component target x h other = go (pin_of x.0 target) refl h
    where
      go :
          (o : Option Pin)
          → pin_of x.0 target ≡ o
          → is_reviewed component x.0 x.1 o ≡ true
          → (q : Pin) × ((pin_of x.0 target ≡ some q) × (same_pin x.1 q ≡ true))
      go none e r = absurd (cc)
      go (some q) e r = (
        q,
        (
          e,
          subst (λ b. (if not b then same_pin x.1 q else Catalogue.is_fixed x.1 q) ≡ true) other r,
        ),
      )

  upgraded :
      (o n : Option (List ℕ))
      → upgrades o n ≡ true
      → (old : List ℕ) × ((new : List ℕ) × ((o ≡ some old)
            × ((n ≡ some new) × ((earlier old new ≡ true) × (same_major old new ≡ true)))))
  upgraded none n h = absurd (cc)
  upgraded (some old) none h = absurd (cc)
  upgraded (some old) (some new) h =
      let (e, m) = and-true (earlier old new) (same_major old new) h in
      (old, (new, (refl, (refl, (e, m)))))

  pub last_raise : (P : Type 0) (b : Bool) → (b ≡ false → P) → Returns (λ u. P) (raise_if b)
  last_raise P true h = tt
  last_raise P false h = h refl

  check_item-Reviewed : (item : UpgradePath) → Returns (λ u. Reviewed item) (check_item c item)
  unfolding check_item
  check_item-Reviewed item =
      let P : Unit {0} → Type 0 = λ u. Reviewed item in
      raise_rule P _ _ (λ f. bind_rule P (current c item.package_name) _ (λ target cur.
        raise_rule P _ _ (λ same. raise_rule P _ _ (λ all_reviewed.
          last_raise (Reviewed item) _ (λ up.
            let (old, (new, (from, (to, (later, major))))) = upgraded _ _ (not-false _ up) in
            record {
              target = target;
              old_version = old;
              new_version = new;
              is_current = cur;
              targets =
                  first_of (same_pins item.target target)
                    (same_set (names item.source) (names target)) same;
              companions =
                  All-map _ _ item.source
                    (reviewed-Companion (component_of item.package_name) target)
                    (all-All
                      (λ x.
                        is_reviewed (component_of item.package_name) x.0 x.1 (pin_of x.0 target))
                      item.source (not-false _ all_reviewed));
              from_version = from;
              to_version = to;
              later = later;
              is_same_major = major;
            })))))
    where
      first_of : (a b : Bool) → not a || not b ≡ false → a ≡ true
      first_of a b h = ground arith

  -- Each path that the loop has passed is reviewed, so the one that is taken is.
  -- A reviewed path of the package.
  abbrev pub Found : String → UpgradePath → Type 0
  Found p item = Reviewed item × (str_eq item.package_name p ≡ true)

  next_item-Reviewed :
      (p : String) (items : List UpgradePath)
      → Returns (λ u. Returns (Found p) (next_item c p items)) (check_items c items)
  unfolding check_items next_item
  next_item-Reviewed p [] = tt
  next_item-Reviewed p (i ∷ is) = bind_rule _ (check_item c i) _ (λ u e.
      let r = returned (λ v. Reviewed i) (check_item c i) u (check_item-Reviewed i) e in
      weaken_rule (λ v. Returns (Found p) (next_item c p is)) _ (check_items c is)
        (λ v h.
          if_rule (Found p) (str_eq i.package_name p) (some i) (next_item c p is) (λ t. (r, t))
            (λ f. h))
        (next_item-Reviewed p is))

  path-Reviewed : (p : String) → Returns (Found p) (path c p)
  unfolding path
  path-Reviewed p = bind_rule (Found p) c.read_paths _ (λ items e.
      raise_rule (Found p) (not (length items == 2)) _ (λ f.
        raise_rule (Found p)
          (not (same_texts (map (λ i. i.package_name) items) ("matrix" ∷ "nextcloud" ∷ []))) _
          (λ g. bind_rule (Found p) (check_items c items) _ (λ u h.
            returned (λ v. Returns (Found p) (next_item c p items)) (check_items c items) u
              (next_item-Reviewed p items) h))))

  -- Where transition leads on: the installed pins are the source of a reviewed path, not its target.
  abbrev pub Stepped : String → Pins → Option UpgradePath → Type 0
  Stepped p installed step =
      (item : UpgradePath)
      → step ≡ some item
      → Found p item
        × (same_pins installed item.source ≡ true)
        × (same_pins installed item.target ≡ false)

  pub transition-Stepped :
      (p : String) (installed : Pins) → Returns (Stepped p installed) (transition c p installed)
  unfolding transition
  transition-Stepped p installed = bind_rule (Stepped p installed) (path c p) _ (λ item e.
      if_rule (Stepped p installed) (same_pins installed item.target) _ _ (λ t i h. absurd (cc))
        (λ f.
          if_rule (Stepped p installed) (not (same_pins installed item.source)) _ _ (λ t. tt)
            (λ g i h.
              subst
                (λ x.
                  Found p x
                  × (same_pins installed x.source ≡ true)
                  × (same_pins installed x.target ≡ false))
                (some-eq item i h)
                (returned (Found p) (path c p) item (path-Reviewed p) e, not-false _ g, f))))

  chosen :
      (m n : Option Pins) (images : List (String × String))
      → Returns
          (λ pins. same_images c images (images_of c pins) ≡ true)
          (m >>= λ now. n >>= λ before.
            if same_images c images (images_of c now)
            then some now
            else if same_images c images (images_of c before)
            then some before
            else none)
  chosen m n images =
      bind_rule (λ pins. same_images c images (images_of c pins) ≡ true) m _
        (λ now e.
          bind_rule (λ pins. same_images c images (images_of c pins) ≡ true) n _
            (λ before f.
              if_rule (λ pins. same_images c images (images_of c pins) ≡ true)
                (same_images c images (images_of c now)) _ _ (λ t. t)
                (λ g.
                  if_rule (λ pins. same_images c images (images_of c pins) ≡ true)
                    (same_images c images (images_of c before)) _ _ (λ t. t) (λ h. tt))))

  -- The pins of the images that are installed.
  pub for_owner-images :
      (o : Option Package) (images : List (String × String))
      → Returns (λ pins. same_images c images (images_of c pins) ≡ true) (for_owner c o images)
  unfolding for_owner
  for_owner-images none images = tt
  for_owner-images (some gateway) images = tt
  for_owner-images (some matrix) images =
      chosen (current c "matrix") (predecessor c "matrix") images
  for_owner-images (some nextcloud) images =
      chosen (current c "nextcloud") (predecessor c "nextcloud") images
