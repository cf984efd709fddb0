-- ===== src/Upgrade/Catalogue.antt =====
-- scripts/application_catalogue.py: the component sets that an upgrade may start from and lead to. The
-- texts of the catalogue are ASCII, so that the digits of a version are 0 to 9.
use Prim.Native.Char.{code}
use resilient_datacenter.Shared.{
  ℕ, ◌+◌, ◌*◌, ◌-◌, String, Bool, true, false, not, ◌&&◌, ◌||◌, ◌==◌, ltb, str_eq, all, any, length,
  same_set, same_texts, Option, none, some, List, [], ◌∷◌, map, if◌then◌else◌,
}
use resilient_datacenter.Shared.Optional.{raise_if, ◌>>=◌, ◌>>◌}
use resilient_datacenter.Shared.Texts.{digit, all_chars, is_hex, parts}
use resilient_datacenter.Status.Host.{Package, matrix, nextcloud, gateway}

-- An image with its identity; `fields` are its keys.
pub record Pin : Type 0 where
  pub fields : List String
  pub image : String
  pub config_digest : String
  pub version : String
  pub platform : String

abbrev pub Pins : Type 0
Pins = List (String × Pin)

-- An upgrade path of upgrade_images.json.
pub record UpgradePath : Type 0 where
  pub fields : List String
  pub package_name : String
  pub source : Pins
  pub target : Pins

-- d.get(name)
unfoldable pub pin_of : String → Pins → Option Pin
pin_of n [] = none
pin_of n ((m, p) ∷ rest) = let found = pin_of n rest in if str_eq m n then some p else found

abbrev pub names : {A : Type 0} → List (String × A) → List String
names xs = map (λ x. x.0) xs

abbrev pub same_pin : Pin → Pin → Bool
same_pin p q =
    same_set p.fields q.fields
    && str_eq p.image q.image
    && str_eq p.config_digest q.config_digest
    && str_eq p.version q.version
    && str_eq p.platform q.platform

abbrev pub is_pin : Option Pin → Pin → Bool
is_pin none q = false
is_pin (some p) q = same_pin p q

-- The equality of two dictionaries of pins.
unfoldable pub same_pins : Pins → Pins → Bool
same_pins xs ys = same_set (names xs) (names ys) && all (λ x. is_pin (pin_of x.0 ys) x.1) xs

-- int(s), of digits
abbrev pub decimal : ℕ → String → ℕ
decimal n String.[] = n
decimal n (String.◌∷◌ c s) = decimal (n * 10 + (code c - 48)) s

abbrev pub number : String → Option ℕ
number String.[] = none
number (String.◌∷◌ c s) =
    if all_chars digit (String.◌∷◌ c s) then some (decimal 0 (String.◌∷◌ c s)) else none

abbrev pub numbers : List String → Option (List ℕ)
numbers [] = some []
numbers (s ∷ ss) = let rest = numbers ss in number s >>= λ n. rest >>= λ ns. some (n ∷ ns)

-- tuple(map(int, version.split('.')))
unfoldable pub version_of : String → Option (List ℕ)
version_of s = numbers (parts s)

-- The order of tuples.
unfoldable pub earlier : List ℕ → List ℕ → Bool
earlier [] [] = false
earlier [] (n ∷ ns) = true
earlier (m ∷ ms) [] = false
earlier (m ∷ ms) (n ∷ ns) = let rest = earlier ms ns in ltb m n || ((m == n) && rest)

abbrev pub same_major : List ℕ → List ℕ → Bool
same_major (m ∷ ms) (n ∷ ns) = m == n
same_major _ _ = false

-- s.split('@')[0]
unfoldable pub before_at : String → String
before_at String.[] = ""
before_at (String.◌∷◌ c s) =
    let rest = before_at s in if code c == 64 then "" else String.◌∷◌ c rest

-- re.fullmatch(re.escape(p) + '[a-f0-9]{64}', s)
unfoldable pub is_digest_after : String → String → Bool
is_digest_after String.[] s = is_hex 64 s
is_digest_after (String.◌∷◌ c p) String.[] = false
is_digest_after (String.◌∷◌ c p) (String.◌∷◌ d s) =
    let rest = is_digest_after p s in if code c == code d then rest else false

-- p + s
unfoldable pub appended : String → String → String
appended String.[] s = s
appended (String.◌∷◌ c p) s = String.◌∷◌ c (appended p s)

abbrev pub is_release : Option (List ℕ) → Bool
is_release (some (a ∷ b ∷ c ∷ [])) = true
is_release _ = false

abbrev pub component_of : String → String
component_of p = if str_eq p "matrix" then "synapse" else "nextcloud"

abbrev pub is_fixed : Pin → Pin → Bool
is_fixed pin target =
    same_set pin.fields target.fields
    && str_eq pin.platform "linux/amd64"
    && is_digest_after (appended (before_at target.image) "@sha256:") pin.image
    && is_digest_after "sha256:" pin.config_digest
    && is_release (version_of pin.version)

-- One entry of the source, against the target's of the same name.
abbrev pub is_reviewed : String → String → Pin → Option Pin → Bool
is_reviewed component n pin none = false
is_reviewed component n pin (some target) =
    if not (str_eq n component) then same_pin pin target else is_fixed pin target

-- Between two versions that are known.
abbrev pub upgrades : Option (List ℕ) → Option (List ℕ) → Bool
upgrades (some old) (some new) = earlier old new && same_major old new
upgrades _ _ = false

abbrev pub version_at : String → Pins → Option (List ℕ)
version_at n pins = pin_of n pins >>= λ p. version_of p.version

-- What the catalogue file has, and image_pins of the contracts of each package.
pub record Catalogue : Type 0 where
  pub read_paths : Option (List UpgradePath)
  pub matrix_pins : Pins
  pub nextcloud_pins : Pins

abbrev pub package_named : Package → String
package_named matrix = "matrix"
package_named nextcloud = "nextcloud"
package_named gateway = "gateway"

module _ (c : Catalogue) where
  abbrev pub current : String → Option Pins
  current p =
      if str_eq p "matrix"
      then some c.matrix_pins
      else if str_eq p "nextcloud"
      then some c.nextcloud_pins
      else none

  -- The body of the loop of path.
  unfoldable pub check_item : UpgradePath → Option (Unit {0})
  check_item item = do
    raise_if (not (same_set item.fields ("package" ∷ "source" ∷ "target" ∷ [])))
    target ← current item.package_name
    raise_if
        (not (same_pins item.target target) || not (same_set (names item.source) (names target)))
    raise_if (
        not (
          all (λ x. is_reviewed (component_of item.package_name) x.0 x.1 (pin_of x.0 target))
            item.source))
    raise_if (
        not (
          upgrades (version_at (component_of item.package_name) item.source)
            (version_at (component_of item.package_name) target)))

  unfoldable pub check_items : List UpgradePath → Option (Unit {0})
  check_items [] = some tt
  check_items (i ∷ is) = let rest = check_items is in check_item i >> rest

  unfoldable pub next_item : String → List UpgradePath → Option UpgradePath
  next_item p [] = none
  next_item p (i ∷ is) =
      let rest = next_item p is in if str_eq i.package_name p then some i else rest

  unfoldable pub path : String → Option UpgradePath
  path p = do
    items ← c.read_paths
    raise_if (not (length items == 2))
    raise_if (not (same_texts (map (λ i. i.package_name) items) ("matrix" ∷ "nextcloud" ∷ [])))
    check_items items
    next_item p items

  unfoldable pub predecessor : String → Option Pins
  predecessor p = do item ← path p; some item.source

  abbrev pub images_of : Pins → List (String × String)
  images_of pins = map (λ x. (x.0, x.1.image)) pins

  abbrev pub has_image : String × String → List (String × String) → Bool
  has_image x ys = any (λ y. str_eq y.0 x.0 && str_eq y.1 x.1) ys

  -- The equality of two dictionaries of images.
  abbrev pub same_images : List (String × String) → List (String × String) → Bool
  same_images xs ys = same_set (names xs) (names ys) && all (λ x. has_image x ys) xs

  -- The package and the images of the application's ownership.
  unfoldable pub for_owner : Option Package → List (String × String) → Option Pins
  for_owner none images = none
  for_owner (some gateway) images = none
  for_owner (some p) images = do
    now ← current (package_named p)
    before ← predecessor (package_named p)
    if same_images images (images_of now)
        then some now
        else if same_images images (images_of before)
        then some before
        else none

  -- The inner `none`: the components are the reviewed target already.
  unfoldable pub transition : String → Pins → Option (Option UpgradePath)
  transition p installed = do
    reviewed ← path p
    if same_pins installed reviewed.target
        then some none
        else if not (same_pins installed reviewed.source)
        then none
        else some (some reviewed)
