-- ===== src/Upgrade/PlanTests.antt =====
-- Plans of an upgrade of a chat server over a small catalogue.
use resilient_datacenter.Shared.{
  String, Bool, true, false, str_eq, same_texts, Option, none, some, List, [], ◌∷◌, map, ◌≡◌, refl,
}
use resilient_datacenter.Shared.Optional.{Returns}
use resilient_datacenter.Shared.Texts.{parts}
use resilient_datacenter.Scope.Resources
use resilient_datacenter.Scope.Resources.{
  Owner, Contracts, role_of, package_of, scope, binary_paths,
}
use resilient_datacenter.Upgrade.Catalogue.{
  Pin, Pins, pin_of, same_pins, version_of, earlier, before_at, is_digest_after, appended,
  Catalogue, check_item, check_items, next_item, path, predecessor, for_owner, transition,
}
use resilient_datacenter.Upgrade.Planning.{Proposal, Imaged, validate_plan}
use resilient_datacenter.Upgrade.Reviewed.{Accepted, validate_plan-Accepted}

abbrev pin : String → String → String → String → Pin
pin version image digest platform = record {
  fields = "version" ∷ "image" ∷ "platform" ∷ "config_digest" ∷ [];
  image = image;
  config_digest = digest;
  version = version;
  platform = platform;
}

abbrev old_image : String
old_image = "r/synapse@sha256:0000000000000000000000000000000000000000000000000000000000000000"

abbrev new_image : String
new_image = "r/synapse@sha256:1111111111111111111111111111111111111111111111111111111111111111"

abbrev digest : String
digest = "sha256:2222222222222222222222222222222222222222222222222222222222222222"

abbrev files_image : String
files_image = "r/nextcloud@sha256:3333333333333333333333333333333333333333333333333333333333333333"

abbrev chat_pins : String → String → Pins
chat_pins version image =
    ("synapse", pin version image digest "linux/amd64")
    ∷ ("postgres", pin "17.11" "r/postgres@sha256:4" digest "linux/amd64")
    ∷ []

abbrev files_pins : String → Pins
files_pins version = ("nextcloud", pin version files_image digest "linux/amd64") ∷ []

-- The chat server's path leads from 1.160.0 to a version.
abbrev catalogue : String → Catalogue
catalogue version = record {
  read_paths = some (
      record {
        fields = "package" ∷ "source" ∷ "target" ∷ [];
        package_name = "matrix";
        source = chat_pins "1.160.0" old_image;
        target = chat_pins version new_image;
      }
      ∷ record {
        fields = "package" ∷ "source" ∷ "target" ∷ [];
        package_name = "nextcloud";
        source = files_pins "31.0.9";
        target = files_pins "31.0.10";
      }
      ∷ []);
  matrix_pins = chat_pins version new_image;
  nextcloud_pins = files_pins "31.0.10";
}

-- An application is its packages and its images.
abbrev Application : Type 0
Application = List String × List (String × String)

abbrev images_text : List (String × String) → List String
images_text xs = map (λ x. x.1) xs

abbrev contracts : Contracts String Application
contracts = record {
  role = λ n. n;
  tls_mode = λ n. none;
  packages = λ a. a.0;
  validate_portable_owner = λ n. some tt;
  include = λ n a. some (record { network = n; application = some a });
  same_owner = λ x y. same_application x.application y.application;
  same_network = str_eq;
  same_application = λ a b. same_texts (images_text a.1) (images_text b.1);
}
  where
    same_application : Option Application → Option Application → Bool
    same_application none none = true
    same_application (some a) (some b) = same_texts (images_text a.1) (images_text b.1)
    same_application _ _ = false

abbrev imaged : Imaged Application
imaged = record { images = λ a. a.1; with_images = λ a xs. (a.0, xs) }

abbrev owner : String → Owner String Application
owner image = record {
  network = "portable";
  application = some ("matrix" ∷ [], ("synapse", image) ∷ ("postgres", "r/postgres@sha256:4") ∷ []);
}

abbrev hash : String
hash = "5555555555555555555555555555555555555555555555555555555555555555"

abbrev plan : Proposal String Application
plan = record {
  source_owner = owner old_image;
  target_owner = owner new_image;
  source_hashes =
      ("usr/local/lib/rdc-services/service_runtime.py", hash)
      ∷ ("usr/local/lib/rdc-services/service_images.json", hash)
      ∷ ("usr/local/lib/rdc-services/service_regional.py", hash)
      ∷ ("usr/local/lib/rdc-services/application_access.py", hash)
      ∷ [];
}

plan-accepted : validate_plan (catalogue "1.161.0") contracts imaged plan ≡ some tt
unfolding validate_plan Resources.validate role_of package_of scope binary_paths pin_of same_pins
    version_of earlier before_at is_digest_after appended check_item check_items next_item path
    predecessor for_owner transition parts
plan-accepted = refl

-- No path is taken to a version before the installed one, or of another major.
downgrade-refused : path (catalogue "1.159.9") "matrix" ≡ none
unfolding pin_of same_pins version_of earlier before_at is_digest_after appended check_item
    check_items next_item path parts
downgrade-refused = refl

major-refused : path (catalogue "2.0.0") "matrix" ≡ none
unfolding pin_of same_pins version_of earlier before_at is_digest_after appended check_item
    check_items next_item path parts
major-refused = refl

validate_plan-Accepted_example :
    Returns
      (λ u. Accepted (catalogue "1.161.0") contracts imaged plan)
      (validate_plan (catalogue "1.161.0") contracts imaged plan)
validate_plan-Accepted_example = validate_plan-Accepted (catalogue "1.161.0") contracts imaged plan
