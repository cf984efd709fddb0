-- ===== src/Upgrade/Planning.antt =====
-- validate_plan of scripts/upgrade_transaction.py, over the catalogue and the scope of a backup.
use resilient_datacenter.Shared.{String, Bool, not, ◌&&◌, all, same_set, Option, some, List}
use resilient_datacenter.Shared.Optional.{raise_if, ◌>>=◌, ◌>>◌}
use resilient_datacenter.Shared.Texts.{is_hex}
use resilient_datacenter.Scope.Resources
use resilient_datacenter.Scope.Resources.{Owner, Contracts, package_of, binary_paths}
use resilient_datacenter.Upgrade.Catalogue.{
  Pins, names, Catalogue, package_named, images_of, for_owner, transition,
}

-- A plan with the fields PLAN_FIELDS; the digests are those of the installed programs.
pub record Proposal (N A : Type 0) : Type 0 where
  pub source_owner : Owner N A
  pub target_owner : Owner N A
  pub source_hashes : List (String × String)

-- The images of an application's ownership, and the ownership with others.
pub record Imaged (A : Type 0) : Type 0 where
  pub images : A → List (String × String)
  pub with_images : A → List (String × String) → A

module _ {N A : Type 0} (catalogue : Catalogue) (contracts : Contracts N A)
    (imaged : Imaged A) where
  -- dict(source, applications=dict(source['applications'], images={…}))
  abbrev pub expected : Owner N A → A → Pins → Owner N A
  expected source a target = record source {
    application = some (imaged.with_images a (images_of catalogue target));
  }

  abbrev pub is_complete : List (String × String) → List String → Bool
  is_complete hashes programs = same_set (names hashes) programs && all (λ x. is_hex 64 x.1) hashes

  unfoldable pub validate_plan : Proposal N A → Option (Unit {0})
  validate_plan plan = do
    a ← plan.source_owner.application
    b ← plan.target_owner.application
    Resources.validate contracts plan.source_owner
    Resources.validate contracts plan.target_owner
    p ← package_of (contracts.packages a)
    pins ← for_owner catalogue (some p) (imaged.images a)
    step ← transition catalogue (package_named p) pins
    reviewed ← step
    raise_if (
        not (contracts.same_owner plan.target_owner (expected plan.source_owner a reviewed.target)))
    programs ← binary_paths contracts plan.source_owner
    raise_if (not (is_complete plan.source_hashes programs))
