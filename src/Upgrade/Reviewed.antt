-- ===== src/Upgrade/Reviewed.antt =====
-- What a plan of an upgrade that validate_plan accepts leads to.
use resilient_datacenter.Shared.{String, true, false, not-false, str_eq, some, List, ◌≡◌}
use resilient_datacenter.Shared.Optional.{Returns, bind_rule, raise_rule, returned}
use resilient_datacenter.Scope.Resources
use resilient_datacenter.Scope.Resources.{Owner, Contracts, package_of, binary_paths}
use resilient_datacenter.Upgrade.Catalogue.{
  Pins, UpgradePath, same_pins, Catalogue, package_named, images_of, same_images, for_owner,
  transition,
}
use resilient_datacenter.Upgrade.Planning.{Proposal, Imaged, expected, is_complete, validate_plan}
use resilient_datacenter.Upgrade.Transitions.{
  Reviewed, Stepped, last_raise, transition-Stepped, for_owner-images,
}

module _ {N A : Type 0} (c : Catalogue) (contracts : Contracts N A) (imaged : Imaged A) where
  pub record Accepted (plan : Proposal N A) : Type 0 where
    pub application : A
    pub package_name : String
    pub item : UpgradePath
    pub installed : Pins
    pub programs : List String
    pub has_application : plan.source_owner.application ≡ some application
    pub reviewed : Reviewed c item
    pub of_package : str_eq item.package_name package_name ≡ true
    pub images : same_images c (imaged.images application) (images_of c installed) ≡ true
    pub from_source : same_pins installed item.source ≡ true
    pub not_target : same_pins installed item.target ≡ false
    pub only_images :
        contracts.same_owner plan.target_owner
          (expected c contracts imaged plan.source_owner application item.target)
        ≡ true
    pub has_programs : binary_paths contracts plan.source_owner ≡ some programs
    pub complete : is_complete c contracts imaged plan.source_hashes programs ≡ true

  -- A plan that validate_plan accepts leads from the installed images, which are the source of a reviewed
  -- path of the package, to the current ones, and changes nothing else in the ownership; of the
  -- components only the package's own changes, to a later version of the same major; and the plan has a
  -- digest for every installed program.
  pub validate_plan-Accepted :
      (plan : Proposal N A) → Returns (λ u. Accepted plan) (validate_plan c contracts imaged plan)
  unfolding validate_plan
  validate_plan-Accepted plan =
      let P : Unit {0} → Type 0 = λ u. Accepted plan in
      bind_rule P plan.source_owner.application _ (λ a has.
        bind_rule P plan.target_owner.application _ (λ b e.
          bind_rule P (Resources.validate contracts plan.source_owner) _ (λ u f.
            bind_rule P (Resources.validate contracts plan.target_owner) _ (λ v g.
              bind_rule P (package_of (contracts.packages a)) _ (λ p named.
                bind_rule P (for_owner c (some p) (imaged.images a)) _ (λ pins from.
                  bind_rule P (transition c (package_named p) pins) _ (λ step t.
                    bind_rule P step _ (λ item s. raise_rule P _ _ (λ same.
                      bind_rule P (binary_paths contracts plan.source_owner) _ (λ programs q.
                        last_raise c (Accepted plan) _ (λ done.
                          let (found, source, target) =
                            returned (Stepped c (package_named p) pins)
                              (transition c (package_named p) pins) step
                              (transition-Stepped c (package_named p) pins) t item s in
                          record {
                            application = a;
                            package_name = package_named p;
                            item = item;
                            installed = pins;
                            programs = programs;
                            has_application = has;
                            reviewed = found.0;
                            of_package = found.1;
                            images =
                                returned
                                  (λ x. same_images c (imaged.images a) (images_of c x) ≡ true)
                                  (for_owner c (some p) (imaged.images a)) pins
                                  (for_owner-images c (some p) (imaged.images a)) from;
                            from_source = source;
                            not_target = target;
                            only_images = not-false _ same;
                            has_programs = q;
                            complete = not-false _ done;
                          })))))))))))
