-- ===== src/Rotation/Cleaning.antt =====
-- How activate of scripts/certificate_lifecycle.py removes the generations that nothing points to.
use resilient_datacenter.Shared.{
  String, Bool, true, false, ◌||◌, str_eq, some, ◌≡◌, refl, sym, subst, if◌then◌else◌,
}
use resilient_datacenter.Shared.Effects.{pure}
use resilient_datacenter.Shared.Hoare.{
  seq_rule, bind_rule, weaken_rule, pure_rule, if_rule, write_rule, for_all_rule, reading_rule,
  return_rule,
}
use resilient_datacenter.Shared.Maintenance.{for_all}
use resilient_datacenter.Shared.Stored.{holds}
use resilient_datacenter.Rotation.State.{
  Info, Generations, Disk, Env, previous_name, lookup, written, removed, names,
}
use resilient_datacenter.Rotation.Activation.{
  active, is_no_directory, remove_generation, clean_generation, complete, point_previous,
}
use resilient_datacenter.Rotation.Soundness.{
  Good, Other, Names-Other, lookup-written_other, lookup-removed_other,
}
use resilient_datacenter.Rotation.Steps
use resilient_datacenter.Rotation.Steps.{Ensures}
use resilient_datacenter.Rotation.Switching.{Switched, Answer}

neither : (a b c : Bool) → a || b || c ≡ false → (a ≡ false) × (b ≡ false)
neither true b c e = cc
neither false true c e = cc
neither false false c e = (refl, refl)

module _ {H : Type 0} (env : Env H) (target previous : String) (info old : Info) where
  abbrev Kept : Disk → Type 0
  Kept d =
      Good env.digest d
      × ((d.active ≡ holds target)
          × ((d.previous ≡ holds previous) × (d.verified ≡ some info.fingerprint)))

  cleaned-Kept :
      (n : String) (d : Disk) (gs : Generations)
      → str_eq n target ≡ false
      → str_eq n previous ≡ false
      → ((k : String) → str_eq n k ≡ false → lookup k gs ≡ lookup k d.generations)
      → Kept d
      → Kept (record d { generations = gs })
  cleaned-Kept n d gs no_target no_previous unchanged p = (
    (
      Names-Other env.digest n d.generations gs d.active unchanged
          (subst (Other env.digest n) (sym p.1.0) no_target) p.0.0,
      Names-Other env.digest n d.generations gs d.previous unchanged
          (subst (Other env.digest n) (sym p.1.1.0) no_previous) p.0.1,
    ),
    p.1,
  )

  remove_rule :
      (n : String)
      → str_eq n target ≡ false
      → str_eq n previous ≡ false
      → Ensures env Kept (remove_generation env n) (λ _ d. Kept d)
  unfolding remove_generation
  remove_rule n no_target no_previous =
      bind_rule (Steps.demand_disk_rule env (λ d. lookup n d.generations) (λ d p. p.0)) (λ g.
        seq_rule {Q = λ d j. Kept d}
          (weaken_rule
            (Steps.write_generation_rule env {P = Kept} {Q = Kept} n (env.remains g) (λ d p. p.0)
              (λ d p.
                cleaned-Kept n d (written n (env.remains g) d.generations) no_target no_previous
                  (λ k e. lookup-written_other n k (env.remains g) d.generations e) p)
              (λ d p. p.0))
            (λ d j p. p.0) (λ a d j p. p) (λ s d j p. p))
          (write_rule env.disturb (λ j d. record d { generations = removed n d.generations })
            (λ d j p.
              cleaned-Kept n d (removed n d.generations) no_target no_previous
                (λ k e. lookup-removed_other n k d.generations e) p)
            (λ s d j p. p.0) (λ s d j p. p.0)))

  clean_rule :
      (n : String)
      → Ensures env Kept (clean_generation env target (some previous) n) (λ _ d. Kept d)
  unfolding clean_generation
  clean_rule n =
      reading_rule
        (λ w.
          if str_eq n target || str_eq n previous || is_no_directory (lookup n w.disk.generations)
          then pure tt
          else remove_generation env n)
        (λ w.
          if_rule
            (str_eq n target || str_eq n previous || is_no_directory (lookup n w.disk.generations))
            (λ t. pure_rule tt)
            (λ f.
              let (a, b) = neither (str_eq n target) (str_eq n previous) _ f in remove_rule n a b))

  pub complete_rule :
      Ensures env
        (λ d. Switched env target previous old d × (d.verified ≡ some info.fingerprint))
        (complete env target (some previous) info)
        (Answer env target previous old)
  unfolding complete point_previous
  complete_rule =
      seq_rule
        (Steps.point_rule env {Q = Kept} previous_name previous (λ d p. p.0.0) (λ d p. p)
          (λ d p. ((p.0.0.0, p.0.1.1.1.0), (p.0.1.0, (refl, p.1)))) (λ d p. p.0))
        (seq_rule {Q = λ d j. Kept d}
          (reading_rule
            (λ w. for_all (names w.disk.generations) (clean_generation env target (some previous)))
            (λ w. for_all_rule (names w.disk.generations) clean_rule))
          (weaken_rule (return_rule {Q = λ o d j. Answer env target previous old o d} (active info))
            (λ d j p. (p.0, (p.1.0, p.1.1.1))) (λ o d j p. p) (λ s d j p. p)))
