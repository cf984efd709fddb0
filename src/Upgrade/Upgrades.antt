-- ===== src/Upgrade/Upgrades.antt =====
-- Any number of attempts to stage and to restore the files of scripts/upgrade_files.py.
use resilient_datacenter.Shared.{
  ℕ, true, Option, none, some, ◌≡◌, refl, sym, subst, ◌∙◌, Bool-cases, inl, inr, arith, length, ltb,
  if◌then◌else◌,
}
use resilient_datacenter.Shared.Effects.{Out, ok, raised, Done}
use resilient_datacenter.Shared.Hoare.{Post}
use resilient_datacenter.Restore.State.{Workspace, missing, linked, folder}
use resilient_datacenter.Restore.Files.{has_old}
use resilient_datacenter.Upgrade.Files.{Tree, World, Env, stage, restore}
use resilient_datacenter.Upgrade.Originals.{original, Same, Replaced}
use resilient_datacenter.Upgrade.Replacing.{Below, Restored, stage_rule, restore_rule}

-- What the candidates' writers have made of the resources.
abbrev pub written_by : {T : Type 0} → ℕ → (ℕ → Option T) → Tree T → Tree T
written_by n c e j = if ltb j n then record (e j) { target = c j } else e j

module _ {T H : Type 0} (env : Env T H) where
  -- From the disk `d`: attempts to stage and to restore, each stopped wherever it was or not, and
  -- writers on the candidates after a stage that has returned.
  pub data Reached (d : Tree T) : World T H → Type 0 where
    untouched : (w : World T H) → w.disk ≡ d → Reached d w
    staged : (w : World T H) (h : H) → Reached d w → Reached d (stage env (record w { host = h })).1
    used :
        (w : World T H) (h : H) (c : ℕ → Option T)
        → Reached d w
        → (stage env w).0 ≡ ok tt
        → Reached d
            (record w { disk = written_by (length env.names) c (stage env w).1.disk; host = h })
    tried :
        (w : World T H) (h : H) → Reached d w → Reached d (restore env (record w { host = h })).1

  ended :
      (d : Tree T) (Q : Tree T → Type 0) (r : Out Done × World T H)
      → Post (λ a e j. Same d e × Q e) (λ s e j. Same d e) r
      → Same d r.1.disk
  ended d Q (ok a, w) h = h.0
  ended d Q (raised s, w) h = h

  returned :
      (d : Tree T) (Q : Tree T → Type 0) (r : Out Done × World T H)
      → Post (λ a e j. Same d e × Q e) (λ s e j. Same d e) r
      → r.0 ≡ ok tt
      → Same d r.1.disk × Q r.1.disk
  returned d Q (ok a, w) h e = h
  returned d Q (raised s, w) h e = absurd (cc)

  Replaced-any :
      (t c : Option T) (w : Workspace T)
      → has_old w ≡ true
      → original (record { target = c; workspace = w })
        ≡ original (record { target = t; workspace = w })
  Replaced-any t c missing h = absurd (cc)
  Replaced-any t c linked h = absurd (cc)
  Replaced-any t c (folder none n) h = absurd (cc)
  Replaced-any t c (folder (some o) n) h = refl

  used-Same :
      (d e : Tree T) (n : ℕ) (c : ℕ → Option T)
      → Same d e
      → Below n Replaced e
      → Same d (written_by n c e)
  used-Same d e n c same replaced j = elim (Bool-cases (ltb j n)) [
    | inl t ↦
        rw t
          (Replaced-any (e j).target (c j) (e j).workspace (replaced j (ground arith)).0 ∙ same j)
    | inr f ↦ rw f (same j)
  ]

  Reached-Same : {d : Tree T} {w : World T H} → Reached d w → Same d w.disk
  Reached-Same {d} (untouched w e) = subst (Same d) (sym e) (λ j. refl)
  Reached-Same {d} (staged w h r) =
      ended d (Below (length env.names) Replaced) (stage env (record w { host = h }))
        ((stage_rule env d).at (record w { host = h }) (Reached-Same r, tt))
  Reached-Same {d} (used w h c r e) =
      let (same, replaced) =
        returned d (Below (length env.names) Replaced) (stage env w)
          ((stage_rule env d).at w (Reached-Same r, tt)) e in
      used-Same d (stage env w).1.disk (length env.names) c same replaced
  Reached-Same {d} (tried w h r) =
      ended d (Restored env d) (restore env (record w { host = h }))
        ((restore_rule env d).at (record w { host = h }) (Reached-Same r, tt))

  -- Against the abstract view of a resource, its data before the upgrade, nothing changes: after any
  -- attempts to stage and to restore, stopped wherever they were, and whatever was written to the
  -- candidates of a stage that returned, a restore that returns has put the original in the place of
  -- every resource, and one that is stopped leaves each original on the disk.
  pub restore-Original :
      {d : Tree T} (w : World T H)
      → Reached d w
      → Post (λ a e j. Same d e × Restored env d e) (λ s e j. Same d e) (restore env w)
  restore-Original {d} w r = (restore_rule env d).at w (Reached-Same r, tt)
