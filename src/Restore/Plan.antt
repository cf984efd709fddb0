-- ===== src/Restore/Plan.antt =====
-- plan of scripts/restore_transaction.py: what is checked before anything is written.
use resilient_datacenter.Shared.{
  ℕ, suc, ◌+◌, ◌*◌, String, Bool, true, false, not, ◌||◌, ◌&&◌, Option, none, some, List, [], ◌∷◌,
  str_eq, ltb, ◌==◌, if◌then◌else◌,
}
use resilient_datacenter.Shared.Effects.{Done, refuse_if, ◌>>◌}
use resilient_datacenter.Restore.State.{Stored, absent, Slot, World, Action}
use resilient_datacenter.Restore.Files.{Env, Place}

-- needed[device] = (parent, size), with the sizes summed
abbrev pub Needed : Type 0
Needed = List (ℕ × ℕ)

unfoldable pub need : ℕ → ℕ → Needed → Needed
need device size [] = (device, size) ∷ []
need device size ((d, n) ∷ rest) =
    if d == device then (d, n + size) ∷ rest else (d, n) ∷ need device size rest

unfoldable pub is_absent : {A : Type 0} → Stored A → Bool
is_absent absent = true
is_absent _ = false

unfoldable pub is_none : {A : Type 0} → Option A → Bool
is_none none = true
is_none (some a) = false

-- free < size*1.1 + 64*1024*1024, in tenths of a byte
abbrev pub too_small : ℕ → ℕ → Bool
too_small free size = ltb (10 * free) (11 * size + 671088640)

unfoldable pub any_too_small : (ℕ → ℕ) → Needed → Bool
any_too_small free [] = false
any_too_small free ((d, n) ∷ rest) = too_small (free d) n || any_too_small free rest

module _ {T : Type 0} where
  unfoldable pub unsupported : Slot T → Place → Bool
  unsupported s p = is_none s.target || p.symlink || p.mount || p.linked_parent

  -- the loop over the paths, which refuses a resource or sums up what is needed
  unfoldable pub measure : (ℕ → Slot T) → (ℕ → Place) → ℕ → List String → Needed → Option Needed
  measure slots place i [] needed = some needed
  measure slots place i (n ∷ ns) needed =
      let rest = measure slots place (suc i) ns (need (place i).device (place i).size needed) in
      if unsupported (slots i) (place i) then none else rest

module _ {T H : Type 0} (env : Env T H) where
  unfoldable pub refused_early : World T H → Bool
  refused_early w =
      let survey = env.survey w.host in
      not survey.snapshot_valid
      || not survey.installation_verified
      || (env.gateway && survey.gateway_pending)
      || not (str_eq (env.component_hashes w.host) env.snapshot_hashes)
      || not (is_absent w.disk.marker)
      || survey.isolation_left

  unfoldable pub spacious : World T H → Option Needed → Bool
  spacious w none = false
  spacious w (some needed) = not (any_too_small (env.survey w.host).free needed)

  unfoldable pub plan : Action T H Done
  plan w =
      (refuse_if (refused_early w)
          >> refuse_if
              (not (spacious w (measure w.disk.slots (env.survey w.host).place 0 env.paths []))))
        w
