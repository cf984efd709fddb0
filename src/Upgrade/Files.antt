-- ===== src/Upgrade/Files.antt =====
-- scripts/upgrade_files.py: the candidates of an upgrade and the originals that they replace.
use resilient_datacenter.Shared.{
  ℕ, suc, String, Bool, true, false, not, ◌||◌, ◌&&◌, str_eq, Option, none, some, List, [], ◌∷◌,
  if◌then◌else◌,
}
use resilient_datacenter.Shared.Effects.{Done, M, pure, refuse_if, ◌>>◌}
use resilient_datacenter.Shared.Maintenance
use resilient_datacenter.Shared.Maintenance.{Fault, file_op, for_each, for_each_reversed}
use resilient_datacenter.Shared.Stored.{put}
use resilient_datacenter.Restore.State.{Workspace, missing, linked, folder, Slot}
use resilient_datacenter.Restore.Files.{
  made, copied, set_aside, promoted, removed, brought_back, cleared, has_old, is_linked,
}
use resilient_datacenter.Restore.Plan.{Needed, need, any_too_small}

-- paths(owner), for the package that backup_scope.package gives
abbrev pub paths : String → Option (List String)
paths selected =
    if str_eq selected "matrix"
    then some ("etc/rdc-services" ∷ "var/lib/rdc-services" ∷ "usr/local/lib/rdc-services" ∷ [])
    else if str_eq selected "nextcloud"
    then some (
        "etc/rdc-nextcloud" ∷ "var/lib/rdc-nextcloud" ∷ "usr/local/lib/rdc-nextcloud"
        ∷ "opt/rdc-nextcloud-app" ∷ [])
    else none

-- What inspect and preflight read of a resource besides its slot: whether it is a directory of this
-- user, no mount and under no link; its device, and the size of its regular files.
pub record Place : Type 0 where
  pub is_owned : Bool
  pub device : ℕ
  pub size : ℕ

-- A resource with its workspace is a slot, as in a restoration.
abbrev pub Tree : Type 0 → Type 0
Tree T = ℕ → Slot T

abbrev pub World : Type 0 → Type 0 → Type 0
World T H = Maintenance.World (Tree T) Unit H

abbrev pub Action : Type 0 → Type 0 → Type 0 → Type 0
Action T H A = M (World T H) A

-- `partial` is a copy that is not complete.
pub record Env (T H : Type 0) : Type 0 where
  pub disturb : H → Fault × H
  pub names : List String
  pub partial : T → T
  pub place : H → ℕ → Place
  pub free : H → ℕ → ℕ

abbrev pub is_missing : {T : Type 0} → Workspace T → Bool
is_missing missing = true
is_missing linked = false
is_missing (folder o n) = false

abbrev pub is_here : {T : Type 0} → Option T → Bool
is_here none = false
is_here (some t) = true

abbrev pub copied_from : {T : Type 0} → (T → T) → Option T → Slot T → Option (Slot T)
copied_from f none s = none
copied_from f (some t) s = copied (f t) s

abbrev pub on_slot : {T : Type 0} → ℕ → (Slot T → Option (Slot T)) → Tree T → Option (Tree T)
on_slot i g d = elim (g (d i)) [ none ↦ none | some s ↦ some (put i s d) ]

module _ {T H : Type 0} (env : Env T H) where
  unfoldable pub slot_op : ℕ → (Slot T → Option (Slot T)) → Action T H Done
  slot_op i g = file_op env.disturb (on_slot i g)

  unfoldable pub inspect : ℕ → Action T H Done
  inspect i w = refuse_if (not (is_here (w.disk i).target) || not (env.place w.host i).is_owned) w

  -- The loop of preflight, which refuses a resource or a workspace or sums up what is needed.
  unfoldable pub measure : ℕ → List String → Needed → World T H → Option Needed
  measure i [] needed w = some needed
  measure i (n ∷ ns) needed w =
      let p = env.place w.host i in
      let rest = measure (suc i) ns (need p.device p.size needed) w in
      if is_here (w.disk i).target && p.is_owned && is_missing (w.disk i).workspace
      then rest
      else none

  abbrev pub is_spacious : World T H → Option Needed → Bool
  is_spacious w none = false
  is_spacious w (some needed) = not (any_too_small (env.free w.host) needed)

  unfoldable pub preflight : Action T H Done
  preflight w = refuse_if (not (is_spacious w (measure 0 env.names [] w))) w

  -- copy_resource(root/name, folder/'new')
  unfoldable pub copy_resource : ℕ → Action T H Done
  copy_resource i =
      slot_op i (λ s. copied_from env.partial s.target s)
      >> slot_op i (λ s. copied_from (λ t. t) s.target s)

  unfoldable pub stage : Action T H Done
  stage = do
    preflight
    for_each 0 env.names (λ i n. slot_op i made >> copy_resource i)
    for_each 0 env.names (λ i n. slot_op i set_aside >> slot_op i promoted)

  abbrev pub put_back_if : Bool → ℕ → Action T H Done
  put_back_if true i = slot_op i removed >> slot_op i brought_back
  put_back_if false i = pure tt

  -- The loop of restore; check_workspace refuses a linked workspace, and a missing one is left.
  unfoldable pub put_back : ℕ → Action T H Done
  put_back i w =
      (refuse_if (is_linked (w.disk i).workspace) >> put_back_if (has_old (w.disk i).workspace) i) w

  unfoldable pub restore : Action T H Done
  restore = do
    for_each_reversed 0 env.names (λ i n. put_back i)
    for_each 0 env.names (λ i n. inspect i)

  unfoldable pub clean : Action T H Done
  clean =
      for_each 0 env.names
        (λ i n w. (refuse_if (is_linked (w.disk i).workspace) >> slot_op i cleared) w)
