-- ===== src/Rotation/State.antt =====
-- The generations of a managed certificate, and generation and point of
-- scripts/certificate_lifecycle.py.
use resilient_datacenter.Shared.{
  String, Bool, true, false, str_eq, Option, none, some, List, [], ◌∷◌, if◌then◌else◌,
}
use resilient_datacenter.Shared.Effects.{Out, M, Done, refuse_if, ◌>>◌}
use resilient_datacenter.Shared.Maintenance
use resilient_datacenter.Shared.Maintenance.{Fault, Call, file_op}
use resilient_datacenter.Shared.Stored.{Stored, absent, unsafe, holds}

-- What validate_material returns, and metadata.json holds.
pub record Info : Type 0 where
  pub fingerprint : String
  pub expires_at : String

-- A directory generations/<digest>; an interrupted write or removal leaves some of its files.
pub record Generation : Type 0 where
  pub is_linked : Bool
  pub has_linked_files : Bool
  pub metadata : Option Info
  pub certificate : Option String
  pub private_key : Option String
  pub host_certificate : Option String
  pub host_key : Option String

abbrev pub Generations : Type 0
Generations = List (String × Generation)

-- A pointer holds the digest of the generation that it names; `verified` is the fingerprint that
-- the last call of the runtime has verified, and `none` where that call was another or raised.
pub record Disk : Type 0 where
  pub active : Stored String
  pub previous : Stored String
  pub is_active_new : Bool
  pub is_previous_new : Bool
  pub is_linked : Bool
  pub generations : Generations
  pub verified : Option String

abbrev pub World : Type 0 → Type 0
World H = Maintenance.World Disk Unit H

abbrev pub Action : Type 0 → Type 0 → Type 0
Action H A = M (World H) A

-- SHA-256 of certificate and key, the validator, the runtime, and what is left of a directory when
-- its removal is interrupted.
pub record Env (H : Type 0) : Type 0 where
  pub disturb : H → Fault × H
  pub digest : String → String → String
  pub validator : String → String → String → H → Out Info × H
  pub restart : String → Call Disk H Done
  pub verify : String → String → Call Disk H Done
  pub remains : Generation → Generation

unfoldable pub lookup : String → Generations → Option Generation
lookup n [] = none
lookup n ((m, g) ∷ gs) = if str_eq m n then some g else lookup n gs

unfoldable pub written : String → Generation → Generations → Generations
written n g [] = (n, g) ∷ []
written n g ((m, h) ∷ gs) =
    let rest = written n g gs in if str_eq m n then (n, g) ∷ gs else (m, h) ∷ rest

unfoldable pub removed : String → Generations → Generations
removed n [] = []
removed n ((m, h) ∷ gs) = let rest = removed n gs in if str_eq m n then rest else (m, h) ∷ rest

-- generations.iterdir()
unfoldable pub names : Generations → List String
names [] = []
names ((m, h) ∷ gs) = m ∷ names gs

-- SERVICES, without the groups
abbrev pub service_of : String → Option String
service_of role =
    if str_eq role "gateway"
    then some "rdc-regional-gateway"
    else if str_eq role "controller"
    then some "headscale"
    else if str_eq role "relay"
    then some "sc-derp"
    else if str_eq role "services"
    then some "rdc-service-proxy"
    else if str_eq role "nextcloud"
    then some "rdc-nextcloud-proxy"
    else none

abbrev pub checked_target : String → Option Generation → Option (Option String)
checked_target d none = none
checked_target d (some g) = if g.is_linked then none else some (some d)

-- generation(base, name); outer `none` where it raises
abbrev pub generation : Generations → Stored String → Option (Option String)
generation gs absent = some none
generation gs unsafe = none
generation gs (holds d) = checked_target d (lookup d gs)

pub data Name : Type 0 where
  active_name previous_name : Name

abbrev pub is_new : Name → Disk → Bool
is_new active_name d = d.is_active_new
is_new previous_name d = d.is_previous_new

abbrev pub linked_new : Name → Disk → Disk
linked_new active_name d = record d { is_active_new = true }
linked_new previous_name d = record d { is_previous_new = true }

abbrev pub pointed : Name → String → Disk → Disk
pointed active_name t d = record d { active = holds t; is_active_new = false }
pointed previous_name t d = record d { previous = holds t; is_previous_new = false }

module _ {H : Type 0} (env : Env H) where
  unfoldable pub point : Name → String → Action H Done
  point name target = do
    (λ w. refuse_if (is_new name w.disk) w)
    file_op env.disturb (λ d. some (linked_new name d))
    file_op env.disturb (λ d. some (pointed name target d))
