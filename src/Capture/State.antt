-- ===== src/Capture/State.antt =====
-- What scripts/backup_snapshot.py asks of the services, copies and writes.
use resilient_datacenter.Shared.{
  ℕ, String, Bool, true, false, not, str_eq, Option, none, some, List, [], ◌∷◌, contains,
  if◌then◌else◌, ◌≡◌,
}
use resilient_datacenter.Shared.Effects.{M}
use resilient_datacenter.Shared.Maintenance
use resilient_datacenter.Shared.Stored.{Stored}

-- A request to a service, or the copy of a resource. A query has an answer where it returns.
pub data Event : Type 0 where
  queried : String → Option Bool → Event
  stop_requested start_requested copied : String → Event

-- snapshot.json
pub record Metadata : Type 0 where
  pub schema_version : ℕ
  pub captured_at : String
  pub ownership : String
  pub binary_sha256 : String
  pub paths : List String
  pub services_originally_active : List (String × Bool)

-- The destination is unsafe while its metadata are not written; the latest event stands first.
pub record Disk : Type 0 where
  pub destination : Stored Metadata
  pub events : List Event

-- The memory is `recovery`, the latest service first.
abbrev pub World : Type 0 → Type 0
World H = Maintenance.World Disk (List String) H

abbrev pub Action : Type 0 → Type 0 → Type 0
Action H A = M (World H) A

-- What the events say of a service, the latest first: a request to stop it stands, its last answer
-- is no since the last request, and its last answer is yes since then.
unfoldable pub is_stopped : String → List Event → Bool
is_stopped n [] = false
is_stopped n (queried m a ∷ es) = is_stopped n es
is_stopped n (stop_requested m ∷ es) = if str_eq m n then true else is_stopped n es
is_stopped n (start_requested m ∷ es) = if str_eq m n then false else is_stopped n es
is_stopped n (copied m ∷ es) = is_stopped n es

abbrev pub is_answer : Bool → Option Bool → Bool
is_answer b none = false
is_answer true (some c) = c
is_answer false (some c) = not c

unfoldable pub answered : Bool → String → List Event → Bool
answered b n [] = false
answered b n (queried m a ∷ es) = if str_eq m n then is_answer b a else answered b n es
answered b n (stop_requested m ∷ es) = if str_eq m n then false else answered b n es
answered b n (start_requested m ∷ es) = if str_eq m n then false else answered b n es
answered b n (copied m ∷ es) = answered b n es

-- Every resource was copied while each of the services had answered that it is not active.
abbrev pub CopiedQuietly : List String → List Event → Type 0
CopiedQuietly ns [] = Unit {0}
CopiedQuietly ns (queried m a ∷ es) = CopiedQuietly ns es
CopiedQuietly ns (stop_requested m ∷ es) = CopiedQuietly ns es
CopiedQuietly ns (start_requested m ∷ es) = CopiedQuietly ns es
CopiedQuietly ns (copied m ∷ es) =
    ((n : String) → contains n ns ≡ true → answered false n es ≡ true) × CopiedQuietly ns es

abbrev pub active_names : List (String × Bool) → List String
active_names [] = []
active_names ((n, true) ∷ rest) = n ∷ active_names rest
active_names ((n, false) ∷ rest) = active_names rest
