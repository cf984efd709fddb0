-- ===== src/Status/Collecting.antt =====
-- sanitize, collect and needs_attention of scripts/product_status.py.
use Prim.Native.String.{count}
use resilient_datacenter.Shared.{
  ℕ, String, Bool, true, false, not, ◌&&◌, ltb, str_eq, contains, any, Option, none, some, List, [],
  ◌∷◌, map, if◌then◌else◌,
}
use resilient_datacenter.Status.States.{
  Dimension, network, applications, certificates, backup, recovery, partners, dimensions, states,
  next, next_after_address, next_after_upgrade, informational,
}

-- The field `state` of what a probe returns: a text, another value, or one that cannot be looked up in
-- a set and raises TypeError.
pub data StateField : Type 0 where
  text : String → StateField
  other_value unhashable : StateField

pub data Flag : Type 0 where
  controller_required controller_reachable automatic_renewal serving_verified : Flag

pub data Count : Type 0 where
  backup_age_seconds approved_peers : Count

pub data Time : Type 0 where
  expires_at captured_at completed_at last_success_at : Time

-- What a probe returns; a field of another type, and a negative number, is `none`.
pub record Evidence : Type 0 where
  pub state : StateField
  pub flags : Flag → Option Bool
  pub counts : Count → Option ℕ
  pub times : Time → Option String
  pub last_attempt : Option String

pub record Item : Type 0 where
  pub state : String
  pub next_step : String
  pub flags : Flag → Option Bool
  pub counts : Count → Option ℕ
  pub times : Time → Option String
  pub last_attempt : Option String
  pub user_operation : Option String
  pub federation_test : Option String

abbrev pub unknown : Evidence
unknown = record {
  state = text "unknown";
  flags = λ f. none;
  counts = λ c. none;
  times = λ t. none;
  last_attempt = none;
}

-- `none` where the look-up raises
abbrev pub is_known : Dimension → StateField → Option Bool
is_known d (text s) = some (contains s (states d))
is_known d other_value = some false
is_known d unhashable = none

abbrev pub filtered : {A : Type 0} → (A → Bool) → Option A → Option A
filtered p none = none
filtered p (some a) = if p a then some a else none

abbrev pub text_of : StateField → String
text_of (text s) = s
text_of other_value = "unknown"
text_of unhashable = "unknown"

abbrev pub step_of : Dimension → String → String
step_of d s =
    if str_eq s "upgrade-pending"
    then next_after_upgrade
    else if is_network d && str_eq s "local-address-verified"
    then next_after_address
    else next d
  where
    is_network : Dimension → Bool
    is_network network = true
    is_network applications = false
    is_network certificates = false
    is_network backup = false
    is_network recovery = false
    is_network partners = false

abbrev pub operation_of : Dimension → Option String
operation_of applications = some "not-recorded"
operation_of recovery = some "not-recorded"
operation_of _ = none

abbrev pub federation_of : Dimension → Option String
federation_of partners = some "not-recorded"
federation_of _ = none

abbrev pub is_attempt : String → Bool
is_attempt s = contains s ("failed" ∷ "succeeded" ∷ [])

-- Whether a text is a time with its zone is asked of datetime.fromisoformat.
module _ (is_zoned : String → Bool) where
  abbrev pub is_time : String → Bool
  is_time s = ltb (count s) 64 && is_zoned s

  unfoldable pub item_of : Dimension → Evidence → Item
  item_of d e = record {
    state = text_of e.state;
    next_step = step_of d (text_of e.state);
    flags = e.flags;
    counts = λ c. filtered (λ n. ltb n 9007199254740992) (e.counts c);
    times = λ t. filtered is_time (e.times t);
    last_attempt = filtered is_attempt e.last_attempt;
    user_operation = operation_of d;
    federation_test = federation_of d;
  }

  abbrev pub chosen : Dimension → Option Bool → Evidence → Option Item
  chosen d none e = none
  chosen d (some true) e = some (item_of d e)
  chosen d (some false) e = some (item_of d unknown)

  -- `none` is no dictionary; the result is `none` where sanitize raises.
  unfoldable pub sanitize : Dimension → Option Evidence → Option Item
  sanitize d none = some (item_of d unknown)
  sanitize d (some e) = chosen d (is_known d e.state) e

  abbrev pub or_unknown : Dimension → Option Item → Item
  or_unknown d none = item_of d unknown
  or_unknown d (some i) = i

  -- The outer `none` is an exception of the probe that collect catches; run_probe raises no other.
  unfoldable pub after_probe : Dimension → Option (Option Evidence) → Item
  after_probe d none = item_of d unknown
  after_probe d (some v) = or_unknown d (sanitize d v)

  unfoldable pub one : (Dimension → Option (Option Evidence)) → Dimension → Item
  one probe d = after_probe d (probe d)

  unfoldable pub collect : (Dimension → Option (Option Evidence)) → List (Dimension × Item)
  collect probe = map (λ d. (d, one probe d)) dimensions

unfoldable pub needs_attention : List (Dimension × Item) → Bool
needs_attention result = any (λ x. not (contains x.1.state informational)) result
