-- ===== src/Upgrade/Journals.antt =====
-- validate_snapshot, validate and last_result of scripts/upgrade_transaction.py.
use resilient_datacenter.Shared.Texts.{is_hex}
use resilient_datacenter.Shared.{
  ℕ, Bool, true, false, not, ◌&&◌, ◌-◌, ◌*◌, ◌==◌, leb, str_eq, Option, none, some,
}
use resilient_datacenter.Shared.Stored.{Stored, absent, unsafe, holds}
use resilient_datacenter.Upgrade.State.{
  Phase, preparing, migrating, committed, rolled_back, other_phase, Snapshot, Journal, Result,
  Verdict, upgraded_service_verified, previous_version_restored, other_verdict, Env,
}

abbrev pub is_time : Option ℕ → Bool
is_time none = false
is_time (some t) = true

-- captured >= timestamp(started_at)
abbrev pub after_start : Option ℕ → Option ℕ → Bool
after_start (some captured) (some started) = leb started captured
after_start _ _ = false

-- One hour, in microseconds.
abbrev pub hour : ℕ
hour = 3600 * 1000000

abbrev pub recent : ℕ → Option ℕ → Bool
recent now none = false
recent now (some captured) = leb captured now && leb (now - captured) hour

-- whether validate_snapshot passes
abbrev pub valid_snapshot : ℕ → Option ℕ → Snapshot → Bool
valid_snapshot now started s =
    is_hex 64 s.id && after_start s.captured_at started && recent now s.captured_at

abbrev pub known_phase : Phase → Bool
known_phase (other_phase p) = false
known_phase preparing = true
known_phase migrating = true
known_phase committed = true
known_phase rolled_back = true

abbrev pub needs_snapshot : Phase → Bool
needs_snapshot migrating = true
needs_snapshot committed = true
needs_snapshot preparing = false
needs_snapshot rolled_back = false
needs_snapshot (other_phase p) = false

abbrev pub retained_snapshot : Journal → Option Snapshot → Bool
retained_snapshot j none = not (needs_snapshot j.phase)
retained_snapshot j (some s) = is_hex 64 s.id && after_start s.captured_at j.started_at

module _ {H : Type 0} (env : Env H) where
  -- whether validate passes
  unfoldable pub valid_journal : Journal → Bool
  valid_journal j =
      j.schema_version == 1
      && env.valid_plan j.plan
      && is_time j.started_at
      && known_phase j.phase
      && retained_snapshot j j.snapshot

abbrev pub known_verdict : Verdict → Bool
known_verdict upgraded_service_verified = true
known_verdict previous_version_restored = true
known_verdict (other_verdict v) = false

abbrev pub valid_result : Result → Bool
valid_result r =
    r.schema_version == 1
    && known_verdict r.state
    && str_eq r.user_operation "not-recorded"
    && is_time r.completed_at

-- `if present(root/RESULT): last_result(root)`
abbrev pub readable_result : Stored Result → Bool
readable_result absent = true
readable_result unsafe = false
readable_result (holds r) = valid_result r
