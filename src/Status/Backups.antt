-- ===== src/Status/Backups.antt =====
-- backup of scripts/status_probe.py with status_summary of scripts/backup_operations.py, and latest of
-- scripts/restore_evidence.py.
use Prim.Native.Char.{code}
use resilient_datacenter.Shared.{
  ℕ, ◌-◌, ◌/◌, String, Bool, false, not, ◌==◌, ltb, str_eq, Option, none, some, List, [], ◌∷◌,
  if◌then◌else◌,
}
use resilient_datacenter.Shared.Optional.{◌>>=◌}
use resilient_datacenter.Schedule.State.{Frequency, daily, overdue}
use resilient_datacenter.Status.Collecting.{
  text, Count, backup_age_seconds, approved_peers, Time, expires_at, captured_at, completed_at,
  last_success_at, Evidence, unknown,
}
use resilient_datacenter.Status.Host.{
  Found, Attempts, Snapshot, Listing, listed, unreachable, broken, RestoreRecord, Host,
}
use resilient_datacenter.Status.Probing.{only}

-- s.replace('Z', '+00:00')
unfoldable pub with_offset : String → String
with_offset String.[] = ""
with_offset (String.◌∷◌ c s) =
    let rest = with_offset s in
    if code c == 90
    then String.◌∷◌ "+"
        (String.◌∷◌ "0" (String.◌∷◌ "0" (String.◌∷◌ ":" (String.◌∷◌ "0" (String.◌∷◌ "0" rest)))))
    else String.◌∷◌ c rest

-- What the attempts add to the result.
abbrev pub success_at : Option String → Time → Option String
success_at o expires_at = none
success_at o captured_at = none
success_at o completed_at = none
success_at o last_success_at = o

abbrev pub attempted : Attempts → Evidence
attempted a = record unknown { times = success_at a.last_success_at; last_attempt = a.last_outcome }

abbrev pub captured_times : String → (Time → Option String) → Time → Option String
captured_times s times expires_at = times expires_at
captured_times s times captured_at = some s
captured_times s times completed_at = times completed_at
captured_times s times last_success_at = times last_success_at

abbrev pub aged : ℕ → Count → Option ℕ
aged n backup_age_seconds = some n
aged n approved_peers = none

abbrev pub is_failed_attempt : Option String → Bool
is_failed_attempt none = false
is_failed_attempt (some s) = str_eq s "failed"

-- The result of status_summary: no backup, or the time of the latest snapshot and its age.
pub data Summary : Type 0 where
  no_backup : Summary
  present : Snapshot → ℕ → ℕ → Summary

-- What backup makes of the listing and of its summary.
pub data Summarised : Type 0 where
  summarised : Summary → Summarised
  not_reached : Summarised

abbrev pub latest_of : ℕ × Snapshot → List (ℕ × Snapshot) → ℕ × Snapshot
latest_of best [] = best
latest_of best (x ∷ xs) = if ltb best.0 x.0 then latest_of x xs else latest_of best xs

abbrev pub backup_state : Evidence → Bool → String
backup_state result late =
    if is_failed_attempt result.last_attempt
    then "backup-failed"
    else if late
    then "backup-overdue"
    else "backup-current"

abbrev pub summary_evidence : Evidence → String → ℕ → Bool → Evidence
summary_evidence result captured age late = record result {
  state = text (backup_state result late);
  times = captured_times captured result.times;
  counts = aged age;
}

abbrev pub restored_at : String → String → Time → Option String
restored_at completed captured expires_at = none
restored_at completed captured captured_at = some captured
restored_at completed captured completed_at = some completed
restored_at completed captured last_success_at = none

module _ {A O : Type 0} (host : Host A O) where
  -- `none`: a time cannot be read, has no zone, or lies ahead of the clock.
  abbrev pub past : Option (Option ℕ) → Option ℕ
  past none = none
  past (some none) = none
  past (some (some t)) = if ltb host.now t then none else some t

  unfoldable pub dated : List Snapshot → Option (List (ℕ × Snapshot))
  dated [] = some []
  dated (s ∷ ss) =
      let rest = dated ss in
      do t ← past (host.instant (with_offset s.time)); others ← rest; some ((t, s) ∷ others)

  abbrev pub newest : List (ℕ × Snapshot) → Summary
  newest [] = no_backup
  newest (x ∷ xs) =
      let (when, snapshot) = latest_of x xs in present snapshot when ((host.now - when) / 1000000)

  unfoldable pub status_summary : List Snapshot → Option Summary
  status_summary snapshots = do pairs ← dated snapshots; some (newest pairs)

  -- An exception of status_summary is a ValueError, which is caught like one of the transport.
  abbrev pub reached : Option Summary → Summarised
  reached none = not_reached
  reached (some s) = summarised s

  abbrev pub summarise : Listing → Option Summarised
  summarise (listed ss) = some (reached (status_summary ss))
  summarise unreachable = some not_reached
  summarise broken = none

  abbrev pub read_attempts : Option Evidence
  read_attempts =
      if host.has_attempts then (host.attempts >>= λ a. some (attempted a)) else some unknown

  abbrev pub frequency : Option Frequency
  frequency = if host.has_schedule then host.schedule_frequency else some daily

  unfoldable pub backup_evidence : Evidence → Summarised → Option Evidence
  backup_evidence result not_reached = some (record result { state = text "backup-unreachable" })
  backup_evidence result (summarised no_backup) = some (record result { state = text "no-backup" })
  backup_evidence result (summarised (present snapshot when age)) = do
    f ← frequency
    late ← overdue f (some age)
    some (summary_evidence result (host.isoformat when) age late)

  unfoldable pub owned_backup : Option Evidence
  owned_backup = do
    result ← read_attempts
    summary ← summarise host.snapshots
    backup_evidence result summary

  unfoldable pub configured_backup : Found A O → Option Evidence
  configured_backup found = do
    ownership ← host.backup_ownership
    if not (host.same_owner ownership found.owner)
        then some (only "backup-scope-missing")
        else owned_backup

  unfoldable pub backup : Found A O → Option Evidence
  backup found =
      if not host.has_backup then some (only "not-configured") else configured_backup found

  unfoldable pub restored : RestoreRecord O → Option Evidence
  restored r = do
    completed ← past (host.instant r.completed_at)
    hashes ← host.component_hashes
    some (record unknown {
      state = text (
          if str_eq hashes r.binary_sha256
          then "service-verified"
          else "verified-on-prior-components");
      times = restored_at r.completed_at r.captured_at;
    })

  unfoldable pub recorded : O → Option Evidence
  recorded owner = do
    r ← host.restore_result
    if not (host.same_owner r.ownership owner) then some (only "different-scope") else restored r

  unfoldable pub latest : O → Option Evidence
  latest owner =
      if host.is_restore_pending
      then some (only "restore-pending")
      else if not host.has_restore_result
      then some (only "untested")
      else recorded owner
