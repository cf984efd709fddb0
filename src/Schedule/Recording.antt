-- ===== src/Schedule/Recording.antt =====
-- What record_attempt of scripts/backup_schedule.py keeps of a backup attempt.
use resilient_datacenter.Shared.{
  String, Bool, true, false, ◌&&◌, Option, none, some, ◌≡◌, ◌⊎◌, refl, subst, Bool-cases, inl, inr,
  and-true,
}
use resilient_datacenter.Shared.Stored.{Stored}
use resilient_datacenter.Schedule.State.{
  Snapshot, Attempts, Created, earlier, attempted, attempted_after, record_attempt,
}

-- The record of an attempt that did not succeed repeats the last success on record.
abbrev pub Failed : Stored Attempts → Attempts → Type 0
Failed stored a = (a.last_succeeded ≡ false) × (earlier stored ≡ some a.last_success)

-- The record of one that did names a snapshot that was made and checked now.
abbrev pub Succeeded : (String → Bool) → Option Created → String → Attempts → Type 0
Succeeded is_snapshot result now a =
    (a.last_succeeded ≡ true)
    × ((r : Created) × ((result ≡ some r)
          × ((r.is_created ≡ true)
              × ((is_snapshot r.snapshot_id ≡ true)
                  × (a.last_success
                      ≡ some (record { finished_at = now; snapshot_id = r.snapshot_id }))))))

Recorded : (String → Bool) → Stored Attempts → Option Created → String → Option Attempts → Type 0
Recorded is_snapshot stored result now none = Unit {0}
Recorded is_snapshot stored result now (some a) =
    (a.last_finished_at ≡ now)
    × (((result ≡ none) × Failed stored a) ⊎ Succeeded is_snapshot result now a)

after_earlier :
    (is_snapshot : String → Bool) (stored : Stored Attempts) (last : Option (Option Snapshot))
    (result : Option Created) (now : String)
    → earlier stored ≡ last
    → Recorded is_snapshot stored result now (attempted_after is_snapshot last result now)
unfolding attempted Recorded
after_earlier is_snapshot stored none result now e = tt
after_earlier is_snapshot stored (some l) none now e = (refl, inl (refl, (refl, e)))
after_earlier is_snapshot stored (some l) (some r) now e =
    elim (Bool-cases (r.is_created && is_snapshot r.snapshot_id)) [
      | inl t ↦
          let (made, checked) = and-true r.is_created (is_snapshot r.snapshot_id) t in
          rw t (refl, inr (refl, (r, (refl, (made, (checked, refl))))))
      | inr f ↦ rw f tt
    ]

-- A record of an attempt that is written bears the time of the attempt. Where there was no result
-- it is a failure, with the last success of the record before it; otherwise it is a success, and
-- its snapshot is the one of the result, which was created and has the form of a snapshot.
pub record_attempt-Recorded :
    (is_snapshot : String → Bool) (stored : Stored Attempts) (result : Option Created)
    (now : String) (a : Attempts)
    → record_attempt is_snapshot stored result now ≡ some a
    → (a.last_finished_at ≡ now)
      × (((result ≡ none) × Failed stored a) ⊎ Succeeded is_snapshot result now a)
unfolding record_attempt Recorded
record_attempt-Recorded is_snapshot stored result now a e =
    subst (Recorded is_snapshot stored result now) e
      (after_earlier is_snapshot stored (earlier stored) result now refl)
