-- ===== src/Status/CurrentBackups.antt =====
-- The backup and the recovery of scripts/status_probe.py: what a current backup stands on.
use resilient_datacenter.Shared.{
  ℕ, ◌-◌, ◌/◌, ltb, Option, none, List, [], ◌∷◌, subst, sym, Bool-cases, inl, inr, Bool, true,
  false, not, str_eq, some, if◌then◌else◌, ◌≡◌, refl, ap, ◌∙◌,
}
use resilient_datacenter.Shared.Optional.{Returns, bind_rule, if_rule, returned}
use resilient_datacenter.Shared.Apart.{All, All-map, Among}
use resilient_datacenter.Shared.Hoare.{some-eq}
use resilient_datacenter.Status.Discovering.{discover}
use resilient_datacenter.Status.Grounds.{is_state, CurrentBackup}
use resilient_datacenter.Schedule.State.{Frequency, daily, overdue}
use resilient_datacenter.Status.States.{backup, recovery}
use resilient_datacenter.Status.Collecting.{text, Evidence, is_known}
use resilient_datacenter.Status.Host.{
  Found, Attempts, Snapshot, Listing, listed, unreachable, broken, Host,
}
use resilient_datacenter.Status.Probing.{only}
use resilient_datacenter.Status.Backups
use resilient_datacenter.Status.Backups.{
  attempted, is_failed_attempt, backup_state, summary_evidence, Summary, no_backup, present,
  Summarised, summarised, not_reached, with_offset, latest_of, dated, newest, status_summary,
  reached, summarise, past, read_attempts, frequency, backup_evidence, owned_backup,
  configured_backup, restored, recorded, latest,
}
use resilient_datacenter.Status.Sound.{Sound, Known, known_if}

module _ {A O : Type 0} (host : Host A O) where
  -- A state that is not backup-current stands on nothing.
  pub other_backup :
      (e : Evidence)
      → is_state "backup-current" e.state ≡ false
      → is_known backup e.state ≡ some true
      → Sound host backup e
  other_backup e n k = (k, λ y. absurd (cc))

  backup_state-Known : (r : Evidence) (late : Bool) → Known host backup (backup_state r late)
  backup_state-Known r late =
      known_if host backup (is_failed_attempt r.last_attempt) "backup-failed" _ refl
        (known_if host backup late "backup-overdue" "backup-current" refl refl)

  backup_state-current :
      (r : Evidence) (late : Bool)
      → str_eq (backup_state r late) "backup-current" ≡ true
      → (is_failed_attempt r.last_attempt ≡ false) × (late ≡ false)
  backup_state-current r late e = picked (is_failed_attempt r.last_attempt) late e
    where
      picked :
          (a b : Bool)
          → str_eq
              (if a then "backup-failed" else if b then "backup-overdue" else "backup-current")
              "backup-current"
            ≡ true
          → (a ≡ false) × (b ≡ false)
      picked true b h = absurd (cc)
      picked false true h = absurd (cc)
      picked false false h = (refl, refl)

  past_time :
      (o : Option (Option ℕ)) (t : ℕ)
      → past host o ≡ some t
      → (o ≡ some (some t)) × (ltb host.now t ≡ false)
  past_time none t e = absurd (cc)
  past_time (some none) t e = absurd (cc)
  past_time (some (some u)) t e = elim (Bool-cases (ltb host.now u)) [
    | inl ahead ↦
        let k : past host (some (some u)) ≡ none = ap (λ b. if b then none else some u) ahead in
        absurd (cc)
    | inr before ↦
        let same : u ≡ t = some-eq u t (sym (ap (λ b. if b then none else some u) before) ∙ e) in
        (ap (λ x. some (some x)) same, subst (λ x. ltb host.now x ≡ false) same before)
  ]

  -- A listed snapshot, with its time.
  abbrev Taken : List Snapshot → ℕ × Snapshot → Type 0
  Taken ss x = Among x.1 ss × (past host (host.instant (with_offset x.1.time)) ≡ some x.0)

  dated-Taken : (ss : List Snapshot) → Returns (All (Taken ss)) (dated host ss)
  unfolding dated
  dated-Taken [] = tt
  dated-Taken (s ∷ ss) =
      let later = dated-Taken ss in
      bind_rule (All (Taken (s ∷ ss))) (past host (host.instant (with_offset s.time))) _ (λ t e.
        bind_rule (All (Taken (s ∷ ss))) (dated host ss) _ (λ others f. (
          (inl refl, e),
          All-map (Taken ss) (Taken (s ∷ ss)) others (λ x k. (inr k.0, k.1))
              (returned (All (Taken ss)) (dated host ss) others later f),
        )))

  latest_of-Taken :
      (ss : List Snapshot) (x : ℕ × Snapshot) (xs : List (ℕ × Snapshot))
      → Taken ss x
      → All (Taken ss) xs
      → Taken ss (latest_of x xs)
  latest_of-Taken ss x [] h k = h
  latest_of-Taken ss x (y ∷ ys) h k =
      let newer = latest_of-Taken ss y ys k.0 k.1 in
      let older = latest_of-Taken ss x ys h k.1 in
      elim (Bool-cases (ltb x.0 y.0)) [ inl e ↦ rw e newer | inr e ↦ rw e older ]

  -- A summary is of a listed snapshot and its age.
  abbrev Fits : List Snapshot → Summary → Type 0
  Fits ss no_backup = Unit {0}
  Fits ss (present snapshot taken age) =
      Taken ss (taken, snapshot) × (age ≡ (host.now - taken) / 1000000)

  newest-Fits :
      (ss : List Snapshot) (pairs : List (ℕ × Snapshot))
      → All (Taken ss) pairs
      → Fits ss (newest host pairs)
  newest-Fits ss [] h = tt
  newest-Fits ss (x ∷ xs) h = (latest_of-Taken ss x xs h.0 h.1, refl)

  status_summary-Fits : (ss : List Snapshot) → Returns (Fits ss) (status_summary host ss)
  unfolding status_summary
  status_summary-Fits ss = bind_rule (Fits ss) (dated host ss) _ (λ pairs e.
      newest-Fits ss pairs (returned (All (Taken ss)) (dated host ss) pairs (dated-Taken ss) e))

  abbrev Summed : Summarised → Type 0
  Summed not_reached = Unit {0}
  Summed (summarised s) = (ss : List Snapshot) × ((host.snapshots ≡ listed ss) × Fits ss s)

  reached-Summed :
      (ss : List Snapshot) (o : Option Summary)
      → host.snapshots ≡ listed ss
      → Returns (Fits ss) o
      → Summed (reached host o)
  reached-Summed ss none e h = tt
  reached-Summed ss (some s) e h = (ss, (e, h))

  summarise-Summed : (l : Listing) → host.snapshots ≡ l → Returns Summed (summarise host l)
  summarise-Summed (listed ss) e =
      reached-Summed ss (status_summary host ss) e (status_summary-Fits ss)
  summarise-Summed unreachable e = tt
  summarise-Summed broken e = tt

  -- The attempts of the result are those on record.
  abbrev Attempted : Evidence → Type 0
  Attempted r =
      host.has_attempts ≡ true
      → (a : Attempts) × ((host.attempts ≡ some a) × (r.last_attempt ≡ a.last_outcome))

  read_attempts-Attempted : Returns Attempted (read_attempts host)
  read_attempts-Attempted =
      if_rule Attempted host.has_attempts _ _
        (λ t. bind_rule Attempted host.attempts _ (λ a e h. (a, (e, refl)))) (λ f h. absurd (cc))

  module _ (found : Found A O) (seen : discover host ≡ some (some found))
      (there : host.has_backup ≡ true) (o : O) (owned : host.backup_ownership ≡ some o)
      (same : host.same_owner o found.owner ≡ true) where
    current_backup :
        (r : Evidence) (snapshot : Snapshot) (taken age : ℕ) (f : Frequency) (ss : List Snapshot)
        → Attempted r
        → host.snapshots ≡ listed ss
        → Fits ss (present snapshot taken age)
        → frequency host ≡ some f
        → overdue f (some age) ≡ some false
        → is_failed_attempt r.last_attempt ≡ false
        → CurrentBackup host (summary_evidence r (host.isoformat taken) age false)
    current_backup r snapshot taken age f ss attempts reached fits e current succeeded =
        let (dated, before) = past_time (host.instant (with_offset snapshot.time)) taken fits.0.1 in
        record {
          found = found;
          ownership = o;
          snapshots = ss;
          snapshot = snapshot;
          taken = taken;
          frequency = f;
          discovered = seen;
          is_present = there;
          owned = owned;
          same = same;
          attempted = λ h.
              let (a, (i, j)) = attempts h in
              (a, (i, subst (λ x. is_failed_attempt x ≡ false) j succeeded));
          reached = reached;
          among = fits.0.0;
          dated = dated;
          before = before;
          scheduled = λ h. sym (ap (λ b. if b then host.schedule_frequency else some daily) h) ∙ e;
          unscheduled = λ h.
              some-eq f daily
                (sym e ∙ ap (λ b. if b then host.schedule_frequency else some daily) h);
          current = subst (λ x. overdue f (some x) ≡ some false) fits.1 current;
          is_counted = ap some fits.1;
          is_captured = refl;
        }

    backup_evidence-Sound :
        (r : Evidence) (s : Summarised)
        → Attempted r
        → Summed s
        → Returns (Sound host backup) (backup_evidence host r s)
    unfolding backup_evidence
    backup_evidence-Sound r not_reached h k =
        other_backup (record r { state = text "backup-unreachable" }) refl refl
    backup_evidence-Sound r (summarised no_backup) h k =
        other_backup (record r { state = text "no-backup" }) refl refl
    backup_evidence-Sound r (summarised (present snapshot taken age)) h (ss, (reached, fits)) =
        bind_rule (Sound host backup) (frequency host) _ (λ f e.
          bind_rule (Sound host backup) (overdue f (some age)) _ (λ late l. (
            backup_state-Known r late,
            λ y.
                let (succeeded, current) = backup_state-current r late y in
                subst (λ b. CurrentBackup host (summary_evidence r (host.isoformat taken) age b))
                  (sym current)
                  (current_backup r snapshot taken age f ss h reached fits e (l ∙ ap some current)
                    succeeded),
          )))

    owned-Sound : Returns (Sound host backup) (owned_backup host)
    unfolding owned_backup
    owned-Sound = bind_rule (Sound host backup) (read_attempts host) _ (λ r h.
        bind_rule (Sound host backup) (summarise host host.snapshots) _ (λ s k.
          backup_evidence-Sound r s
            (returned Attempted (read_attempts host) r read_attempts-Attempted h)
            (returned Summed (summarise host host.snapshots) s
              (summarise-Summed host.snapshots refl) k)))

  yes : (b : Bool) → not b ≡ false → b ≡ true
  yes true h = refl
  yes false h = sym h

  pub backup-Sound :
      (found : Found A O)
      → discover host ≡ some (some found)
      → Returns (Sound host backup) (Backups.backup host found)
  unfolding Backups.backup configured_backup
  backup-Sound found seen =
      if_rule (Sound host backup) (not host.has_backup) _ _
        (λ t. other_backup (only "not-configured") refl refl)
        (λ f. bind_rule (Sound host backup) host.backup_ownership _ (λ o e.
          if_rule (Sound host backup) (not (host.same_owner o found.owner)) _ _
            (λ t. other_backup (only "backup-scope-missing") refl refl)
            (λ g.
              owned-Sound found seen (yes host.has_backup f) o e
                (yes (host.same_owner o found.owner) g))))

  -- A state that is not service-verified stands on nothing.
  pub other_recovery :
      (e : Evidence)
      → is_state "service-verified" e.state ≡ false
      → is_known recovery e.state ≡ some true
      → Sound host recovery e
  other_recovery e n k = (k, λ y. absurd (cc))

  verified_state :
      (b : Bool)
      → str_eq (if b then "service-verified" else "verified-on-prior-components") "service-verified"
        ≡ true
      → b ≡ true
  verified_state true h = refl
  verified_state false h = absurd (cc)

  pub latest-Sound :
      (found : Found A O)
      → discover host ≡ some (some found)
      → Returns (Sound host recovery) (latest host found.owner)
  unfolding latest recorded restored
  latest-Sound found seen =
      if_rule (Sound host recovery) host.is_restore_pending _ _
        (λ t. other_recovery (only "restore-pending") refl refl)
        (λ f.
          if_rule (Sound host recovery) (not host.has_restore_result) _ _
            (λ t. other_recovery (only "untested") refl refl)
            (λ g. bind_rule (Sound host recovery) host.restore_result _ (λ r e.
              if_rule (Sound host recovery) (not (host.same_owner r.ownership found.owner)) _ _
                (λ t. other_recovery (only "different-scope") refl refl)
                (λ h.
                  bind_rule (Sound host recovery) (past host (host.instant r.completed_at)) _
                    (λ c k. bind_rule (Sound host recovery) host.component_hashes _ (λ hashes l. (
                      known_if host recovery (str_eq hashes r.binary_sha256) "service-verified"
                          "verified-on-prior-components" refl refl,
                      λ y.
                          let (dated, before) = past_time (host.instant r.completed_at) c k in
                          record {
                            found = found;
                            restoration = r;
                            ended = c;
                            hashes = hashes;
                            discovered = seen;
                            no_restore = f;
                            is_recorded = e;
                            same = yes (host.same_owner r.ownership found.owner) h;
                            dated = dated;
                            before = before;
                            hashed = l;
                            matching = verified_state (str_eq hashes r.binary_sha256) y;
                          },
                    )))))))
