-- ===== src/Restore/Answering.antt =====
-- The `except` clauses of apply, the start of the transaction, and apply as a whole.
use resilient_datacenter.Shared.{
  ℕ, ◌<◌, String, ◌≡◌, refl, Bool, true, false, none, some, List, [], ◌∷◌, arith, length,
}
use resilient_datacenter.Shared.Effects.{
  Signal, failure, interrupt, crash, Out, ok, raised, Done, ◌>>◌,
}
use resilient_datacenter.Shared.Maintenance.{call}
use resilient_datacenter.Shared.Hoare.{
  Hoare, Pred, Post, bind_rule, seq_rule, raising_rule, weaken_rule, return_rule, pure_rule,
  raise_rule, call_rule, write_rule, reading_rule, refuse_rule,
}
use resilient_datacenter.Shared.Maintenance.{cleaned_up}
use resilient_datacenter.Restore.State.{
  Phase, preparing, committed, Journal, absent, holds, Disk, World, put,
}
use resilient_datacenter.Restore.Files.{Env, save, write_marker}
use resilient_datacenter.Restore.Rollback.{rollback}
use resilient_datacenter.Restore.Plan.{plan}
use resilient_datacenter.Restore.Transaction.{
  Outcome, restore_error, promote, rolled, attend, settle, isolated_run, guarded, original_state,
  new_journal, set_journal, announce, apply,
}
use resilient_datacenter.Restore.Invariant.{Targets, the, idle_original}
use resilient_datacenter.Restore.RollingBack.{InPlace, rollback-Original}
use resilient_datacenter.Restore.Recovering.{Recovered}
use resilient_datacenter.Restore.Applying.{
  built, Steady, Trouble, undecided, decided, Trouble-Steady, Untouched, untouched,
}
use resilient_datacenter.Restore.Suspending.{Previous, unchanged, Some, promote-Restored}

module _ {T H : Type 0} (env : Env T H) (count : ℕ) (original : ℕ → T) where
  abbrev Answer : Outcome → Pred (Disk T) Journal
  Answer o d j = Recovered count original (built env count original) o d

  abbrev Stopped : Signal → Pred (Disk T) Journal
  Stopped e d j = Steady env count original d

  abbrev Troubled : Pred (Disk T) Journal
  Troubled d j = Trouble env count original d j

  rolled-Post :
      (r : Out Done × World T H)
      → Post (λ _ d j. (d.marker ≡ absent) × Targets count (the original) d) Stopped r
      → Post Answer Stopped (rolled env r.0 r.1)
  unfolding rolled
  rolled-Post (ok a, w) h = h
  rolled-Post (raised crash, w) h = h
  rolled-Post (raised interrupt, w) h = h
  rolled-Post (raised failure, w) h =
      (seq_rule (call_rule {P = λ d j. Steady env count original d} env.finish_validation)
          (return_rule {E = Stopped} (restore_error (some false) false))).at
        w h

  attend-Answer :
      (isolated : Bool) (q : Phase) (w : World T H)
      → w.memory.phase ≡ q
      → Troubled w.disk w.memory
      → Post Answer Stopped (attend env isolated q w)
  unfolding attend
  attend-Answer isolated committed w e h = Trouble-Steady env count original w.disk w.memory h
  attend-Answer false _ w e h = Trouble-Steady env count original w.disk w.memory h
  attend-Answer true _ w e (decided c h) = absurd (cc (e, c))
  attend-Answer true _ w e (undecided p safe h) =
      rolled-Post (rollback env w)
        ((rollback-Original env count original (built env count original) p safe).at w h)

  settle-Answer :
      (isolated : Bool) (r : Out Outcome × World T H)
      → Post Answer (λ _. Troubled) r
      → Post Answer Stopped (settle env isolated r.0 r.1)
  unfolding settle
  settle-Answer isolated (ok a, w) h = h
  settle-Answer isolated (raised crash, w) h = Trouble-Steady env count original w.disk w.memory h
  settle-Answer isolated (raised interrupt, w) h =
      (seq_rule (call_rule {P = λ d j. Steady env count original d} env.finish_validation)
          (raise_rule {Q = Answer} interrupt)).at
        w (Trouble-Steady env count original w.disk w.memory h)
  settle-Answer isolated (raised failure, w) h = attend-Answer isolated w.memory.phase w refl h

module _ {T H : Type 0} (env : Env T H) (count : ℕ) (original : ℕ → T) where
  -- An answer that is true for some previous data, and a disk that is consistent for it.
  abbrev pub Answered : Outcome → Pred (Disk T) Journal
  Answered a = Some env count original (λ o d j. Recovered count o (built env count o) a d)

  abbrev pub Halted : Signal → Pred (Disk T) Journal
  Halted e = Some env count original (λ o d j. Steady env count o d)

  of_some :
      (r : Out Outcome × World T H) (o : ℕ → T)
      → Previous env original o
      → Post (λ a d j. Recovered count o (built env count o) a d) (λ e d j. Steady env count o d) r
      → Post Answered Halted r
  of_some (ok a, w) o p x = (o, (p, x))
  of_some (raised e, w) o p x = (o, (p, x))

  isolated_run-Answered :
      (r : Out Done × World T H)
      → Post (λ _. Untouched env count original) (λ _. Untouched env count original) r
      → Post Answered Halted (isolated_run env r.0 r.1)
  unfolding isolated_run settle
  isolated_run-Answered (ok a, w) h =
      settled (promote env w)
        ((promote-Restored env count original).at w (original, (unchanged, h)))
    where
      settled :
          (r : Out Outcome × World T H)
          → Post Answered (λ e. Some env count original (λ o d j. Trouble env count o d j)) r
          → Post Answered Halted (settle env true r.0 r.1)
      settled (ok b, v) x = x
      settled (raised e, v) x =
          of_some (settle env true (raised e) v) x.0 x.1.0
            (settle-Answer env count x.0 true (raised e, v) x.1.1)
  isolated_run-Answered (raised e, w) h =
      of_some (settle env false (raised e) w) original unchanged (
        settle-Answer env count original false (raised e, w)
          (untouched env count original e w.disk w.memory h))

  guarded-Answered : Hoare (Untouched env count original) (guarded env) Answered Halted
  unfolding guarded
  guarded-Answered = record {
    at = λ w h. isolated_run-Answered (call env.isolate w) ((call_rule env.isolate).at w h);
  }

  Stopped-Halted :
      (e : Signal) (d : Disk T) (j : Journal) → Steady env count original d → Halted e d j
  Stopped-Halted e d j h = (original, (unchanged, h))

  -- At rest, with the previous data in place and no workspace holding any.
  abbrev pub Fresh : Disk T → Type 0
  Fresh d = (d.marker ≡ absent) × ((i : ℕ) → i < count → InPlace (original i) (d.slots i))

  Fresh-Steady : (d : Disk T) → Fresh d → Steady env count original d
  Fresh-Steady d h = idle_original h.0 (λ i lt. (h.1 i lt).0)

  -- The new journal is in memory.
  abbrev Begun : Pred (Disk T) Journal
  Begun d j = Fresh d × (j.phase ≡ preparing) × (length j.paths ≡ count)

  abbrev Written : Pred (Disk T) Journal
  Written d j = Begun d j × (d.journals j.id ≡ holds (record j { phase = preparing }))

  marked :
      (d : Disk T) (j : Journal)
      → Written d j
      → Untouched env count original
          (record d { marker = holds (record { schema_version = 1; transaction_id = j.id }) })
          j
  marked d j h = (
    record { marked = refl; written = h.1; counted = h.0.2 },
    λ i lt. (h.0.0.1 i lt, λ l. absurd (omega arith)),
  )

  saved :
      (d : Disk T) (j : Journal)
      → Begun d j
      → Written (record d { journals = put j.id (holds j) d.journals }) j
  saved d j h = (h, ground (arith, h.1))

  publish-Untouched :
      Hoare Begun
        (save env >> write_marker env)
        (λ _. Untouched env count original)
        (Stopped env count original)
  unfolding save write_marker
  publish-Untouched =
      seq_rule {Q = Written}
        (write_rule env.disturb (λ j d. record d { journals = put j.id (holds j) d.journals }) saved
          (λ e d j h. Fresh-Steady d h.0) (λ e d j h. Fresh-Steady d h.0.0))
        (write_rule env.disturb
          (λ j d. record d {
            marker = holds (record { schema_version = 1; transaction_id = j.id });
          })
          marked (λ e d j h. Fresh-Steady d h.0.0)
          (λ e d j h. Trouble-Steady env count original d j (untouched env count original e d j h)))

  cleaned_up-Post :
      (r : Out Done × World T H)
      → Post (λ _. Untouched env count original) (Stopped env count original) r
      → Post
          (λ _. Untouched env count original)
          (Stopped env count original)
          (cleaned_up r.0 (call env.release) r.1)
  unfolding cleaned_up
  cleaned_up-Post (ok a, w) h = h
  cleaned_up-Post (raised crash, w) h = h
  cleaned_up-Post (raised interrupt, w) h =
      (seq_rule (call_rule {P = λ d j. Steady env count original d} env.release)
          (raise_rule interrupt)).at
        w h
  cleaned_up-Post (raised failure, w) h =
      (seq_rule (call_rule {P = λ d j. Steady env count original d} env.release)
          (raise_rule failure)).at
        w h

  announce-Untouched :
      Hoare Begun (announce env) (λ _. Untouched env count original) (Stopped env count original)
  unfolding announce
  announce-Untouched = record {
    at = λ w h. cleaned_up-Post ((save env >> write_marker env) w) (publish-Untouched.at w h);
  }

  plan_rule : {P : Pred (Disk T) Journal} → Hoare P (plan env) (λ _. P) (λ _. P)
  unfolding plan
  plan_rule = reading_rule _ λ w.
      seq_rule (weaken_rule (refuse_rule _) (λ d j h. h) (λ a d j h. h.0) (λ e d j h. h))
        (weaken_rule (refuse_rule _) (λ d j h. h) (λ a d j h. h.0) (λ e d j h. h))

  original_state_rule :
      {P : Pred (Disk T) Journal} (names : List String)
      → Hoare P (original_state env names) (λ _. P) (λ _. P)
  unfolding original_state
  original_state_rule [] = pure_rule []
  original_state_rule (n ∷ ns) =
      bind_rule (call_rule (env.is_active n))
        λ a. bind_rule (original_state_rule ns) λ rest. pure_rule ((n, a) ∷ rest)

  set_journal-Begun :
      (active : List (String × Bool)) (state : String)
      → length env.paths ≡ count
      → Hoare
          (λ d j. Fresh d)
          (set_journal env active state)
          (λ _. Begun)
          (Stopped env count original)
  unfolding set_journal new_journal
  set_journal-Begun active state len = record { at = λ w h. (h, refl, len) }

  -- From a fresh disk, apply ends with an answer that is true of the disk for some previous data, or it
  -- is stopped with the disk consistent.
  pub apply-Answered : length env.paths ≡ count → Hoare (λ d j. Fresh d) (apply env) Answered Halted
  unfolding apply
  apply-Answered len = seq_rule (raising_rule plan_rule fresh) (
      bind_rule (raising_rule (original_state_rule env.services) fresh) λ active.
        seq_rule (write_rule env.disturb (λ j d. d) (λ d j h. h) fresh fresh) (
          bind_rule (raising_rule (call_rule (env.prepare none)) fresh) λ state.
            seq_rule (raising_rule (set_journal-Begun active state len) Stopped-Halted)
              (seq_rule (raising_rule announce-Untouched Stopped-Halted) guarded-Answered)))
    where
      fresh : (e : Signal) (d : Disk T) (j : Journal) → Fresh d → Halted e d j
      fresh e d j h = Stopped-Halted e d j (Fresh-Steady d h)
