-- ===== src/Schedule/Starting.antt =====
-- How refresh_runtime of scripts/backup_schedule.py begins an update.
use resilient_datacenter.Shared.{
  String, true, false, not, str_eq, eq_iff, Option, some, ◌≡◌, ◌⊎◌, refl, ap, ◌∙◌, Bool-cases, inl,
  inr,
}
use text.Mathlib.TextPositions.{eq_refl}
use resilient_datacenter.Shared.Effects.{
  Signal, failure, interrupt, crash, Out, ok, raised, Done, raise, refuse_if, ◌>>◌,
}
use resilient_datacenter.Shared.Hoare.{
  Hoare, Pred, Post, seq_rule, weaken_rule, weaken-Post, pure_rule, raise_rule, if_rule,
}
use resilient_datacenter.Shared.Maintenance.{file_op, cleaned_up}
use resilient_datacenter.Shared.Stored.{Stored, absent, unsafe, holds}
use resilient_datacenter.Schedule.State.{Disk, World, Env, is_present}
use resilient_datacenter.Schedule.Refreshing.{
  write_candidate, remove_candidate, create_runtime, stage_candidate, write_intent, start_update,
  begin_at, refresh_at, refresh_runtime,
}
use resilient_datacenter.Schedule.Stages.{intent_of, AtRest, Announced, Finished, Consistent}
use resilient_datacenter.Schedule.Resuming

-- A file operation that can be carried out; `Loud` tells that it may also stop.
abbrev pub Step : {H : Type 0} → Env H → Type 0 → (Signal → Pred Disk Unit) → Type 1
Step env Loud E =
    (P Q : Disk → Type 0) (f : Disk → Option Disk)
    → ((d : Disk) → P d → (d' : Disk) × (f d ≡ some d') × Q d')
    → ((s : Signal) (d : Disk) → Loud → P d → E s d tt)
    → ((s : Signal) (d : Disk) → Loud → Q d → E s d tt)
    → Hoare (λ d j. P d) (file_op env.disturb f) (λ _ d j. Q d) E

-- A candidate is complete or not there, or the update may stop at it.
abbrev pub Stageable : Type 0 → String → Stored String → Type 0
Stageable Loud desired c = Loud ⊎ ((c ≡ absent) ⊎ (c ≡ holds desired))

manifest_eq : (m n : String) → ◌≡◌ {A = Stored String} (holds m) (holds n) → m ≡ n
manifest_eq m n e = cc

module _ {H : Type 0} (env : Env H) (old desired : String) (E : Signal → Pred Disk Unit)
    (Loud : Type 0) (step : (X : Signal → Pred Disk Unit) → Step env Loud X)
    (trouble : (s : Signal) (d : Disk) → Loud → Consistent old desired d → E s d tt) where
  -- Where writing the candidate stops, no update has begun.
  abbrev Stopped : Signal → Pred Disk Unit
  Stopped s d j = Loud × AtRest old d

  candidate_rule :
      (c : Stored String) (P : Disk → Type 0)
      → ((d : Disk) → P d → AtRest old d)
      → Hoare {H = H}
          (λ d j. P d)
          (file_op env.disturb (λ d. some (record d { candidate = c })))
          (λ _ d j. AtRest old d × (d.candidate ≡ c))
          Stopped
  candidate_rule c P rest =
      step Stopped P (λ d. AtRest old d × (d.candidate ≡ c))
        (λ d. some (record d { candidate = c }))
        (λ d p.
          let r = rest d p in
          (
            record d { candidate = c },
            refl,
            (record { runtime = r.runtime; previous = r.previous; marker = r.marker }, refl),
          ))
        (λ s d l p. (l, rest d p)) (λ s d l p. (l, p.0))

  write_candidate_rule :
      Hoare {H = H}
        (λ d j. AtRest old d)
        (write_candidate env desired)
        (λ _ d j. AtRest old d × (d.candidate ≡ holds desired))
        Stopped
  unfolding write_candidate
  write_candidate_rule =
      seq_rule (candidate_rule unsafe (AtRest old) (λ d p. p))
        (candidate_rule (holds desired) (λ d. AtRest old d × (d.candidate ≡ unsafe)) (λ d p. p.0))

  removed_rule :
      (e : Signal)
      → Hoare {H = H}
          (λ d j. Loud × AtRest old d)
          (remove_candidate env desired >> raise {A = Done} e)
          (λ _ d j. AtRest old d × (d.candidate ≡ holds desired))
          Stopped
  unfolding remove_candidate
  removed_rule e =
      seq_rule {Q = λ d j. Loud × AtRest old d}
        (step Stopped (λ d. Loud × AtRest old d) (λ d. Loud × AtRest old d)
          (λ d. some (record d { candidate = absent }))
          (λ d p.
            let r = p.1 in
            (
              record d { candidate = absent },
              refl,
              (p.0, record { runtime = r.runtime; previous = r.previous; marker = r.marker }),
            ))
          (λ s d l p. p) (λ s d l p. p))
        (raise_rule e)

  cleaned-Post :
      (x : Out Done × World H)
      → Post (λ _ d j. AtRest old d × (d.candidate ≡ holds desired)) Stopped x
      → Post
          (λ _ d j. AtRest old d × (d.candidate ≡ holds desired))
          Stopped
          (cleaned_up x.0 (remove_candidate env desired) x.1)
  unfolding cleaned_up
  cleaned-Post (ok a, v) h = h
  cleaned-Post (raised crash, v) h = h
  cleaned-Post (raised failure, v) h = (removed_rule failure).at v h
  cleaned-Post (raised interrupt, v) h = (removed_rule interrupt).at v h

  create_rule :
      Hoare {H = H}
        (λ d j. AtRest old d)
        (create_runtime env desired)
        (λ _ d j. AtRest old d × (d.candidate ≡ holds desired))
        E
  unfolding create_runtime
  create_rule = record {
    at = λ w p.
        weaken-Post {Q = λ _ d j. AtRest old d × (d.candidate ≡ holds desired)} {E = Stopped} _
          (λ a d j q. q) (λ s d j q. trouble s d q.0 (inl q.1))
          (cleaned-Post (write_candidate env desired w) (write_candidate_rule.at w p));
  }

  stops_rule :
      {A : Type 0} {P : Disk → Type 0} {Q : A → Pred Disk Unit} (e : Signal)
      → ((d : Disk) → P d → Loud × AtRest old d)
      → Hoare {H = H} (λ d j. P d) (raise e) Q E
  stops_rule e h = record {
    at = λ w p. let (l, rest) = h w.disk p in trouble e w.disk l (inl rest);
  }

  same_rule :
      (m : String)
      → str_eq m desired ≡ true
      → Hoare {H = H}
          (λ d j. AtRest old d × (d.candidate ≡ holds m))
          (refuse_if (not (str_eq m desired)))
          (λ _ d j. AtRest old d × (d.candidate ≡ holds desired))
          E
  same_rule m same =
      weaken_rule
        (Resuming.passed_rule env old desired E Loud (step E) trouble (not (str_eq m desired))
          (rw same refl))
        (λ d j p. p) (λ a d j q. (q.0, q.1 ∙ ap holds ((eq_iff m desired).0 same))) (λ s d j q. q)

  staged_rule :
      (c : Stored String)
      → Stageable Loud desired c
      → Hoare {H = H}
          (λ d j. AtRest old d × (d.candidate ≡ c))
          (stage_candidate env desired c)
          (λ _ d j. AtRest old d × (d.candidate ≡ holds desired))
          E
  unfolding stage_candidate
  staged_rule absent k = weaken_rule create_rule (λ d j p. p.0) (λ a d j q. q) (λ s d j q. q)
  staged_rule unsafe (inl l) = stops_rule failure (λ d p. (l, p.0))
  staged_rule unsafe (inr (inl e)) = absurd (cc)
  staged_rule unsafe (inr (inr e)) = absurd (cc)
  staged_rule (holds m) (inl l) = elim (Bool-cases (str_eq m desired)) [
    | inl t ↦ same_rule m t
    | inr f ↦ rw f (stops_rule failure (λ d p. (l, p.0)))
  ]
  staged_rule (holds m) (inr (inl e)) = absurd (cc)
  staged_rule (holds m) (inr (inr e)) = same_rule m ((eq_iff m desired).1 (manifest_eq m desired e))

  intent_rule :
      Hoare {H = H}
        (λ d j. AtRest old d × (d.candidate ≡ holds desired))
        (write_intent env desired (intent_of old desired))
        (λ _ d j. Announced old desired d)
        E
  unfolding write_intent
  intent_rule =
      step E (λ d. AtRest old d × (d.candidate ≡ holds desired)) (Announced old desired)
        (λ d. some (record d { marker = holds (intent_of old desired) }))
        (λ d p.
          let r = p.0 in
          (
            record d { marker = holds (intent_of old desired) },
            refl,
            record { runtime = r.runtime; previous = r.previous; candidate = p.1; marker = refl },
          ))
        (λ s d l p. trouble s d l (inl p.0)) (λ s d l p. trouble s d l (inr (inl (inl p))))

  module _ (differ : str_eq old desired ≡ false) where
    -- The update that begins with a candidate of a given kind.
    begun_rule :
        (c : Stored String)
        → Stageable Loud desired c
        → Hoare {H = H}
            (λ d j. AtRest old d × (d.candidate ≡ c))
            (start_update env desired old)
            (λ _ d j. Finished old desired d)
            E
    unfolding start_update
    begun_rule c k =
        seq_rule
          (Resuming.known_rule env old desired E Loud (step E) trouble (λ d. is_present d.previous)
            false refuse_if (λ d p. ap is_present p.0.previous)
            (Resuming.passed_rule env old desired E Loud (step E) trouble false refl))
          (seq_rule
            (Resuming.known_rule env old desired E Loud (step E) trouble (λ d. d.candidate) c
              (stage_candidate env desired) (λ d p. p.1) (staged_rule c k))
            (seq_rule intent_rule
              (Resuming.Announced-rule env old desired E Loud (step E) trouble differ)))

    pub ready_rule :
        Hoare {H = H}
          (λ d j. AtRest old d × Stageable Loud desired d.candidate)
          (refresh_runtime env desired)
          (λ _ d j. Finished old desired d)
          E
    unfolding refresh_runtime refresh_at begin_at
    ready_rule = record { at = λ w p. (from_rest w.disk.candidate p.1).at w (p.0, refl) }
      where
        from_rest :
            (c : Stored String)
            → Stageable Loud desired c
            → Hoare {H = H}
                (λ d j. AtRest old d × (d.candidate ≡ c))
                (refresh_runtime env desired)
                (λ _ d j. Finished old desired d)
                E
        from_rest c k =
            Resuming.known_rule env old desired E Loud (step E) trouble (λ d. d.marker) absent
              (refresh_at env desired) (λ d p. p.0.marker)
              (Resuming.known_rule env old desired E Loud (step E) trouble (λ d. d.runtime)
                (holds old) (begin_at env desired) (λ d p. p.0.runtime)
                (if_rule (str_eq old desired) (λ t. cc) (λ f. begun_rule c k)))

  -- An update that is over is not made again.
  pub finished_rule :
      Hoare {H = H}
        (λ d j. Finished old desired d)
        (refresh_runtime env desired)
        (λ _ d j. Finished old desired d)
        E
  unfolding refresh_runtime refresh_at begin_at
  finished_rule =
      Resuming.known_rule env old desired E Loud (step E) trouble (λ d. d.marker) absent
        (refresh_at env desired) (λ d p. p.marker)
        (Resuming.known_rule env old desired E Loud (step E) trouble (λ d. d.runtime)
          (holds desired) (begin_at env desired) (λ d p. p.runtime)
          (if_rule (str_eq desired desired) (λ t. pure_rule tt) (λ f. cc (eq_refl desired))))
