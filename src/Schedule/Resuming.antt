-- ===== src/Schedule/Resuming.antt =====
-- How refresh_runtime of scripts/backup_schedule.py carries an update to its end.
use resilient_datacenter.Shared.{
  String, Bool, true, false, not, str_eq, Option, some, ◌≡◌, refl, sym, subst, ap, inl, inr,
}
use text.Mathlib.TextPositions.{eq_refl}
use resilient_datacenter.Shared.Effects.{Signal, refuse_if, ◌>>=◌}
use resilient_datacenter.Shared.Hoare.{Hoare, Pred, Post, seq_rule, pure_rule, if_rule}
use resilient_datacenter.Shared.Maintenance.{file_op}
use resilient_datacenter.Shared.Stored.{Stored, absent, holds}
use resilient_datacenter.Schedule.State.{Disk, Action, Env, is_present}
use resilient_datacenter.Schedule.Refreshing.{
  set_aside, put_in_place, verified, unlink_marker, expect, rename_candidate, close_update,
  replace_runtime, from_runtime, continue_at, continue_update, refresh_at, refresh_runtime,
}
use resilient_datacenter.Schedule.Stages.{
  intent_of, Announced, SetAside, InPlace, Finished, Underway, Consistent,
}

module _ {H : Type 0} (env : Env H) (old desired : String) (E : Signal → Pred Disk Unit)
    (Loud : Type 0)
    -- A file operation that can be carried out; `Loud` tells that it may also stop.
    (step : (P Q : Disk → Type 0) (f : Disk → Option Disk)
      → ((d : Disk) → P d → (d' : Disk) × (f d ≡ some d') × Q d')
      → ((s : Signal) (d : Disk) → Loud → P d → E s d tt)
      → ((s : Signal) (d : Disk) → Loud → Q d → E s d tt)
      → Hoare (λ d j. P d) (file_op env.disturb f) (λ _ d j. Q d) E)
    (trouble : (s : Signal) (d : Disk) → Loud → Consistent old desired d → E s d tt) where
  -- An action that depends on what it reads, where that is known.
  pub known_rule :
      {X A : Type 0} {P : Disk → Type 0} {Q : A → Pred Disk Unit} (f : Disk → X) (x : X)
      (m : X → Action H A)
      → ((d : Disk) → P d → f d ≡ x)
      → Hoare (λ d j. P d) (m x) Q E
      → Hoare (λ d j. P d) (λ w. m (f w.disk) w) Q E
  known_rule {Q} f x m e h = record {
    at = λ w p. subst (λ y. Post Q E (m y w)) (sym (e w.disk p)) (h.at w p);
  }

  pub passed_rule :
      {P : Pred Disk Unit} (b : Bool) → b ≡ false → Hoare {H = H} P (refuse_if b) (λ _. P) E
  passed_rule true e = cc
  passed_rule false e = pure_rule tt

  expect_rule :
      {P : Disk → Type 0} (place : Disk → Stored String) (m : String)
      → ((d : Disk) → P d → place d ≡ holds m)
      → Hoare (λ d j. P d) (expect env desired place m) (λ _ d j. P d) E
  unfolding expect
  expect_rule place m e =
      known_rule place (holds m) (λ x. verified x >>= λ n. refuse_if (not (str_eq n m))) e
        (passed_rule (not (str_eq m m)) (rw (eq_refl m)))

  unlink_rule :
      Hoare {H = H}
        (λ d j. InPlace old desired d)
        (unlink_marker env desired)
        (λ _ d j. Finished old desired d)
        E
  unfolding unlink_marker
  unlink_rule =
      step (InPlace old desired) (Finished old desired) (λ d. some (record d { marker = absent }))
        (λ d p. (
          record d { marker = absent },
          refl,
          record {
            runtime = p.runtime;
            previous = p.previous;
            candidate = p.candidate;
            marker = refl;
          },
        ))
        (λ s d l p. trouble s d l (inr (inl (inr (inr p)))))
        (λ s d l p. trouble s d l (inr (inr p)))

  rename_rule :
      Hoare {H = H}
        (λ d j. SetAside old desired d)
        (file_op env.disturb put_in_place)
        (λ _ d j. InPlace old desired d)
        E
  unfolding put_in_place
  rename_rule =
      step (SetAside old desired) (InPlace old desired) put_in_place
        (λ d p. (
          record d { candidate = absent; runtime = holds desired },
          rw (p.candidate, p.runtime) refl,
          record { runtime = refl; previous = p.previous; candidate = refl; marker = p.marker },
        ))
        (λ s d l p. trouble s d l (inr (inl (inr (inl p)))))
        (λ s d l p. trouble s d l (inr (inl (inr (inr p)))))

  rename_candidate_rule :
      Hoare {H = H}
        (λ d j. SetAside old desired d)
        (rename_candidate env desired (intent_of old desired))
        (λ _ d j. Finished old desired d)
        E
  unfolding rename_candidate
  rename_candidate_rule = seq_rule (expect_rule (λ d. d.previous) old (λ d p. p.previous)) (
      seq_rule (expect_rule (λ d. d.candidate) desired (λ d p. p.candidate)) (
        seq_rule rename_rule
          (seq_rule (expect_rule (λ d. d.runtime) desired (λ d p. p.runtime)) unlink_rule)))

  set_aside_rule :
      Hoare {H = H}
        (λ d j. Announced old desired d)
        (file_op env.disturb set_aside)
        (λ _ d j. SetAside old desired d)
        E
  unfolding set_aside
  set_aside_rule =
      step (Announced old desired) (SetAside old desired) set_aside
        (λ d p. (
          record d { runtime = absent; previous = holds old },
          rw (p.runtime, p.previous) refl,
          record { runtime = refl; previous = refl; candidate = p.candidate; marker = p.marker },
        ))
        (λ s d l p. trouble s d l (inr (inl (inl p))))
        (λ s d l p. trouble s d l (inr (inl (inr (inl p)))))

  module _ (differ : str_eq old desired ≡ false) where
    pub Announced-rule :
        Hoare {H = H}
          (λ d j. Announced old desired d)
          (continue_update env desired (intent_of old desired))
          (λ _ d j. Finished old desired d)
          E
    unfolding continue_update continue_at from_runtime replace_runtime
    Announced-rule =
        known_rule (λ d. d.runtime) (holds old) (continue_at env desired (intent_of old desired))
          (λ d p. p.runtime)
          (if_rule (str_eq old desired) (λ t. cc)
            λ f. seq_rule (passed_rule (not (str_eq old old)) (rw (eq_refl old))) (
              known_rule (λ d. is_present d.previous) false
                (replace_runtime env desired (intent_of old desired))
                (λ d p. ap is_present p.previous) (seq_rule set_aside_rule rename_candidate_rule)))

    SetAside-continues :
        Hoare {H = H}
          (λ d j. SetAside old desired d)
          (continue_update env desired (intent_of old desired))
          (λ _ d j. Finished old desired d)
          E
    unfolding continue_update continue_at
    SetAside-continues =
        known_rule (λ d. d.runtime) absent (continue_at env desired (intent_of old desired))
          (λ d p. p.runtime) rename_candidate_rule

    InPlace-continues :
        Hoare {H = H}
          (λ d j. InPlace old desired d)
          (continue_update env desired (intent_of old desired))
          (λ _ d j. Finished old desired d)
          E
    unfolding continue_update continue_at from_runtime close_update
    InPlace-continues =
        known_rule (λ d. d.runtime) (holds desired)
          (continue_at env desired (intent_of old desired)) (λ d p. p.runtime)
          (if_rule (str_eq desired desired)
            (λ t. seq_rule (expect_rule (λ d. d.previous) old (λ d p. p.previous)) unlink_rule)
            (λ f. cc (eq_refl desired)))

    -- With the marker on the disk, the update is carried to its end.
    resumed :
        (P : Disk → Type 0)
        → ((d : Disk) → P d → d.marker ≡ holds (intent_of old desired))
        → Hoare {H = H}
            (λ d j. P d)
            (continue_update env desired (intent_of old desired))
            (λ _ d j. Finished old desired d)
            E
        → Hoare {H = H}
            (λ d j. P d)
            (refresh_runtime env desired)
            (λ _ d j. Finished old desired d)
            E
    unfolding refresh_runtime refresh_at
    resumed P marked h =
        known_rule (λ d. d.marker) (holds (intent_of old desired)) (refresh_at env desired) marked
          (seq_rule (passed_rule (not (str_eq desired desired)) (rw (eq_refl desired))) h)

    pub Underway-rule :
        Hoare {H = H}
          (λ d j. Underway old desired d)
          (refresh_runtime env desired)
          (λ _ d j. Finished old desired d)
          E
    Underway-rule = record {
      at = λ w p. elim p [
        | inl a ↦ (resumed (Announced old desired) (λ d q. q.marker) Announced-rule).at w a
        | inr rest ↦ elim rest [
          | inl b ↦ (resumed (SetAside old desired) (λ d q. q.marker) SetAside-continues).at w b
          | inr c ↦ (resumed (InPlace old desired) (λ d q. q.marker) InPlace-continues).at w c
        ]
      ];
    }
