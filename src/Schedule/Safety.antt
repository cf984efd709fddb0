-- ===== src/Schedule/Safety.antt =====
-- The promises of refresh_runtime of scripts/backup_schedule.py.
use resilient_datacenter.Shared.{
  String, false, ◌==◌, str_eq, Option, none, some, ◌≡◌, ◌⊎◌, refl, sym, subst, Bool-cases, inl, inr,
  ◌∙◌,
}
use resilient_datacenter.Shared.Effects.{Signal, failure, Out, ok, raised, Done}
use resilient_datacenter.Shared.Hoare.{Pred, Post, some-eq, file_rule}
use resilient_datacenter.Shared.Maintenance.{Fault, none_now, before, after, land, file_op}
use resilient_datacenter.Shared.Stored.{absent, holds}
use resilient_datacenter.Schedule.State.{Intent, Disk, World, Env}
use resilient_datacenter.Schedule.Refreshing.{refresh_at, refresh_runtime}
use resilient_datacenter.Schedule.Stages.{AtRest, Underway, Finished, Consistent}
use resilient_datacenter.Schedule.Resuming
use resilient_datacenter.Schedule.Starting
use resilient_datacenter.Schedule.Starting.{Step, Stageable}

module _ {H : Type 0} (env : Env H) where
  loud-Step : (E : Signal → Pred Disk Unit) → Step env (Unit {0}) E
  loud-Step E P Q f total p q =
      file_rule env.disturb (λ j. f)
        (λ d d' j h e. let (x, e', k) = total d h in subst Q (some-eq x d' (sym e' ∙ e)) k)
        (λ s d j h. p s d tt h) (λ s d j h. q s d tt h)

  module _ (quiet : (h : H) → (env.disturb h).0 ≡ none_now) where
    landed :
        (E : Signal → Pred Disk Unit) (Q : Disk → Type 0) (w : World H) (x : Fault × H)
        (o : Option Disk) (d : Disk)
        → x.0 ≡ none_now
        → o ≡ some d
        → Q d
        → Post (λ _ d j. Q d) E (let (f, h) = x in land f o (record w { host = h }))
    unfolding land
    landed E Q w (none_now, h) none d e k q = cc
    landed E Q w (none_now, h) (some d') d e k q = subst Q (some-eq d d' (sym k)) q
    landed E Q w (before s, h) o d e k q = cc
    landed E Q w (after s, h) o d e k q = cc

    quiet-Step : (E : Signal → Pred Disk Unit) → Step env ⊥ E
    unfolding file_op
    quiet-Step E P Q f total p q = record {
      at = λ w h.
          let (d, e, k) = total w.disk h in
          landed E Q w (env.disturb w.host) (f w.disk) d (quiet w.host) e k;
    }

-- However it is disturbed, refreshing the runtime of a consistent disk leaves it consistent: either
-- the old runtime stands and no update has begun, or an update to the desired runtime can be
-- resumed and the old one is kept, or it is over. Where it returns, the desired runtime is in place.
pub refresh-Consistent :
    {H : Type 0} (env : Env H) (old desired : String) (w : World H)
    → str_eq old desired ≡ false
    → Consistent old desired w.disk
    → Post
        (λ _ d j. Finished old desired d)
        (λ _ d j. Consistent old desired d)
        (refresh_runtime env desired w)
refresh-Consistent {H} env old desired w differ c = elim c [
  | inl rest ↦
      (Starting.ready_rule env old desired (λ s d j. Consistent old desired d) (Unit {0})
          (loud-Step env) (λ s d l k. k) differ).at
        w (rest, inl tt)
  | inr (inl u) ↦
      (Resuming.Underway-rule env old desired (λ s d j. Consistent old desired d) (Unit {0})
          (loud-Step env (λ s d j. Consistent old desired d)) (λ s d l k. k) differ).at
        w u
  | inr (inr f) ↦
      (Starting.finished_rule env old desired (λ s d j. Consistent old desired d) (Unit {0})
          (loud-Step env) (λ s d l k. k)).at
        w f
]

-- The disks that an undisturbed refresh can work from.
abbrev pub Refreshable : String → String → Disk → Type 0
Refreshable old desired d =
    (AtRest old d × ((d.candidate ≡ absent) ⊎ (d.candidate ≡ holds desired)))
    ⊎ (Underway old desired d ⊎ Finished old desired d)

-- On a host that does not disturb it, refreshing the runtime never raises: from rest with a complete
-- candidate or none, from each stage of an update after its intent is recorded, and after the update,
-- it returns with the desired runtime in place, the old one kept, and neither candidate nor intent
-- left. An incomplete candidate, which a crash inside create_runtime leaves, is not among these.
pub refresh-completes :
    {H : Type 0} (env : Env H) (old desired : String) (w : World H)
    → ((h : H) → (env.disturb h).0 ≡ none_now)
    → str_eq old desired ≡ false
    → Refreshable old desired w.disk
    → Post (λ _ d j. Finished old desired d) (λ _ d j. ⊥) (refresh_runtime env desired w)
refresh-completes {H} env old desired w quiet differ c = elim c [
  | inl rest ↦
      (Starting.ready_rule env old desired (λ s d j. ⊥) ⊥ (quiet-Step env quiet) (λ s d l k. l)
          differ).at
        w (rest.0, inr rest.1)
  | inr (inl u) ↦
      (Resuming.Underway-rule env old desired (λ s d j. ⊥) ⊥ (quiet-Step env quiet (λ s d j. ⊥))
          (λ s d l k. l) differ).at
        w u
  | inr (inr f) ↦
      (Starting.finished_rule env old desired (λ s d j. ⊥) ⊥ (quiet-Step env quiet)
          (λ s d l k. l)).at
        w f
]

-- An intent that is there but is not one for the desired runtime is refused, and nothing changes.
refresh-refuses :
    {H : Type 0} (env : Env H) (desired : String) (w : World H) (intent : Intent)
    → w.disk.marker ≡ holds intent
    → str_eq intent.desired desired ≡ false
    → refresh_runtime env desired w ≡ (raised failure, w)
unfolding refresh_runtime refresh_at
refresh-refuses env desired w intent marked differ =
    rw marked (elim (Bool-cases (intent.schema_version == 1)) [
      | inl t ↦ rw (t, differ) refl
      | inr f ↦ rw f refl
    ])

module _ {H : Type 0} (env : Env H) (desired : String) where
  -- Refreshes of the runtime, the first one on `d`, each from where the last one ended or stopped.
  pub data Refreshes (d : Disk) : World H → Type 0 where
    unrefreshed : (w : World H) → w.disk ≡ d → Refreshes d w
    then_refresh :
        (w : World H) (h : H)
        → Refreshes d w
        → Refreshes d (refresh_runtime env desired (record w { host = h })).1

  ended :
      (old : String) (r : Out Done × World H)
      → Post (λ _ d j. Finished old desired d) (λ _ d j. Consistent old desired d) r
      → Consistent old desired r.1.disk
  ended old (ok a, w) p = inr (inr p)
  ended old (raised e, w) p = p

  -- After any number of refreshes for the same runtime, each stopped wherever it was or not, the
  -- disk is consistent.
  pub Refreshes-Consistent :
      {d : Disk} {w : World H} (old : String)
      → str_eq old desired ≡ false
      → Consistent old desired d
      → Refreshes d w
      → Consistent old desired w.disk
  Refreshes-Consistent old differ c (unrefreshed w e) = subst (Consistent old desired) (sym e) c
  Refreshes-Consistent old differ c (then_refresh w h rs) = ended old _ (
      refresh-Consistent env old desired (record w { host = h }) differ
        (Refreshes-Consistent old differ c rs))
