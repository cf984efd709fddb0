-- ===== src/Rotation/Safety.antt =====
-- The promises of activate of scripts/certificate_lifecycle.py.
use resilient_datacenter.Shared.{false, none, ◌≡◌, refl, sym, subst, inl, inr, Option-cases, ◌⊎◌}
use resilient_datacenter.Shared.Effects.{failure, Out, ok, raised}
use resilient_datacenter.Shared.Hoare.{Post}
use resilient_datacenter.Shared.Stored.{absent}
use resilient_datacenter.Rotation.State.{Disk, World, Env, service_of, generation}
use resilient_datacenter.Rotation.Activation.{Request, Outcome, activate}
use resilient_datacenter.Rotation.Soundness.{Good}
use resilient_datacenter.Rotation.Switching.{Ending}
use resilient_datacenter.Rotation.Activating.{activate_rule}

-- Whatever stops it, an activation leaves both pointers at sound generations: directories with a
-- certificate and a key, of which the directory's name is the digest. Where it ends as staged or
-- active, the active pointer names the generation of the given certificate and key; where it ends
-- as active, the runtime has verified that certificate as the last thing. Where it ends with an
-- activation error, the active pointer is the one of before, and if the error says that it is
-- recovered, the runtime has verified the certificate of that generation as the last thing.
pub activate-Answered :
    {H : Type 0} (env : Env H) (q : Request) (w : World H)
    → Good env.digest w.disk
    → Post
        (λ o d j. Good env.digest d × Ending (env.digest q.certificate q.key) w.disk.active o d)
        (λ s d j. Good env.digest d)
        (activate env q w)
unfolding activate
activate-Answered {H} env q w good = (activate_rule env q w.disk.active).at w (good, refl)

module _ {H : Type 0} (env : Env H) where
  -- Activations one after the other, the first one on `d`, each from where the last one ended or
  -- stopped.
  pub data Activations (d : Disk) : World H → Type 0 where
    untouched : (w : World H) → w.disk ≡ d → Activations d w
    then_activate :
        (w : World H) (h : H) (q : Request)
        → Activations d w
        → Activations d (activate env q (record w { host = h })).1

  ended-Good :
      (Q : Outcome → Disk → Type 0) (r : Out Outcome × World H)
      → Post (λ o d j. Good env.digest d × Q o d) (λ s d j. Good env.digest d) r
      → Good env.digest r.1.disk
  ended-Good Q (ok o, w) h = h.0
  ended-Good Q (raised s, w) h = h

  -- After any number of activations of any certificates, each stopped wherever it was or not, both
  -- pointers name sound generations.
  pub Activations-Good :
      {d : Disk} {w : World H} → Good env.digest d → Activations d w → Good env.digest w.disk
  Activations-Good good (untouched w e) = subst (Good env.digest) (sym e) good
  Activations-Good good (then_activate w h q rest) =
      let before : World H = record w { host = h } in
      ended-Good (Ending (env.digest q.certificate q.key) before.disk.active)
        (activate env q before) (activate-Answered env q before (Activations-Good good rest))

-- A role without a managed certificate, an active pointer that is not safe, and a first
-- activation that is not an initial one are refused, and nothing changes.
activate-refuses :
    {H : Type 0} (env : Env H) (q : Request) (w : World H)
    → (service_of q.role ≡ none)
      ⊎ ((generation w.disk.generations w.disk.active ≡ none)
          ⊎ ((w.disk.active ≡ absent) × (q.is_initial ≡ false)))
    → activate env q w ≡ (raised failure, w)
unfolding activate
activate-refuses env q w c = elim c [
  | inl e ↦ rw e refl
  | inr rest ↦ elim (Option-cases (service_of q.role)) [
    | inl e ↦ rw e refl
    | inr (s, e) ↦
        rw e (elim rest [ inl bad ↦ rw bad refl | inr (missing, later) ↦ rw (missing, later) refl ])
  ]
]
