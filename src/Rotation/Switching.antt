-- ===== src/Rotation/Switching.antt =====
-- How activate of scripts/certificate_lifecycle.py falls back to the previous certificate.
use resilient_datacenter.Shared.{String, true, some, ◌≡◌, refl}
use resilient_datacenter.Shared.Effects.{failure, interrupt, crash, Out, ok, raised, Done}
use resilient_datacenter.Shared.Hoare.{Post, seq_rule}
use resilient_datacenter.Shared.Stored.{Stored, holds}
use resilient_datacenter.Rotation.State.{Info, Disk, World, Env, active_name, lookup}
use resilient_datacenter.Rotation.Activation.{
  Outcome, staged, active, activation_error, metadata_of, restart_and_verify, recovered_after,
  verify_old, fall_back,
}
use resilient_datacenter.Rotation.Soundness.{Sound, Good}
use resilient_datacenter.Rotation.Steps
use resilient_datacenter.Rotation.Steps.{Ensures}

-- The active generation has been verified, as the last thing.
pub record Recovered (d : Disk) : Type 0 where
  pub name : String
  pub info : Info
  pub is_active : d.active ≡ holds name
  pub has_metadata : metadata_of (lookup name d.generations) ≡ some info
  pub is_verified : d.verified ≡ some info.fingerprint

-- How an activation of `target` ends, that began with the pointer `old`.
abbrev pub Ending : String → Stored String → Outcome → Disk → Type 0
Ending target old (staged info) d = d.active ≡ holds target
Ending target old (active info) d = (d.active ≡ holds target) × (d.verified ≡ some info.fingerprint)
Ending target old (activation_error r) d = (d.active ≡ old) × (r ≡ true → Recovered d)

module _ {H : Type 0} (env : Env H) (target previous : String) (info : Info) where
  -- The new certificate is in place, and the old one can be put back.
  abbrev pub Switched : Disk → Type 0
  Switched d =
      Good env.digest d
      × ((d.active ≡ holds target)
          × (Sound env.digest d.generations target
              × (Sound env.digest d.generations previous
                  × (metadata_of (lookup previous d.generations) ≡ some info))))

  abbrev Fallen : Disk → Type 0
  Fallen d =
      Good env.digest d
      × ((d.active ≡ holds previous) × (metadata_of (lookup previous d.generations) ≡ some info))

  abbrev pub Answer : Outcome → Disk → Type 0
  Answer o d = Good env.digest d × Ending target (holds previous) o d

  verified-Answer :
      (r : Out Done × World H)
      → Post (λ _ d j. Fallen d × (d.verified ≡ some info.fingerprint)) (λ s d j. Fallen d) r
      → Post
          (λ o d j. Answer o d)
          (λ s d j. Good env.digest d)
          (let (x, w) = r in recovered_after env x w)
  unfolding recovered_after
  verified-Answer (ok u, w) ((good, (is_active, has_metadata)), is_verified) = (
    good,
    (
      is_active,
      λ t. record {
        name = previous;
        info = info;
        is_active = is_active;
        has_metadata = has_metadata;
        is_verified = is_verified;
      },
    ),
  )
  verified-Answer (raised failure, w) (good, (is_active, has_metadata)) =
      (good, (is_active, λ t. cc))
  verified-Answer (raised interrupt, w) (good, rest) = good
  verified-Answer (raised crash, w) (good, rest) = good

  pub fall_back_rule :
      (service hostname : String)
      → Ensures env Switched (fall_back env service hostname (some previous) (some info)) Answer
  unfolding fall_back verify_old
  fall_back_rule service hostname =
      seq_rule
        (Steps.point_rule env {P = Switched} {Q = Fallen} active_name previous (λ d p. p.0)
          (λ d p. p) (λ d p. ((p.1.1.1.0, p.0.1), (refl, p.1.1.1.1))) (λ d q. q.0))
        (record {
          at = λ w p. verified-Answer (restart_and_verify env service hostname info.fingerprint w) (
              (Steps.restart_and_verify_rule env {P = Fallen} (λ d v q. q) service hostname
                  info.fingerprint).at
                w p);
        })
