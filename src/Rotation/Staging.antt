-- ===== src/Rotation/Staging.antt =====
-- How activate of scripts/certificate_lifecycle.py stages a generation.
use resilient_datacenter.Shared.{
  String, true, false, not, ◌&&◌, ◌||◌, str_eq, eq_iff, Option, none, some, ◌≡◌, refl, ap, and-true,
  not-false,
}
use resilient_datacenter.Shared.Hoare.{seq_rule, weaken_rule}
use resilient_datacenter.Shared.Stored.{Stored}
use resilient_datacenter.Rotation.State.{Info, Generation, Disk, Env, written, lookup}
use resilient_datacenter.Rotation.Activation.{
  Request, is_text, write_generation, create_generation, stage_generation,
}
use resilient_datacenter.Rotation.Soundness.{
  Sound, Good, Other, Names-Other, missing-Other, lookup-written, lookup-written_other,
}
use resilient_datacenter.Rotation.Steps
use resilient_datacenter.Rotation.Steps.{Ensures}

text_eq : (o : Option String) (s : String) → is_text o s ≡ true → o ≡ some s
text_eq none s e = cc
text_eq (some r) s e = ap some ((eq_iff r s).0 e)

module _ {H : Type 0} (env : Env H) (q : Request) (info : Info) (old : Stored String) where
  abbrev target : String
  target = env.digest q.certificate q.key

  abbrev pub Started : Disk → Type 0
  Started d = Good env.digest d × (d.active ≡ old)

  abbrev Open : Disk → Type 0
  Open d = Started d × (Other env.digest target d.active × Other env.digest target d.previous)

  abbrev pub Ready : Disk → Type 0
  Ready d = Started d × Sound env.digest d.generations target

  written_rule :
      (g : Generation)
      → Ensures env Open
          (write_generation env target g)
          (λ _ d. Open d × (lookup target d.generations ≡ some g))
  written_rule g =
      Steps.write_generation_rule env target g (λ d p. p.0.0)
        (λ d p.
          let gs = written target g d.generations in
          let unchanged : (k : String)
              → str_eq target k ≡ false
              → lookup k (written target g d.generations) ≡ lookup k d.generations =
            λ k e. lookup-written_other target k g d.generations e in
          (
            (
              (
                (
                  Names-Other env.digest target d.generations gs d.active unchanged p.1.0 p.0.0.0,
                  Names-Other env.digest target d.generations gs d.previous unchanged p.1.1 p.0.0.1,
                ),
                p.0.1,
              ),
              p.1,
            ),
            lookup-written target g d.generations,
          ))
        (λ d p. p.0.0.0)

  file_rule : (g : Generation) → Ensures env Open (write_generation env target g) (λ _ d. Open d)
  file_rule g = weaken_rule (written_rule g) (λ d j p. p) (λ a d j p. p.0) (λ s d j p. p)

  create_rule : Ensures env Open (create_generation env q target info) (λ _ d. Ready d)
  unfolding create_generation
  create_rule = seq_rule (file_rule _) (
      seq_rule (file_rule _) (
        seq_rule (file_rule _) (
          seq_rule (file_rule _) (
            seq_rule (file_rule _) (
              weaken_rule (written_rule _) (λ d j p. p)
                (λ a d j p. (
                  p.0.0,
                  record {
                    generation = _;
                    certificate = q.certificate;
                    key = q.key;
                    found = p.1;
                    has_certificate = refl;
                    has_key = refl;
                    named = refl;
                  },
                ))
                (λ s d j p. p))))))

  staged_rule :
      (c : Option Generation)
      → Ensures env
          (λ d. Started d × (lookup target d.generations ≡ c))
          (stage_generation env q target info c)
          (λ _ d. Ready d)
  unfolding stage_generation
  staged_rule none =
      weaken_rule create_rule
        (λ d j p. (
          p.0,
          (
            missing-Other env.digest d.generations target d.active p.1 p.0.0.0,
            missing-Other env.digest d.generations target d.previous p.1 p.0.0.1,
          ),
        ))
        (λ a d j p. p) (λ s d j p. p)
  staged_rule (some g) =
      seq_rule
        (weaken_rule (Steps.refused_rule env (g.is_linked || g.has_linked_files) (λ d p. p.0.0))
          (λ d j p. p) (λ a d j p. p.0) (λ s d j p. p))
        (weaken_rule
          (Steps.refused_rule env
            (not (is_text g.certificate q.certificate && is_text g.private_key q.key))
            (λ d p. p.0.0))
          (λ d j p. p)
          (λ a d j p.
            let (same, same_key) =
              and-true (is_text g.certificate q.certificate) (is_text g.private_key q.key)
                (not-false _ p.1) in
            (
              p.0.0,
              record {
                generation = g;
                certificate = q.certificate;
                key = q.key;
                found = p.0.1;
                has_certificate = text_eq g.certificate q.certificate same;
                has_key = text_eq g.private_key q.key same_key;
                named = refl;
              },
            ))
          (λ s d j p. p))

  pub stage_rule :
      Ensures env Started
        (λ w. stage_generation env q target info (lookup target w.disk.generations) w)
        (λ _ d. Ready d)
  stage_rule = record {
    at = λ w p. (staged_rule (lookup target w.disk.generations)).at w (p, refl);
  }
