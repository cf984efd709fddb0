-- ===== src/Rotation/Activating.antt =====
-- The lemmas on each part of activate of scripts/certificate_lifecycle.py.
use resilient_datacenter.Shared.{
  String, true, false, eq_iff, Option, none, some, ◌≡◌, refl, sym, subst, ap, ◌∙◌, inl, inr,
  Bool-cases, not-false, if◌then◌else◌,
}
use resilient_datacenter.Shared.Effects.{
  failure, interrupt, crash, Out, ok, raised, Done, pure, ◌>>◌,
}
use resilient_datacenter.Shared.Hoare.{
  Hoare, Post, seq_rule, bind_rule, weaken_rule, pure_rule, return_rule, if_rule, fact_rule,
  some-eq,
}
use resilient_datacenter.Shared.Stored.{Stored, absent, unsafe, holds}
use resilient_datacenter.Rotation.State.{
  Info, Generation, Generations, Disk, World, Env, active_name, lookup, point, service_of,
  generation, checked_target,
}
use resilient_datacenter.Rotation.Activation.{
  Request, Outcome, staged, active, names_target, metadata_of, restart_and_verify, verify,
  verify_again, unchanged, old_info, settle, switch, change, is_first, is_missing, proceed_with,
  activate,
}
use resilient_datacenter.Rotation.Soundness.{Good, Names-holds}
use resilient_datacenter.Rotation.Steps
use resilient_datacenter.Rotation.Steps.{Ensures}
use resilient_datacenter.Rotation.Staging
use resilient_datacenter.Rotation.Staging.{Started, Ready}
use resilient_datacenter.Rotation.Switching
use resilient_datacenter.Rotation.Switching.{Ending, Switched, Answer}
use resilient_datacenter.Rotation.Cleaning

abbrev pointer : Option String → Stored String
pointer none = absent
pointer (some p) = holds p

checked_target-some :
    (d : String) (o : Option Generation) (p : Option String)
    → checked_target d o ≡ some p
    → holds d ≡ pointer p
checked_target-some d none p e = cc
checked_target-some d (some g) p e = elim (Bool-cases g.is_linked) [
  | inl t ↦ cc (subst (λ b. (if b then none else some (some d)) ≡ some p) t e)
  | inr f ↦
      ap pointer
        (some-eq (some d) p (subst (λ b. (if b then none else some (some d)) ≡ some p) f e))
]

generation-pointer :
    (gs : Generations) (x : Stored String) (p : Option String)
    → generation gs x ≡ some p
    → x ≡ pointer p
generation-pointer gs absent p e = ap pointer (some-eq none p e)
generation-pointer gs unsafe p e = cc
generation-pointer gs (holds d) p e = checked_target-some d (lookup d gs) p e

module _ {H : Type 0} (env : Env H) (q : Request) (service : String) (info : Info) where
  abbrev target : String
  target = env.digest q.certificate q.key

  module _ (p : String) (old : Info) where
    settled-Answer :
        (r : Out Done × World H)
        → Post
            (λ _ d j. Switched env target p old d × (d.verified ≡ some info.fingerprint))
            (λ s d j. Switched env target p old d)
            r
        → Post
            (λ o d j. Answer env target p old o d)
            (λ s d j. Good env.digest d)
            (let (x, w) = r in settle env q service target (some p) info (some old) x w)
    unfolding settle
    settled-Answer (ok u, w) h = (Cleaning.complete_rule env target p info old).at w h
    settled-Answer (raised failure, w) h =
        (Switching.fall_back_rule env target p old service q.hostname).at w h
    settled-Answer (raised interrupt, w) h = h.0
    settled-Answer (raised crash, w) h = h.0

    switch_rule :
        Ensures env
          (Switched env target p old)
          (switch env q service target (some p) info (some old))
          (Answer env target p old)
    unfolding switch
    switch_rule = record {
      at = λ w h. settled-Answer (restart_and_verify env service q.hostname info.fingerprint w) (
          (Steps.restart_and_verify_rule env {P = Switched env target p old} (λ d v s. s) service
              q.hostname info.fingerprint).at
            w h);
    }

  abbrev Ended : Option String → Outcome → Disk → Type 0
  Ended previous o d = Good env.digest d × Ending target (pointer previous) o d

  abbrev Served : String → Disk → Type 0
  Served p d = Good env.digest d × (d.active ≡ holds p)

  abbrev WithOld : String → Option Info → Disk → Unit {0} → Type 0
  WithOld p o d j =
      Ready env q info (holds p) d
      × ((i : Info) × ((o ≡ some i) × (metadata_of (lookup p d.generations) ≡ some i)))

  pointed_rule :
      (p : String) (o : Option Info)
      → Hoare {H = H}
          (WithOld p o)
          (point env active_name target
            >> (if is_first q (some p)
                then pure (staged info)
                else switch env q service target (some p) info o))
          (λ o d j. Ended (some p) o d)
          (λ s d j. Good env.digest d)
  pointed_rule p none = record { at = λ w h. cc (h.1.1.0) }
  pointed_rule p (some i) =
      seq_rule
        (Steps.point_rule env {Q = Switched env target p i} active_name target (λ d h. h.0.0.0)
          (λ d h. h)
          (λ d h.
            let ready = h.0 in
            let good = ready.0.0 in
            (
              (ready.1, good.1),
              (
                refl,
                (
                  ready.1,
                  (
                    Names-holds env.digest d.generations d.active p ready.0.1 good.0,
                    h.1.1.1 ∙ sym (h.1.1.0),
                  ),
                ),
              ),
            ))
          (λ d s. s.0))
        (switch_rule p i)

  change_rule :
      (previous : Option String)
      → is_missing q previous ≡ false
      → Ensures env
          (Started env q info (pointer previous))
          (change env q service target previous info)
          (Ended previous)
  unfolding change old_info
  change_rule none known = seq_rule (Steps.refused_disk_rule env (λ d. d.is_linked) (λ d p. p.0)) (
      seq_rule (Staging.stage_rule env q info absent) (
        seq_rule {Q = λ d j. Ready env q info absent d} (pure_rule {A = Option Info} none) (
          seq_rule
            (Steps.point_rule env {Q = λ d. Good env.digest d × (d.active ≡ holds target)}
              active_name target (λ d p. p.0.0) (λ d p. p) (λ d p. ((p.1, p.0.0.1), refl))
              (λ d p. p.0))
            (if_rule q.is_initial (λ t. return_rule {Q = λ o d j. Ended none o d} (staged info))
              (λ f. cc (not-false q.is_initial known))))))
  change_rule (some p) known =
      seq_rule (Steps.refused_disk_rule env (λ d. d.is_linked) (λ d p. p.0)) (
        seq_rule (Staging.stage_rule env q info (holds p)) (
          bind_rule
            (bind_rule {R = WithOld p}
              (Steps.demand_disk_rule env (λ d. metadata_of (lookup p d.generations))
                (λ d r. r.0.0))
              (λ i.
                weaken_rule {E = λ s d j. Good env.digest d} (return_rule {Q = WithOld p} (some i))
                  (λ d j r. (r.0, (i, (refl, r.1)))) (λ o d j r. r) (λ s d j r. r)))
            (λ o. pointed_rule p o)))

  again-Post :
      (p : String)
      → target ≡ p
      → (r : Out Done × World H)
      → Post (λ _ d j. Served p d × (d.verified ≡ some info.fingerprint)) (λ s d j. Served p d) r
      → Post
          (λ o d j. Ended (some p) o d)
          (λ s d j. Good env.digest d)
          (let (x, w) = r in
            (verify_again env service q.hostname info.fingerprint x >> pure (active info)) w)
  unfolding verify_again
  again-Post p e (ok u, w) h = (h.0.0, (h.0.1 ∙ ap holds (sym e), h.1))
  again-Post p e (raised failure, w) h =
      (seq_rule
          (weaken_rule
            (Steps.restart_and_verify_rule env {P = Served p} (λ d v s. s) service q.hostname
              info.fingerprint)
            (λ d j s. s) (λ a d j s. (s.0.0, (s.0.1 ∙ ap holds (sym e), s.1))) (λ s d j r. r.0))
          (return_rule {Q = λ o d j. Ended (some p) o d} (active info))).at
        w h
  again-Post p e (raised interrupt, w) h = h.0
  again-Post p e (raised crash, w) h = h.0

  unchanged_rule :
      (previous : Option String)
      → names_target previous target ≡ true
      → Ensures env
          (Started env q info (pointer previous))
          (unchanged env q service info)
          (Ended previous)
  unfolding unchanged
  unchanged_rule none same = cc
  unchanged_rule (some p) same =
      let e : target ≡ p = (eq_iff target p).0 same in
      if_rule q.is_initial
        (λ t.
          weaken_rule {E = λ s d j. Good env.digest d}
            (return_rule {Q = λ o d j. Ended (some p) o d} (staged info))
            (λ d j s. (s.0, s.1 ∙ ap holds (sym e))) (λ o d j s. s) (λ s d j r. r))
        (λ f. record {
          at = λ w h. again-Post p e (verify env q.hostname info.fingerprint w) (
              (Steps.verify_rule env {P = Served p} (λ d v s. s) q.hostname info.fingerprint).at w
                h);
        })

  proceed_rule :
      (previous : Option String)
      → is_missing q previous ≡ false
      → Ensures env
          (Started env q info (pointer previous))
          (proceed_with env q service previous info)
          (Ended previous)
  unfolding proceed_with
  proceed_rule previous known =
      if_rule (names_target previous target) (unchanged_rule previous)
        (λ f. change_rule previous known)

pub activate_rule :
    {H : Type 0} (env : Env H) (q : Request) (x : Stored String)
    → Ensures env
        (λ d. Good env.digest d × (d.active ≡ x))
        (activate env q)
        (λ o d. Good env.digest d × Ending (env.digest q.certificate q.key) x o d)
unfolding activate
activate_rule {H} env q x =
    bind_rule {Q = λ service d j. Good env.digest d × (d.active ≡ x)}
      (weaken_rule (Steps.demand_rule env (service_of q.role) (λ d p. p.0)) (λ d j p. p)
        (λ a d j p. p.0) (λ s d j p. p))
      (λ service.
        bind_rule
          {Q = λ previous d j. (Good env.digest d × (d.active ≡ x)) × (x ≡ pointer previous)}
          (weaken_rule
            (Steps.demand_disk_rule env (λ d. generation d.generations d.active) (λ d p. p.0))
            (λ d j p. p)
            (λ previous d j p.
              (p.0, sym p.0.1 ∙ generation-pointer d.generations d.active previous p.1))
            (λ s d j p. p))
          (λ previous.
            fact_rule (x ≡ pointer previous) (λ d j p. p.1)
              (λ e. seq_rule (Steps.refused_rule env (is_missing q previous) (λ d p. p.0.0)) (
                fact_rule (is_missing q previous ≡ false) (λ d j p. p.1)
                  (λ known.
                    bind_rule {Q = λ info d j. Good env.digest d × (d.active ≡ x)}
                      (weaken_rule
                        (Steps.validate_rule env {P = λ d. Good env.digest d × (d.active ≡ x)} q)
                        (λ d j p. p.0.0) (λ info d j p. p) (λ s d j p. p.0))
                      (λ info.
                        weaken_rule (proceed_rule env q service info previous known)
                          (λ d j p. (p.0, p.1 ∙ e))
                          (λ o d j p. (
                            p.0,
                            subst (λ y. Ending (env.digest q.certificate q.key) y o d) (sym e) p.1,
                          ))
                          (λ s d j p. p)))))))
