-- ===== src/Rotation/Steps.antt =====
-- The steps of activate of scripts/certificate_lifecycle.py, on the disk.
use resilient_datacenter.Shared.{String, Bool, false, Option, none, some, ◌≡◌, refl}
use resilient_datacenter.Shared.Effects.{Out, ok, raised, Done, refuse_if}
use resilient_datacenter.Shared.Hoare.{Hoare, Post, seq_rule, weaken_rule, write_rule, refuse_rule}
use resilient_datacenter.Rotation.State.{
  Info, Generation, Disk, World, Action, Env, Name, is_new, linked_new, pointed, written, point,
}
use resilient_datacenter.Rotation.Activation.{
  Request, demand, restart, verify, restart_and_verify, write_generation, verified_by, validate,
}
use resilient_datacenter.Rotation.Soundness.{Good}

module _ {H : Type 0} (env : Env H) where
  -- From `P` the action returns with `Q`, and its disk is good where it raises.
  abbrev pub Ensures : {A : Type 0} → (Disk → Type 0) → Action H A → (A → Disk → Type 0) → Type 0
  Ensures P m Q = Hoare (λ d j. P d) m (λ a d j. Q a d) (λ s d j. Good env.digest d)

  pub demand_rule :
      {A : Type 0} {P : Disk → Type 0} (o : Option A)
      → ((d : Disk) → P d → Good env.digest d)
      → Ensures P (demand o) (λ a d. P d × (o ≡ some a))
  demand_rule none g = record { at = λ w p. g w.disk p }
  demand_rule (some a) g = record { at = λ w p. (p, refl) }

  pub demand_disk_rule :
      {A : Type 0} {P : Disk → Type 0} (f : Disk → Option A)
      → ((d : Disk) → P d → Good env.digest d)
      → Ensures P (λ w. demand (f w.disk) w) (λ a d. P d × (f d ≡ some a))
  demand_disk_rule {A} {P} f g = record { at = λ w p. demand-Post w (f w.disk) refl p }
    where
      demand-Post :
          (w : World H) (o : Option A)
          → f w.disk ≡ o
          → P w.disk
          → Post (λ a d j. P d × (f d ≡ some a)) (λ s d j. Good env.digest d) (demand o w)
      demand-Post w none e p = g w.disk p
      demand-Post w (some a) e p = (p, e)

  pub refused_rule :
      {P : Disk → Type 0} (b : Bool)
      → ((d : Disk) → P d → Good env.digest d)
      → Ensures P (refuse_if b) (λ _ d. P d × (b ≡ false))
  refused_rule b g = weaken_rule (refuse_rule b) (λ d j p. p) (λ a d j q. q) (λ s d j p. g d p)

  pub refused_disk_rule :
      {P : Disk → Type 0} (f : Disk → Bool)
      → ((d : Disk) → P d → Good env.digest d)
      → Ensures P (λ w. refuse_if (f w.disk) w) (λ _ d. P d)
  refused_disk_rule f g = record {
    at = λ w p.
        (weaken_rule (refused_rule (f w.disk) g) (λ d j q. q) (λ a d j q. q.0) (λ s d j q. q)).at w
          p;
  }

  pub point_rule :
      {P Q : Disk → Type 0} (name : Name) (target : String)
      → ((d : Disk) → P d → Good env.digest d)
      → ((d : Disk) → P d → P (linked_new name d))
      → ((d : Disk) → P d → Q (pointed name target d))
      → ((d : Disk) → Q d → Good env.digest d)
      → Ensures P (point env name target) (λ _ d. Q d)
  unfolding point
  point_rule {P} {Q} name target good links points after =
      seq_rule (refused_disk_rule (is_new name) good) (
        seq_rule {Q = λ d j. P d}
          (write_rule env.disturb (λ j d. linked_new name d) (λ d j p. links d p)
            (λ s d j p. good d p) (λ s d j p. good d p))
          (write_rule env.disturb (λ j d. pointed name target d) (λ d j p. points d p)
            (λ s d j p. good d p) (λ s d j q. after d q)))

  pub write_generation_rule :
      {P Q : Disk → Type 0} (n : String) (g : Generation)
      → ((d : Disk) → P d → Good env.digest d)
      → ((d : Disk) → P d → Q (record d { generations = written n g d.generations }))
      → ((d : Disk) → Q d → Good env.digest d)
      → Ensures P (write_generation env n g) (λ _ d. Q d)
  unfolding write_generation
  write_generation_rule n g good step after =
      write_rule env.disturb (λ j d. record d { generations = written n g d.generations })
        (λ d j p. step d p) (λ s d j p. good d p) (λ s d j q. after d q)

  pub validate_rule :
      {P : Disk → Type 0} (q : Request)
      → Hoare (λ d j. P d) (validate env q) (λ _ d j. P d) (λ s d j. P d)
  unfolding validate
  validate_rule {P} q = record {
    at = λ w p. answered w (env.validator q.certificate q.key q.hostname w.host) p;
  }
    where
      answered :
          (w : World H) (x : Out Info × H)
          → P w.disk
          → Post (λ _ d j. P d) (λ s d j. P d) (let (r, h) = x in (r, record w { host = h }))
      answered w (ok i, h) p = p
      answered w (raised s, h) p = p

  module _ {P : Disk → Type 0}
      (kept : (d : Disk) (v : Option String) → P d → P (record d { verified = v })) where
    restarted-Post :
        (w : World H) (x : Out Done × H)
        → P w.disk
        → Post
            (λ _ d j. P d)
            (λ s d j. P d)
            (let (r, h) = x in (r, record w { disk = record w.disk { verified = none }; host = h }))
    restarted-Post w (ok u, h) p = kept w.disk none p
    restarted-Post w (raised s, h) p = kept w.disk none p

    verified-Post :
        (fp : String) (w : World H) (x : Out Done × H)
        → P w.disk
        → Post
            (λ _ d j. P d × (d.verified ≡ some fp))
            (λ s d j. P d)
            (let (r, h) = x in
              (r, record w { disk = record w.disk { verified = verified_by r fp }; host = h }))
    verified-Post fp w (ok u, h) p = (kept w.disk (some fp) p, refl)
    verified-Post fp w (raised s, h) p = kept w.disk none p

    pub verify_rule :
        (hostname fp : String)
        → Hoare {H = H}
            (λ d j. P d)
            (verify env hostname fp)
            (λ _ d j. P d × (d.verified ≡ some fp))
            (λ s d j. P d)
    unfolding verify
    verify_rule hostname fp = record {
      at = λ w p. verified-Post fp w (env.verify hostname fp w.disk w.host) p;
    }

    pub restart_and_verify_rule :
        (service hostname fp : String)
        → Hoare {H = H}
            (λ d j. P d)
            (restart_and_verify env service hostname fp)
            (λ _ d j. P d × (d.verified ≡ some fp))
            (λ s d j. P d)
    unfolding restart_and_verify restart
    restart_and_verify_rule service hostname fp =
        seq_rule {Q = λ d j. P d}
          (record { at = λ w p. restarted-Post w (env.restart service w.disk w.host) p })
          (verify_rule hostname fp)
