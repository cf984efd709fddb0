-- ===== src/Allocation/Creating.antt =====
-- Which machines allocate of scripts/proxmox_provision.py creates.
use resilient_datacenter.Shared.{
  ℕ, String, true, false, ◌==◌, any, Option, List, [], ◌∷◌, ◌≡◌, refl, sym, subst, ◌⊎◌, inl, inr,
  Bool-cases,
}
use resilient_datacenter.Shared.Apart.{Among, All, All-map}
use resilient_datacenter.Shared.Effects.{Out, ok, raised, pure, ◌>>◌}
use resilient_datacenter.Shared.Hoare.{
  Hoare, Post, seq_rule, bind_rule, weaken_rule, if_rule, pure_rule,
}
use resilient_datacenter.Site.Plan.{Plan, has_number}
use resilient_datacenter.Allocation.State.{Wanted, payloads, Creation, Disk, World, Env}
use resilient_datacenter.Allocation.Provisioning.{
  missing_from, is_missing_id, latest, noted, post, create_machine, create_missing, check, allocate,
}
use resilient_datacenter.Allocation.Missing.{
  missing-unlisted, unlisted-missing, latest-any, number_refl, or-true,
}
use resilient_datacenter.Allocation.Inspecting
use resilient_datacenter.Allocation.Inspecting.{Keeps}

-- A creation of one of the planned machines, whose identifier the listing before has not shown.
abbrev pub Allowed : List Wanted → Creation → Type 0
Allowed desired c = Among c.wanted desired × (has_number c.wanted.vmid c.listed ≡ false)

abbrev pub Lawful : List Wanted → Disk → Type 0
Lawful desired d = All (Allowed desired) d.posted

-- The machine was listed, or its creation was posted.
abbrev pub Accounted : Disk → Wanted → Type 0
Accounted d m =
    (any (has_number m.vmid) d.listings ≡ true)
    ⊎ (any (λ c. c.wanted.vmid == m.vmid) d.posted ≡ true)

Accounted-noted : (d : Disk) (m k : Wanted) → Accounted d m → Accounted (noted k d) m
Accounted-noted d m k (inl e) = inl e
Accounted-noted d m k (inr e) = inr (or-true (k.vmid == m.vmid) _ e)

Accounted-listed :
    (d : Disk) (l : List ℕ) (m : Wanted)
    → Accounted d m
    → Accounted (record d { listings = l ∷ d.listings }) m
Accounted-listed d l m (inl e) = inl (or-true (has_number m.vmid l) _ e)
Accounted-listed d l m (inr e) = inr e

module _ {C H : Type 0} (env : Env C H) (desired : List Wanted) (listed : List ℕ) where
  abbrev pub Begun : Disk → Type 0
  Begun d = Lawful desired d × (latest d.listings ≡ listed)

  post_rule :
      {P Q : Disk → Type 0} (m : Wanted)
      → ((d : Disk) → P d → Q (noted m d))
      → Hoare (λ d j. P d) (post env m) (λ o d j. Q d) (λ s d j. Q d)
  unfolding post
  post_rule {P} {Q} m step = record { at = λ w p. posted w (env.create m w.host) p }
    where
      posted :
          (w : World H) (x : Out (Option String) × H)
          → P w.disk
          → Post
              (λ o d j. Q d)
              (λ s d j. Q d)
              (let (r, h) = x in (r, record w { disk = noted m w.disk; host = h }))
      posted w (ok o, h) p = step w.disk p
      posted w (raised s, h) p = step w.disk p

  create_machine_rule :
      {P Q : Disk → Type 0} (m : Wanted)
      → ((d : Disk) → P d → Q (noted m d))
      → Hoare (λ d j. P d) (create_machine env m) (λ o d j. Q d) (λ s d j. Q d)
  unfolding create_machine
  create_machine_rule m step =
      bind_rule (post_rule m step) (λ upid.
        seq_rule (Inspecting.wait_task-Keeps env upid) (Inspecting.check_owned-Keeps env m))

  abbrev WithHead : (Disk → Type 0) → Wanted → Disk → Type 0
  WithHead F m d = Begun d × (F d × Accounted d m)

  shown :
      (m : Wanted)
      → Among m desired
      → is_missing_id m.vmid (missing_from listed desired) ≡ false
      → has_number m.vmid listed ≡ true
  shown m among f = elim (Bool-cases (has_number m.vmid listed)) [
    | inl t ↦ t
    | inr e ↦ cc (unlisted-missing listed desired m among e)
  ]

  none_rule :
      {F : Disk → Type 0}
      → Hoare
          (λ d j. Begun d × F d)
          (create_missing env (missing_from listed desired) [])
          (λ u d j. (Begun d × F d) × All (Accounted d) [])
          (λ s d j. Lawful desired d)
  unfolding create_missing
  none_rule = record { at = λ w p. (p, tt) }

  -- The machine of a round is settled after it.
  head_rule :
      {F : Disk → Type 0} {Q : Disk → Type 0} (m : Wanted) (ms : List Wanted)
      → Among m desired
      → ((d : Disk) (k : Wanted) → F d → F (noted k d))
      → Hoare
          (λ d j. WithHead F m d)
          (create_missing env (missing_from listed desired) ms)
          (λ u d j. Q d)
          (λ s d j. Lawful desired d)
      → Hoare
          (λ d j. Begun d × F d)
          (create_missing env (missing_from listed desired) (m ∷ ms))
          (λ u d j. Q d)
          (λ s d j. Lawful desired d)
  unfolding create_missing
  head_rule {F} m ms among stable rest =
      if_rule (is_missing_id m.vmid (missing_from listed desired))
        (λ t.
          let unlisted = missing-unlisted listed desired m.vmid t in
          seq_rule
            (weaken_rule
              (create_machine_rule {P = λ d. Begun d × F d} {Q = WithHead F m} m (λ d p. (
                (
                  ((among, subst (λ l. has_number m.vmid l ≡ false) (sym p.0.1) unlisted), p.0.0),
                  p.0.1,
                ),
                (stable d m p.1, inr (rw (number_refl m.vmid) refl)),
              )))
              (λ d j p. p) (λ u d j p. p) (λ s d j p. p.0.0))
            rest)
        (λ f.
          weaken_rule rest
            (λ d j p. (
              p.0,
              (
                p.1,
                inl (
                    latest-any m.vmid d.listings
                      (subst (λ l. has_number m.vmid l ≡ true) (sym p.0.1) (shown m among f))),
              ),
            ))
            (λ u d j p. p) (λ s d j p. p))

  -- `F` is what the machines before these have brought.
  pub create_missing_rule :
      {F : Disk → Type 0} (ms : List Wanted)
      → All (λ m. Among m desired) ms
      → ((d : Disk) (k : Wanted) → F d → F (noted k d))
      → Hoare
          (λ d j. Begun d × F d)
          (create_missing env (missing_from listed desired) ms)
          (λ u d j. (Begun d × F d) × All (Accounted d) ms)
          (λ s d j. Lawful desired d)
  create_missing_rule [] among stable = none_rule
  create_missing_rule {F} (m ∷ ms) among stable = head_rule m ms among.0 stable (
      weaken_rule
        (create_missing_rule {F = λ d. F d × Accounted d m} ms among.1
          (λ d k p. (stable d k p.0, Accounted-noted d m k p.1)))
        (λ d j p. p) (λ u d j p. ((p.0.0, p.0.1.0), (p.0.1.1, p.1))) (λ s d j p. p))

Among-all : (xs : List Wanted) → All (λ x. Among x xs) xs
Among-all [] = tt
Among-all (x ∷ xs) = (inl refl, All-map _ _ xs (λ y m. inr m) (Among-all xs))

allocate_rule :
    {C H : Type 0} (env : Env C H) (p : Plan)
    → Hoare
        (λ d j. Lawful (payloads env.digest p) d)
        (allocate env p)
        (λ u d j. Lawful (payloads env.digest p) d × All (Accounted d) (payloads env.digest p))
        (λ s d j. Lawful (payloads env.digest p) d)
unfolding allocate
allocate_rule {C} {H} env p =
    bind_rule (Inspecting.check_rule env {P = Lawful (payloads env.digest p)} (λ d l q. q) p)
      (λ missing. record {
        at = λ w q.
            subst
              (λ m.
                Post
                  (λ u d j.
                    Lawful (payloads env.digest p) d × All (Accounted d) (payloads env.digest p))
                  (λ s d j. Lawful (payloads env.digest p) d)
                  ((create_missing env m (payloads env.digest p) >> (check env p >> pure tt)) w))
              (sym q.1) ((created_rule (latest w.disk.listings)).at w (q.0, refl));
      })
  where
    created_rule :
        (listed : List ℕ)
        → Hoare {H = H}
            (λ d j. Begun env (payloads env.digest p) listed d)
            (create_missing env
                (missing_from listed (payloads env.digest p))
                (payloads env.digest p)
              >> (check env p >> pure tt))
            (λ u d j. Lawful (payloads env.digest p) d × All (Accounted d) (payloads env.digest p))
            (λ s d j. Lawful (payloads env.digest p) d)
    created_rule listed =
        seq_rule
          (weaken_rule
            (create_missing_rule env (payloads env.digest p) listed {F = λ d. Unit {0}}
              (payloads env.digest p) (Among-all (payloads env.digest p)) (λ d k u. u))
            (λ d j q. (q, tt)) (λ u d j q. (q.0.0.0, q.1)) (λ s d j q. q))
          (seq_rule
            {Q = λ d j.
              Lawful (payloads env.digest p) d × All (Accounted d) (payloads env.digest p)}
            (weaken_rule
              (Inspecting.check_rule env
                {P = λ d.
                  Lawful (payloads env.digest p) d × All (Accounted d) (payloads env.digest p)}
                (λ d l q. (
                  q.0,
                  All-map (Accounted d) (Accounted (record d { listings = l ∷ d.listings }))
                      (payloads env.digest p) (λ m s. Accounted-listed d l m s) q.1,
                ))
                p)
              (λ d j q. q) (λ r d j q. q.0) (λ s d j q. q.0))
            (pure_rule tt))

-- Whatever Proxmox answers and however it ends, allocate posts creations of planned machines only,
-- each of an identifier that the listing before it has not shown. Where it returns, every planned
-- machine was listed or its creation was posted.
pub allocate-Lawful :
    {C H : Type 0} (env : Env C H) (p : Plan) (w : World H)
    → Lawful (payloads env.digest p) w.disk
    → Post
        (λ u d j. Lawful (payloads env.digest p) d × All (Accounted d) (payloads env.digest p))
        (λ s d j. Lawful (payloads env.digest p) d)
        (allocate env p w)
allocate-Lawful env p w lawful = (allocate_rule env p).at w lawful
