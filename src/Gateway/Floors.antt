-- ===== src/Gateway/Floors.antt =====
-- suspend of scripts/gateway_recovery.py: a restored gateway asks for approvals that are newer than
-- all that it knew.
use resilient_datacenter.Shared.{
  ℕ, ◌≤◌, ◌^◌, ◌≡◌, refl, sym, subst, true, not, ◌&&◌, ltb, Option, none, some, String, arith,
  if◌then◌else◌,
}
use resilient_datacenter.Shared.Effects.{failure, Done, pure, raise, refuse_if, ◌>>=◌, ◌>>◌}
use resilient_datacenter.Shared.Maintenance.{file_op}
use resilient_datacenter.Shared.Hoare.{
  Hoare, Pred, Post, bind_rule, seq_rule, raising_rule, weaken_rule, return_rule, raise_rule,
  write_rule,
}
use resilient_datacenter.Shared.Stored.{Stored, absent, unsafe, holds}
use resilient_datacenter.Shared.Texts.{is_hex}
use resilient_datacenter.Gateway.State.{Recovery, Disk, World, Action, Env}
use resilient_datacenter.Gateway.Store.{known_floor, load_recovery}
use resilient_datacenter.Gateway.History.{kept}

abbrev pub maximum : ℕ → ℕ → ℕ
maximum a b = if ltb a b then b else a

abbrev pub floor_known : Option Recovery → ℕ
floor_known none = 0
floor_known (some r) = r.approval_floor

module _ {A H : Type 0} (env : Env A H) where
  unfoldable pub write_recovery : Recovery → Action A H Done
  write_recovery r = file_op env.disturb (λ d. some (record d { recovery = holds r }))

  unfoldable pub write_reference : ℕ → Action A H Done
  write_reference n = file_op env.disturb (λ d. some (record d { reference = holds n }))

  -- `clock` is what clock.json holds.
  unfoldable pub clock_floor : Stored ℕ → ℕ → Action A H ℕ
  clock_floor absent n = pure n
  clock_floor unsafe n = raise failure
  clock_floor (holds latest) n = refuse_if (not (ltb latest (2 ^ 53))) >> pure (maximum n latest)

  unfoldable pub suspend : String → Stored ℕ → ℕ → Action A H Recovery
  suspend transaction clock now = do
    previous ← load_recovery env
    refuse_if (not (is_hex 32 transaction && ltb 0 now && ltb now (2 ^ 53)))
    floor ← clock_floor clock (maximum now (floor_known previous))
    write_recovery (record { approval_floor = floor; review_pending = true })
    write_reference floor
    pure (record { approval_floor = floor; review_pending = true })

abbrev pub floor_of : Stored Recovery → ℕ
floor_of absent = 0
floor_of unsafe = 0
floor_of (holds r) = r.approval_floor

-- The floor is at least `f`, and the reference is not above it.
abbrev pub Floor : {A : Type 0} → ℕ → Disk A → Type 0
Floor f d = (f ≤ floor_of d.recovery) × ((n : ℕ) → d.reference ≡ holds n → n ≤ floor_of d.recovery)

holds-eq : (a b : ℕ) → holds a ≡ holds b → a ≡ b
holds-eq a b h = ground arith

module _ {A H : Type 0} (env : Env A H) where
  -- The record that is loaded is the one on the disk.
  abbrev Known : ℕ → Option Recovery → Pred (Disk A) Unit
  Known f o d j = Floor f d × (floor_of d.recovery ≡ floor_known o)

  known_floor-Known :
      (f : ℕ) (n : Stored ℕ) (r : Stored Recovery) (w : World A H)
      → w.disk.recovery ≡ r
      → Floor f w.disk
      → Post (Known f) (λ e d j. Floor f d) (known_floor env n r w)
  unfolding known_floor
  known_floor-Known f absent absent w e h = (h, subst (λ x. floor_of x ≡ 0) (sym e) refl)
  known_floor-Known f absent (holds r) w e h =
      (h, subst (λ x. floor_of x ≡ r.approval_floor) (sym e) refl)
  known_floor-Known f absent unsafe w e h = h
  known_floor-Known f (holds n) absent w e h = h
  known_floor-Known f (holds n) unsafe w e h = h
  known_floor-Known f unsafe r w e h = h
  known_floor-Known f (holds n) (holds r) w e h =
      (seq_rule (raising_rule (kept env {P = Known f (some r)} _) (λ s d j k. k.0))
          (return_rule {Q = Known f} (some r))).at
        w (h, subst (λ x. floor_of x ≡ r.approval_floor) (sym e) refl)

  load_rule : (f : ℕ) → Hoare (λ d j. Floor f d) (load_recovery env) (Known f) (λ e d j. Floor f d)
  unfolding load_recovery
  load_rule f = record { at = λ w h. known_floor-Known f w.disk.reference w.disk.recovery w refl h }

  -- The new floor is not below the one on the disk.
  abbrev Above : ℕ → ℕ → Pred (Disk A) Unit
  Above f n d j = Floor f d × (floor_of d.recovery ≤ n)

  clock_rule :
      (f m : ℕ) (clock : Stored ℕ)
      → Hoare (Above f m) (clock_floor env clock m) (λ n. Above f n) (λ e d j. Floor f d)
  unfolding clock_floor
  clock_rule f m absent = return_rule {Q = λ n. Above f n} m
  clock_rule f m unsafe =
      weaken_rule (raise_rule failure) (λ d j h. h) (λ n d j h. h) (λ e d j h. h.0)
  clock_rule f m (holds latest) = seq_rule (raising_rule (kept env _) (λ e d j h. h.0)) (
      weaken_rule {E = λ e d j. Floor f d} (return_rule {Q = λ n. Above f n} (maximum m latest))
        (λ d j h. (h.0, ground (arith, h.1))) (λ n d j h. h) (λ e d j h. h))

  -- The recovery record says the floor `n`.
  abbrev Raised : ℕ → ℕ → Pred (Disk A) Unit
  Raised f n d j =
      Floor f d × (d.recovery ≡ holds (record { approval_floor = n; review_pending = true }))

  -- Both files say the floor of the record.
  abbrev pub Suspended : ℕ → Recovery → Pred (Disk A) Unit
  Suspended f r d j = Floor f d × (d.recovery ≡ holds r) × (d.reference ≡ holds r.approval_floor)

  raised_rule :
      (f n : ℕ)
      → Hoare
          (Above f n)
          (write_recovery env (record { approval_floor = n; review_pending = true }))
          (λ _. Raised f n)
          (λ e d j. Floor f d)
  unfolding write_recovery
  raised_rule f n =
      write_rule env.disturb
        (λ j d. record d {
          recovery = holds (record { approval_floor = n; review_pending = true });
        })
        (λ d j h. ((omega (arith, h.0.0, h.1), λ m e. omega (arith, h.0.1 m e, h.1)), refl))
        (λ e d j h. h.0) (λ e d j h. h.0)

  refer_rule :
      (f n : ℕ)
      → Hoare
          (Raised f n)
          (write_reference env n)
          (λ _. Suspended f (record { approval_floor = n; review_pending = true }))
          (λ e d j. Floor f d)
  unfolding write_reference
  refer_rule f n =
      write_rule env.disturb (λ j d. record d { reference = holds n })
        (λ d j h. (
          (
            h.0.0,
            λ m e.
                subst (λ r. m ≤ floor_of r) (sym h.1)
                  (subst (λ x. x ≤ n) (holds-eq n m e) (omega arith)),
          ),
          h.1,
          refl,
        ))
        (λ e d j h. h.0) (λ e d j h. h.0)

  suspend_rule :
      (f : ℕ) (transaction : String) (clock : Stored ℕ) (now : ℕ)
      → Hoare
          (λ d j. Floor f d)
          (suspend env transaction clock now)
          (Suspended f)
          (λ e d j. Floor f d)
  unfolding suspend
  suspend_rule f transaction clock now = bind_rule (load_rule f) λ o.
      seq_rule (raising_rule (kept env _) (λ e d j h. h.0)) (
        bind_rule
          (weaken_rule (clock_rule f (maximum now (floor_known o)) clock)
            (λ d j h. (h.0, ground (arith, h.1))) (λ n d j h. h) (λ e d j h. h))
          λ n. seq_rule (raised_rule f n) (
            seq_rule (refer_rule f n) (
              return_rule {Q = Suspended f}
                (record { approval_floor = n; review_pending = true }))))

  -- suspend, on a gateway whose recovery record is not older than the reference: where it returns, both
  -- files say the floor of the record that it returns, and that is not below the floor before; where it
  -- is stopped, at any step, the floor on the disk is not below the floor before, and the recovery
  -- record is still not older than the reference, so that load accepts it.
  pub suspend-Floor :
      (transaction : String) (clock : Stored ℕ) (now : ℕ) (w : World A H)
      → ((n : ℕ) → w.disk.reference ≡ holds n → n ≤ floor_of w.disk.recovery)
      → Post
          (Suspended (floor_of w.disk.recovery))
          (λ e d j. Floor (floor_of w.disk.recovery) d)
          (suspend env transaction clock now w)
  suspend-Floor transaction clock now w h =
      (suspend_rule (floor_of w.disk.recovery) transaction clock now).at w (omega arith, h)
