-- ===== src/Guest/Grades.antt =====
-- How far an installation has come, how often its machine was started, and the steps of the
-- operations of scripts/guest_installation.py that keep the two in line.
use resilient_datacenter.Shared.{
  ℕ, suc, ◌≤◌, ◌<◌, ◌≡◌, refl, sym, subst, Bool, true, not, ◌||◌, List, [], ◌∷◌, arith, not-false,
}
use resilient_datacenter.Shared.Effects.{Signal, refuse_if}
use resilient_datacenter.Shared.Hoare.{
  Hoare, Pred, Post, bind_rule, seq_rule, weaken_rule, call_rule, refuse_rule, pure_rule,
  write_rule, return_rule,
}
use resilient_datacenter.Shared.Stored.{Stored, absent, unsafe, holds}
use resilient_datacenter.Guest.State.{
  Phase, new, attach_requested, media_attached, installer_start_requested, finish_requested,
  disk_ready, disk_start_requested, disk_boot_observed, guest_installed_attested, other_phase,
  Record, Request, change, start_installer, start_disk, Disk, Env, Change, World,
}
use resilient_datacenter.Shared.Texts.{is_hex}
use resilient_datacenter.Guest.Observing.{
  Stage, is_stopped, is_running, acceptable, observed, read_record, load_state, write, post, enter,
}

-- The steps that cannot be taken back: the installer was asked to start, the medium was removed, the
-- disk was asked to start, it was seen running, and the login was confirmed.
abbrev pub grade : Phase → ℕ
grade new = 0
grade attach_requested = 0
grade media_attached = 0
grade installer_start_requested = 1
grade finish_requested = 2
grade disk_ready = 2
grade disk_start_requested = 3
grade disk_boot_observed = 4
grade guest_installed_attested = 5
grade (other_phase p) = 6

abbrev pub grade_of : Stored Record → ℕ
grade_of absent = 0
grade_of unsafe = 6
grade_of (holds r) = grade r.phase

abbrev pub installer_starts : List Request → ℕ
installer_starts [] = 0
installer_starts (start_installer ∷ rs) = suc (installer_starts rs)
installer_starts (start_disk ∷ rs) = installer_starts rs
installer_starts (change c d ∷ rs) = installer_starts rs

abbrev pub disk_starts : List Request → ℕ
disk_starts [] = 0
disk_starts (start_disk ∷ rs) = suc (disk_starts rs)
disk_starts (start_installer ∷ rs) = disk_starts rs
disk_starts (change c d ∷ rs) = disk_starts rs

-- The grade is at least `r`; neither start was posted before its intent was on record, none twice.
abbrev pub Sound : ℕ → Disk → Type 0
Sound r d =
    (r ≤ grade_of d.journal)
    × (installer_starts d.requests ≤ 1)
    × (disk_starts d.requests ≤ 1)
    × (grade_of d.journal < 1 → installer_starts d.requests ≡ 0)
    × (grade_of d.journal < 3 → disk_starts d.requests ≡ 0)

abbrev pub Below : ℕ → ℕ → Pred Disk Unit
Below r m d j = Sound r d × (grade_of d.journal ≤ m)

-- `a` is what load_state finds.
abbrev pub Loaded : ℕ → Record → Pred Disk Unit
Loaded r a d j = Sound r d × (grade_of d.journal ≡ grade a.phase)

-- The installer's start is on record, and not posted.
abbrev pub ReadyInstaller : ℕ → Pred Disk Unit
ReadyInstaller r d j = Sound r d × (grade_of d.journal ≡ 1) × (installer_starts d.requests ≡ 0)

-- The start of the disk is on record, and not posted.
abbrev pub ReadyDisk : ℕ → Pred Disk Unit
ReadyDisk r d j = Sound r d × (grade_of d.journal ≡ 3) × (disk_starts d.requests ≡ 0)

module _ {C H : Type 0} (env : Env C H) where
  pub write_at :
      {P Q : Pred Disk Unit} {E : Signal → Pred Disk Unit} (x : Record)
      → ((d : Disk) (j : Unit) → P d j → Q (record d { journal = holds x }) j)
      → ((e : Signal) (d : Disk) (j : Unit) → P d j → E e d j)
      → ((e : Signal) (d : Disk) (j : Unit) → Q d j → E e d j)
      → Hoare P (write env x) (λ _. Q) E
  unfolding write
  write_at x q e l = write_rule env.disturb (λ j d. record d { journal = holds x }) q e l

  -- A record of a grade that is not lower may be written.
  pub advance_rule :
      (r m : ℕ) (x : Record)
      → m ≤ grade x.phase
      → Hoare (Below r m) (write env x) (λ _. Below r (grade x.phase)) (λ e d j. Sound r d)
  advance_rule r m x le =
      write_at x
        (λ d j h. (
          (omega arith, h.0.1, h.0.2, λ g. h.0.3 (omega arith), λ g. h.0.4 (omega arith)),
          omega arith,
        ))
        (λ e d j h. h.0) (λ e d j h. h.0)

  pub record_start_rule :
      (r : ℕ) (x : Record)
      → grade x.phase ≡ 1
      → Hoare (Below r 0) (write env x) (λ _. ReadyInstaller r) (λ e d j. Sound r d)
  record_start_rule r x one =
      write_at x
        (λ d j h. (
          (omega arith, h.0.1, h.0.2, λ g. h.0.3 (omega arith), λ g. h.0.4 (omega arith)),
          one,
          h.0.3 (omega arith),
        ))
        (λ e d j h. h.0) (λ e d j h. h.0)

  pub record_disk_rule :
      (r : ℕ) (x : Record)
      → grade x.phase ≡ 3
      → Hoare (Below r 2) (write env x) (λ _. ReadyDisk r) (λ e d j. Sound r d)
  record_disk_rule r x three =
      write_at x
        (λ d j h. (
          (omega arith, h.0.1, h.0.2, λ g. h.0.3 (omega arith), λ g. h.0.4 (omega arith)),
          three,
          h.0.4 (omega arith),
        ))
        (λ e d j h. h.0) (λ e d j h. h.0)

  pub post_rule :
      {P Q : Pred Disk Unit} (x : Request)
      → ((d : Disk) (j : Unit) → P d j → Q (record d { requests = x ∷ d.requests }) j)
      → Hoare P (post env x) (λ _. Q) (λ _. Q)
  unfolding post
  post_rule {Q} x q = record {
    at = λ w p.
        (call_rule {P = Q} (env.post x)).at
          (record w { disk = record w.disk { requests = x ∷ w.disk.requests } })
          (q w.disk w.memory p);
  }

  pub change_rule :
      (r m : ℕ) (c : Change) (digest : _)
      → Hoare (Below r m) (post env (change c digest)) (λ _. Below r m) (λ _. Below r m)
  change_rule r m c digest = post_rule (change c digest) (λ d j h. h)

  pub start_installer_rule :
      (r : ℕ)
      → Hoare (ReadyInstaller r) (post env start_installer) (λ _. Below r 1) (λ _. Below r 1)
  start_installer_rule r =
      post_rule start_installer
        (λ d j h. ((h.0.0, omega arith, h.0.2, λ g. omega arith, h.0.4), omega arith))

  pub start_disk_rule :
      (r : ℕ) → Hoare (ReadyDisk r) (post env start_disk) (λ _. Below r 3) (λ _. Below r 3)
  start_disk_rule r =
      post_rule start_disk
        (λ d j h. ((h.0.0, h.0.1, omega arith, h.0.3, λ g. omega arith), omega arith))

  pub enter_rule : {P : Pred Disk Unit} → Hoare P (enter env) (λ _. P) (λ _. P)
  unfolding enter
  enter_rule = seq_rule (call_rule env.context) (call_rule env.lock)

  pub kept : {P : Pred Disk Unit} (b : Bool) → Hoare {H = H} P (refuse_if b) (λ _. P) (λ _. P)
  kept b = weaken_rule (refuse_rule b) (λ d j h. h) (λ a d j h. h.0) (λ e d j h. h)

  pub observed_rule : {P : Pred Disk Unit} (s : Stage) → Hoare P (observed env s) (λ _. P) (λ _. P)
  unfolding observed
  observed_rule s = bind_rule (call_rule env.get_config) λ c.
      bind_rule (call_rule env.get_power) λ p. seq_rule (kept (not (is_hex 40 c.digest))) (
        seq_rule (kept (not (is_stopped p || is_running p)))
          (seq_rule (kept (not (acceptable env s c))) (pure_rule (c, p))))

  pub accept_rule :
      (r m : ℕ) (test : Phase → Bool)
      → ((p : Phase) → test p ≡ true → grade p ≤ m)
      → (a : Record)
      → Hoare {H = H}
          (Loaded r a)
          (refuse_if (not (test a.phase)))
          (λ _. Below r m)
          (λ e d j. Sound r d)
  accept_rule r m test low a =
      weaken_rule (refuse_rule (not (test a.phase))) (λ d j h. h)
        (λ u d j h. (h.0.0, subst (λ n. n ≤ m) (sym h.0.1) (low a.phase (not-false _ h.1))))
        (λ e d j h. h.0)

  read_record-Post :
      (r : ℕ) (s : Stored Record) (w : World H)
      → w.disk.journal ≡ s
      → Sound r w.disk
      → Post (Loaded r) (λ e d j. Sound r d) (read_record env s w)
  unfolding read_record
  read_record-Post r absent w e h = (h, subst (λ s. grade_of s ≡ 0) (sym e) refl)
  read_record-Post r unsafe w e h = h
  read_record-Post r (holds x) w e h =
      (seq_rule
          (weaken_rule (refuse_rule {P = Loaded r x} _) (λ d j h. h) (λ a d j h. h.0)
            (λ e d j h. h.0))
          (return_rule {Q = Loaded r} x)).at
        w (h, subst (λ s. grade_of s ≡ grade x.phase) (sym e) refl)

  pub load_rule :
      (r : ℕ) → Hoare (λ d j. Sound r d) (load_state env) (Loaded r) (λ e d j. Sound r d)
  unfolding load_state
  load_rule r = record { at = λ w h. read_record-Post r w.disk.journal w refl h }
