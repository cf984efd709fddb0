-- ===== src/Upgrade/Replacing.antt =====
-- The lemmas on stage and restore of scripts/upgrade_files.py.
use resilient_datacenter.Shared.{
  ℕ, suc, ◌≤◌, ◌<◌, Bool, true, false, not, ◌||◌, ◌==◌, [], ◌≡◌, refl, sym, subst, ◌∙◌, Bool-cases,
  inl, inr, arith, length, ◌⊎◌,
}
use resilient_datacenter.Shared.Effects.{refuse_if, ◌>>◌}
use resilient_datacenter.Shared.Hoare.{
  Post, seq_rule, weaken_rule, pure_rule, for_each_rule, for_each_reversed_rule, beyond,
  beyond-eq-add,
}
use resilient_datacenter.Shared.Stored.{put}
use resilient_datacenter.Restore.State.{Slot}
use resilient_datacenter.Restore.Files.{
  made, set_aside, promoted, removed, brought_back, has_old, is_linked,
}
use resilient_datacenter.Upgrade.Files.{
  Tree, World, Env, is_here, copied_from, slot_op, inspect, preflight, is_spacious, measure,
  copy_resource, stage, put_back, put_back_if, restore,
}
use resilient_datacenter.Upgrade.Originals
use resilient_datacenter.Upgrade.Originals.{
  original, Same, Guards, Any, HasOld, HasNone, Replaced, made-Kept, copied-Kept, set_aside-Kept,
  promoted-Kept, removed-Kept, brought_back-Kept, HasNone-target, put_other,
}

module _ {T : Type 0} where
  abbrev pub Below : ℕ → (Slot T → Type 0) → Tree T → Type 0
  Below k P d = (j : ℕ) → j < k → P (d j)

  abbrev pub Between : ℕ → ℕ → (Slot T → Type 0) → Tree T → Type 0
  Between k n P d = (j : ℕ) → k ≤ j → j < n → P (d j)

  put-Below :
      (k : ℕ) (P : Slot T → Type 0) (d : Tree T) (s : Slot T) → Below k P d → Below k P (put k s d)
  put-Below k P d s h j l = subst P (sym (put_other k j s d (ground arith))) (h j l)

  Below-suc : (k : ℕ) (P : Slot T → Type 0) (d : Tree T) → P (d k) → Below k P d → Below (suc k) P d
  Below-suc k P d p h j l = elim (Bool-cases (j == k)) [
    | inl t ↦ subst (λ i. P (d i)) (same t) p
    | inr f ↦ h j (ground arith)
  ]
    where
      same : j == k ≡ true → k ≡ j
      same t = ground arith

  put-Between :
      (k n : ℕ) (P : Slot T → Type 0) (d : Tree T) (s : Slot T)
      → Between (suc k) n P d
      → Between (suc k) n P (put k s d)
  put-Between k n P d s h j l m = subst P (sym (put_other k j s d (ground arith))) (h j l m)

  Between-suc :
      (k n : ℕ) (P : Slot T → Type 0) (d : Tree T)
      → P (d k)
      → Between (suc k) n P d
      → Between k n P d
  Between-suc k n P d p h j l m = elim (Bool-cases (j == k)) [
    | inl t ↦ subst (λ i. P (d i)) (same t) p
    | inr f ↦ h j (ground arith) m
  ]
    where
      same : j == k ≡ true → k ≡ j
      same t = ground arith

module _ {T H : Type 0} (env : Env T H) (d : Tree T) where
  abbrev Nothing : Tree T → Type 0
  Nothing e = Unit {0}

  copy_rule :
      (i : ℕ) (f : T → T)
      → Guards env d Nothing (slot_op env i (λ s. copied_from f s.target s)) Nothing
  copy_rule i f =
      weaken_rule
        (Originals.slot_rule env d i (λ s. copied_from f s.target s) Any Any Nothing
          (λ s s' p h. copied-Kept f s.target s.target s.workspace s' h) (λ e s u. u))
        (λ e j p. (p.0, (tt, tt))) (λ a e j p. (p.0, tt)) (λ s e j p. p)

  prepared_rule : (i : ℕ) → Guards env d Nothing (slot_op env i made >> copy_resource env i) Nothing
  unfolding copy_resource
  prepared_rule i =
      seq_rule
        (weaken_rule
          (Originals.slot_rule env d i made Any Any Nothing
            (λ s s' p h. made-Kept s.target s.workspace s' h) (λ e s u. u))
          (λ e j p. (p.0, (tt, tt))) (λ a e j p. (p.0, tt)) (λ s e j p. p))
        (seq_rule (copy_rule i env.partial) (copy_rule i (λ t. t)))

  loop_rule :
      (k : ℕ)
      → Guards env d
          (Below k Replaced)
          (slot_op env k set_aside >> slot_op env k promoted)
          (Below (suc k) Replaced)
  loop_rule k =
      seq_rule
        (weaken_rule
          (Originals.slot_rule env d k set_aside Any HasOld (Below k Replaced)
            (λ s s' p h. set_aside-Kept s.target s.workspace s' h)
            (λ e s h. put-Below k Replaced e s h))
          (λ e j p. (p.0, (tt, p.1))) (λ a e j p. p) (λ s e j p. p))
        (weaken_rule
          (Originals.slot_rule env d k promoted HasOld Replaced (Below k Replaced)
            (λ s s' p h. promoted-Kept s.target s.workspace s' p h)
            (λ e s h. put-Below k Replaced e s h))
          (λ e j p. p) (λ a e j p. (p.0, Below-suc k Replaced e p.1.0 p.1.1)) (λ s e j p. p))

  pub stage_rule : Guards env d Nothing (stage env) (Below (length env.names) Replaced)
  unfolding stage preflight
  stage_rule =
      seq_rule
        (Originals.keeps_rule env d Nothing
          (λ w. not (is_spacious env w (measure env 0 env.names [] w))))
        (seq_rule {Q = λ e j. Same d e × Nothing e}
          (for_each_rule (λ k e j. Same d e × Nothing e) 0 env.names (λ k n. prepared_rule k))
          (weaken_rule
            (for_each_rule (λ k e j. Same d e × Below k Replaced e) 0 env.names
              (λ k n. loop_rule k))
            (λ e j p. (p.0, λ j l. absurd (omega (arith, l))))
            (λ a e j p. (p.0, subst (λ k. Below k Replaced e) (names_end 0) p.1)) (λ s e j p. p)))
    where
      names_end : (i : ℕ) → beyond 0 env.names ≡ length env.names
      names_end i = omega (arith, beyond-eq-add 0 env.names)

  -- One round of restore, after which no old copy is left in the workspace.
  brought_back_rule :
      (k n : ℕ) (b : Bool)
      → Guards env d
          (λ e. (has_old (e k).workspace ≡ b) × Between (suc k) n HasNone e)
          (put_back_if env b k)
          (Between k n HasNone)
  brought_back_rule k n true =
      seq_rule
        (Originals.slot_rule env d k removed HasOld HasOld (Between (suc k) n HasNone)
          (λ s s' p h. removed-Kept s.target s.workspace s' p h)
          (λ e s h. put-Between k n HasNone e s h))
        (weaken_rule
          (Originals.slot_rule env d k brought_back Any HasNone (Between (suc k) n HasNone)
            (λ s s' p h. brought_back-Kept s.target s.workspace s' h)
            (λ e s h. put-Between k n HasNone e s h))
          (λ e j p. (p.0, (tt, p.1.1))) (λ a e j p. (p.0, Between-suc k n HasNone e p.1.0 p.1.1))
          (λ s e j p. p))
  brought_back_rule k n false =
      weaken_rule (pure_rule tt) (λ e j p. (p.0, Between-suc k n HasNone e p.1.0 p.1.1))
        (λ a e j p. p) (λ s e j p. p)

  put_back_rule :
      (k n : ℕ) → Guards env d (Between (suc k) n HasNone) (put_back env k) (Between k n HasNone)
  unfolding put_back
  put_back_rule k n = record {
    at = λ w p.
        (seq_rule
            (weaken_rule
              (Originals.keeps_rule env d
                (λ e.
                  (has_old (e k).workspace ≡ has_old (w.disk k).workspace)
                  × Between (suc k) n HasNone e)
                (λ v. is_linked (w.disk k).workspace))
              (λ e j q. q) (λ a e j q. q) (λ s e j q. q))
            (brought_back_rule k n (has_old (w.disk k).workspace))).at
          w (p.0, (refl, p.1));
  }

  inspect_rule :
      (k n : ℕ)
      → Guards env d
          (λ e. Between 0 n HasNone e × Below k (λ s. is_here s.target ≡ true) e)
          (inspect env k)
          (λ e. Between 0 n HasNone e × Below (suc k) (λ s. is_here s.target ≡ true) e)
  unfolding inspect
  inspect_rule k n = record {
    at =
        λ w p. inspected w p (Bool-cases (is_here (w.disk k).target)) (env.place w.host k).is_owned;
  }
    where
      Here : Slot T → Type 0
      Here s = is_here s.target ≡ true

      inspected :
          (w : World T H)
          → Same d w.disk × (Between 0 n HasNone w.disk × Below k Here w.disk)
          → (is_here (w.disk k).target ≡ true) ⊎ (is_here (w.disk k).target ≡ false)
          → (owned : Bool)
          → Post
              (λ a e j. Same d e × (Between 0 n HasNone e × Below (suc k) Here e))
              (λ s e j. Same d e)
              (refuse_if (not (is_here (w.disk k).target) || not owned) w)
      inspected w p (inl t) true = rw t (p.0, (p.1.0, Below-suc k Here w.disk t p.1.1))
      inspected w p (inl t) false = rw t p.0
      inspected w p (inr f) owned = rw f p.0

  -- The data of every resource is the original.
  abbrev pub Restored : Tree T → Type 0
  Restored e =
      (j : ℕ)
      → j < length env.names
      → ((e j).target ≡ original (d j)) × (is_here (e j).target ≡ true)

  pub restore_rule : Guards env d Nothing (restore env) Restored
  unfolding restore
  restore_rule =
      seq_rule {Q = λ e j. Same d e × Between 0 (length env.names) HasNone e}
        (weaken_rule
          (for_each_reversed_rule (λ k e j. Same d e × Between k (length env.names) HasNone e) 0
            env.names (λ k n. put_back_rule k (length env.names)))
          (λ e j p. (p.0, λ j l m. absurd (omega (arith, l, m, beyond-eq-add 0 env.names))))
          (λ a e j p. p) (λ s e j p. p))
        (weaken_rule
          (for_each_rule
            (λ k e j.
              Same d e
              × (Between 0 (length env.names) HasNone e × Below k (λ s. is_here s.target ≡ true) e))
            0 env.names (λ k n. inspect_rule k (length env.names)))
          (λ e j p. (p.0, (p.1, λ j l. absurd (omega (arith, l)))))
          (λ a e j p. (
            p.0,
            λ j l. (
              sym (HasNone-target (e j).target (e j).workspace (p.1.0 j (omega arith) l)) ∙ p.0 j,
              p.1.1 j (omega (arith, l, beyond-eq-add 0 env.names)),
            ),
          ))
          (λ s e j p. p))
