-- ===== src/Upgrade/Originals.antt =====
-- What stage and restore of scripts/upgrade_files.py do to the originals.
use resilient_datacenter.Shared.{
  ℕ, Bool, true, false, ◌==◌, Option, none, some, ◌≡◌, refl, sym, subst, ◌∙◌, Bool-cases, inl, inr,
  arith,
}
use resilient_datacenter.Shared.Effects.{refuse_if}
use resilient_datacenter.Shared.Hoare.{Hoare, Post, some-eq, file_rule}
use resilient_datacenter.Shared.Stored.{put}
use resilient_datacenter.Restore.State.{Workspace, missing, linked, folder, Slot}
use resilient_datacenter.Restore.Files.{made, set_aside, promoted, removed, brought_back, has_old}
use resilient_datacenter.Upgrade.Files.{
  Tree, World, Action, Env, is_here, copied_from, on_slot, slot_op,
}

-- The abstract view: the data of a resource before the upgrade, wherever it is.
abbrev pub original_of : {T : Type 0} → Workspace T → Option T → Option T
original_of (folder (some t) n) target = some t
original_of (folder none n) target = target
original_of missing target = target
original_of linked target = target

abbrev pub original : {T : Type 0} → Slot T → Option T
original s = original_of s.workspace s.target

module _ {T : Type 0} where
  -- Every resource has the original that it has on `d`.
  abbrev pub Same : Tree T → Tree T → Type 0
  Same d e = (j : ℕ) → original (e j) ≡ original (d j)

  pub put_self : (i : ℕ) (s : Slot T) (d : Tree T) → put i s d i ≡ s
  put_self i s d = ground arith

  pub put_other : (i j : ℕ) (s : Slot T) (d : Tree T) → j == i ≡ false → put i s d j ≡ d j
  put_other i j s d e = rw e refl

  put-Same :
      (d e : Tree T) (i : ℕ) (s : Slot T)
      → original s ≡ original (e i)
      → Same d e
      → Same d (put i s e)
  put-Same d e i s h same j = elim (Bool-cases (j == i)) [
    | inl t ↦
        let here : j ≡ i = ground arith in
        rw t (h ∙ subst (λ k. original (e k) ≡ original (d j)) here (same j))
    | inr f ↦ rw f (same j)
  ]

module _ {T H : Type 0} (env : Env T H) (d : Tree T) where
  -- Where it raises, the originals are kept.
  abbrev pub Guards : {A : Type 0} → (Tree T → Type 0) → Action T H A → (Tree T → Type 0) → Type 0
  Guards P m Q = Hoare (λ e j. Same d e × P e) m (λ a e j. Same d e × Q e) (λ s e j. Same d e)

  pub slot_rule :
      (i : ℕ) (g : Slot T → Option (Slot T)) (P Q : Slot T → Type 0) (F : Tree T → Type 0)
      → ((s s' : Slot T) → P s → g s ≡ some s' → (original s' ≡ original s) × Q s')
      → ((e : Tree T) (s : Slot T) → F e → F (put i s e))
      → Guards (λ e. P (e i) × F e) (slot_op env i g) (λ e. Q (e i) × F e)
  unfolding slot_op
  slot_rule i g P Q F step frame =
      file_rule env.disturb (λ j. on_slot i g) (λ e e' j p h. landed e e' p (g (e i)) refl h)
        (λ s e j p. p.0) (λ s e j p. p.0)
    where
      landed :
          (e e' : Tree T)
          → Same d e × (P (e i) × F e)
          → (o : Option (Slot T)) → g (e i) ≡ o
          → ◌≡◌ {A = Option (Tree T)} (elim o [ none ↦ none | some s ↦ some (put i s e) ]) (some e')
          → Same d e' × (Q (e' i) × F e')
      landed e e' p none k h = cc
      landed e e' p (some s) k h =
          let (kept, q) = step (e i) s p.1.0 k in
          subst (λ x. Same d x × (Q (x i) × F x)) (some-eq (put i s e) e' h)
            (put-Same d e i s kept p.0, (subst Q (sym (put_self i s e)) q, frame e s p.1.1))

  pub keeps_rule :
      (P : Tree T → Type 0) (b : World T H → Bool) → Guards P (λ w. refuse_if (b w) w) P
  keeps_rule P b = record { at = λ w p. refused (b w) w p }
    where
      refused :
          (c : Bool) (w : World T H)
          → Same d w.disk × P w.disk
          → Post (λ a e j. Same d e × P e) (λ s e j. Same d e) (refuse_if c w)
      refused true w p = p.0
      refused false w p = p

carried : {A : Type 0} (P : A → Type 0) (a b : A) → some a ≡ some b → P a → P b
carried P a b e p = subst P (some-eq a b e) p

-- The original through each operation on a slot.
module _ {T : Type 0} where
  abbrev Kept : (Slot T → Type 0) → Slot T → Slot T → Type 0
  Kept Q s s' = (original s' ≡ original s) × Q s'

  abbrev pub Any : Slot T → Type 0
  Any s = Unit {0}

  abbrev pub HasOld : Slot T → Type 0
  HasOld s = has_old s.workspace ≡ true

  abbrev pub HasNone : Slot T → Type 0
  HasNone s = has_old s.workspace ≡ false

  abbrev pub Replaced : Slot T → Type 0
  Replaced s = HasOld s × (is_here s.target ≡ true)

  abbrev slot : Option T → Workspace T → Slot T
  slot t w = record { target = t; workspace = w }

  pub made-Kept :
      (t : Option T) (w : Workspace T) (s' : Slot T)
      → made (slot t w) ≡ some s'
      → Kept Any (slot t w) s'
  made-Kept t missing s' e =
      carried (Kept Any (slot t missing)) (slot t (folder none none)) s' e (refl, tt)
  made-Kept t linked s' e = absurd (cc)
  made-Kept t (folder o n) s' e = absurd (cc)

  pub copied-Kept :
      (f : T → T) (c t : Option T) (w : Workspace T) (s' : Slot T)
      → copied_from f c (slot t w) ≡ some s'
      → Kept Any (slot t w) s'
  copied-Kept f none t w s' e = absurd (cc)
  copied-Kept f (some x) t missing s' e = absurd (cc)
  copied-Kept f (some x) t linked s' e = absurd (cc)
  copied-Kept f (some x) t (folder none n) s' e =
      carried (Kept Any (slot t (folder none n))) (slot t (folder none (some (f x)))) s' e
        (refl, tt)
  copied-Kept f (some x) t (folder (some o) n) s' e =
      carried (Kept Any (slot t (folder (some o) n))) (slot t (folder (some o) (some (f x)))) s' e
        (refl, tt)

  pub set_aside-Kept :
      (t : Option T) (w : Workspace T) (s' : Slot T)
      → set_aside (slot t w) ≡ some s'
      → Kept HasOld (slot t w) s'
  set_aside-Kept none w s' e = absurd (cc)
  set_aside-Kept (some x) missing s' e = absurd (cc)
  set_aside-Kept (some x) linked s' e = absurd (cc)
  set_aside-Kept (some x) (folder (some o) n) s' e = absurd (cc)
  set_aside-Kept (some x) (folder none n) s' e =
      carried (Kept HasOld (slot (some x) (folder none n))) (slot none (folder (some x) n)) s' e
        (refl, refl)

  pub promoted-Kept :
      (t : Option T) (w : Workspace T) (s' : Slot T)
      → HasOld (slot t w)
      → promoted (slot t w) ≡ some s'
      → Kept Replaced (slot t w) s'
  promoted-Kept (some x) w s' h e = absurd (cc)
  promoted-Kept none missing s' h e = absurd (cc)
  promoted-Kept none linked s' h e = absurd (cc)
  promoted-Kept none (folder o none) s' h e = absurd (cc)
  promoted-Kept none (folder none (some y)) s' h e = absurd (cc)
  promoted-Kept none (folder (some o) (some y)) s' h e =
      carried (Kept Replaced (slot none (folder (some o) (some y))))
        (slot (some y) (folder (some o) none)) s' e (refl, (refl, refl))

  pub removed-Kept :
      (t : Option T) (w : Workspace T) (s' : Slot T)
      → HasOld (slot t w)
      → removed (slot t w) ≡ some s'
      → Kept HasOld (slot t w) s'
  removed-Kept t missing s' h e = absurd (cc)
  removed-Kept t linked s' h e = absurd (cc)
  removed-Kept t (folder none n) s' h e = absurd (cc)
  removed-Kept t (folder (some o) n) s' h e =
      carried (Kept HasOld (slot t (folder (some o) n))) (slot none (folder (some o) n)) s' e
        (refl, refl)

  pub brought_back-Kept :
      (t : Option T) (w : Workspace T) (s' : Slot T)
      → brought_back (slot t w) ≡ some s'
      → Kept HasNone (slot t w) s'
  brought_back-Kept (some x) w s' e = absurd (cc)
  brought_back-Kept none missing s' e = absurd (cc)
  brought_back-Kept none linked s' e = absurd (cc)
  brought_back-Kept none (folder none n) s' e = absurd (cc)
  brought_back-Kept none (folder (some o) n) s' e =
      carried (Kept HasNone (slot none (folder (some o) n))) (slot (some o) (folder none n)) s' e
        (refl, refl)

  pub HasNone-target : (t : Option T) (w : Workspace T) → has_old w ≡ false → original_of w t ≡ t
  HasNone-target t missing h = refl
  HasNone-target t linked h = refl
  HasNone-target t (folder none n) h = refl
  HasNone-target t (folder (some o) n) h = absurd (cc)
