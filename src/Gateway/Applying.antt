-- ===== src/Gateway/Applying.antt =====
-- A valid change of policy is applied, on a gateway where nothing fails.
use resilient_datacenter.Shared.{
  ℕ, Option, ltb, not, suc, ◌≡◌, refl, Bool, true, false, ◌||◌, none, some, List, [], ◌∷◌, arith,
  contains, same_texts, str_eq, eq_iff, String,
}
use resilient_datacenter.Shared.Effects.{Out, ok, raised, Done, refuse_if}
use resilient_datacenter.Shared.Hoare.{
  Hoare, Pred, Post, seq_rule, pure_rule, bind_rule, fact_rule, weaken_rule, if_rule,
}
use resilient_datacenter.Shared.Maintenance.{none_now}
use resilient_datacenter.Shared.Stored.{Stored, absent, unsafe, holds}
use resilient_datacenter.Gateway.State.{
  Policy, Recovery, Operation, close_access, validate, install, restart, open_access, Disk, World,
  Env,
}
use resilient_datacenter.Shared.Sorted.{subset}
use resilient_datacenter.Gateway.Store.{
  same_documents, same_policy, valid_policy, follows, read_pending, pending, write_pending,
  write_state, begin_after, begin, is_policy, commit, unlink_pending, finish, known_floor,
  load_recovery, fresh_documents, reviewed, review_if_any, review,
}
use resilient_datacenter.Gateway.Transition.{applied, perform, transition, settle, guarded, apply}
use resilient_datacenter.Gateway.Progress.{
  Never, bind_at, passed, write_total, perform_total, state_total, pending_total,
}

same_texts_refl : (xs : List String) → same_texts xs xs ≡ true
same_texts_refl [] = refl
same_texts_refl (x ∷ xs) = rw ((eq_iff x x).1 refl, same_texts_refl xs) refl

or-true : (a b : Bool) → b ≡ true → (a || b) ≡ true
or-true true b h = refl
or-true false b h = h

pub contains-subset_of :
    (xs ys : List String)
    → ((x : String) → contains x xs ≡ true → contains x ys ≡ true)
    → subset xs ys ≡ true
contains-subset_of [] ys h = refl
contains-subset_of (x ∷ xs) ys h =
    rw
      (
        h x (rw ((eq_iff x x).1 refl) refl),
        contains-subset_of xs ys (λ z k. h z (or-true (str_eq x z) (contains z xs) k)),
      )
      refl

module _ {A H : Type 0} (env : Env A H) (alike : (x : A) → env.same_document x x ≡ true) where
  same_documents_refl : (xs : List A) → same_documents env xs xs ≡ true
  same_documents_refl [] = refl
  same_documents_refl (x ∷ xs) = rw (alike x, same_documents_refl xs) refl

  same_policy_refl : (c : Policy A) → same_policy env c c ≡ true
  unfolding same_policy
  same_policy_refl c =
      rw (same_texts_refl c.revoked_ids, same_documents_refl c.agreements) (ground arith)

  follows_refl : (c : Policy A) → follows env c c ≡ true
  unfolding follows
  follows_refl c =
      rw (contains-subset_of c.revoked_ids c.revoked_ids (λ x k. k), same_policy_refl c)
        (ground arith)

  follows-next :
      (s c : Policy A)
      → c.generation ≡ suc s.generation
      → subset s.revoked_ids c.revoked_ids ≡ true
      → follows env s c ≡ true
  unfolding follows
  follows-next s c g r = rw r (ground (arith, g))

unrefused :
    {A H : Type 0} {P : Pred (Disk A) Unit} (b : Bool)
    → b ≡ false
    → Hoare {H = H} P (refuse_if b) (λ _. P) Never
unrefused false e = record { at = λ w p. p }
unrefused true e = cc

-- A gateway where nothing fails: no fault of the file system, and a runtime that returns.
pub record Working {A H : Type 0} (env : Env A H) : Type 0 where
  pub quiet : (h : H) → (env.disturb h).0 ≡ none_now
  pub answers :
      (o : Operation) (p : Policy A) (d : Disk A) (h : H) → (env.runtime o p d h).0 ≡ ok tt
  pub alike : (x : A) → env.same_document x x ≡ true

-- A change from `s` to `c` that begin accepts.
pub record Acceptable {A H : Type 0} (env : Env A H) (s c : Policy A) : Type 0 where
  pub valid_before : valid_policy env s ≡ true
  pub valid_after : valid_policy env c ≡ true
  pub next_generation : c.generation ≡ suc s.generation
  pub revokes : subset s.revoked_ids c.revoked_ids ≡ true

-- A recovery that is not under review, or that a review of the documents would clear.
abbrev pub Cleared : {A H : Type 0} → Env A H → List A → Option Recovery → Type 0
Cleared env documents none = Unit {0}
Cleared env documents (some r) =
    (not r.review_pending || fresh_documents env (some r) documents) ≡ true

-- There is no recovery, or one that is not older than the reference and that is cleared.
abbrev pub Settled : {A H : Type 0} → Env A H → List A → Stored ℕ → Stored Recovery → Type 0
Settled env documents absent absent = Unit {0}
Settled env documents absent (holds r) = Cleared env documents (some r)
Settled env documents (holds n) (holds r) =
    (ltb r.approval_floor n ≡ false) × Cleared env documents (some r)
Settled env documents (holds n) absent = ⊥
Settled env documents (holds n) unsafe = ⊥
Settled env documents absent unsafe = ⊥
Settled env documents unsafe r = ⊥

-- The policy is `s`, nothing is pending, and a recovery is settled for the documents.
abbrev pub AtRest : {A H : Type 0} → Env A H → List A → Policy A → Disk A → Type 0
AtRest env documents s d =
    (d.state ≡ holds s) × (d.pending ≡ absent) × Settled env documents d.reference d.recovery

module _ {A H : Type 0} (env : Env A H) (working : Working env) (s c : Policy A)
    (good : Acceptable env s c) where
  abbrev Resting : Pred (Disk A) Unit
  Resting d j = AtRest env c.agreements s d

  -- The policy is `p`, and the intent to change to `c` is on record.
  abbrev Intent : Policy A → Pred (Disk A) Unit
  Intent p d j =
      (d.state ≡ holds p) × (d.pending ≡ holds c) × Settled env c.agreements d.reference d.recovery

  abbrev Committed : Pred (Disk A) Unit
  Committed d j = (d.state ≡ holds c) × (d.pending ≡ holds c)

  abbrev pub Changed : Pred (Disk A) Unit
  Changed d j = (d.state ≡ holds c) × (d.pending ≡ absent)

  calling :
      (p : Policy A) (o : Operation) → Hoare (Intent p) (perform env o c) (λ _. Intent p) Never
  calling p o = perform_total env working.quiet working.answers o c (λ d j h. h)

  no_pending_rule : Hoare Resting (pending env) (λ o d j. (o ≡ none) × Resting d j) Never
  unfolding pending read_pending
  no_pending_rule = record { at = λ w h. rw h.1 (refl, (h.0, refl, h.2)) }

  begin_rule : Hoare Resting (begin env c) (λ _. Intent s) Never
  unfolding begin begin_after write_pending
  begin_rule = seq_rule (passed (valid_policy env c) good.valid_after) (
      bind_at _ s (state_total env working.quiet working.answers s good.valid_before (λ d j h. h.0))
        (bind_at _ none no_pending_rule (
          seq_rule (unrefused _ (rw good.revokes (ground (arith, good.next_generation)))) (
            write_total env working.quiet working.answers (λ d. record d { pending = holds c })
              (λ d j h. (h.0, refl, h.2))))))

  commit_rule : Hoare (Intent s) (commit env c) (λ _. Intent c) Never
  unfolding commit is_policy write_state
  commit_rule =
      bind_at _ (some c)
        (pending_total env working.quiet working.answers s c good.valid_before good.valid_after
          (follows-next env working.alike s c good.next_generation good.revokes) (λ d j h. h.0)
          (λ d j h. h.1))
        (seq_rule (passed (same_policy env c c) (same_policy_refl env working.alike c)) (
          write_total env working.quiet working.answers (λ d. record d { state = holds c })
            (λ d j h. (refl, h.1, h.2))))

  known_floor_rule :
      (n : Stored ℕ) (r : Stored Recovery)
      → Settled env c.agreements n r
      → Hoare Committed
          (known_floor env n r)
          (λ o d j. Cleared env c.agreements o × Committed d j)
          Never
  unfolding known_floor
  known_floor_rule absent absent k = record { at = λ w h. (tt, h) }
  known_floor_rule absent (holds r) k = record { at = λ w h. (k, h) }
  known_floor_rule (holds n) (holds r) k =
      seq_rule (unrefused _ k.0) (record { at = λ w h. (k.1, h) })
  known_floor_rule (holds n) absent k = absurd k
  known_floor_rule (holds n) unsafe k = absurd k
  known_floor_rule absent unsafe k = absurd k
  known_floor_rule unsafe r k = absurd k

  load_rule :
      Hoare
        (Intent c)
        (load_recovery env)
        (λ o d j. Cleared env c.agreements o × Committed d j)
        Never
  unfolding load_recovery
  load_rule = record {
    at = λ w h. (known_floor_rule w.disk.reference w.disk.recovery h.2).at w (h.0, h.1);
  }

  reviewed_rule :
      (r : Recovery)
      → Cleared env c.agreements (some r)
      → Hoare Committed (reviewed env c r) (λ _. Committed) Never
  unfolding reviewed is_policy
  reviewed_rule r k =
      if_rule r.review_pending
        (λ t.
          bind_at _ (some c)
            (pending_total env working.quiet working.answers c c good.valid_after good.valid_after
              (follows_refl env working.alike c) (λ d j h. h.0) (λ d j h. h.1))
            (bind_at _ c
              (state_total env working.quiet working.answers c good.valid_after (λ d j h. h.0))
              (seq_rule (unrefused _ (rw (same_policy_refl env working.alike c) refl)) (
                seq_rule (passed (fresh_documents env (some r) c.agreements) (ground (arith, t, k)))
                  (write_total env working.quiet working.answers
                    (λ d. record d { recovery = holds (record r { review_pending = false }) })
                    (λ d j h. (h.0, h.1)))))))
        (λ f. pure_rule tt)

  review_rule : Hoare (Intent c) (review env c) (λ _. Committed) Never
  unfolding review review_if_any
  review_rule = bind_rule load_rule reviewing
    where
      reviewing :
          (o : Option Recovery)
          → Hoare
              (λ d j. Cleared env c.agreements o × Committed d j)
              (review_if_any env c o)
              (λ _. Committed)
              Never
      reviewing none = record { at = λ w h. h.1 }
      reviewing (some r) =
          fact_rule (Cleared env c.agreements (some r)) (λ d j p. p.0)
            λ k. weaken_rule (reviewed_rule r k) (λ d j p. p.1) (λ y d j q. q) (λ s d j n. n)

  finish_rule : Hoare Committed (finish env) (λ _. Changed) Never
  unfolding finish is_policy unlink_pending
  finish_rule =
      bind_at _ (some c)
        (pending_total env working.quiet working.answers c c good.valid_after good.valid_after
          (follows_refl env working.alike c) (λ d j h. h.0) (λ d j h. h.1))
        (bind_at _ c
          (state_total env working.quiet working.answers c good.valid_after (λ d j h. h.0))
          (seq_rule (passed (same_policy env c c) (same_policy_refl env working.alike c)) (
            write_total env working.quiet working.answers (λ d. record d { pending = absent })
              (λ d j h. (h.0, refl)))))

  transition_rule : Hoare (Intent s) (transition env c) (λ _. Changed) Never
  unfolding transition
  transition_rule = seq_rule (calling s close_access) (
      seq_rule (calling s validate) (
        seq_rule commit_rule (
          seq_rule (calling c install) (
            seq_rule (calling c restart) (
              seq_rule review_rule (
                seq_rule
                  (perform_total env working.quiet working.answers open_access c (λ d j h. h))
                  finish_rule))))))

  settle-Post :
      (x : Out Done × World A H)
      → Post (λ _. Changed) Never x
      → Post (λ o d j. (o ≡ applied) × Changed d j) Never (settle env c x.0 x.1)
  unfolding settle
  settle-Post (ok u, w) h = (refl, h)
  settle-Post (raised e, w) h = absurd h

  guarded_rule : Hoare (Intent s) (guarded env c) (λ o d j. (o ≡ applied) × Changed d j) Never
  unfolding guarded
  guarded_rule = record { at = λ w h. settle-Post (transition env c w) (transition_rule.at w h) }

  -- On a gateway where nothing fails and no change is pending, apply of a valid policy of the next
  -- generation that forgets no revocation returns, the new policy is on the disk, and nothing is
  -- pending: with no recovery on record, or one that is not older than the reference and is either
  -- reviewed or under a review that finds every document of the new policy fresh.
  pub apply-progress :
      (w : World A H)
      → AtRest env c.agreements s w.disk
      → Post (λ o d j. (o ≡ applied) × Changed d j) Never (apply env c w)
  unfolding apply
  apply-progress w h = (seq_rule begin_rule guarded_rule).at w h
