-- ===== src/Gateway/Store.antt =====
-- validate_state, state, pending, candidate, begin, commit and finish of scripts/gateway_store.py, and
-- load, fresh_documents and review of scripts/gateway_recovery.py.
use resilient_datacenter.Shared.{
  ℕ, suc, ◌^◌, String, Bool, true, false, not, ◌&&◌, ◌||◌, ◌==◌, leb, ltb, Option, none, some, List,
  [], ◌∷◌, ◌++◌, length, all, same_texts, if◌then◌else◌,
}
use resilient_datacenter.Shared.Effects.{failure, Done, pure, raise, refuse_if, ◌>>=◌, ◌>>◌}
use resilient_datacenter.Shared.Maintenance.{file_op}
use resilient_datacenter.Shared.Stored.{Stored, absent, unsafe, holds}
use resilient_datacenter.Shared.Sorted.{increasing, subset, sorted_set}
use resilient_datacenter.Shared.Texts.{is_hex}
use resilient_datacenter.Gateway.State.{Policy, Recovery, Action, Env}

module _ {A H : Type 0} (env : Env A H) where
  abbrev pub same_documents : List A → List A → Bool
  same_documents [] [] = true
  same_documents (x ∷ xs) (y ∷ ys) = env.same_document x y && same_documents xs ys
  same_documents _ _ = false

  -- a == b
  unfoldable pub same_policy : Policy A → Policy A → Bool
  same_policy a b =
      a.schema_version == b.schema_version
      && a.generation == b.generation
      && same_texts a.revoked_ids b.revoked_ids
      && same_documents a.agreements b.agreements

  -- whether validate_state passes
  unfoldable pub valid_policy : Policy A → Bool
  valid_policy p =
      p.schema_version == 1
      && ltb p.generation (2 ^ 53)
      && leb (length p.revoked_ids) 4096
      && all (is_hex 32) p.revoked_ids
      && increasing p.revoked_ids
      && env.peer_rules p.agreements p.revoked_ids 0

  unfoldable pub validated : Stored (Policy A) → Action A H (Policy A)
  validated absent = raise failure
  validated unsafe = raise failure
  validated (holds p) = refuse_if (not (valid_policy p)) >> pure p

  unfoldable pub state : Action A H (Policy A)
  state w = validated w.disk.state w

  -- The history that pending accepts: the candidate follows the previous policy, or it is committed.
  unfoldable pub follows : Policy A → Policy A → Bool
  follows previous p =
      ((p.generation == previous.generation) || (p.generation == suc previous.generation))
      && subset previous.revoked_ids p.revoked_ids
      && (not (p.generation == previous.generation) || same_policy p previous)

  unfoldable pub read_pending : Stored (Policy A) → Action A H (Option (Policy A))
  read_pending absent = pure none
  read_pending unsafe = raise failure
  read_pending (holds p) = do
    refuse_if (not (valid_policy p))
    previous ← state
    refuse_if (not (follows previous p))
    pure (some p)

  unfoldable pub pending : Action A H (Option (Policy A))
  pending w = read_pending w.disk.pending w

  unfoldable pub write_pending : Policy A → Action A H Done
  write_pending p = file_op env.disturb (λ d. some (record d { pending = holds p }))

  unfoldable pub write_state : Policy A → Action A H Done
  write_state p = file_op env.disturb (λ d. some (record d { state = holds p }))

  unfoldable pub begin_after : Policy A → Policy A → Option (Policy A) → Action A H Done
  begin_after candidate previous (some p) = refuse_if (not (same_policy p candidate))
  begin_after candidate previous none = do
    refuse_if (
        not (candidate.generation == suc previous.generation)
        || not (subset previous.revoked_ids candidate.revoked_ids))
    write_pending candidate

  unfoldable pub begin : Policy A → Action A H Done
  begin candidate = do
    refuse_if (not (valid_policy candidate))
    previous ← state
    intent ← pending
    begin_after candidate previous intent

  unfoldable pub is_policy : Policy A → Option (Policy A) → Bool
  is_policy p none = false
  is_policy p (some q) = same_policy q p

  unfoldable pub commit : Policy A → Action A H Done
  commit candidate = do
    intent ← pending
    refuse_if (not (is_policy candidate intent))
    write_state candidate

  unfoldable pub unlink_pending : Action A H Done
  unlink_pending = file_op env.disturb (λ d. some (record d { pending = absent }))

  unfoldable pub finish : Action A H Done
  finish = do
    intent ← pending
    committed ← state
    refuse_if (not (is_policy committed intent))
    unlink_pending

  -- load: the record is not older than the reference
  unfoldable pub known_floor : Stored ℕ → Stored Recovery → Action A H (Option Recovery)
  known_floor absent absent = pure none
  known_floor absent (holds r) = pure (some r)
  known_floor (holds n) (holds r) = refuse_if (ltb r.approval_floor n) >> pure (some r)
  known_floor (holds n) absent = raise failure
  known_floor unsafe _ = raise failure
  known_floor _ unsafe = raise failure

  unfoldable pub load_recovery : Action A H (Option Recovery)
  load_recovery w = known_floor w.disk.reference w.disk.recovery w

  unfoldable pub fresh_documents : Option Recovery → List A → Bool
  fresh_documents none documents = true
  fresh_documents (some r) documents =
      all (λ x. leb r.approval_floor (env.issued_at x) && leb r.approval_floor (env.accepted_at x))
        documents

  abbrev pub only_fresh : Option Recovery → List A → List A
  only_fresh r [] = []
  only_fresh r (x ∷ xs) =
      let rest = only_fresh r xs in if fresh_documents r (x ∷ []) then x ∷ rest else rest

  -- whether peers passes; its rules are not kept
  unfoldable pub peers : Policy A → ℕ → Action A H Done
  peers p now = do
    refuse_if (not (valid_policy p))
    r ← load_recovery
    refuse_if (not (env.peer_rules (only_fresh r p.agreements) p.revoked_ids now))

  abbrev pub next_policy : Policy A → List A → List String → Policy A
  next_policy previous documents revoked = record {
    schema_version = 1;
    generation = suc previous.generation;
    agreements = documents;
    revoked_ids = sorted_set (previous.revoked_ids ++ revoked);
  }

  unfoldable pub candidate : List A → List String → ℕ → Action A H (Policy A)
  candidate documents revoked now = do
    intent ← pending
    refuse_if (elim intent [ none ↦ false | some p ↦ true ])
    previous ← state
    refuse_if (not (all (is_hex 32) revoked))
    let next = next_policy previous documents revoked
    refuse_if (not (valid_policy next))
    record_known ← load_recovery
    refuse_if (not (fresh_documents record_known documents))
    peers next now
    pure next

  unfoldable pub reviewed : Policy A → Recovery → Action A H Done
  reviewed candidate r =
      if r.review_pending
      then (do
        intent ← pending
        committed ← state
        refuse_if (not (is_policy candidate intent) || not (same_policy committed candidate))
        refuse_if (not (fresh_documents (some r) candidate.agreements))
        file_op env.disturb
            (λ d. some (record d { recovery = holds (record r { review_pending = false }) })))
      else pure tt

  unfoldable pub review_if_any : Policy A → Option Recovery → Action A H Done
  review_if_any candidate none = pure tt
  review_if_any candidate (some r) = reviewed candidate r

  unfoldable pub review : Policy A → Action A H Done
  review candidate = do r ← load_recovery; review_if_any candidate r
