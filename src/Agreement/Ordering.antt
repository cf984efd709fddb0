-- ===== src/Agreement/Ordering.antt =====
-- The promise of peer_rules of scripts/gateway_contracts.py, whose rules are sorted at the end.
use resilient_datacenter.Shared.{
  ℕ, suc, String, ◌&&◌, leb, some, List, [], ◌∷◌, all, length, ◌≡◌, ◌≤◌, refl, subst, ap, arith,
  Bool-cases, Option-cases, inl, inr,
}
use Prim.Native.Nat
use Prim.Native.String.{compare}
use resilient_datacenter.Shared.Hoare.{some-eq}
use resilient_datacenter.Shared.Apart.{All, Apart, All-map}
use resilient_datacenter.Shared.Texts.{is_hex}
use resilient_datacenter.Agreement.Documents.{Signed, Identity, Agreement}
use resilient_datacenter.Agreement.Verifying.{Crypto, identity_ok, in_time, domains}
use resilient_datacenter.Agreement.Peers.{
  Rule, insert_rule, sorted_rules, collect, none_seen, peer_rules,
}
use resilient_datacenter.Agreement.Catalogue.{
  Clear, Unlike, Unlike-sym, Disjoint, Backed, Collected, collect-Collected,
}

abbrev placed_at : Nat.Ordering → Rule → Rule → List Rule → List Rule → List Rule
placed_at o r q qs rest = elim o [ Nat.Ordering.gt ↦ q ∷ rest | _ ↦ r ∷ q ∷ qs ]

module _ (P : Rule → Type 0) where
  placed_at-All :
      (o : Nat.Ordering) (r q : Rule) (qs rest : List Rule)
      → P r
      → P q
      → All P qs
      → All P rest
      → All P (placed_at o r q qs rest)
  placed_at-All Nat.Ordering.lt r q qs rest p t h k = (p, (t, h))
  placed_at-All Nat.Ordering.eq r q qs rest p t h k = (p, (t, h))
  placed_at-All Nat.Ordering.gt r q qs rest p t h k = (t, k)

  insert_rule-All : (r : Rule) (rs : List Rule) → P r → All P rs → All P (insert_rule r rs)
  insert_rule-All r [] p h = (p, tt)
  insert_rule-All r (q ∷ qs) p h =
      placed_at-All (compare r.fingerprint q.fingerprint) r q qs (insert_rule r qs) p h.0 h.1
        (insert_rule-All r qs p h.1)

  sorted_rules-All : (rs : List Rule) → All P rs → All P (sorted_rules rs)
  unfolding sorted_rules
  sorted_rules-All [] h = tt
  sorted_rules-All (r ∷ rs) h = insert_rule-All r (sorted_rules rs) h.0 (sorted_rules-All rs h.1)

placed_at-Apart :
    (o : Nat.Ordering) (r q : Rule) (qs rest : List Rule)
    → All (Unlike r) (q ∷ qs)
    → Apart Unlike (q ∷ qs)
    → All (Unlike q) rest
    → Apart Unlike rest
    → Apart Unlike (placed_at o r q qs rest)
placed_at-Apart Nat.Ordering.lt r q qs rest u h v k = (u, h)
placed_at-Apart Nat.Ordering.eq r q qs rest u h v k = (u, h)
placed_at-Apart Nat.Ordering.gt r q qs rest u h v k = (v, k)

insert_rule-Apart :
    (r : Rule) (rs : List Rule)
    → All (Unlike r) rs
    → Apart Unlike rs
    → Apart Unlike (insert_rule r rs)
insert_rule-Apart r [] u h = (tt, tt)
insert_rule-Apart r (q ∷ qs) u h =
    placed_at-Apart (compare r.fingerprint q.fingerprint) r q qs (insert_rule r qs) u h
      (insert_rule-All (Unlike q) r qs (Unlike-sym r q u.0) h.0) (insert_rule-Apart r qs u.1 h.1)

sorted_rules-Apart : (rs : List Rule) → Apart Unlike rs → Apart Unlike (sorted_rules rs)
unfolding sorted_rules
sorted_rules-Apart [] h = tt
sorted_rules-Apart (r ∷ rs) h =
    insert_rule-Apart r (sorted_rules rs) (sorted_rules-All (Unlike r) rs h.0)
      (sorted_rules-Apart rs h.1)

placed_at-length :
    (o : Nat.Ordering) (r q : Rule) (qs rest : List Rule)
    → length rest ≡ suc (length qs)
    → length (placed_at o r q qs rest) ≡ suc (suc (length qs))
placed_at-length Nat.Ordering.lt r q qs rest h = refl
placed_at-length Nat.Ordering.eq r q qs rest h = refl
placed_at-length Nat.Ordering.gt r q qs rest h = ap suc h

length-insert_rule : (r : Rule) (rs : List Rule) → length (insert_rule r rs) ≡ suc (length rs)
length-insert_rule r [] = refl
length-insert_rule r (q ∷ qs) =
    placed_at-length (compare r.fingerprint q.fingerprint) r q qs (insert_rule r qs)
      (length-insert_rule r qs)

length-sorted_rules : (rs : List Rule) → length (sorted_rules rs) ≡ length rs
unfolding sorted_rules
length-sorted_rules [] = refl
length-sorted_rules (r ∷ rs) =
    omega (arith, length-insert_rule r (sorted_rules rs), length-sorted_rules rs)

module _ (crypto : Crypto) where
  abbrev pub Promise : Signed Identity → List Agreement → List String → ℕ → List Rule → Type 0
  Promise own documents revoked_ids now rules =
      (length rules ≤ 8)
      × Apart Unlike rules
      × All (λ r. Disjoint (domains r.domains) (domains own.payload.services)) rules
      × All (Backed crypto own revoked_ids now documents) rules

  sorted-Promise :
      (own : Signed Identity) (documents : List Agreement) (revoked_ids : List String) (now : ℕ)
      (rs : List Rule)
      → length documents ≤ 8
      → Collected crypto own revoked_ids now documents (none_seen crypto own) rs
      → Promise own documents revoked_ids now (sorted_rules rs)
  sorted-Promise own documents revoked_ids now rs short (clear, apart, backed, few) = (
    omega (arith, length-sorted_rules rs),
    sorted_rules-Apart rs apart,
    sorted_rules-All (λ r. Disjoint (domains r.domains) (domains own.payload.services)) rs
        (All-map (Clear (none_seen crypto own)) _ rs (λ r c. c.2) clear),
    sorted_rules-All (Backed crypto own revoked_ids now documents) rs backed,
  )

  -- The rules that peer_rules returns are at most eight; any two have different fingerprints,
  -- different addresses and no domain in common, and none has a domain of the gateway's own
  -- institution; and each rests on a document of the list that both parties, the gateway's
  -- institution and the peer with that fingerprint, signed, that is in force and not revoked.
  pub peer_rules-Apart :
      (own : Signed Identity) (documents : List Agreement) (revoked_ids : List String) (now : ℕ)
      (rules : List Rule)
      → peer_rules crypto own documents revoked_ids now ≡ some rules
      → Promise own documents revoked_ids now rules
  unfolding peer_rules
  peer_rules-Apart own documents revoked_ids now rules h =
      elim (Bool-cases (
        identity_ok crypto own
        && in_time now
        && leb (length documents) 8
        && all (is_hex 32) revoked_ids)) [
          | inr bad ↦ absurd (ground arith)
          | inl fine ↦
              elim (Option-cases
                (collect crypto own revoked_ids now documents (none_seen crypto own))) [
                  | inl none_left ↦ absurd (ground arith)
                  | inr (rs, known) ↦
                      let same : sorted_rules rs ≡ rules =
                        some-eq (sorted_rules rs) rules (ground arith) in
                      let short : length documents ≤ 8 = ground arith in
                      subst (Promise own documents revoked_ids now) same (
                        sorted-Promise own documents revoked_ids now rs short (
                          collect-Collected crypto own revoked_ids now documents
                            (none_seen crypto own) rs known))
                ]
        ]
