-- ===== src/Agreement/Catalogue.antt =====
-- What the catalogue of peers keeps apart: peer_rules of scripts/gateway_contracts.py.
use resilient_datacenter.Shared.{
  ℕ, String, true, false, not, ◌&&◌, str_eq, eq_iff, Option, none, some, List, [], ◌∷◌, ◌++◌,
  contains, length, ◌≡◌, ◌≢◌, ◌≤◌, refl, sym, subst, ap, ◌∙◌, arith, Bool-cases, Option-cases, inl,
  inr,
}
use mathlib.Core.Option
use resilient_datacenter.Shared.Hoare.{some-eq}
use resilient_datacenter.Shared.Apart.{All, Apart, All-map, Among}
use resilient_datacenter.Agreement.Documents.{Signed, Identity, Agreement}
use resilient_datacenter.Agreement.Verifying.{Crypto, agreement_ok, fingerprint, domains, meets}
use resilient_datacenter.Agreement.Consenting.{
  State, mutually_approved, revoked, expired, not_yet_valid, peer_not_approved, Evaluation,
  evaluate,
}
use resilient_datacenter.Agreement.Approval.{Consent, Parties, evaluate-Consent}
use resilient_datacenter.Agreement.Peers.{
  Rule, Seen, Verdict, refuse, skip, admit, other_party, is_approved, rule_of, ambiguous, admitted,
  with_id, with_rule, verdict_of, peer_verdict, judge, collect,
}

-- No text of the one list is in the other.
abbrev pub Disjoint : List String → List String → Type 0
Disjoint xs ys = (x : String) → contains x xs ≡ true → contains x ys ≡ true → ⊥

abbrev pub Unlike : Rule → Rule → Type 0
Unlike r q =
    (r.fingerprint ≢ q.fingerprint)
    × (r.address ≢ q.address)
    × Disjoint (domains r.domains) (domains q.domains)

pub Unlike-sym : (r q : Rule) → Unlike r q → Unlike q r
Unlike-sym r q (f, a, d) = (λ e. f (sym e), λ e. a (sym e), λ x m n. d x n m)

-- A rule clears what was seen before it.
abbrev pub Clear : Seen → Rule → Type 0
Clear seen r =
    (contains r.fingerprint seen.peers ≡ false)
    × (contains r.address seen.addresses ≡ false)
    × Disjoint (domains r.domains) seen.domains

contains-append_left :
    (x : String) (xs ys : List String) → contains x xs ≡ true → contains x (xs ++ ys) ≡ true
contains-append_left x [] ys h = cc
contains-append_left x (y ∷ xs) ys h = elim (Bool-cases (str_eq y x)) [
  | inl here ↦ ground arith
  | inr there ↦ let rest = contains-append_left x xs ys (ground arith) in ground arith
]

contains-append_right :
    (x : String) (xs ys : List String) → contains x ys ≡ true → contains x (xs ++ ys) ≡ true
contains-append_right x [] ys h = h
contains-append_right x (y ∷ xs) ys h = let rest = contains-append_right x xs ys h in ground arith

meets-Disjoint : (xs ys : List String) → meets xs ys ≡ false → Disjoint xs ys
meets-Disjoint [] ys h x m n = cc
meets-Disjoint (y ∷ xs) ys h x m n = elim (Bool-cases (str_eq y x)) [
  | inl here ↦
      let same : y ≡ x = (eq_iff y x).0 here in
      let member : contains y ys ≡ true = subst (λ z. contains z ys ≡ true) (sym same) n in
      absurd (ground arith)
  | inr there ↦ meets-Disjoint xs ys (ground arith) x (ground arith) n
]

Clear-Unlike : (seen : Seen) (r q : Rule) → Clear (with_rule seen r) q → Unlike r q
unfolding with_rule
Clear-Unlike seen r q (f, a, d) = (
  λ e. ground (arith, eq_iff r.fingerprint q.fingerprint),
  λ e. ground (arith, eq_iff r.address q.address),
  λ x m n. d x n (contains-append_left x (domains r.domains) seen.domains m),
)

Clear-less : (seen : Seen) (r q : Rule) → Clear (with_rule seen r) q → Clear seen q
unfolding with_rule
Clear-less seen r q (f, a, d) = (
  ground arith,
  ground arith,
  λ x m n. d x m (contains-append_right x (domains r.domains) seen.domains n),
)

Clear-with_id : (seen : Seen) (i : String) (q : Rule) → Clear (with_id seen i) q → Clear seen q
unfolding with_id
Clear-with_id seen i q h = h

admit-eq : (q r : Rule) → admit q ≡ admit r → q ≡ r
admit-eq q r h = cc

admitted-Clear : (seen : Seen) (q r : Rule) → admitted seen q ≡ admit r → (q ≡ r) × Clear seen r
unfolding admitted ambiguous
admitted-Clear seen q r h = elim (Bool-cases (ambiguous seen q)) [
  | inl clash ↦ absurd (ground arith)
  | inr apart ↦
      let same : q ≡ r = admit-eq q r (ground arith) in
      let clear : Clear seen q = (
        ground arith,
        ground arith,
        meets-Disjoint (domains q.domains) seen.domains (ground arith),
      ) in
      (same, subst (Clear seen) same clear)
]

module _ (crypto : Crypto) (own : Signed Identity) (revoked_ids : List String) (now : ℕ) where
  -- A rule rests on a document of the list that both parties signed, the gateway's institution and
  -- the peer, and that is in force and not revoked.
  abbrev pub Backed : List Agreement → Rule → Type 0
  Backed documents r =
      (d : Agreement) × Among d documents
      × Consent crypto d now
      × (contains d.offer.payload.agreement_id revoked_ids ≡ false)
      × Parties crypto d (fingerprint crypto own) r.fingerprint

  abbrev Agreed : Agreement → Rule → Type 0
  Agreed d r =
      Consent crypto d now
      × (contains d.offer.payload.agreement_id revoked_ids ≡ false)
      × Parties crypto d (fingerprint crypto own) r.fingerprint

  approved-eq : (s : State) → is_approved s ≡ true → s ≡ mutually_approved
  approved-eq mutually_approved h = refl
  approved-eq revoked h = cc
  approved-eq expired h = cc
  approved-eq not_yet_valid h = cc
  approved-eq peer_not_approved h = cc

  singleton-eq : (x y : String) → contains x (y ∷ []) ≡ true → y ≡ x
  singleton-eq x y h = (eq_iff y x).0 (ground arith)

  verdict_of-Agreed :
      (seen : Seen) (d : Agreement) (peer : Signed Identity) (o : Option Evaluation) (r : Rule)
      → evaluate crypto d (fingerprint crypto own) (fingerprint crypto peer ∷ []) revoked_ids now
        ≡ o
      → verdict_of crypto seen peer o ≡ admit r
      → Clear seen r × Agreed d r
  unfolding verdict_of rule_of
  verdict_of-Agreed seen d peer none r known h = absurd (ground arith)
  verdict_of-Agreed seen d peer (some e) r known h = elim (Bool-cases (is_approved e.state)) [
    | inr bad ↦ absurd (ground arith)
    | inl good ↦
        let peerprint = fingerprint crypto peer in
        let (same, clear) = admitted-Clear seen (rule_of peer peerprint e) r (ground arith) in
        let (consent, free, parties, member) =
          evaluate-Consent crypto d (fingerprint crypto own) (peerprint ∷ []) revoked_ids now e
            known (approved-eq e.state good) in
        let spelled : e.peer_fingerprint ≡ r.fingerprint =
          sym (singleton-eq e.peer_fingerprint peerprint member) ∙ ap (λ x. x.fingerprint) same in
        (clear, (consent, free, subst (Parties crypto d (fingerprint crypto own)) spelled parties))
  ]

  judge-Agreed :
      (seen : Seen) (d : Agreement) (r : Rule)
      → judge crypto own revoked_ids now seen d ≡ admit r
      → Clear seen r × Agreed d r
  unfolding judge peer_verdict
  judge-Agreed seen d r h =
      elim (Bool-cases
        (agreement_ok crypto d && not (contains d.offer.payload.agreement_id seen.ids))) [
          | inr bad ↦ absurd (ground arith)
          | inl fine ↦ elim (Option-cases (other_party own d.offer.payload)) [
            | inl stranger ↦ absurd (ground arith)
            | inr (peer, known) ↦ verdict_of-Agreed seen d peer _ r refl (ground arith)
          ]
        ]

  abbrev pub Collected : List Agreement → Seen → List Rule → Type 0
  Collected documents seen rs =
      All (Clear seen) rs
      × Apart Unlike rs
      × All (Backed documents) rs
      × (length rs ≤ length documents)

  later-Backed : (d : Agreement) (ds : List Agreement) (r : Rule) → Backed ds r → Backed (d ∷ ds) r
  later-Backed d ds r (x, m, c, f, p) = (x, inr m, c, f, p)

  skip-Collected :
      (d : Agreement) (ds : List Agreement) (seen : Seen) (i : String) (rs : List Rule)
      → Collected ds (with_id seen i) rs
      → Collected (d ∷ ds) seen rs
  skip-Collected d ds seen i rs (clear, apart, backed, short) = (
    All-map (Clear (with_id seen i)) (Clear seen) rs (Clear-with_id seen i) clear,
    apart,
    All-map (Backed ds) (Backed (d ∷ ds)) rs (later-Backed d ds) backed,
    omega arith,
  )

  admit-Collected :
      (d : Agreement) (ds : List Agreement) (seen : Seen) (r : Rule) (rs : List Rule)
      → Clear seen r
      → Agreed d r
      → Collected ds (with_rule seen r) rs
      → Collected (d ∷ ds) seen (r ∷ rs)
  admit-Collected d ds seen r rs c a (clear, apart, backed, short) = (
    (c, All-map (Clear (with_rule seen r)) (Clear seen) rs (Clear-less seen r) clear),
    (All-map (Clear (with_rule seen r)) (Unlike r) rs (Clear-Unlike seen r) clear, apart),
    (
      (d, inl refl, a.0, a.1, a.2),
      All-map (Backed ds) (Backed (d ∷ ds)) rs (later-Backed d ds) backed,
    ),
    omega arith,
  )

  map-some :
      (r : Rule) (o : Option (List Rule)) (rs : List Rule)
      → Option.map (λ qs. r ∷ qs) o ≡ some rs
      → (qs : List Rule) × (o ≡ some qs) × (r ∷ qs ≡ rs)
  map-some r none rs h = cc
  map-some r (some qs) rs h = (qs, refl, some-eq (r ∷ qs) rs h)

  pub collect-Collected :
      (ds : List Agreement) (seen : Seen) (rs : List Rule)
      → collect crypto own revoked_ids now ds seen ≡ some rs
      → Collected ds seen rs
  unfolding collect
  collect-Collected [] seen [] h = (tt, tt, tt, omega arith)
  collect-Collected [] seen (r ∷ rs) h = cc
  collect-Collected (d ∷ ds) seen rs h =
      turn (judge crypto own revoked_ids now seen d) refl
        (collect-Collected ds (with_id seen d.offer.payload.agreement_id))
        (λ r. collect-Collected ds (with_rule seen r))
    where
      turn :
          (v : Verdict)
          → judge crypto own revoked_ids now seen d ≡ v
          → ((qs : List Rule)
              → collect crypto own revoked_ids now ds (with_id seen d.offer.payload.agreement_id)
                ≡ some qs
              → Collected ds (with_id seen d.offer.payload.agreement_id) qs)
          → ((r : Rule) (qs : List Rule)
              → collect crypto own revoked_ids now ds (with_rule seen r) ≡ some qs
              → Collected ds (with_rule seen r) qs)
          → Collected (d ∷ ds) seen rs
      turn refuse e skipped taken = absurd (ground (arith, h, e))
      turn skip e skipped taken =
          skip-Collected d ds seen d.offer.payload.agreement_id rs
            (skipped rs (ground (arith, h, e)))
      turn (admit r) e skipped taken =
          let (clear, agreed) = judge-Agreed seen d r e in
          let (qs, rest, same) =
            map-some r (collect crypto own revoked_ids now ds (with_rule seen r)) rs
              (ground (arith, h, e)) in
          subst (Collected (d ∷ ds) seen) same
            (admit-Collected d ds seen r qs clear agreed (taken r qs rest))
