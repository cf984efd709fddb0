-- ===== src/Agreement/Approval.antt =====
-- What an accepted agreement proves: accept and evaluate of scripts/regional_agreements.py.
use resilient_datacenter.Shared.{
  ℕ, String, true, false, ◌&&◌, str_eq, eq_iff, Option, none, some, List, all, contains, ◌≡◌, ◌≤◌,
  ◌<◌, refl, sym, subst, ap, ◌∙◌, ◌⊎◌, arith, Bool-cases, Option-cases, inl, inr, and-true,
}
use resilient_datacenter.Shared.Hoare.{some-eq}
use resilient_datacenter.Shared.Texts.{is_hex}
use resilient_datacenter.Agreement.Values.{canonical, message}
use resilient_datacenter.Agreement.Documents.{
  Signed, Offer, Agreement, offer_value, acceptance_value,
}
use resilient_datacenter.Agreement.Verifying.{
  Crypto, in_time, signature_ok, accepts_text, offer_ok, agreement_ok, fingerprint, offer_digest,
}
use resilient_datacenter.Agreement.Consenting.{
  mutually_approved, Evaluation, peer_of, state_of, evaluation, evaluate,
}

module _ (crypto : Crypto) where
  -- The payload is signed by the key under its kind.
  abbrev pub SignedBy : String → String → String → Option String → Type 0
  SignedBy key signature kind raw =
      (text : String) × (raw ≡ some text)
      × (crypto.accepts key signature (message kind text) ≡ true)

  -- Both institutions signed one offer, and `now` lies in its lifetime, not before the acceptance.
  pub record Consent (d : Agreement) (now : ℕ) : Type 0 where
    pub offered :
        SignedBy d.offer.payload.initiator.payload.public_key d.offer.signature "regional-offer"
          (canonical (offer_value d.offer.payload))
    pub accepted :
        SignedBy d.offer.payload.recipient.payload.public_key d.acceptance.signature
          "regional-acceptance"
          (canonical (acceptance_value d.acceptance.payload))
    pub same_offer : d.acceptance.payload.offer_sha256 ≡ offer_digest crypto d.offer
    pub begun : d.acceptance.payload.accepted_at ≤ now
    pub not_over : now < d.offer.payload.expires_at
    pub in_lifetime : d.offer.payload.issued_at ≤ d.acceptance.payload.accepted_at

  accepts_text-SignedBy :
      (key signature kind : String) (raw : Option String)
      → accepts_text crypto key signature kind raw ≡ true
      → SignedBy key signature kind raw
  unfolding accepts_text
  accepts_text-SignedBy key signature kind none h = cc
  accepts_text-SignedBy key signature kind (some text) h = (text, refl, h)

  signature_ok-SignedBy :
      (v : _) (payload_kind signature key kind : String)
      → signature_ok crypto v payload_kind signature key kind ≡ true
      → SignedBy key signature kind (canonical v)
  unfolding signature_ok
  signature_ok-SignedBy v payload_kind signature key kind h =
      let (rest, accepted) = and-true _ _ h in
      let (_, same) = and-true _ _ rest in
      subst (λ k. SignedBy key signature k (canonical v)) ((eq_iff payload_kind kind).0 same)
        (accepts_text-SignedBy key signature payload_kind (canonical v) accepted)

  offer_ok-SignedBy :
      (d : Signed Offer)
      → offer_ok crypto d ≡ true
      → SignedBy d.payload.initiator.payload.public_key d.signature "regional-offer"
          (canonical (offer_value d.payload))
  unfolding offer_ok
  offer_ok-SignedBy d h =
      signature_ok-SignedBy (offer_value d.payload) d.payload.kind d.signature
        d.payload.initiator.payload.public_key "regional-offer" (and-true _ _ h).1

  agreement_ok-Consent :
      (d : Agreement) (now : ℕ)
      → agreement_ok crypto d ≡ true
      → d.acceptance.payload.accepted_at ≤ now
      → now < d.offer.payload.expires_at
      → Consent d now
  unfolding agreement_ok
  agreement_ok-Consent d now h low high = record {
    offered = offer_ok-SignedBy d.offer (ground arith);
    accepted =
        signature_ok-SignedBy (acceptance_value d.acceptance.payload) d.acceptance.payload.kind
          d.acceptance.signature d.offer.payload.recipient.payload.public_key "regional-acceptance"
          (ground arith);
    same_offer =
        (eq_iff d.acceptance.payload.offer_sha256 (offer_digest crypto d.offer)).0 (ground arith);
    begun = low;
    not_over = high;
    in_lifetime = ground arith;
  }

  state_of-Approved :
      (d : Agreement) (peer : String) (approved_peers revoked_ids : List String) (now : ℕ)
      → state_of crypto d peer approved_peers revoked_ids now ≡ mutually_approved
      → (contains d.offer.payload.agreement_id revoked_ids ≡ false)
        × (d.acceptance.payload.accepted_at ≤ now)
        × (now < d.offer.payload.expires_at)
        × (contains peer approved_peers ≡ true)
  unfolding state_of
  state_of-Approved d peer approved_peers revoked_ids now h =
      elim (Bool-cases (contains d.offer.payload.agreement_id revoked_ids)) [
        | inl bad ↦ absurd (ground arith)
        | inr free ↦ elim (Bool-cases (contains peer approved_peers)) [
          | inr unknown ↦ absurd (ground arith)
          | inl known ↦ (free, ground arith, ground arith, known)
        ]
      ]

  evaluate-some :
      (d : Agreement) (local : String) (approved_peers revoked_ids : List String) (now : ℕ)
      (e : Evaluation)
      → evaluate crypto d local approved_peers revoked_ids now ≡ some e
      → (peer : String) × (agreement_ok crypto d ≡ true)
        × (peer_of crypto d local ≡ some peer)
        × (evaluation crypto d approved_peers revoked_ids now peer ≡ e)
  unfolding evaluate
  evaluate-some d local approved_peers revoked_ids now e h =
      elim (Bool-cases (
        in_time now
        && agreement_ok crypto d
        && all (is_hex 64) approved_peers
        && all (is_hex 32) revoked_ids)) [
          | inr bad ↦ absurd (ground arith)
          | inl fine ↦ elim (Option-cases (peer_of crypto d local)) [
            | inl none_known ↦ absurd (ground arith)
            | inr (peer, known) ↦ (peer, ground arith, known, some-eq _ _ (ground arith))
          ]
        ]

  -- The local institution and the peer are the two parties.
  abbrev pub Parties : Agreement → String → String → Type 0
  Parties d local peer =
      let left = fingerprint crypto d.offer.payload.initiator in
      let right = fingerprint crypto d.offer.payload.recipient in
      ((left ≡ local) × (peer ≡ right)) ⊎ ((right ≡ local) × (peer ≡ left))

  peer_of-Parties :
      (d : Agreement) (local peer : String)
      → peer_of crypto d local ≡ some peer
      → Parties d local peer
  unfolding peer_of
  peer_of-Parties d local peer h =
      let left = fingerprint crypto d.offer.payload.initiator in
      let right = fingerprint crypto d.offer.payload.recipient in
      elim (Bool-cases (str_eq left local)) [
        | inl first ↦ inl ((eq_iff left local).0 first, sym (some-eq right peer (ground arith)))
        | inr other ↦ elim (Bool-cases (str_eq right local)) [
          | inl second ↦ inr ((eq_iff right local).0 second, sym (some-eq left peer (ground arith)))
          | inr stranger ↦ absurd (ground arith)
        ]
      ]

  -- Where evaluate finds an agreement mutually approved at `now`, both institutions signed one offer
  -- under its kind and the acceptance of it, the acceptance lies in the offer's lifetime, and `now`
  -- lies between the acceptance and the end; the agreement is not revoked; the two parties are the
  -- local institution and the peer, and the peer is approved.
  pub evaluate-Consent :
      (d : Agreement) (local : String) (approved_peers revoked_ids : List String) (now : ℕ)
      (e : Evaluation)
      → evaluate crypto d local approved_peers revoked_ids now ≡ some e
      → e.state ≡ mutually_approved
      → Consent d now
        × (contains d.offer.payload.agreement_id revoked_ids ≡ false)
        × Parties d local e.peer_fingerprint
        × (contains e.peer_fingerprint approved_peers ≡ true)
  unfolding evaluation
  evaluate-Consent d local approved_peers revoked_ids now e h approved =
      let (peer, ok, known, same) = evaluate-some d local approved_peers revoked_ids now e h in
      let state : state_of crypto d peer approved_peers revoked_ids now ≡ mutually_approved =
        ap (λ x. x.state) same ∙ approved in
      let (free, low, high, member) =
        state_of-Approved d peer approved_peers revoked_ids now state in
      let spelled : peer ≡ e.peer_fingerprint = ap (λ x. x.peer_fingerprint) same in
      (
        agreement_ok-Consent d now ok low high,
        free,
        subst (Parties d local) spelled (peer_of-Parties d local peer known),
        subst (λ x. contains x approved_peers ≡ true) spelled member,
      )
