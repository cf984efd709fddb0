-- ===== src/Agreement/RoundTrip.antt =====
-- An offer that is accepted is an agreement that evaluate approves.
use resilient_datacenter.Shared.{
  ℕ, String, true, false, ltb, leb, str_eq, eq_iff, some, List, all, contains, ◌≡◌, ◌≢◌, ◌≤◌, ◌<◌,
  refl, arith, Bool-cases, inl, inr,
}
use text.Mathlib.TextPositions.{eq_refl}
use resilient_datacenter.Shared.Texts.{is_hex}
use resilient_datacenter.Agreement.Values.{canonical, message}
use resilient_datacenter.Agreement.Documents.{
  Signed, Offer, Acceptance, Agreement, acceptance_value, agreement_value, envelope,
}
use resilient_datacenter.Agreement.Verifying.{
  Crypto, Sound, in_time, is_some, signature_ok, accepts_text, offer_ok, agreement_ok, fingerprint,
  offer_digest,
}
use resilient_datacenter.Agreement.Consenting.{
  mutually_approved, Evaluation, valid_seed, signed, acceptance_of, agreement_of, acceptable,
  accept, peer_of, state_of, evaluation, evaluate,
}

module _ (crypto : Crypto) (seed : List ℕ) (d : Signed Offer) (now : ℕ) where
  -- What accept makes where the acceptance has the canonical text `raw`.
  abbrev pub acceptance_signed : String → Signed Acceptance
  acceptance_signed raw = record {
    payload = acceptance_of crypto d now;
    signature = crypto.sign seed (message "regional-acceptance" raw);
  }

  -- The documents of an acceptance stay within the bounds of canonical.
  pub record Fits (raw : String) : Type 0 where
    pub payload : canonical (acceptance_value (acceptance_of crypto d now)) ≡ some raw
    pub enveloped :
        is_some (
          canonical (
            envelope
              (acceptance_value (acceptance_of crypto d now))
              (acceptance_signed raw).signature))
        ≡ true
    pub whole :
        is_some (canonical (agreement_value (agreement_of crypto d (acceptance_signed raw)))) ≡ true

  module _ (expected_peer raw : String) (sound : Sound crypto) (fits : Fits raw)
      (ready : valid_seed crypto seed ≡ true)
      (fine : acceptable crypto seed d now expected_peer ≡ true) where
    signature-fine :
        (key : String)
        → key ≡ crypto.public_key_of seed
        → signature_ok crypto
            (acceptance_value (acceptance_of crypto d now))
            "regional-acceptance"
            (acceptance_signed raw).signature
            key
            "regional-acceptance"
          ≡ true
    unfolding signature_ok accepts_text
    signature-fine key e =
        rw
          (
            e,
            sound.key_size seed,
            sound.signature_size seed (message "regional-acceptance" raw),
            fits.enveloped,
            fits.payload,
            sound.accepts_own seed (message "regional-acceptance" raw),
          )
          refl

    abbrev pub accepted : Agreement
    accepted = agreement_of crypto d (acceptance_signed raw)

    accepted-fine : agreement_ok crypto accepted ≡ true
    unfolding agreement_ok acceptable acceptance_of
    accepted-fine =
        let recipient : d.payload.recipient.payload.public_key ≡ crypto.public_key_of seed =
          (eq_iff d.payload.recipient.payload.public_key (crypto.public_key_of seed)).0
            (ground arith) in
        let offered : offer_ok crypto d ≡ true = ground arith in
        let early : leb d.payload.issued_at now ≡ true = ground arith in
        let late : ltb now d.payload.expires_at ≡ true = ground arith in
        rw
          (
            fits.whole,
            offered,
            signature-fine _ recipient,
            eq_refl (offer_digest crypto d),
            early,
            late,
          )
          refl

    accept-accepted : accept crypto seed d now expected_peer ≡ some accepted
    unfolding accept signed acceptance_of
    accept-accepted = rw (fine, fits.payload, ready, accepted-fine) refl

    module _ (later : ℕ) (approved_peers revoked_ids : List String) where
      -- The recipient's decision: the initiator is approved, and the agreement is not revoked.
      pub record Approves : Type 0 where
        pub in_range : in_time later ≡ true
        pub not_before : now ≤ later
        pub not_over : later < d.payload.expires_at
        pub peers_shaped : all (is_hex 64) approved_peers ≡ true
        pub ids_shaped : all (is_hex 32) revoked_ids ≡ true
        pub approved : contains (fingerprint crypto d.payload.initiator) approved_peers ≡ true
        pub not_revoked : contains d.payload.agreement_id revoked_ids ≡ false
        pub told_apart :
            fingerprint crypto d.payload.initiator ≢ fingerprint crypto d.payload.recipient

      peer_known :
          Approves
          → peer_of crypto accepted (fingerprint crypto d.payload.recipient)
            ≡ some (fingerprint crypto d.payload.initiator)
      unfolding peer_of
      peer_known a =
          let left = fingerprint crypto d.payload.initiator in
          let right = fingerprint crypto d.payload.recipient in
          elim (Bool-cases (str_eq left right)) [
            | inl same ↦ absurd (a.told_apart ((eq_iff left right).0 same))
            | inr other ↦ rw (other, eq_refl right) refl
          ]

      state_approved :
          Approves
          → state_of crypto accepted
              (fingerprint crypto d.payload.initiator)
              approved_peers
              revoked_ids
              later
            ≡ mutually_approved
      unfolding state_of acceptance_of
      state_approved a =
          let in_force : leb d.payload.expires_at later ≡ false =
            let over = a.not_over in ground arith in
          let begun : ltb later now ≡ false = let early = a.not_before in ground arith in
          rw (a.not_revoked, in_force, begun, a.approved) refl

      -- An offer that passes the tests of accept, signed with a seed of 32 bytes by the recipient,
      -- gives an agreement, if its documents stay within the bounds of canonical; and at any later
      -- time before the offer ends, the recipient's evaluate finds that agreement mutually approved
      -- with the initiator as the peer, if it approves the initiator and has not revoked the
      -- agreement. The cryptography is as documented, and the two fingerprints differ.
      pub accept-evaluate :
          Approves
          → (r : Agreement) × (e : Evaluation) × (accept crypto seed d now expected_peer ≡ some r)
            × (r.offer ≡ d)
            × (evaluate crypto r
                  (fingerprint crypto d.payload.recipient)
                  approved_peers
                  revoked_ids
                  later
                ≡ some e)
            × (e.state ≡ mutually_approved)
            × (e.peer_fingerprint ≡ fingerprint crypto d.payload.initiator)
      unfolding evaluate evaluation
      accept-evaluate a =
          let peer = fingerprint crypto d.payload.initiator in
          (
            accepted,
            evaluation crypto accepted approved_peers revoked_ids later peer,
            accept-accepted,
            refl,
            rw (a.in_range, accepted-fine, a.peers_shaped, a.ids_shaped, peer_known a) refl,
            state_approved a,
            refl,
          )
