-- ===== src/Agreement/Consenting.antt =====
-- identity, offer, accept and evaluate of scripts/regional_agreements.py.
use resilient_datacenter.Shared.{
  ℕ, String, Bool, ◌&&◌, ltb, leb, ◌==◌, str_eq, Option, none, some, List, [], ◌∷◌, all, contains,
  length, if◌then◌else◌,
}
use resilient_datacenter.Shared.Texts.{is_hex}
use Prim.Native.Nat.{Ordering}
use Prim.Native.String.{compare}
use resilient_datacenter.Agreement.Values.{canonical, message}
use resilient_datacenter.Agreement.Documents.{
  Services, Identity, Signed, Offer, Acceptance, Agreement, identity_value, offer_value,
  acceptance_value,
}
use resilient_datacenter.Agreement.Verifying.{
  Crypto, in_time, identity_ok, offer_ok, agreement_ok, fingerprint, offer_digest,
}

pub data State : Type 0 where
  mutually_approved revoked expired not_yet_valid peer_not_approved : State

pub record Evaluation : Type 0 where
  pub state : State
  pub agreement_id : String
  pub peer_fingerprint : String
  pub services : List String
  pub expires_at : ℕ

-- A text goes to its place in a sorted list, also where it is there already.
abbrev pub place : String → List String → List String
place x [] = x ∷ []
place x (y ∷ ys) =
    let rest = place x ys in elim (compare x y) [ Ordering.gt ↦ y ∷ rest | _ ↦ x ∷ y ∷ ys ]

-- sorted(xs)
abbrev pub sorted : List String → List String
sorted [] = []
sorted (x ∷ xs) = place x (sorted xs)

module _ (crypto : Crypto) where
  abbrev pub valid_seed : List ℕ → Bool
  valid_seed seed = length seed == 32

  -- _sign of a payload with its kind and its canonical text
  unfoldable pub signed : {A : Type 0} → List ℕ → A → String → Option String → Option (Signed A)
  signed seed payload kind none = none
  signed seed payload kind (some raw) =
      if valid_seed seed
      then some (record { payload = payload; signature = crypto.sign seed (message kind raw) })
      else none

  abbrev pub checked : {A : Type 0} → (A → Bool) → Option A → Option A
  checked p none = none
  checked p (some a) = if p a then some a else none

  unfoldable pub identity_payload : List ℕ → String → String → String → String → Services → Identity
  identity_payload seed institution_id regional_controller gateway_node gateway_ipv4 services =
      record {
        kind = "regional-identity";
        schema_version = 1;
        institution_id = institution_id;
        regional_controller = regional_controller;
        gateway_node = gateway_node;
        gateway_ipv4 = gateway_ipv4;
        services = services;
        public_key = crypto.public_key_of seed;
      }

  unfoldable pub identity :
      List ℕ → String → String → String → String → Services → Option (Signed Identity)
  identity seed institution_id regional_controller gateway_node gateway_ipv4 services =
      let i =
        identity_payload seed institution_id regional_controller gateway_node gateway_ipv4
          services in
      checked (identity_ok crypto) (signed seed i i.kind (canonical (identity_value i)))

  -- `agreement_id` is the new identifier.
  unfoldable pub offer_payload :
      String → Signed Identity → Signed Identity → List String → ℕ → ℕ → Offer
  offer_payload agreement_id initiator recipient services now expires_at = record {
    kind = "regional-offer";
    schema_version = 1;
    agreement_id = agreement_id;
    issued_at = now;
    expires_at = expires_at;
    initiator = initiator;
    recipient = recipient;
    services = sorted services;
  }

  unfoldable pub offer :
      List ℕ
      → String
      → Signed Identity
      → Signed Identity
      → List String
      → ℕ
      → ℕ
      → String
      → Option (Signed Offer)
  offer seed agreement_id initiator recipient services now expires_at expected_peer =
      let o = offer_payload agreement_id initiator recipient services now expires_at in
      if identity_ok crypto initiator
        && str_eq initiator.payload.public_key (crypto.public_key_of seed)
        && identity_ok crypto recipient
        && str_eq (fingerprint crypto recipient) expected_peer
      then checked (offer_ok crypto) (signed seed o o.kind (canonical (offer_value o)))
      else none

  unfoldable pub acceptance_of : Signed Offer → ℕ → Acceptance
  acceptance_of d now = record {
    kind = "regional-acceptance";
    schema_version = 1;
    offer_sha256 = offer_digest crypto d;
    accepted_at = now;
  }

  abbrev pub agreement_of : Signed Offer → Signed Acceptance → Agreement
  agreement_of d a = record {
    kind = "regional-agreement";
    schema_version = 1;
    offer = d;
    acceptance = a;
  }

  abbrev pub agreed : Signed Offer → Option (Signed Acceptance) → Option Agreement
  agreed d none = none
  agreed d (some a) = some (agreement_of d a)

  -- the tests of accept before it signs
  unfoldable pub acceptable : List ℕ → Signed Offer → ℕ → String → Bool
  acceptable seed d now expected_peer =
      in_time now
      && offer_ok crypto d
      && str_eq d.payload.recipient.payload.public_key (crypto.public_key_of seed)
      && str_eq (fingerprint crypto d.payload.initiator) expected_peer
      && leb d.payload.issued_at now
      && ltb now d.payload.expires_at

  unfoldable pub accept : List ℕ → Signed Offer → ℕ → String → Option Agreement
  accept seed d now expected_peer =
      let a = acceptance_of d now in
      if acceptable seed d now expected_peer
      then checked (agreement_ok crypto)
          (agreed d (signed seed a a.kind (canonical (acceptance_value a))))
      else none

  -- the fingerprint of the other party
  unfoldable pub peer_of : Agreement → String → Option String
  peer_of d local =
      let left = fingerprint crypto d.offer.payload.initiator in
      let right = fingerprint crypto d.offer.payload.recipient in
      if str_eq left local then some right else if str_eq right local then some left else none

  unfoldable pub state_of : Agreement → String → List String → List String → ℕ → State
  state_of d peer approved_peers revoked_ids now =
      if contains d.offer.payload.agreement_id revoked_ids
      then revoked
      else if leb d.offer.payload.expires_at now
      then expired
      else if ltb now d.acceptance.payload.accepted_at
      then not_yet_valid
      else if contains peer approved_peers
      then mutually_approved
      else peer_not_approved

  unfoldable pub evaluation : Agreement → List String → List String → ℕ → String → Evaluation
  evaluation d approved_peers revoked_ids now peer = record {
    state = state_of d peer approved_peers revoked_ids now;
    agreement_id = d.offer.payload.agreement_id;
    peer_fingerprint = peer;
    services = d.offer.payload.services;
    expires_at = d.offer.payload.expires_at;
  }

  abbrev pub evaluated :
      Agreement → List String → List String → ℕ → Option String → Option Evaluation
  evaluated d approved_peers revoked_ids now none = none
  evaluated d approved_peers revoked_ids now (some peer) =
      some (evaluation d approved_peers revoked_ids now peer)

  unfoldable pub evaluate : Agreement → String → List String → List String → ℕ → Option Evaluation
  evaluate d local approved_peers revoked_ids now =
      if in_time now
        && agreement_ok crypto d
        && all (is_hex 64) approved_peers
        && all (is_hex 32) revoked_ids
      then evaluated d approved_peers revoked_ids now (peer_of d local)
      else none
