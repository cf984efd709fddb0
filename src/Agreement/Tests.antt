-- ===== src/Agreement/Tests.antt =====
-- Two institutions that agree, with a cryptography of constant signatures.
use resilient_datacenter.Shared.{
  ℕ, String, Bool, true, false, Option, none, some, List, [], ◌∷◌, ◌≡◌, ◌≢◌, refl, contains, str_eq,
  arith, eq_iff, if◌then◌else◌, ◌==◌, Bool-cases, inl, inr,
}
use resilient_datacenter.Shared.Texts.{is_hex}
use resilient_datacenter.Agreement.Values.{
  Value, size_items, size_fields, plain, decimal, escaped, dumps, canonical, message,
}
use resilient_datacenter.Agreement.Documents.{
  Identity, Signed, Offer, Agreement, identity_value, envelope, offer_value, acceptance_value,
  agreement_value,
}
use resilient_datacenter.Agreement.Verifying.{
  Crypto, Sound, hostname, overlay_address, services_ok, accepts_text, signature_ok, identity_ok,
  fingerprint, parties_ok, scope_ok, lifetime_ok, offer_ok, offer_digest, agreement_ok,
}
use resilient_datacenter.Agreement.Consenting.{
  mutually_approved, revoked, Evaluation, signed, identity_payload, identity, offer_payload, offer,
  acceptance_of, agreement_of, acceptable, accept, peer_of, state_of, evaluation, evaluate,
}
use resilient_datacenter.Agreement.Approval.{Consent, Parties, evaluate-Consent}
use resilient_datacenter.Agreement.RoundTrip.{Fits, Approves, accept-evaluate}
use resilient_datacenter.Agreement.Peers.{
  Rule, same_identity, other_party, rule_of, ambiguous, admitted, with_id, with_rule, sorted_rules,
  verdict_of, peer_verdict, judge, collect, peer_rules,
}
use resilient_datacenter.Agreement.Ordering.{Promise, peer_rules-Apart}

abbrev key_b : String
key_b = "bbbbbbbbbbbbbbbbbbbbbbbbbbbbbbbbbbbbbbbbbbbbbbbbbbbbbbbbbbbbbbbb"

abbrev key_a : String
key_a = "aaaaaaaaaaaaaaaaaaaaaaaaaaaaaaaaaaaaaaaaaaaaaaaaaaaaaaaaaaaaaaaa"

abbrev seal : String
seal =
    "cccccccccccccccccccccccccccccccccccccccccccccccccccccccccccccccccccccccccccccccccccccccccccccccccccccccccccccccccccccccccccccccc"

abbrev key_of : List ℕ → String
key_of [] = key_b
key_of (x ∷ xs) = if x == 1 then key_a else key_b

abbrev constant : Crypto
constant = record {
  public_key_of = key_of;
  sign = λ seed m. seal;
  accepts = λ key signature m. str_eq signature seal;
  sha256 = λ m. key_a;
  sha256_of_hex = λ k. k;
}

key_of-is_hex : (seed : List ℕ) → is_hex 64 (key_of seed) ≡ true
key_of-is_hex [] = refl
key_of-is_hex (x ∷ xs) = elim (Bool-cases (x == 1)) [ inl e ↦ rw e refl | inr e ↦ rw e refl ]

constant-Sound : Sound constant
constant-Sound = record {
  accepts_own = λ seed m. refl;
  key_size = key_of-is_hex;
  signature_size = λ seed m. refl;
  digest_size = λ m. refl;
}

abbrev zeros : List ℕ
zeros =
    0 ∷ 0 ∷ 0 ∷ 0 ∷ 0 ∷ 0 ∷ 0 ∷ 0 ∷ 0 ∷ 0 ∷ 0 ∷ 0 ∷ 0 ∷ 0 ∷ 0 ∷ 0 ∷ 0 ∷ 0 ∷ 0 ∷ 0 ∷ 0 ∷ 0 ∷ 0 ∷ 0
    ∷ 0 ∷ 0 ∷ 0 ∷ 0 ∷ 0 ∷ 0 ∷ 0 ∷ []

abbrev north_seed : List ℕ
north_seed = 1 ∷ zeros

abbrev south_seed : List ℕ
south_seed = 2 ∷ zeros

abbrev north : Signed Identity
north = record {
  payload = record {
    kind = "regional-identity";
    schema_version = 1;
    institution_id = "north";
    regional_controller = "hub.region.net";
    gateway_node = "north-gateway";
    gateway_ipv4 = "100.64.0.7";
    services = ("matrix", "chat.north.net") ∷ ("nextcloud", "files.north.net") ∷ [];
    public_key = key_a;
  };
  signature = seal;
}

abbrev south : Signed Identity
south = record {
  payload = record {
    kind = "regional-identity";
    schema_version = 1;
    institution_id = "south";
    regional_controller = "hub.region.net";
    gateway_node = "south-gateway";
    gateway_ipv4 = "100.64.0.9";
    services = ("matrix", "chat.south.net") ∷ [];
    public_key = key_b;
  };
  signature = seal;
}

abbrev agreement_name : String
agreement_name = "0123456789abcdef0123456789abcdef"

abbrev north_offer : Signed Offer
north_offer = record {
  payload = record {
    kind = "regional-offer";
    schema_version = 1;
    agreement_id = agreement_name;
    issued_at = 1000;
    expires_at = 9000;
    initiator = north;
    recipient = south;
    services = "matrix" ∷ [];
  };
  signature = seal;
}

-- canonical with all that it calls open to computation
run_canonical : Value → Option String
unfolding canonical plain size_items size_fields dumps decimal escaped
run_canonical v = canonical v

run_offer : Signed Offer → Bool
unfolding offer_ok run_canonical identity_ok hostname overlay_address services_ok signature_ok
    accepts_text parties_ok scope_ok lifetime_ok identity_value envelope offer_value message
run_offer d = offer_ok constant d

north_offer-fine : run_offer north_offer ≡ true
unfolding run_offer
north_offer-fine = refl

-- The same parties and services, with an identity that claims the network's own resolver.
resolver :
    run_offer (record north_offer {
      payload = record north_offer.payload {
        initiator = record north {
          payload = record north.payload { gateway_ipv4 = "100.100.100.100" };
        };
      };
    })
    ≡ false
unfolding run_offer
resolver = refl

run_identity : Option (Signed Identity)
unfolding identity identity_payload signed run_offer
run_identity =
    identity constant north_seed "north" "hub.region.net" "north-gateway" "100.64.0.7"
      north.payload.services

identity_signed : run_identity ≡ some north
unfolding run_identity
identity_signed = refl

run_own_offer : Option (Signed Offer)
unfolding offer offer_payload signed run_offer fingerprint
run_own_offer = offer constant north_seed agreement_name north south ("matrix" ∷ []) 1000 9000 key_b

offer_signed : run_own_offer ≡ some north_offer
unfolding run_own_offer
offer_signed = refl

run_acceptable : Signed Offer → ℕ → Bool
unfolding acceptable run_offer fingerprint
run_acceptable d now = acceptable constant south_seed d now key_a

offer_acceptable : acceptable constant south_seed north_offer 2000 key_a ≡ true
unfolding run_acceptable
offer_acceptable = refl

too_late : run_acceptable north_offer 9000 ≡ false
unfolding run_acceptable
too_late = refl

acceptance_text : Option String
unfolding run_canonical acceptance_value acceptance_of offer_digest envelope offer_value
    identity_value
acceptance_text = run_canonical (acceptance_value (acceptance_of constant north_offer 2000))

abbrev acceptance_raw : String
acceptance_raw =
    "{\"accepted_at\":2000,\"kind\":\"regional-acceptance\",\"offer_sha256\":\"aaaaaaaaaaaaaaaaaaaaaaaaaaaaaaaaaaaaaaaaaaaaaaaaaaaaaaaaaaaaaaaa\",\"schema_version\":1}"

acceptance_written : acceptance_text ≡ some acceptance_raw
unfolding acceptance_text
acceptance_written = refl

acceptance-Fits : Fits constant south_seed north_offer 2000 acceptance_raw
unfolding acceptance_text agreement_value
acceptance-Fits = record { payload = refl; enveloped = refl; whole = refl }

abbrev south_agreement : Agreement
south_agreement = agreement_of constant north_offer (record {
  payload = record {
    kind = "regional-acceptance";
    schema_version = 1;
    offer_sha256 = key_a;
    accepted_at = 2000;
  };
  signature = seal;
})

run_agreement : Agreement → Bool
unfolding agreement_ok run_offer agreement_value acceptance_value offer_digest
run_agreement d = agreement_ok constant d

agreement_fine : run_agreement south_agreement ≡ true
unfolding run_agreement
agreement_fine = refl

run_evaluate : List String → Option Evaluation
unfolding evaluate run_agreement peer_of state_of evaluation fingerprint
run_evaluate revoked_ids = evaluate constant south_agreement key_b (key_a ∷ []) revoked_ids 3000

abbrev approved_evaluation : Evaluation
approved_evaluation = record {
  state = mutually_approved;
  agreement_id = agreement_name;
  peer_fingerprint = key_a;
  services = "matrix" ∷ [];
  expires_at = 9000;
}

evaluation_approved : run_evaluate [] ≡ some approved_evaluation
unfolding run_evaluate
evaluation_approved = refl

evaluation_revoked :
    run_evaluate (agreement_name ∷ []) ≡ some (record approved_evaluation { state = revoked })
unfolding run_evaluate
evaluation_revoked = refl

evaluate-Consent_example :
    Consent constant south_agreement 3000
    × (contains agreement_name [] ≡ false)
    × Parties constant south_agreement key_b key_a
    × (contains key_a (key_a ∷ []) ≡ true)
unfolding run_evaluate
evaluate-Consent_example =
    evaluate-Consent constant south_agreement key_b (key_a ∷ []) [] 3000 approved_evaluation refl
      refl

keys_differ : ◌≢◌ {A = String} key_a key_b
keys_differ e = ground (arith, eq_iff key_a key_b)

run_rules : List Agreement → List String → Option (List Rule)
unfolding peer_rules collect judge peer_verdict verdict_of other_party same_identity admitted
    ambiguous rule_of with_id with_rule sorted_rules run_evaluate
run_rules documents revoked_ids = peer_rules constant south documents revoked_ids 3000

abbrev north_rule : Rule
north_rule = record {
  agreement_id = agreement_name;
  fingerprint = key_a;
  institution_id = "north";
  address = "100.64.0.7";
  domains = ("matrix", "chat.north.net") ∷ [];
  services = "matrix" ∷ [];
  expires_at = 9000;
}

rules_made : run_rules (south_agreement ∷ []) [] ≡ some (north_rule ∷ [])
unfolding run_rules
rules_made = refl

rules_revoked : run_rules (south_agreement ∷ []) (agreement_name ∷ []) ≡ some []
unfolding run_rules
rules_revoked = refl

rules_repeated : run_rules (south_agreement ∷ south_agreement ∷ []) [] ≡ none
unfolding run_rules
rules_repeated = refl

peer_rules-Apart_example : Promise constant south (south_agreement ∷ []) [] 3000 (north_rule ∷ [])
unfolding run_rules
peer_rules-Apart_example =
    peer_rules-Apart constant south (south_agreement ∷ []) [] 3000 (north_rule ∷ []) refl

south-Approves :
    Approves constant south_seed north_offer 2000 key_a acceptance_raw constant-Sound
      acceptance-Fits refl offer_acceptable 3000
      (key_a ∷ [])
      []
unfolding fingerprint
south-Approves = record {
  in_range = refl;
  not_before = omega arith;
  not_over = omega arith;
  peers_shaped = refl;
  ids_shaped = refl;
  approved = refl;
  not_revoked = refl;
  told_apart = keys_differ;
}

accept-evaluate_example :
    (r : Agreement) × (e : Evaluation) × (accept constant south_seed north_offer 2000 key_a
      ≡ some r)
    × (r.offer ≡ north_offer)
    × (evaluate constant r (fingerprint constant south) (key_a ∷ []) [] 3000 ≡ some e)
    × (e.state ≡ mutually_approved)
    × (e.peer_fingerprint ≡ fingerprint constant north)
accept-evaluate_example =
    accept-evaluate constant south_seed north_offer 2000 key_a acceptance_raw constant-Sound
      acceptance-Fits refl offer_acceptable 3000 (key_a ∷ []) [] south-Approves
