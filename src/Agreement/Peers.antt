-- ===== src/Agreement/Peers.antt =====
-- peer_rules of scripts/gateway_contracts.py.
use resilient_datacenter.Shared.{
  ℕ, String, Bool, true, false, not, ◌&&◌, ◌||◌, leb, str_eq, Option, none, some, List, [], ◌∷◌,
  ◌++◌, any, all, contains, length, if◌then◌else◌, ◌==◌,
}
use Prim.Native.Nat.{Ordering}
use Prim.Native.String.{compare}
use mathlib.Core.Option
use resilient_datacenter.Shared.Texts.{is_hex}
use resilient_datacenter.Agreement.Documents.{Services, Identity, Signed, Offer, Agreement}
use resilient_datacenter.Agreement.Verifying.{
  Crypto, identity_ok, agreement_ok, fingerprint, domains, meets, in_time,
}
use resilient_datacenter.Agreement.Consenting.{
  State, mutually_approved, revoked, expired, not_yet_valid, peer_not_approved, Evaluation,
  evaluate,
}

pub record Rule : Type 0 where
  pub agreement_id : String
  pub fingerprint : String
  pub institution_id : String
  pub address : String
  pub domains : Services
  pub services : List String
  pub expires_at : ℕ

pub record Seen : Type 0 where
  pub ids : List String
  pub peers : List String
  pub addresses : List String
  pub domains : List String

-- What becomes of a document: it raises ValueError, has no rule, or has one.
pub data Verdict : Type 0 where
  refuse skip : Verdict
  admit : Rule → Verdict

abbrev pub has_pair : Services → String × String → Bool
has_pair services kv = any (λ p. str_eq p.0 kv.0 && str_eq p.1 kv.1) services

abbrev pub same_services : Services → Services → Bool
same_services xs ys = all (has_pair ys) xs && all (has_pair xs) ys

-- a == b
unfoldable pub same_identity : Signed Identity → Signed Identity → Bool
same_identity a b =
    str_eq a.signature b.signature
    && str_eq a.payload.kind b.payload.kind
    && a.payload.schema_version == b.payload.schema_version
    && str_eq a.payload.institution_id b.payload.institution_id
    && str_eq a.payload.regional_controller b.payload.regional_controller
    && str_eq a.payload.gateway_node b.payload.gateway_node
    && str_eq a.payload.gateway_ipv4 b.payload.gateway_ipv4
    && same_services a.payload.services b.payload.services
    && str_eq a.payload.public_key b.payload.public_key

-- the other party, where exactly one is the identity
unfoldable pub other_party : Signed Identity → Offer → Option (Signed Identity)
other_party own o =
    if same_identity o.initiator own
    then (if same_identity o.recipient own then none else some o.recipient)
    else (if same_identity o.recipient own then some o.initiator else none)

-- {name: services[name] for name in names}
abbrev pub selected : Services → List String → Services
selected [] names = []
selected ((k, d) ∷ rest) names =
    let others = selected rest names in if contains k names then (k, d) ∷ others else others

abbrev pub is_approved : State → Bool
is_approved mutually_approved = true
is_approved revoked = false
is_approved expired = false
is_approved not_yet_valid = false
is_approved peer_not_approved = false

unfoldable pub rule_of : Signed Identity → String → Evaluation → Rule
rule_of peer peerprint e = record {
  agreement_id = e.agreement_id;
  fingerprint = peerprint;
  institution_id = peer.payload.institution_id;
  address = peer.payload.gateway_ipv4;
  domains = selected peer.payload.services e.services;
  services = e.services;
  expires_at = e.expires_at;
}

unfoldable pub ambiguous : Seen → Rule → Bool
ambiguous seen r =
    contains r.fingerprint seen.peers
    || contains r.address seen.addresses
    || meets (domains r.domains) seen.domains

unfoldable pub admitted : Seen → Rule → Verdict
admitted seen r = if ambiguous seen r then refuse else admit r

unfoldable pub with_id : Seen → String → Seen
with_id seen identifier = record seen { ids = identifier ∷ seen.ids }

unfoldable pub with_rule : Seen → Rule → Seen
with_rule seen r = record {
  ids = r.agreement_id ∷ seen.ids;
  peers = r.fingerprint ∷ seen.peers;
  addresses = r.address ∷ seen.addresses;
  domains = domains r.domains ++ seen.domains;
}

-- sorted(rules, key=lambda item: item['fingerprint'])
abbrev pub insert_rule : Rule → List Rule → List Rule
insert_rule r [] = r ∷ []
insert_rule r (q ∷ qs) =
    let rest = insert_rule r qs in
    elim (compare r.fingerprint q.fingerprint) [ Ordering.gt ↦ q ∷ rest | _ ↦ r ∷ q ∷ qs ]

unfoldable pub sorted_rules : List Rule → List Rule
sorted_rules [] = []
sorted_rules (r ∷ rs) = insert_rule r (sorted_rules rs)

module _ (crypto : Crypto) where
  unfoldable pub verdict_of : Seen → Signed Identity → Option Evaluation → Verdict
  verdict_of seen peer none = refuse
  verdict_of seen peer (some e) =
      if is_approved e.state then admitted seen (rule_of peer (fingerprint crypto peer) e) else skip

  unfoldable pub peer_verdict :
      Signed Identity → List String → ℕ → Seen → Agreement → Option (Signed Identity) → Verdict
  peer_verdict own revoked_ids now seen d none = refuse
  peer_verdict own revoked_ids now seen d (some peer) =
      verdict_of seen peer
        (evaluate crypto d (fingerprint crypto own) (fingerprint crypto peer ∷ []) revoked_ids now)

  -- one turn of the loop
  unfoldable pub judge : Signed Identity → List String → ℕ → Seen → Agreement → Verdict
  judge own revoked_ids now seen d =
      if agreement_ok crypto d && not (contains d.offer.payload.agreement_id seen.ids)
      then peer_verdict own revoked_ids now seen d (other_party own d.offer.payload)
      else refuse

  unfoldable pub collect :
      Signed Identity → List String → ℕ → List Agreement → Seen → Option (List Rule)
  collect own revoked_ids now [] seen = some []
  collect own revoked_ids now (d ∷ ds) seen = elim (judge own revoked_ids now seen d) [
    | refuse ↦ none
    | skip ↦ collect own revoked_ids now ds (with_id seen d.offer.payload.agreement_id)
    | admit r ↦ Option.map (λ rs. r ∷ rs) (collect own revoked_ids now ds (with_rule seen r))
  ]

  abbrev pub none_seen : Signed Identity → Seen
  none_seen own = record {
    ids = [];
    peers = [];
    addresses = [];
    domains = domains own.payload.services;
  }

  unfoldable pub peer_rules :
      Signed Identity → List Agreement → List String → ℕ → Option (List Rule)
  peer_rules own documents revoked_ids now =
      if identity_ok crypto own
        && in_time now
        && leb (length documents) 8
        && all (is_hex 32) revoked_ids
      then Option.map sorted_rules (collect own revoked_ids now documents (none_seen own))
      else none
