-- ===== src/Agreement/Verifying.antt =====
-- verify_identity, verify_offer and verify_agreement of scripts/regional_agreements.py.
use resilient_datacenter.Shared.{
  ℕ, ◌+◌, ◌-◌, ◌*◌, String, Bool, true, false, not, ◌&&◌, ◌||◌, ltb, leb, ◌==◌, str_eq, Option,
  none, some, List, [], ◌∷◌, map, any, all, contains, length, if◌then◌else◌, ◌≡◌,
}
use Prim.Native.Char.{code}
use Prim.Native.String.{count}
use resilient_datacenter.Shared.Texts.{
  is_hex, identifier, label, parts, ends_with, all_chars, digit,
}
use resilient_datacenter.Shared.Sorted.{increasing, subset}
use resilient_datacenter.Agreement.Values.{Value, canonical, message}
use resilient_datacenter.Agreement.Documents.{
  Services, Identity, Signed, Offer, Agreement, identity_value, envelope, offer_value,
  acceptance_value, agreement_value,
}

-- Ed25519 and SHA-256 of the package cryptography and of hashlib, on hexadecimal texts. `accepts`
-- takes a public key, a signature and a message.
pub record Crypto : Type 0 where
  pub public_key_of : List ℕ → String
  pub sign : List ℕ → String → String
  pub accepts : String → String → String → Bool
  pub sha256 : String → String
  pub sha256_of_hex : String → String

-- What their documentation promises: a key accepts what its seed signs, a public key has 32 bytes, a
-- signature 64, and a digest 32.
pub record Sound (crypto : Crypto) : Type 0 where
  pub accepts_own :
      (seed : List ℕ) (m : String)
      → crypto.accepts (crypto.public_key_of seed) (crypto.sign seed m) m ≡ true
  pub key_size : (seed : List ℕ) → is_hex 64 (crypto.public_key_of seed) ≡ true
  pub signature_size : (seed : List ℕ) (m : String) → is_hex 128 (crypto.sign seed m) ≡ true
  pub digest_size : (m : String) → is_hex 64 (crypto.sha256 m) ≡ true

abbrev pub max_lifetime : ℕ
max_lifetime = 7776000

abbrev pub max_epoch : ℕ
max_epoch = 253402300799

abbrev pub supported : List String
supported = "matrix" ∷ "nextcloud" ∷ []

abbrev placeholders : List String
placeholders = "example.com" ∷ "example.net" ∷ "example.org" ∷ "invalid" ∷ []

-- hostname of scripts/validate_inventory.py
unfoldable pub hostname : String → Bool
unfolding parts
hostname s =
    ltb (count s) 254
    && all label (parts s)
    && ltb 1 (length (parts s))
    && not (any (λ t. str_eq s t || ends_with (String.◌∷◌ "." t) s) placeholders)

-- The number of an octet without leading zeros.
abbrev pub octet_value : ℕ → String → ℕ
octet_value n String.[] = n
octet_value n (String.◌∷◌ c s) = octet_value (n * 10 + (code c - 48)) s

unfoldable pub octet : String → Option ℕ
octet String.[] = none
octet (String.◌∷◌ c s) =
    if all_chars digit (String.◌∷◌ c s)
      && leb (count s) 2
      && (not (code c == 48) || str_eq s "")
      && leb (octet_value 0 (String.◌∷◌ c s)) 255
    then some (octet_value 0 (String.◌∷◌ c s))
    else none

abbrev pub four : Option ℕ → Option ℕ → Option ℕ → Option ℕ → Option ℕ
four (some a) (some b) (some c) (some d) = some (16777216 * a + (65536 * b + (256 * c + d)))
four _ _ _ _ = none

-- The number of the IPv4 address that ipaddress.ip_address reads.
abbrev pub ipv4_of : List String → Option ℕ
ipv4_of (a ∷ b ∷ c ∷ d ∷ []) = four (octet a) (octet b) (octet c) (octet d)
ipv4_of _ = none

-- in 100.64.0.0/10
abbrev pub in_overlay : Option ℕ → Bool
in_overlay none = false
in_overlay (some a) = leb 1681915904 a && ltb a 1686110208

unfoldable pub overlay_address : String → Bool
unfolding parts octet
overlay_address s = in_overlay (ipv4_of (parts s)) && not (str_eq s "100.100.100.100")

abbrev pub keys : Services → List String
keys services = map (λ kv. kv.0) services

abbrev pub domains : Services → List String
domains services = map (λ kv. kv.1) services

abbrev pub all_different : List String → Bool
all_different [] = true
all_different (x ∷ xs) = not (contains x xs) && all_different xs

abbrev pub is_empty : {A : Type 0} → List A → Bool
is_empty [] = true
is_empty (x ∷ xs) = false

unfoldable pub services_ok : Services → Bool
services_ok services =
    not (is_empty services)
    && subset (keys services) supported
    && all hostname (domains services)
    && all_different (domains services)

abbrev pub is_some {ℓ} : {A : Type ℓ} → Option A → Bool
is_some none = false
is_some (some a) = true

-- set(xs) & set(ys)
abbrev pub meets : List String → List String → Bool
meets xs ys = any (λ x. contains x ys) xs

abbrev pub in_time : ℕ → Bool
in_time now = leb now max_epoch

module _ (crypto : Crypto) where
  unfoldable pub accepts_text : String → String → String → Option String → Bool
  accepts_text key signature kind none = false
  accepts_text key signature kind (some raw) = crypto.accepts key signature (message kind raw)

  -- whether _verify passes on an envelope of a payload
  unfoldable pub signature_ok : Value → String → String → String → String → Bool
  signature_ok v payload_kind signature key kind =
      is_hex 128 signature
      && is_hex 64 key
      && is_some (canonical (envelope v signature))
      && str_eq payload_kind kind
      && accepts_text key signature payload_kind (canonical v)

  -- whether verify_identity passes
  unfoldable pub identity_ok : Signed Identity → Bool
  identity_ok d =
      let i = d.payload in
      str_eq i.kind "regional-identity"
      && i.schema_version == 1
      && is_some (canonical (identity_value i))
      && identifier i.institution_id
      && identifier i.gateway_node
      && hostname i.regional_controller
      && overlay_address i.gateway_ipv4
      && services_ok i.services
      && signature_ok (identity_value i) i.kind d.signature i.public_key "regional-identity"

  unfoldable pub fingerprint : Signed Identity → String
  fingerprint d = crypto.sha256_of_hex d.payload.public_key

  unfoldable pub parties_ok : Identity → Identity → Bool
  parties_ok left right =
      str_eq left.regional_controller right.regional_controller
      && not (str_eq left.institution_id right.institution_id)
      && not (str_eq left.gateway_ipv4 right.gateway_ipv4)
      && not (str_eq left.public_key right.public_key)
      && not (meets (domains left.services) (domains right.services))

  unfoldable pub scope_ok : List String → Identity → Identity → Bool
  scope_ok scope left right =
      not (is_empty scope)
      && increasing scope
      && subset scope (keys left.services)
      && subset scope (keys right.services)

  unfoldable pub lifetime_ok : ℕ → ℕ → Bool
  lifetime_ok issued_at expires_at =
      ltb issued_at expires_at
      && leb (expires_at - issued_at) max_lifetime
      && in_time issued_at
      && in_time expires_at

  -- whether verify_offer passes
  unfoldable pub offer_ok : Signed Offer → Bool
  offer_ok d =
      let o = d.payload in
      str_eq o.kind "regional-offer"
      && o.schema_version == 1
      && is_some (canonical (offer_value o))
      && is_hex 32 o.agreement_id
      && lifetime_ok o.issued_at o.expires_at
      && identity_ok o.initiator
      && identity_ok o.recipient
      && parties_ok o.initiator.payload o.recipient.payload
      && scope_ok o.services o.initiator.payload o.recipient.payload
      && signature_ok (offer_value o) o.kind d.signature o.initiator.payload.public_key
          "regional-offer"

  abbrev pub digest : Option String → String
  digest none = ""
  digest (some raw) = crypto.sha256 raw

  -- hashlib.sha256(canonical(document)).hexdigest() of a signed offer
  unfoldable pub offer_digest : Signed Offer → String
  offer_digest d = digest (canonical (envelope (offer_value d.payload) d.signature))

  -- whether verify_agreement passes
  unfoldable pub agreement_ok : Agreement → Bool
  agreement_ok d =
      let a = d.acceptance.payload in
      let o = d.offer.payload in
      str_eq d.kind "regional-agreement"
      && d.schema_version == 1
      && is_some (canonical (agreement_value d))
      && offer_ok d.offer
      && signature_ok (acceptance_value a) a.kind d.acceptance.signature
          o.recipient.payload.public_key "regional-acceptance"
      && a.schema_version == 1
      && str_eq a.offer_sha256 (offer_digest d.offer)
      && leb o.issued_at a.accepted_at
      && ltb a.accepted_at o.expires_at

  -- A document that passes is returned, any other raises ValueError.
  unfoldable pub verify_identity : Signed Identity → Option Identity
  verify_identity d = if identity_ok d then some d.payload else none

  unfoldable pub verify_offer : Signed Offer → Option Offer
  verify_offer d = if offer_ok d then some d.payload else none

  unfoldable pub verify_agreement : Agreement → Option Offer
  verify_agreement d = if agreement_ok d then some d.offer.payload else none
