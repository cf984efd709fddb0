-- ===== src/Agreement/Documents.antt =====
-- The documents of scripts/regional_agreements.py with the fields that they must have, and the JSON
-- values that stand for them.
use resilient_datacenter.Shared.{ℕ, String, List, [], ◌∷◌}
use Prim.Native.Nat.{Ordering}
use Prim.Native.String.{compare}
use resilient_datacenter.Agreement.Values.{
  Value, text, integer, items, object, Items, nil, cons, Fields, end, field,
}

-- A dictionary from applications to domains: its keys are different.
abbrev pub Services : Type 0
Services = List (String × String)

pub record Identity : Type 0 where
  pub kind : String
  pub schema_version : ℕ
  pub institution_id : String
  pub regional_controller : String
  pub gateway_node : String
  pub gateway_ipv4 : String
  pub services : Services
  pub public_key : String

pub record Signed (A : Type 0) : Type 0 where
  pub payload : A
  pub signature : String

pub record Offer : Type 0 where
  pub kind : String
  pub schema_version : ℕ
  pub agreement_id : String
  pub issued_at : ℕ
  pub expires_at : ℕ
  pub initiator : Signed Identity
  pub recipient : Signed Identity
  pub services : List String

pub record Acceptance : Type 0 where
  pub kind : String
  pub schema_version : ℕ
  pub offer_sha256 : String
  pub accepted_at : ℕ

pub record Agreement : Type 0 where
  pub kind : String
  pub schema_version : ℕ
  pub offer : Signed Offer
  pub acceptance : Signed Acceptance

-- A field goes to its place in the order of names.
abbrev pub insert_field : String → Value → Fields → Fields
insert_field k v end = field k v end
insert_field k v (field j w fs) =
    let rest = insert_field k v fs in
    elim (compare k j) [
      | Ordering.lt ↦ field k v (field j w fs)
      | Ordering.eq ↦ field k v (field j w fs)
      | Ordering.gt ↦ field j w rest
    ]

abbrev pub services_fields : Services → Fields
services_fields [] = end
services_fields ((k, d) ∷ rest) = insert_field k (text d) (services_fields rest)

abbrev pub texts : List String → Items
texts [] = nil
texts (s ∷ rest) = cons (text s) (texts rest)

unfoldable pub identity_value : Identity → Value
identity_value i = object (
    field "gateway_ipv4" (text i.gateway_ipv4) (
      field "gateway_node" (text i.gateway_node) (
        field "institution_id" (text i.institution_id) (
          field "kind" (text i.kind) (
            field "public_key" (text i.public_key) (
              field "regional_controller" (text i.regional_controller) (
                field "schema_version" (integer i.schema_version)
                  (field "services" (object (services_fields i.services)) end))))))))

unfoldable pub envelope : Value → String → Value
envelope v signature = object (field "payload" v (field "signature" (text signature) end))

unfoldable pub offer_value : Offer → Value
unfolding identity_value envelope
offer_value o = object (
    field "agreement_id" (text o.agreement_id) (
      field "expires_at" (integer o.expires_at) (
        field "initiator" (envelope (identity_value o.initiator.payload) o.initiator.signature) (
          field "issued_at" (integer o.issued_at) (
            field "kind" (text o.kind) (
              field "recipient"
                (envelope (identity_value o.recipient.payload) o.recipient.signature)
                (field "schema_version" (integer o.schema_version)
                  (field "services" (items (texts o.services)) end))))))))

unfoldable pub acceptance_value : Acceptance → Value
acceptance_value a = object (
    field "accepted_at" (integer a.accepted_at) (
      field "kind" (text a.kind) (
        field "offer_sha256" (text a.offer_sha256)
          (field "schema_version" (integer a.schema_version) end))))

unfoldable pub agreement_value : Agreement → Value
unfolding offer_value acceptance_value envelope
agreement_value d = object (
    field "acceptance" (envelope (acceptance_value d.acceptance.payload) d.acceptance.signature) (
      field "kind" (text d.kind) (
        field "offer" (envelope (offer_value d.offer.payload) d.offer.signature)
          (field "schema_version" (integer d.schema_version) end))))
