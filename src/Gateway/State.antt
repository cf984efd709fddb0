-- ===== src/Gateway/State.antt =====
-- The files of a gateway's store, and what its operations are given.
use resilient_datacenter.Shared.{ℕ, String, Bool, List}
use resilient_datacenter.Shared.Effects.{M, Done}
use resilient_datacenter.Shared.Maintenance
use resilient_datacenter.Shared.Maintenance.{Fault}
use resilient_datacenter.Shared.Stored.{Stored}

-- state.json and pending.json
pub record Policy (A : Type 0) : Type 0 where
  pub schema_version : ℕ
  pub generation : ℕ
  pub agreements : List A
  pub revoked_ids : List String

-- rdc-gateway-recovery.json
pub record Recovery : Type 0 where
  pub approval_floor : ℕ
  pub review_pending : Bool

-- The calls of the runtime in scripts/gateway_transition.py.
pub data Operation : Type 0 where
  close_access validate install restart open_access : Operation

pub record Event : Type 0 where
  pub operation : Operation
  pub returned : Bool

-- `reference` is the approval floor of recovery-required.json; `calls` are the runtime's since the
-- transition began, the latest first.
pub record Disk (A : Type 0) : Type 0 where
  pub state : Stored (Policy A)
  pub pending : Stored (Policy A)
  pub recovery : Stored Recovery
  pub reference : Stored ℕ
  pub calls : List Event

abbrev pub World : Type 0 → Type 0 → Type 0
World A H = Maintenance.World (Disk A) Unit H

abbrev pub Action : Type 0 → Type 0 → Type 0 → Type 0
Action A H X = M (World A H) X

abbrev pub Call : Type 0 → Type 0 → Type 0 → Type 0
Call A H X = Maintenance.Call (Disk A) H X

-- A document of a bilateral agreement is of any type: `peer_rules` tells whether contracts.peer_rules
-- passes on documents, revocations and a time, and the two times are the document's.
pub record Env (A H : Type 0) : Type 0 where
  pub disturb : H → Fault × H
  pub peer_rules : List A → List String → ℕ → Bool
  pub same_document : A → A → Bool
  pub issued_at : A → ℕ
  pub accepted_at : A → ℕ
  pub runtime : Operation → Policy A → Call A H Done
