-- ===== src/Shared/Stored.antt =====
-- The private JSON files of the transactions: read_journal of scripts/restore_transaction.py.
use Prim.Native.Nat.{ℕ}
use resilient_datacenter.Shared.Tests.{◌==◌, if◌then◌else◌}

-- `unsafe` has the wrong type, owner, mode or size, or is no JSON object with the fields of the
-- record.
pub data Stored (A : Type 0) : Type 0 where
  absent unsafe : Stored A
  holds : A → Stored A

-- The pending marker names a journal.
pub record Marker : Type 0 where
  pub schema_version : ℕ
  pub transaction_id : ℕ

abbrev pub put {ℓ} : {A : Type ℓ} → ℕ → A → (ℕ → A) → ℕ → A
put i a f j = if j == i then a else f j
