-- ===== src/Restore/Files.antt =====
-- File operations of scripts/restore_transaction.py, each with the faults that may stop it, and
-- the operations that the runtime and the snapshot provide.
use resilient_datacenter.Shared.{
  ℕ, String, Bool, true, false, Option, none, some, List, [], ◌∷◌, suc, str_eq, if◌then◌else◌,
}
use resilient_datacenter.Shared.Effects.{ok, Done}
use resilient_datacenter.Shared.Maintenance.{Fault, file_op}
use resilient_datacenter.Restore.State.{
  Phase, Source, absent, holds, Evidence, Workspace, missing, linked, folder, Slot, Disk, Action,
  Call, put,
}

-- What plan() reads about one resource: `size` is that of its regular files in the snapshot.
pub record Place : Type 0 where
  pub symlink : Bool
  pub mount : Bool
  pub linked_parent : Bool
  pub device : ℕ
  pub size : ℕ

-- What plan() reads besides: the answers of validate_restore, verify_installed and the gateway's
-- pending changes, the isolation record, and the free space of a device.
pub record Survey : Type 0 where
  pub snapshot_valid : Bool
  pub installation_verified : Bool
  pub gateway_pending : Bool
  pub isolation_left : Bool
  pub place : ℕ → Place
  pub free : ℕ → ℕ

-- What the transaction is given: the runtime of scripts/restore_runtime.py, the snapshot, the
-- retention of current settings, and the file system's faults.
pub record Env (T H : Type 0) : Type 0 where
  pub disturb : H → Fault × H
  pub services : List String
  pub paths : List String
  pub ownership : String
  pub gateway : Bool
  pub captured : Source
  pub new_id : H → ℕ
  pub clock : H → String
  pub component_hashes : H → String
  pub snapshot_hashes : String
  pub valid_source : Source → Bool
  pub valid_evidence : Evidence → Bool
  pub partial : ℕ → T
  pub staged : ℕ → T
  pub retain : ℕ → T → T → Option T
  pub permissions : String → Call T H Done
  -- begin_restore of scripts/gateway_backup.py up to its last step, which writes to the store
  pub begin_restore : Call T H Done
  -- private_write in the gateway's store: a temporary file is written, it replaces the recovery
  -- reference, and where a step raises it is removed
  pub begun : H → T → T
  pub referenced : H → T → T
  pub tidied : H → T → T
  pub close_gateway : Call T H Done
  pub is_active : String → Call T H Bool
  pub start : String → Call T H Done
  pub stop : String → Call T H Done
  pub prepare : Option String → Call T H String
  pub prepare_restored_application : Call T H Done
  pub isolate : Call T H Done
  pub release : Call T H Done
  pub allow_validation : Call T H Done
  pub finish_validation : Call T H Done
  pub verify : Call T H Done
  pub survey : H → Survey

module _ {T H : Type 0} where
  -- journal['phase'] = phase
  abbrev pub set_phase : Phase → Action T H Done
  set_phase p w = (ok tt, record w { memory = record w.memory { phase = p } })

-- The effect of one operation on a slot; `none` where the operation cannot be carried out.
module _ {T : Type 0} where
  -- temporary.mkdir(mode=0o700)
  abbrev pub made : Slot T → Option (Slot T)
  made s = elim s.workspace [
    | missing ↦ some (record s { workspace = folder none none })
    | linked ↦ none
    | folder o n ↦ none
  ]

  -- copying to temporary/'new'
  abbrev pub copied : T → Slot T → Option (Slot T)
  copied t s = elim s.workspace [
    | missing ↦ none
    | linked ↦ none
    | folder o n ↦ some (record s { workspace = folder o (some t) })
  ]

  -- durable_rename(root/name, temporary/'old')
  abbrev pub move_aside : Option T → Workspace T → Option (Slot T)
  move_aside (some t) (folder none n) =
      some (record { target = none; workspace = folder (some t) n })
  move_aside _ _ = none

  abbrev pub set_aside : Slot T → Option (Slot T)
  set_aside s = move_aside s.target s.workspace

  -- durable_rename(temporary/'new', root/name)
  abbrev pub move_in : Option T → Workspace T → Option (Slot T)
  move_in none (folder o (some t)) = some (record { target = some t; workspace = folder o none })
  move_in _ _ = none

  abbrev pub promoted : Slot T → Option (Slot T)
  promoted s = move_in s.target s.workspace

  -- remove(target)
  abbrev pub removed : Slot T → Option (Slot T)
  removed s = some (record s { target = none })

  -- durable_rename(old, target)
  abbrev pub move_back : Option T → Workspace T → Option (Slot T)
  move_back none (folder (some t) n) = some (record { target = some t; workspace = folder none n })
  move_back _ _ = none

  abbrev pub brought_back : Slot T → Option (Slot T)
  brought_back s = move_back s.target s.workspace

  -- shutil.rmtree(temporary), where it exists
  abbrev pub cleared : Slot T → Option (Slot T)
  cleared s = elim s.workspace [
    | missing ↦ some s
    | linked ↦ none
    | folder o n ↦ some (record s { workspace = missing })
  ]

  -- old.exists()
  abbrev pub has_old : Workspace T → Bool
  has_old (folder (some t) n) = true
  has_old _ = false

  abbrev pub is_linked : Workspace T → Bool
  is_linked linked = true
  is_linked _ = false

  -- A write to a file of a resource that is a directory.
  abbrev pub on_target : (T → T) → Slot T → Option (Slot T)
  on_target f s = elim s.target [ none ↦ none | some t ↦ some (record s { target = some (f t) }) ]

  abbrev pub on_slot : ℕ → (Slot T → Option (Slot T)) → Disk T → Option (Disk T)
  on_slot i g d = elim (g (d.slots i)) [
    | none ↦ none
    | some s ↦ some (record d { slots = put i s d.slots })
  ]

-- The index of a path.
unfoldable pub index_of : String → List String → ℕ
index_of n [] = 0
index_of n (m ∷ ms) = let rest = index_of n ms in if str_eq m n then 0 else suc rest

module _ {T H : Type 0} (env : Env T H) where
  abbrev pub gateway_store : ℕ
  gateway_store = index_of "etc/rdc-gateway" env.paths

  unfoldable pub slot_op : ℕ → (Slot T → Option (Slot T)) → Action T H Done
  slot_op i g = file_op env.disturb (on_slot i g)

  -- save(root, journal)
  unfoldable pub save : Action T H Done
  save w =
      file_op env.disturb
        (λ d. some (record d { journals = put w.memory.id (holds w.memory) d.journals })) w

  -- atomic_json(root/PENDING, …)
  unfoldable pub write_marker : Action T H Done
  write_marker w =
      file_op env.disturb
        (λ d. some (record d {
          marker = holds (record { schema_version = 1; transaction_id = w.memory.id });
        }))
        w

  -- (root/PENDING).unlink(missing_ok=True)
  unfoldable pub unlink_marker : Action T H Done
  unlink_marker = file_op env.disturb (λ d. some (record d { marker = absent }))
