-- ===== src/Database/Slots/Server.antt =====
-- replication.go: the replication slots of the server, and the manager's four operations on them.
pub mod Creating
use Prim.Native.String.{[], ◌∷◌}
use posduif.Common.{
  ℕ, suc, code, String, Bool, true, false, not, ◌&&◌, ◌||◌, ◌==◌, nat_eq, leb, ◌++◌, Option, none,
  some, List, any, find, select, if◌then◌else◌,
}
use posduif.Errors.{Error, message, wrapped, driver, no_rows, Result, ok, err}
use posduif.Database.{Env}
use posduif.Database.Slots.{slot_name}

-- A row of pg_replication_slots.
pub record Slot : Type 0 where
  pub slot_name : String
  pub plugin : String
  pub slot_type : String
  pub active : Bool
  pub restart_lsn : Option String
  pub confirmed_flush_lsn : Option String

-- `position` is what the server would give a new slot as its LSN.
pub record Server : Type 0 where
  pub slots : List Slot
  pub position : ℕ → String
  pub tick : ℕ

abbrev pub Step : Type 0 → Type 0
Step A = Server → Result A × Server

abbrev pub asked : Server → Server
asked s = record s { tick = suc s.tick }

abbrev pub settled : {A : Type 0} → Server → Result (A × List Slot) → Result A × Server
settled s (ok (a, slots)) = (ok a, record s { slots = slots; tick = suc s.tick })
settled s (err e) = (err e, asked s)

-- if err != nil { return …, fmt.Errorf("what: %w", err) }
abbrev pub labelled : {A : Type 0} → String → Result A × Server → Result A × Server
labelled what (ok a, s) = (ok a, s)
labelled what (err e, s) = (err (wrapped what e), s)

-- The characters that PostgreSQL allows in the name of a slot.
unfoldable pub is_slot_name : String → Bool
is_slot_name [] = true
is_slot_name (c ∷ s) =
    ((leb b'a' (code c) && leb (code c) b'z')
      || ((leb b'0' (code c) && leb (code c) b'9') || nat_eq (code c) b'_'))
    && is_slot_name s

abbrev pub is_named : String → Slot → Bool
is_named name s = s.slot_name == name

abbrev pub new_slot : String → String → Slot
new_slot name lsn = record {
  slot_name = name;
  plugin = "pgoutput";
  slot_type = "logical";
  active = false;
  restart_lsn = some lsn;
  confirmed_flush_lsn = some lsn;
}

-- pg_create_logical_replication_slot
abbrev pub add_slot : String → Server → Result (String × List Slot)
add_slot name s =
    if not (is_slot_name name)
    then err (message "replication slot name contains invalid character")
    else if any (is_named name) s.slots
    then err (message "replication slot already exists")
    else ok (name, s.slots ++ List.◌∷◌ (new_slot name (s.position s.tick)) List.[])

abbrev removed : String → List Slot → Option Slot → Result (Unit {0} × List Slot)
removed name slots none = err (message "replication slot does not exist")
removed name slots (some slot) =
    if slot.active
    then err (message "replication slot is active")
    else ok (tt, select (λ s. not (is_named name s)) slots)

-- pg_drop_replication_slot
abbrev pub remove_slot : String → Server → Result (Unit {0} × List Slot)
remove_slot name s = removed name s.slots (find (is_named name) s.slots)

abbrev pub read_slot : String → Server → Result (Slot × List Slot)
read_slot name s = elim (find (is_named name) s.slots) [
  | none ↦ err no_rows
  | some slot ↦ ok (slot, s.slots)
]

abbrev or_empty : Option String → String
or_empty none = ""
or_empty (some s) = s

-- The map that GetSlotInfo returns.
pub record SlotInfo : Type 0 where
  pub slot_name : String
  pub plugin : String
  pub slot_type : String
  pub active : Bool
  pub restart_lsn : String
  pub confirmed_flush_lsn : String

abbrev pub info_of : Slot → SlotInfo
info_of s = record {
  slot_name = s.slot_name;
  plugin = s.plugin;
  slot_type = s.slot_type;
  active = s.active;
  restart_lsn = or_empty s.restart_lsn;
  confirmed_flush_lsn = or_empty s.confirmed_flush_lsn;
}

abbrev pub show_info : Result Slot × Server → Result SlotInfo × Server
show_info (ok slot, s) = (ok (info_of slot), s)
show_info (err e, s) = (err e, s)

module _ (env : Env) where
  -- QueryRow or Exec on the server
  unfoldable pub run : {A : Type 0} → (Server → Result (A × List Slot)) → Step A
  run statement s = elim (env.fault s.tick) [
    | none ↦ settled s (statement s)
    | some e ↦ (err (driver e), asked s)
  ]

  -- SlotExists
  unfoldable pub slot_exists : String → Step Bool
  slot_exists name s =
      labelled "failed to check slot existence"
        (run (λ t. ok (any (is_named name) t.slots, t.slots)) s)

  -- CreateReplicationSlot, after the check
  unfoldable pub create_if_missing : String → Result Bool × Server → Result String × Server
  create_if_missing name (err e, s) = (err (wrapped "failed to check if slot exists" e), s)
  create_if_missing name (ok true, s) = (ok name, s)
  create_if_missing name (ok false, s) =
      labelled "failed to create replication slot" (run (add_slot name) s)

  -- CreateReplicationSlot
  unfoldable pub create_replication_slot : String → Step String
  create_replication_slot db s = create_if_missing (slot_name db) (slot_exists (slot_name db) s)

  -- DropReplicationSlot
  unfoldable pub drop_replication_slot : String → Step (Unit {0})
  drop_replication_slot name s =
      labelled "failed to drop replication slot" (run (remove_slot name) s)

  -- GetSlotInfo
  unfoldable pub get_slot_info : String → Step SlotInfo
  get_slot_info name s = show_info (labelled "failed to get slot info" (run (read_slot name) s))
