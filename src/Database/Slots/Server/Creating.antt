-- ===== src/Database/Slots/Server/Creating.antt =====
-- replication.go: CreateReplicationSlot makes sure that there is exactly one slot for the tenant.
use posduif.Common.{
  ℕ, suc, String, Bool, true, false, ◌≡◌, refl, ◌++◌, none, some, Option, List, [], ◌∷◌, any, arith,
  eq_refl, inl, inr, Bool-cases,
}
use posduif.Errors.{Error, wrapped, driver, message, Result, ok, err}
use posduif.Database.{Env}
use posduif.Database.Slots.{slot_name}
use posduif.Sync.Manager.Wal.{Quiet}
use posduif.Database.Slots.Server.{
  Slot, Server, asked, is_named, is_slot_name, new_slot, run, slot_exists, create_if_missing,
  create_replication_slot,
}

-- What a call leaves: the slots as they were, where the name is there already or the call failed,
-- or one more, of the tenant's name.
pub data Ensures (name : String) (s : Server) (p : Result String × Server) : Type 0 where
  present :
      p ≡ (ok name, record s { tick = suc s.tick })
      → any (is_named name) s.slots ≡ true
      → Ensures name s p
  made :
      (lsn : String)
      → p
        ≡ (ok name, record s { slots = s.slots ++ new_slot name lsn ∷ []; tick = suc (suc s.tick) })
      → any (is_named name) s.slots ≡ false
      → is_slot_name name ≡ true
      → Ensures name s p
  failed : (e : Error) (n : ℕ) → p ≡ (err e, record s { tick = n }) → Ensures name s p

module _ (env : Env) (name : String) where
  exists_lem :
      (s : Server) (f : Option String)
      → env.fault s.tick ≡ f
      → slot_exists env name s ≡ (elim f [
        | none ↦ (ok (any (is_named name) s.slots), asked s)
        | some e ↦ (err (wrapped "failed to check slot existence" (driver e)), asked s)
      ])
  unfolding slot_exists run
  exists_lem s none e = ground (arith, e)
  exists_lem s (some x) e = ground (arith, e)

  made_ends :
      (s : Server) (g : Option String) (b : Bool)
      → any (is_named name) s.slots ≡ false
      → env.fault (suc s.tick) ≡ g
      → is_slot_name name ≡ b
      → Ensures name s (create_if_missing env name (ok false, asked s))
  unfolding create_if_missing run
  made_ends s none true new up valid =
      made (s.position (suc s.tick)) (ground (arith, new, up, valid)) new valid
  made_ends s none false new up invalid =
      failed
        (wrapped "failed to create replication slot"
          (message "replication slot name contains invalid character"))
        (suc (suc s.tick)) (ground (arith, up, invalid))
  made_ends s (some e) b new down valid =
      failed (wrapped "failed to create replication slot" (driver e)) (suc (suc s.tick))
        (ground (arith, down))

  ends :
      (s : Server) (f : Option String)
      → env.fault s.tick ≡ f
      → Ensures name s (create_if_missing env name (slot_exists env name s))
  unfolding create_if_missing
  ends s (some e) down = rw (exists_lem s (some e) down) (
      failed
        (wrapped "failed to check if slot exists"
          (wrapped "failed to check slot existence" (driver e)))
        (suc s.tick) refl)
  ends s none up = rw (exists_lem s none up) (elim (Bool-cases (any (is_named name) s.slots)) [
    | inl there ↦ rw there (present refl there)
    | inr missing ↦ rw missing (made_ends s _ _ missing refl refl)
  ])

-- CreateReplicationSlot against any server: it returns the tenant's slot name and the slot is
-- there, either as before or appended where no slot had the name, or it returns an error and the
-- slots are as they were.
pub create_replication_slot-Ensures :
    (env : Env) (db : String) (s : Server)
    → Ensures (slot_name db) s (create_replication_slot env db s)
unfolding create_replication_slot
create_replication_slot-Ensures env db s = ends env (slot_name db) s _ refl

any-append :
    (name lsn : String) (slots : List Slot)
    → any (is_named name) (slots ++ new_slot name lsn ∷ []) ≡ true
any-append name lsn [] = ground (arith, eq_refl name)
any-append name lsn (s ∷ slots) = ground (arith, any-append name lsn slots)

found_again :
    (env : Env) (db : String) (s : Server)
    → env.fault s.tick ≡ none
    → any (is_named (slot_name db)) s.slots ≡ true
    → create_replication_slot env db s ≡ (ok (slot_name db), asked s)
unfolding create_replication_slot create_if_missing
found_again env db s up there =
    rw (exists_lem env (slot_name db) s none up, create_if_missing) (rw (there, create_if_missing))

again_by :
    (env : Env) (db name : String) (s : Server) (p : Result String × Server)
    → Ensures (slot_name db) s p
    → p.0 ≡ ok name
    → env.fault p.1.tick ≡ none
    → create_replication_slot env db p.1 ≡ (ok (slot_name db), asked p.1)
again_by env db name s p (present e there) h up = found_again env db p.1 up (rw e there)
again_by env db name s p (made lsn e new valid) h up =
    found_again env db p.1 up (rw e (any-append (slot_name db) lsn s.slots))
again_by env db name s p (failed x n e) h up = absurd (ground (arith, e, h))

-- The creation is idempotent: after a call that returned a name, the next call returns the
-- tenant's slot name and leaves the slots as they are, if the server answers its check.
pub create_replication_slot_again :
    (env : Env) (db name : String) (s : Server)
    → (create_replication_slot env db s).0 ≡ ok name
    → env.fault (create_replication_slot env db s).1.tick ≡ none
    → create_replication_slot env db (create_replication_slot env db s).1
      ≡ (ok (slot_name db), asked (create_replication_slot env db s).1)
create_replication_slot_again env db name s h up =
    again_by env db name s _ (create_replication_slot-Ensures env db s) h up

-- Against a working server the creation succeeds, if PostgreSQL takes the name.
pub create_replication_slot_works :
    (env : Env) (db : String) (s : Server)
    → Quiet env
    → is_slot_name (slot_name db) ≡ true
    → (s' : Server) × (create_replication_slot env db s ≡ (ok (slot_name db), s'))
      × (any (is_named (slot_name db)) s'.slots ≡ true)
unfolding create_replication_slot create_if_missing run
create_replication_slot_works env db s quiet valid =
    elim (Bool-cases (any (is_named (slot_name db)) s.slots)) [
      | inl there ↦ (asked s, found_again env db s (quiet s.tick) there, there)
      | inr missing ↦
          let lsn = s.position (suc s.tick) in
          (
            record s {
              slots = s.slots ++ new_slot (slot_name db) lsn ∷ [];
              tick = suc (suc s.tick);
            },
            rw (exists_lem env (slot_name db) s none (quiet s.tick))
                (ground (arith, missing, quiet (suc s.tick), valid)),
            any-append (slot_name db) lsn s.slots,
          )
    ]
