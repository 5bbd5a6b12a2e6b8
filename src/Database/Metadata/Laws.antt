-- ===== src/Database/Metadata/Laws.antt =====
-- queries.go: UpdateSyncMetadata is an upsert, and GetSyncMetadata reads back what it wrote.
use posduif.Common.{
  ◌<◌, ◌^◌, subst, ℕ, suc, String, Bool, true, false, ◌==◌, ◌≡◌, refl, ap, sym, ◌++◌, List, [], ◌∷◌,
  map, any, find, arith, none, Option, some, eq_iff, eq_refl, if◌then◌else◌, Bool-cases,
  Option-cases, inl, inr, ◌∙◌,
}
use posduif.Models.{SyncMetadata}
use posduif.Models.Lsn
use posduif.Models.Lsn.RoundTrip.{parse-string}
use posduif.Errors.{ok}
use posduif.Database.Schema.{is_sync_status}
use posduif.Database
use posduif.Database.{Env, World, Tables, exec, first_row}
use posduif.Database.Metadata.{
  overwrite, set_metadata, merge, upsert, fill, find_metadata, update_sync_metadata,
}

abbrev of_device : String → SyncMetadata → Bool
of_device d row = row.device_id == d

find-map :
    (now : ℕ) (sm : SyncMetadata) (d : String) (rows : List SyncMetadata)
    → find (of_device d) (map (set_metadata now sm) rows)
      ≡ (elim (find (of_device d) rows) [ none ↦ none | some r ↦ some (set_metadata now sm r) ])
find-map now sm d [] = refl
find-map now sm d (r ∷ rows) =
    ground (arith, find-map now sm d rows, eq_iff r.device_id sm.device_id, eq_iff r.device_id d)

find-append :
    (d : String) (x : SyncMetadata) (rows : List SyncMetadata)
    → find (of_device d) (rows ++ x ∷ []) ≡ (elim (find (of_device d) rows) [
      | none ↦ if of_device d x then some x else none
      | some r ↦ some r
    ])
find-append d x [] = refl
find-append d x (r ∷ rows) = ground (arith, find-append d x rows)

any-find :
    (d : String) (rows : List SyncMetadata)
    → any (of_device d) rows ≡ (elim (find (of_device d) rows) [ none ↦ false | some r ↦ true ])
any-find d [] = refl
any-find d (r ∷ rows) = ground (arith, any-find d rows)

find_device_id :
    (d : String) (rows : List SyncMetadata) (r : SyncMetadata)
    → find (of_device d) rows ≡ some r
    → r.device_id ≡ d
find_device_id d [] r e = cc
find_device_id d (x ∷ rows) r e = ground (arith, find_device_id d rows r, eq_iff x.device_id d)

-- The row of a device after an upsert of `sm`, given the row before.
abbrev pub merged : SyncMetadata → ℕ → String → Option SyncMetadata → SyncMetadata
merged sm at fresh none = record sm { id = fresh }
merged sm at fresh (some r) = overwrite at sm r

pub find-merge_self :
    (sm : SyncMetadata) (now : ℕ) (fresh : String) (rows : List SyncMetadata)
    → find (of_device sm.device_id) (merge sm now fresh rows)
      ≡ some (merged sm now fresh (find (of_device sm.device_id) rows))
unfolding merge
find-merge_self sm now fresh rows = elim (Option-cases (find (of_device sm.device_id) rows)) [
  | inl e ↦ ground (
    arith,
    any-find sm.device_id rows,
    find-append sm.device_id (record sm { id = fresh }) rows,
    eq_refl sm.device_id,
  )
  | inr (r, e) ↦ ground (
    arith,
    any-find sm.device_id rows,
    find-map now sm sm.device_id rows,
    find_device_id sm.device_id rows r e,
    eq_iff r.device_id sm.device_id,
  )
]

find-map_other :
    (now : ℕ) (sm : SyncMetadata) (d : String) (rows : List SyncMetadata)
    → (sm.device_id == d) ≡ false
    → find (of_device d) (map (set_metadata now sm) rows) ≡ find (of_device d) rows
find-map_other now sm d [] h = refl
find-map_other now sm d (r ∷ rows) h = ground (
  arith,
  find-map_other now sm d rows h,
  eq_iff r.device_id d,
  eq_iff r.device_id sm.device_id,
  eq_iff sm.device_id d,
)

pub find-merge_other :
    (sm : SyncMetadata) (now : ℕ) (fresh d : String) (rows : List SyncMetadata)
    → (sm.device_id == d) ≡ false
    → find (of_device d) (merge sm now fresh rows) ≡ find (of_device d) rows
unfolding merge
find-merge_other sm now fresh d rows h = elim (Bool-cases (any (of_device sm.device_id) rows)) [
  | inl e ↦ rw e (find-map_other now sm d rows h)
  | inr e ↦ rw e (find-append d (record sm { id = fresh }) rows ∙ ground arith)
]

-- A fault-free update of a legal status: the message of the pointer and the new tables.
pub update_sync_metadata_lem :
    (env : Env) (sm : SyncMetadata) (w : World)
    → is_sync_status sm.sync_status ≡ true
    → env.fault (suc w.tick) ≡ none
    → update_sync_metadata env sm w ≡ (
      ok (fill (env.time w.tick) sm, ok tt),
      record w {
        tables = record w.tables {
          metadata =
              merge
                (fill (env.time w.tick) sm)
                (env.time (suc w.tick))
                (env.uuid (suc w.tick))
                w.tables.metadata;
        };
        tick = suc (suc w.tick);
      },
    )
unfolding update_sync_metadata upsert exec Database.now
update_sync_metadata_lem env sm w h f = ground arith

pub find_metadata-device_id :
    (device : String) (t : Tables) (r : SyncMetadata)
    → find_metadata device t ≡ ok r
    → r.device_id ≡ device
unfolding find_metadata
find_metadata-device_id device t r e = find_device_id device t.metadata r (ground arith)

-- What a reader finds for a device: the four columns that the writer set.
pub record Shows (sm : SyncMetadata) (t : Tables) : Type 0 where
  pub row : SyncMetadata
  pub found : find_metadata sm.device_id t ≡ ok row
  pub timestamp : row.last_sync_timestamp ≡ sm.last_sync_timestamp
  pub lsn : row.last_synced_lsn ≡ sm.last_synced_lsn
  pub outgoing : row.pending_outgoing_count ≡ sm.pending_outgoing_count
  pub status : row.sync_status ≡ sm.sync_status

Shows-merge :
    (sm : SyncMetadata) (t : Tables) (at : ℕ) (fresh : String)
    → Shows sm (record t { metadata = merge sm at fresh t.metadata })
unfolding find_metadata
Shows-merge sm t at fresh =
    let old = find (of_device sm.device_id) t.metadata in
    record {
      row = merged sm at fresh old;
      found = ap first_row (find-merge_self sm at fresh t.metadata);
      timestamp = ground arith;
      lsn = ground arith;
      outgoing = ground arith;
      status = ground arith;
    }

Shows-fill : (sm : SyncMetadata) (t : Tables) (at : ℕ) → Shows (fill at sm) t → Shows sm t
Shows-fill sm t at s = record {
  row = s.row;
  found = s.found;
  timestamp = s.timestamp;
  lsn = s.lsn;
  outgoing = s.outgoing;
  status = s.status;
}

find_metadata-merge :
    (sm : SyncMetadata) (t : Tables) (at : ℕ) (fresh d : String)
    → find_metadata d (record t { metadata = merge sm at fresh t.metadata }) ≡ (
        if sm.device_id == d
        then find_metadata sm.device_id (record t { metadata = merge sm at fresh t.metadata })
        else find_metadata d t)
unfolding find_metadata
find_metadata-merge sm t at fresh d = elim (Bool-cases (sm.device_id == d)) [
  | inl e ↦ rw e (
      ap (λ x. find_metadata x (record t { metadata = merge sm at fresh t.metadata }))
        (sym ((eq_iff _ _).0 e)))
  | inr e ↦ rw e (ap first_row (find-merge_other sm at fresh d t.metadata e))
]

pub Shows-upsert :
    (sm : SyncMetadata) (t : Tables) (started at : ℕ) (fresh : String)
    → Shows sm (record t { metadata = merge (fill started sm) at fresh t.metadata })
Shows-upsert sm t started at fresh =
    Shows-fill sm _ started (Shows-merge (fill started sm) t at fresh)

update_sync_metadata-Shows :
    (env : Env) (sm : SyncMetadata) (w : World) (d : String)
    → is_sync_status sm.sync_status ≡ true
    → env.fault (suc w.tick) ≡ none
    → Shows sm (update_sync_metadata env sm w).1.tables
      × (find_metadata d (update_sync_metadata env sm w).1.tables ≡ (
          if sm.device_id == d
          then find_metadata sm.device_id (update_sync_metadata env sm w).1.tables
          else find_metadata d w.tables))
update_sync_metadata-Shows env sm w d legal up = rw (update_sync_metadata_lem env sm w legal up) (
  Shows-upsert sm w.tables (env.time w.tick) (env.time (suc w.tick)) (env.uuid (suc w.tick)),
  find_metadata-merge (fill (env.time w.tick) sm) w.tables (env.time (suc w.tick))
      (env.uuid (suc w.tick)) d,
)

-- What ParseLSN makes of the column last_synced_lsn.
abbrev pub position : SyncMetadata → Option ℕ
position row = elim row.last_synced_lsn [ none ↦ none | some s ↦ Lsn.parse s ]

-- The column as the code writes it: NULL, or what LSN.String prints for a uint64.
abbrev pub IsPrinted : Option String → Option ℕ → Type 0
IsPrinted o none = o ≡ none
IsPrinted o (some l) = (o ≡ some (Lsn.string l)) × (l < 2 ^ 64)

position_printed :
    (row : SyncMetadata) (at : Option ℕ) → IsPrinted row.last_synced_lsn at → position row ≡ at
position_printed row none h = rw h refl
position_printed row (some l) h = rw h.0 (parse-string l h.1)

-- UpdateSyncMetadata of a legal status and an LSN that is absent or printed by LSN.String, while
-- the database works, whether the device had a row or not: GetSyncMetadata's search then finds a
-- row for that device with the written time, number of outgoing messages and status, and with a
-- text that ParseLSN reads as the LSN that was printed, or without one if none was written; for any
-- other device it finds what it found before.
pub update_sync_metadata_reads_back :
    (env : Env) (sm : SyncMetadata) (at : Option ℕ) (w : World) (d : String)
    → IsPrinted sm.last_synced_lsn at
    → is_sync_status sm.sync_status ≡ true
    → env.fault (suc w.tick) ≡ none
    → (sm.device_id == d) ≡ false
    → (row : SyncMetadata) × (find_metadata sm.device_id (update_sync_metadata env sm w).1.tables
        ≡ ok row)
      × (row.last_sync_timestamp ≡ sm.last_sync_timestamp)
      × (position row ≡ at)
      × (row.pending_outgoing_count ≡ sm.pending_outgoing_count)
      × (row.sync_status ≡ sm.sync_status)
      × (find_metadata d (update_sync_metadata env sm w).1.tables ≡ find_metadata d w.tables)
update_sync_metadata_reads_back env sm at w d printed legal up other =
    let (s, others) = update_sync_metadata-Shows env sm w d legal up in
    (
      s.row,
      s.found,
      s.timestamp,
      position_printed s.row at (subst (λ o. IsPrinted o at) (sym s.lsn) printed),
      s.outgoing,
      s.status,
      others ∙ rw other refl,
    )
