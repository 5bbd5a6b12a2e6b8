-- ===== src/Sync/Feed/Turns.antt =====
-- manager.go: one call of syncIncomingWAL, in front of changes that are still to come.
use posduif.Common.{
  ℕ, suc, ◌<◌, ◌^◌, String, ◌++◌, true, ltb, ◌≡◌, refl, ap, ◌∙◌, sym, subst, List, [], ◌∷◌, arith,
  map, Option, some, take, drop, All, All-take, All-both, take-append-drop,
}
use posduif.Models.{WalChange, SyncMetadata, Message}
use posduif.Models.Lsn
use posduif.Models.Lsn.RoundTrip.{parse-string, string_nonempty}
use posduif.Errors.{Result, ok}
use posduif.Database.{Env, World, advance}
use posduif.Database.Metadata.{find_metadata}
use posduif.Database.Metadata.Laws.{Shows-upsert, find_metadata-device_id}
use text.Mathlib.TextPositions.{eq_refl}
use mathlib.Core.List.{append_assoc}
use posduif.Sync.Tracker.{is_newer, queue, to_message}
use posduif.Sync.Tracker.Queues.{Ascending, All-const}
use posduif.Sync.Manager.{collect, sync_incoming_wal, stamp}
use posduif.Sync.Manager.Batch.{IsWrite, collect-lower, beyond}
use posduif.Sync.Manager.Wal.{
  Quiet, Quiet-Answers, progressed, sync_incoming_wal_cons, sync_incoming_wal_nil, wal_lossless,
  batch_take,
}

-- What the log promises of the changes that a device is to receive: they are writes, and their
-- LSNs are uint64 that grow strictly.
pub record Sound (todo : List WalChange) : Type 0 where
  pub writes : All IsWrite todo
  pub bounded : All (λ c. c.lsn < 2 ^ 64) todo
  pub ascending : Ascending todo

-- The device has its row, and has not synced past any of the changes.
pub record Ready (device : String) (todo : List WalChange) (w : World) : Type 0 where
  pub sm : SyncMetadata
  pub found : find_metadata device w.tables ≡ ok sm
  pub newer : All (λ c. is_newer sm.last_synced_lsn c ≡ true) todo

module _ {ℓ} (P : WalChange → Type ℓ) where
  All-front : (xs ys : List WalChange) → All P (xs ++ ys) → All P xs
  All-front [] ys h = tt
  All-front (x ∷ xs) ys h = (h.0, All-front xs ys h.1)

  All-back : (xs ys : List WalChange) → All P (xs ++ ys) → All P ys
  All-back [] ys h = h
  All-back (x ∷ xs) ys h = All-back xs ys h.1

Ascending-front : (xs ys : List WalChange) → Ascending (xs ++ ys) → Ascending xs
Ascending-front [] ys h = tt
Ascending-front (x ∷ xs) ys h = (All-front _ xs ys h.0, Ascending-front xs ys h.1)

Ascending-back : (xs ys : List WalChange) → Ascending (xs ++ ys) → Ascending ys
Ascending-back [] ys h = h
Ascending-back (x ∷ xs) ys h = Ascending-back xs ys h.1

pub Sound-back : (xs ys : List WalChange) → Sound (xs ++ ys) → Sound ys
Sound-back xs ys s = record {
  writes = All-back IsWrite xs ys s.writes;
  bounded = All-back _ xs ys s.bounded;
  ascending = Ascending-back xs ys s.ascending;
}

pub split_todo : (n : ℕ) (q later : List WalChange) → q ++ later ≡ take n q ++ (drop n q ++ later)
split_todo n q later =
    ap (λ t. t ++ later) (sym (take-append-drop n q)) ∙ append_assoc (take n q) (drop n q) later

-- All changes that are left lie above the batch.
Ascending-above :
    (b rest : List WalChange) → Ascending (b ++ rest) → All (λ e. All (λ x. x.lsn < e.lsn) b) rest
Ascending-above [] rest h = All-const _ rest λ c. tt
Ascending-above (c ∷ b) rest h =
    All-both (λ e. c.lsn < e.lsn) (λ e. All (λ x. x.lsn < e.lsn) b) _ (λ e k l. (k, l)) rest
      (All-back _ b rest h.0) (Ascending-above b rest h.1)

is_newer-string :
    (l : ℕ) (c : WalChange) → l < 2 ^ 64 → is_newer (some (Lsn.string l)) c ≡ ltb l c.lsn
unfolding is_newer
is_newer-string l c h = rw (string_nonempty l h, is_newer) (rw (parse-string l h))

newer_from :
    (l : ℕ) (o : Option String) (cs : List WalChange)
    → o ≡ some (Lsn.string l)
    → l < 2 ^ 64
    → All (λ e. ltb l e.lsn ≡ true) cs
    → All (λ c. is_newer o c ≡ true) cs
newer_from l o [] e h k = tt
newer_from l o (c ∷ cs) e h k = (rw e (is_newer-string l c h ∙ k.0), newer_from l o cs e h k.1)

-- What a call does for the device, given the queue and the changes to come.
pub record Turn (device : String) (n : ℕ) (q later : List WalChange) (w : World)
    (p : Result (List Message) × World) : Type 0 where
  pub sent : p.0 ≡ ok (map to_message (take n q))
  pub left : queue p.1.changes device ≡ drop n q
  pub users : p.1.tables.users ≡ w.tables.users
  pub ready : Ready device (drop n q ++ later) p.1

-- After the batch `b`, the device's row holds the LSN of its last change.
Ready-progressed :
    (env : Env) (device : String) (sm : SyncMetadata) (c : WalChange) (b rest : List WalChange)
    (w : World)
    → find_metadata device w.tables ≡ ok sm
    → Sound ((c ∷ b) ++ rest)
    → Ready device rest (progressed env device (collect 0 (c ∷ b)).1 sm w)
Ready-progressed env device sm c b rest w found s =
    let last = (collect 0 (c ∷ b)).1 in
    let writes = All-front IsWrite (c ∷ b) rest s.writes in
    let low =
      collect-lower 0 (2 ^ 64) (c ∷ b) writes (omega arith) (All-front _ (c ∷ b) rest s.bounded) in
    let above = beyond c b rest writes (Ascending-above (c ∷ b) rest s.ascending) in
    let shown =
      Shows-upsert (stamp last (env.time (suc w.tick)) sm) w.tables (env.time (suc (suc w.tick)))
        (env.time (suc (suc (suc w.tick)))) (env.uuid (suc (suc (suc w.tick)))) in
    record {
      sm = shown.row;
      found =
          subst (λ d. find_metadata d (progressed env device last sm w).tables ≡ ok shown.row)
            (find_metadata-device_id device w.tables sm found) shown.found;
      newer = newer_from last shown.row.last_synced_lsn rest shown.lsn low above;
    }

Ready-rest :
    (device : String) (xs ys : List WalChange) (w w' : World)
    → w'.tables ≡ w.tables
    → Ready device (xs ++ ys) w
    → Ready device ys w'
Ready-rest device xs ys w w' same r = record {
  sm = r.sm;
  found = ap (find_metadata device) same ∙ r.found;
  newer = All-back _ xs ys r.newer;
}

pub sync_incoming_wal-Turn :
    (env : Env) (quiet : Quiet env) (device : String) (n : ℕ) (q later : List WalChange) (w : World)
    → Sound (q ++ later)
    → Ready device (q ++ later) w
    → queue w.changes device ≡ q
    → Turn device (suc n) q later w (sync_incoming_wal env device (suc n) w)
sync_incoming_wal-Turn env quiet device n [] later w s r e =
    subst (Turn device (suc n) [] later w)
      (sym (sync_incoming_wal_nil env device r.sm (suc n) w (Quiet-Answers env w quiet) r.found e))
      (record {
        sent = refl;
        left = e;
        users = refl;
        ready = record { sm = r.sm; found = r.found; newer = r.newer };
      })
sync_incoming_wal-Turn env quiet device n (c ∷ q) later w s r e =
    let newer = All-front _ (c ∷ q) later r.newer in
    let writes = All-front IsWrite (c ∷ q) later s.writes in
    let cut = batch_take r.sm (suc n) (queue w.changes device) (c ∷ q) e (omega arith) newer in
    let run =
      sync_incoming_wal_cons env device r.sm (suc n) w (Quiet-Answers env w quiet) c (take n q)
        r.found cut (All-take IsWrite (suc n) (c ∷ q) writes) in
    let whole =
      wal_lossless env device r.sm (suc n) w (c ∷ q) (Quiet-Answers env w quiet) r.found
        (omega arith) e newer writes (Ascending-front (c ∷ q) later s.ascending) in
    let parts = split_todo (suc n) (c ∷ q) later in
    record {
      sent = whole.0;
      left = whole.1 device ∙ rw (eq_refl device);
      users = ap (λ p. p.1.tables.users) run;
      ready =
          subst (λ p. Ready device (drop n q ++ later) p.1) (sym run)
            (Ready-progressed env device r.sm c (take n q) (drop n q ++ later) (advance w) r.found
              (subst Sound parts s));
    }
