-- ===== src/Sync/Feed/Routing.antt =====
-- change_tracker.go: AddChange appends a change to the queue of a device exactly if it is for it.
use posduif.Common.{
  ℕ, String, Bool, true, false, not, ◌&&◌, ◌||◌, ◌==◌, ◌++◌, ◌≡◌, refl, ap, sym, subst, ◌∙◌, List,
  [], ◌∷◌, arith, eq_iff, eq_refl, ◌⊎◌, inl, inr, Bool-cases, Option-cases, if◌then◌else◌,
}
use posduif.Common.Dict.{Dict, insert, lookup-insert}
use posduif.Models.{User, WalChange}
use posduif.Errors.{no_rows, driver, refused, message, wrapped, Result, ok, err}
use posduif.Database.{Env, Tables, World, advance}
use posduif.Database.Users.{find_user}
use posduif.Sync.Tracker.{
  recipient, sender, old_sender, is_nonempty, devices_of, contains, without, enqueue, queue, or_nil,
  route, add_change,
}
use posduif.Sync.Tracker.Devices.{
  pick, devices_at, label, later, sender_result, get_devices_lem, sender_devices_lem,
  contains-append,
}
use posduif.Sync.Tracker.Adding.{asks_old, senders, old_senders, deliver, changes-route}
use posduif.Sync.Tracker.Echo.{later_tables}
use posduif.Sync.Manager.Wal.{Quiet}
use posduif.Sync.Feed.{owns, spares, spared, goes_to}

device_cases : (u : User) → (devices_of u ≡ []) ⊎ ((e : String) × (devices_of u ≡ e ∷ []))
device_cases u = elim (Option-cases u.device_id) [
  | inl h ↦ inl (ground arith)
  | inr (e, h) ↦ elim (Bool-cases (e == "")) [
    | inl k ↦ inl (ground arith)
    | inr k ↦ inr (e, ground arith)
  ]
]

-- The search succeeded and did not find the device.
abbrev clear_of : String → Result (List String) → Bool
clear_of d (ok ds) = not (contains ds d)
clear_of d (err e) = false

abbrev extended : Bool → WalChange → List WalChange → List WalChange
extended test c q = if test then q ++ c ∷ [] else q

queue-insert :
    (changes : Dict (List WalChange)) (e d : String) (q : List WalChange)
    → queue (insert e q changes) d ≡ (if e == d then q else queue changes d)
queue-insert changes e d q = ap or_nil (lookup-insert e d q changes) ∙ ground arith

queue-enqueue :
    (c : WalChange) (u : User) (excluded : List String) (changes : Dict (List WalChange))
    (d : String)
    → queue (enqueue c (without excluded (devices_of u)) changes) d
      ≡ extended (contains (devices_of u) d && not (contains excluded d)) c (queue changes d)
unfolding enqueue
queue-enqueue c u excluded changes d = elim (device_cases u) [
  | inl h ↦ rw h
  | inr (e, h) ↦ rw h (elim (Bool-cases (contains excluded e)) [
    | inl k ↦ ground (arith, eq_iff e d)
    | inr k ↦ ground (arith, eq_iff e d, queue-insert changes e d (queue changes e ++ c ∷ []))
  ])
]

queue-deliver :
    (c : WalChange) (s : String) (u : Result User) (ss os : Result (List String))
    (changes : Dict (List WalChange)) (d : String)
    → queue (deliver c (label s (pick u)) ss os changes) d
      ≡ extended (owns d u && (clear_of d ss && clear_of d os)) c (queue changes d)
unfolding enqueue
queue-deliver c s (ok u) (ok ss) (ok os) changes d =
    queue-enqueue c u (ss ++ os) changes d ∙ ground (arith, contains-append ss os d)
queue-deliver c s (ok u) (ok ss) (err e) changes d = ground arith
queue-deliver c s (ok u) (err e) os changes d = ground arith
queue-deliver c s (err no_rows) (ok ss) (ok os) changes d = refl
queue-deliver c s (err no_rows) (ok ss) (err e) changes d = refl
queue-deliver c s (err no_rows) (err e) os changes d = refl
queue-deliver c s (err (driver x)) ss os changes d = refl
queue-deliver c s (err (refused x)) ss os changes d = refl
queue-deliver c s (err (message x)) ss os changes d = refl
queue-deliver c s (err (wrapped x e)) ss os changes d = refl

clear-pick : (s d : String) (u : Result User) → clear_of d (label s (pick u)) ≡ spares d u
clear-pick s d (ok u) = refl
clear-pick s d (err no_rows) = refl
clear-pick s d (err (driver x)) = refl
clear-pick s d (err (refused x)) = refl
clear-pick s d (err (message x)) = refl
clear-pick s d (err (wrapped x e)) = refl

once :
    (spared_by : String → Bool) (s o : String)
    → ((not (is_nonempty s) || spared_by s) && (not (is_nonempty o && not (o == s)) || spared_by o))
      ≡ (((s == "") || spared_by s) && ((o == "") || spared_by o))
once spared_by s o = elim (Bool-cases (o == s)) [
  | inl e ↦
      subst
        (λ x.
          ((not (is_nonempty s) || spared_by s)
            && (not (is_nonempty x && not (x == s)) || spared_by x))
          ≡ (((s == "") || spared_by s) && ((x == "") || spared_by x)))
        (sym ((eq_iff _ _).0 e)) (ground (arith, eq_refl s))
  | inr e ↦ ground arith
]

module _ (env : Env) (quiet : Quiet env) where
  devices_at_quiet :
      (id : String) (tick : ℕ) (t : Tables) → devices_at env id tick t ≡ pick (find_user env id t)
  devices_at_quiet id tick t = rw (devices_at, quiet tick)

  clear-sender_result :
      (s : String) (test : Bool) (id d : String) (w : World)
      → clear_of d (sender_result env s test id w)
        ≡ (not test || spares d (find_user env id w.tables))
  clear-sender_result s true id d w =
      ap (λ r. clear_of d (label s r)) (devices_at_quiet id w.tick w.tables)
      ∙ clear-pick s d (find_user env id w.tables)
  clear-sender_result s false id d w = refl

  -- The searches of the senders together spare the device or not; an old sender that is the
  -- sender again is not searched twice.
  clear_senders :
      (c : WalChange) (r d : String) (w : World)
      → (clear_of d (senders env c r w) && clear_of d (old_senders env c r w)) ≡ (
          spared d (λ id. find_user env id w.tables) (sender c)
          && spared d (λ id. find_user env id w.tables) (old_sender c))
  clear_senders c r d w =
      let spare = λ (x : String). spares d (find_user env x w.tables) in
      let between = later (is_nonempty (sender c)) (advance w) in
      rw
        (
          clear-sender_result "failed to get devices for sender" (is_nonempty (sender c)) (sender c)
              d (advance w),
          clear-sender_result "failed to get devices for old sender" (asks_old c) (old_sender c) d
              between,
          later_tables (is_nonempty (sender c)) (advance w),
        )
        (once spare (sender c) (old_sender c))

  queue-route :
      (c : WalChange) (r d : String) (w : World)
      → queue (route env c r w).1.changes d
        ≡ extended
            (owns d (find_user env r w.tables)
              && (spared d (λ id. find_user env id w.tables) (sender c)
                  && spared d (λ id. find_user env id w.tables) (old_sender c)))
            c
            (queue w.changes d)
  queue-route c r d w =
      ap (λ x. queue x d) (changes-route env c r w)
      ∙ ap
          (λ x.
            queue
              (deliver c (label "failed to get devices for recipient" x) (senders env c r w)
                (old_senders env c r w) w.changes)
              d)
          (devices_at_quiet r w.tick w.tables)
      ∙ queue-deliver c _ (find_user env r w.tables) _ _ w.changes d
      ∙ rw (clear_senders c r d w)

  -- AddChange against a working database.
  pub queue-add_change :
      (c : WalChange) (d : String) (w : World)
      → queue (add_change env c w).1.changes d ≡ (
          if goes_to d (λ id. find_user env id w.tables) c
          then queue w.changes d ++ c ∷ []
          else queue w.changes d)
  unfolding add_change goes_to
  queue-add_change c d w = elim (Option-cases (recipient c)) [
    | inl e ↦ ground arith
    | inr (r, e) ↦ ground (arith, queue-route c r d w)
  ]

tables-route :
    (env : Env) (c : WalChange) (r : String) (w : World) → (route env c r w).1.tables ≡ w.tables
unfolding route
tables-route env c r w = ground (
  arith,
  get_devices_lem env r w,
  sender_devices_lem env "failed to get devices for sender" (is_nonempty (sender c)) (sender c)
      (advance w),
  sender_devices_lem env "failed to get devices for old sender" (asks_old c) (old_sender c)
      (later (is_nonempty (sender c)) (advance w)),
  later_tables (is_nonempty (sender c)) (advance w),
  later_tables (asks_old c) (later (is_nonempty (sender c)) (advance w)),
)

pub tables-add_change :
    (env : Env) (c : WalChange) (w : World) → (add_change env c w).1.tables ≡ w.tables
unfolding add_change
tables-add_change env c w = elim (Option-cases (recipient c)) [
  | inl e ↦ ground arith
  | inr (r, e) ↦ ground (arith, tables-route env c r w)
]
