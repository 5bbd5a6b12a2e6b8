-- ===== src/Sync/Tracker/Convert.antt =====
-- change_tracker.go: ConvertWALChangeToMessage on the row of a message.
use posduif.Common.{ℕ, true, ◌||◌, ◌==◌, ◌≡◌, refl, Option, none, some, [], ◌∷◌}
use posduif.Common.Dict.{Dict, lookup}
use posduif.Models.{Message, Value, text, time, other, WalChange}
use posduif.Errors.{ok}
use posduif.Sync.Tracker.{as_time, convert, to_message}

-- A column that may be NULL.
abbrev pub nullable : Option ℕ → Value
nullable none = other
nullable (some t) = time t

-- The columns of a row of the table messages in config/database-init.sql, under their names.
abbrev pub columns_of : Message → Dict Value
columns_of m =
    ("id", text m.id)
    ∷ ("sender_id", text m.sender_id)
    ∷ ("recipient_id", text m.recipient_id)
    ∷ ("content", text m.content)
    ∷ ("status", text m.status)
    ∷ ("created_at", time m.created_at)
    ∷ ("updated_at", time m.updated_at)
    ∷ ("synced_at", nullable m.synced_at)
    ∷ ("read_at", nullable m.read_at)
    ∷ []

as_time-nullable : (o : Option ℕ) → as_time (some (nullable o)) ≡ o
as_time-nullable none = refl
as_time-nullable (some t) = refl

to_message-columns_of : (c : WalChange) (m : Message) → c.columns ≡ columns_of m → to_message c ≡ m
unfolding to_message lookup
to_message-columns_of c m e = rw (e, as_time-nullable m.synced_at, as_time-nullable m.read_at)

-- An INSERT or UPDATE that carries the columns of a row of messages converts to that row, whatever
-- else the change holds; a NULL in synced_at or read_at becomes a nil pointer.
pub convert_row :
    (c : WalChange) (m : Message)
    → (c.operation == "INSERT" || c.operation == "UPDATE") ≡ true
    → c.columns ≡ columns_of m
    → convert c ≡ ok m
unfolding convert
convert_row c m write e = rw (write, to_message-columns_of c m e)
