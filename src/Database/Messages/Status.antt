-- ===== src/Database/Messages/Status.antt =====
-- queries.go: what UpdateMessageStatus does to the messages, apart from its timestamps.
use posduif.Common.{
  ℕ, suc, String, true, ◌==◌, ◌≡◌, refl, none, List, [], ◌∷◌, map, arith, if◌then◌else◌,
}
use posduif.Models.{Message}
use posduif.Errors.{ok}
use posduif.Database.{Env, World, exec}
use posduif.Database.Schema.{is_status}
use posduif.Database.Messages.{set_status, set_status_of, write_status, update_message_status}

-- A message without the columns that hold times of updates.
abbrev pub timeless : Message → Message
timeless m = record m { updated_at = 0; synced_at = none; read_at = none }

abbrev pub mark : String → String → Message → Message
mark status id m = if m.id == id then record m { status = status } else m

-- The status of the named message changes, and no other column of any message but such times.
pub timeless-set_status :
    (t : ℕ) (id status : String) (ms : List Message)
    → map timeless (map (set_status_of t id status) ms) ≡ map (mark status id) (map timeless ms)
unfolding set_status
timeless-set_status t id status [] = refl
timeless-set_status t id status (m ∷ ms) = ground (arith, timeless-set_status t id status ms)

pub update_message_status_lem :
    (env : Env) (id status : String) (w : World)
    → env.fault w.tick ≡ none
    → env.is_uuid id ≡ true
    → is_status status ≡ true
    → update_message_status env id status w ≡ (
      ok tt,
      record w {
        tables = record w.tables {
          messages = map (set_status_of (env.time w.tick) id status) w.tables.messages;
        };
        tick = suc w.tick;
      },
    )
unfolding update_message_status write_status exec
update_message_status_lem env id status w up valid legal = ground arith
