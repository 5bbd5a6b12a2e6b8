-- ===== src/Api/Messages/Reading.antt =====
-- handlers/messages.go: GetMessage, MarkAsRead and the unread count.
use posduif.Common.{
  ℕ, Bool-cases, inl, inr, String, Bool, true, false, not, ◌&&◌, ◌==◌, ◌≡◌, refl, ap, ◌∙◌, none,
  some, List, [], ◌∷◌, map, length, select, arith,
}
use posduif.Common.Text.{split}
use posduif.Errors.{ok}
use posduif.Models.{Message}
use posduif.Database.{Env, World, query}
use posduif.Database.Messages.{set_status, set_status_of, get_unread_count}
use posduif.Database.Messages.Status.{update_message_status_lem}
use posduif.Api.{Request, reply}
use posduif.Api.Messages.{after, fourth, get_message, mark_as_read}

-- GetMessage does not look at the id in the path: two requests of the same method, whose paths
-- have an id that is not empty, have the same outcome in every world.
pub get_message_ignores_id :
    (env : Env) (r r' : Request) (w : World)
    → r.method ≡ r'.method
    → (after 14 r.path == "") ≡ false
    → (after 14 r'.path == "") ≡ false
    → get_message env r w ≡ get_message env r' w
unfolding get_message
get_message_ignores_id env r r' w e h k = rw (e, h, k)

-- The run of a PUT with an id, while the database works.
mark_as_read_any :
    (env : Env) (r : Request) (id : String) (w : World)
    → r.method ≡ "PUT"
    → fourth (split b'/' r.path) ≡ some id
    → env.fault w.tick ≡ none
    → env.is_uuid id ≡ true
    → ((mark_as_read env r w).0 ≡ ok (reply 200 (id, "read")))
      × ((mark_as_read env r w).1.tables.messages
          ≡ map (set_status_of (env.time w.tick) id "read") w.tables.messages)
unfolding mark_as_read
mark_as_read_any env r id w put path up valid =
    rw (put, path) (rw (update_message_status_lem env id "read" w up valid refl) (refl, refl))

abbrev pub is_unread_by : String → Message → Bool
is_unread_by user m = (m.recipient_id == user) && not (m.status == "read")

unread_after :
    (at : ℕ) (user id : String) (ms : List Message)
    → length (select (is_unread_by user) (map (set_status_of at id "read") ms))
      ≡ length (select (λ m. is_unread_by user m && not (m.id == id)) ms)
unfolding set_status
unread_after at user id [] = refl
unread_after at user id (m ∷ ms) = elim (Bool-cases (m.id == id)) [
  | inl e ↦ rw e (ground (arith, unread_after at user id ms))
  | inr e ↦ rw e (ground (arith, unread_after at user id ms))
]

counts :
    (env : Env) (user : String) (w : World)
    → env.fault w.tick ≡ none
    → env.is_uuid user ≡ true
    → (get_unread_count env user w).0 ≡ ok (length (select (is_unread_by user) w.tables.messages))
unfolding get_unread_count query
counts env user w up valid = ground arith

-- MarkAsRead asks for no user: after a PUT on a path with a UUID in the fourth part, whoever sends
-- it, the unread count of every user, read at any later moment with the messages as they are then,
-- is that of the unread messages before, less the message of the path, while the database works.
pub mark_as_read_counts :
    (env : Env) (r : Request) (id user : String) (w w' : World)
    → r.method ≡ "PUT"
    → fourth (split b'/' r.path) ≡ some id
    → env.fault w.tick ≡ none
    → env.is_uuid id ≡ true
    → w'.tables.messages ≡ (mark_as_read env r w).1.tables.messages
    → env.fault w'.tick ≡ none
    → env.is_uuid user ≡ true
    → (get_unread_count env user w').0
      ≡ ok (length (select (λ m. is_unread_by user m && not (m.id == id)) w.tables.messages))
mark_as_read_counts env r id user w w' put path up valid same up' valid' =
    counts env user w' up' valid'
    ∙ ap (λ ms. ok (length (select (is_unread_by user) ms)))
        (same ∙ (mark_as_read_any env r id w put path up valid).1)
    ∙ ap ok (unread_after (env.time w.tick) user id w.tables.messages)
