-- ===== src/Tests/Feed.antt =====
-- The theorems on the feed of a device, on the sample tenant.
use posduif.Common.{◌≡◌, refl, List, [], ◌∷◌, ◌++◌, arith, map, select}
use posduif.Models.{WalChange}
use posduif.Database.Users.{find_user}
use posduif.Database.Metadata.{find_metadata}
use posduif.Common.Dict.{lookup}
use posduif.Sync.Tracker.{recipient, sender, old_sender, is_newer, queue, to_message}
use posduif.Sync.Feed.{Event, add, sync, run, serve, added, goes_to}
use posduif.Sync.Feed.Fifo.{calls}
use posduif.Sync.Feed.Refinement.{
  Agrees, Promised, wants, run_refines, feed_exactly_once, feed_drains,
}
use posduif.Tests.{env, progress, insert_of, world}

-- alice writes to bob, bob's device asks for one change, bob answers.
abbrev events : List Event
events = add (insert_of 30 "alice" "bob") ∷ sync 0 ∷ add (insert_of 40 "bob" "alice") ∷ []

abbrev todo : List WalChange
todo = queue world.changes "phone-b" ++ select (wants env "phone-b" world) (added events)

promise : Promised "phone-b" world todo
unfolding find_user find_metadata lookup recipient sender old_sender is_newer goes_to
promise = (
  record {
    writes = (refl, (refl, (refl, tt)));
    bounded = (omega arith, (omega arith, (omega arith, tt)));
    ascending = ((omega arith, (omega arith, tt)), ((omega arith, tt), (tt, tt)));
  },
  record { sm = progress; found = refl; newer = (refl, (refl, (refl, tt))) },
)

run_refines_example :
    Agrees "phone-b"
      (run env "phone-b" events world)
      (serve (wants env "phone-b" world) events (queue world.changes "phone-b"))
run_refines_example = run_refines env "phone-b" events world (λ t. refl) promise

feed_exactly_once_example :
    (run env "phone-b" events world).0
      ++ map to_message (queue (run env "phone-b" events world).1.changes "phone-b")
    ≡ map to_message todo
feed_exactly_once_example = feed_exactly_once env "phone-b" events world (λ t. refl) promise

feed_drains_example :
    ((run env "phone-b" (events ++ calls 2 1) world).0 ≡ map to_message todo)
    × (queue (run env "phone-b" (events ++ calls 2 1) world).1.changes "phone-b" ≡ [])
unfolding find_user lookup recipient sender old_sender goes_to
feed_drains_example = feed_drains env "phone-b" events 2 1 world (λ t. refl) promise (omega arith)
