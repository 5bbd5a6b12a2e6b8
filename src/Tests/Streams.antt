-- ===== src/Tests/Streams.antt =====
-- The theorems on the streams of server-sent events.
use posduif.Common.{◌≡◌, [], ◌∷◌, arith}
use posduif.Errors.{ok}
use posduif.Api.Sse.{ping, tick, mobile_round, rounds}
use posduif.Api.Sse.Loop.{mobile_wait, ticked, Rounds, waiting, woken, opened}
use posduif.Api.Sse.Starving.{mobile_stream_pings}
use posduif.Tests.{env, world}

-- Two rounds of a mobile stream, the first of which takes 4 seconds.
two-Rounds : Rounds mobile_wait (opened 100) (tick ∷ tick ∷ []) (record { now = 130; next = 145 })
two-Rounds = woken _ _ _ tick (tick ∷ []) (ticked (opened 100) 4 (omega arith) (omega arith)) (
    woken _ _ _ tick [] (ticked (record { now = 119; next = 130 }) 0 (omega arith) (omega arith))
      (waiting _))

mobile_stream_pings_example :
    rounds env (mobile_round env "phone-b") (tick ∷ tick ∷ []) world
    ≡ (ok (ping ∷ ping ∷ []), world)
mobile_stream_pings_example =
    mobile_stream_pings env "phone-b" 100 (tick ∷ tick ∷ []) _ world two-Rounds
