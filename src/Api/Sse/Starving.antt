-- ===== src/Api/Sse/Starving.antt =====
-- mobile.go: which events the loop can ever send.
use posduif.Common.{ℕ, ◌+◌, ◌≤◌, String, ◌≡◌, refl, List, [], ◌∷◌, map, arith, All}
use posduif.Errors.{ok}
use posduif.Database.{Env, World}
use posduif.Api.Sse.{ping, Wake, tick, timeout, mobile_round, rounds}
use posduif.Api.Sse.Loop.{
  Clock, period, mobile_wait, Round, ticked, buffered, timed_out, Rounds, waiting, woken, opened,
}

-- The next tick comes within a period of the beginning of a round.
abbrev pub InPeriod : Clock → Type 0
InPeriod c = c.next ≤ c.now + period

pub Round-InPeriod :
    {wait : ℕ} {c d : Clock} {w : Wake} → Round wait c w d → InPeriod c → InPeriod d
Round-InPeriod (ticked c later before within) h = omega arith
Round-InPeriod (buffered c later next late low high) h = omega (arith, high)
Round-InPeriod (timed_out c later first) h = omega (arith, h)

mobile_tick : {c d : Clock} {w : Wake} → Round mobile_wait c w d → InPeriod c → w ≡ tick
mobile_tick (ticked c later before within) h = refl
mobile_tick (buffered c later next late low high) h = refl
mobile_tick (timed_out c later first) h = absurd (omega (arith, first, h))

mobile_ticks :
    {c d : Clock} {ws : List Wake} → Rounds mobile_wait c ws d → InPeriod c → All (λ w. w ≡ tick) ws
mobile_ticks (waiting c) h = tt
mobile_ticks (woken c d e w ws r rs) h = (mobile_tick r h, mobile_ticks rs (Round-InPeriod r h))

pings :
    (env : Env) (device : String) (ws : List Wake) (w : World)
    → All (λ x. x ≡ tick) ws
    → rounds env (mobile_round env device) ws w ≡ (ok (map (λ x. ping) ws), w)
unfolding rounds mobile_round
pings env device [] w h = refl
pings env device (tick ∷ ws) w h = ground (arith, pings env device ws w h.1)
pings env device (timeout ∷ ws) w h = absurd (ground (arith, h.0))

-- A mobile stream never reports a message: in every run of its loop, however long its rounds take
-- and whatever is pending for the device, each round is woken by the ticker, since a timer of 30
-- seconds that is made anew in each round cannot fire before a tick that comes every 15 seconds;
-- so the stream is a sequence of pings and never reads the database.
pub mobile_stream_pings :
    (env : Env) (device : String) (t : ℕ) (ws : List Wake) (c : Clock) (w : World)
    → Rounds mobile_wait (opened t) ws c
    → rounds env (mobile_round env device) ws w ≡ (ok (map (λ x. ping) ws), w)
mobile_stream_pings env device t ws c w run = pings env device ws w (mobile_ticks run (omega arith))
