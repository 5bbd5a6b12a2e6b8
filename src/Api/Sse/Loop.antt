-- ===== src/Api/Sse/Loop.antt =====
-- web.go and mobile.go: the select of the loops, by the clock. The ticker sends every 15 seconds
-- into a channel that holds one tick; time.After is made anew in each round. Times are seconds.
use posduif.Common.{ℕ, ◌+◌, ◌≤◌, ◌<◌, List, [], ◌∷◌}
use posduif.Api.Sse.{Wake, tick, timeout}

-- time.NewTicker(15 * time.Second)
abbrev pub period : ℕ
period = 15

-- time.After in WebSSEHandler and in MobileSSEHandler
abbrev pub web_wait : ℕ
web_wait = 5

abbrev pub mobile_wait : ℕ
mobile_wait = 30

-- The time at which a round begins, and the time of the tick that the round can receive next: the
-- one in the channel, or the first to come.
pub record Clock : Type 0 where
  pub now : ℕ
  pub next : ℕ

-- One round: select takes what is ready first, either of two at the same time. The work of a
-- round may take any time, `later`, before the next begins. Ticks come once a period; those that
-- come while one lies in the channel are dropped, so behind such a one the next comes within a
-- period of its receipt.
pub data Round (wait : ℕ) : Clock → Wake → Clock → Type 0 where
  ticked :
      (c : Clock) (later : ℕ)
      → c.now ≤ c.next
      → c.next ≤ c.now + wait
      → Round wait c tick (record { now = c.next + later; next = c.next + period })
  buffered :
      (c : Clock) (later next : ℕ)
      → c.next < c.now
      → c.now ≤ next
      → next ≤ c.now + period
      → Round wait c tick (record { now = c.now + later; next = next })
  timed_out :
      (c : Clock) (later : ℕ)
      → c.now + wait ≤ c.next
      → Round wait c timeout (record { now = c.now + wait + later; next = c.next })

-- The rounds of a stream, with what woke each.
pub data Rounds (wait : ℕ) : Clock → List Wake → Clock → Type 0 where
  waiting : (c : Clock) → Rounds wait c [] c
  woken :
      (c d e : Clock) (w : Wake) (ws : List Wake)
      → Round wait c w d
      → Rounds wait d ws e
      → Rounds wait c (w ∷ ws) e

-- The clock at which a stream starts its loop.
abbrev pub opened : ℕ → Clock
opened t = record { now = t; next = t + period }
