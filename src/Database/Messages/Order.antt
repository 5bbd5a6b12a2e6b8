-- ===== src/Database/Messages/Order.antt =====
-- queries.go: ORDER BY created_at, as GetMessages and GetPendingMessagesForDevice use it.
use posduif.Common.{ℕ, ◌≤◌, List, [], ◌∷◌, arith, All, take, ltb→lt, ltb→le}
use posduif.Models.{Message}
use posduif.Common.Sort.{Ordered, Ordered-take, order_by-Ordered}
use posduif.Database.Messages.{oldest_first, newest_first}

-- Creation times do not fall along the list.
abbrev pub Sorted : List Message → Type 0
Sorted [] = Unit
Sorted (m ∷ ms) = All (λ n. m.created_at ≤ n.created_at) ms × Sorted ms

abbrev Older : Message → Message → Type 0
Older m n = m.created_at ≤ n.created_at

-- The other way round.
abbrev pub Newer : Message → Message → Type 0
Newer m n = n.created_at ≤ m.created_at

of_Ordered : (ms : List Message) → Ordered Older ms → Sorted ms
of_Ordered [] s = tt
of_Ordered (m ∷ ms) s = (s.0, of_Ordered ms s.1)

to_Ordered : (ms : List Message) → Sorted ms → Ordered Older ms
to_Ordered [] s = tt
to_Ordered (m ∷ ms) s = (s.0, to_Ordered ms s.1)

pub oldest_first-Sorted : (ms : List Message) → Sorted (oldest_first ms)
oldest_first-Sorted ms = of_Ordered _ (
    order_by-Ordered _ Older (λ m n h. omega (arith, ltb→lt m.created_at n.created_at h))
      (λ m n h. ltb→le m.created_at n.created_at h) (λ a b c h k. omega (arith, h, k)) ms)

pub newest_first-Ordered : (ms : List Message) → Ordered Newer (newest_first ms)
newest_first-Ordered ms =
    order_by-Ordered _ Newer (λ m n h. omega (arith, ltb→lt n.created_at m.created_at h))
      (λ m n h. ltb→le n.created_at m.created_at h) (λ a b c h k. omega (arith, h, k)) ms

pub Sorted-take : (n : ℕ) (ms : List Message) → Sorted ms → Sorted (take n ms)
Sorted-take n ms s = of_Ordered _ (Ordered-take Older n ms (to_Ordered ms s))
