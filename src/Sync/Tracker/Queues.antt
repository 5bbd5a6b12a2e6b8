-- ===== src/Sync/Tracker/Queues.antt =====
-- change_tracker.go: GetChangesForDevice and ClearChangesForDevice on the queue of a device.
use posduif.Common.{
  ℕ, zero, suc, ◌<◌, String, false, ◌==◌, ltb, ◌≡◌, ap, ◌∙◌, sym, some, List, [], ◌∷◌, length, take,
  drop, select, All, All-drop, take_all, eq_refl, Bool-cases, Option-cases, inl, inr, ltb→le,
  lt→ltb,
}
use posduif.Common.Dict.{Dict, lookup, insert, lookup-insert}
use posduif.Models.{WalChange}
use posduif.Sync.Tracker.{limit_changes, clear, or_nil, queue}

-- LSNs grow strictly along the queue.
abbrev pub Ascending : List WalChange → Type 0
Ascending [] = Unit
Ascending (c ∷ cs) = All (λ e. c.lsn < e.lsn) cs × Ascending cs

-- A positive limit cuts the result; 0 leaves it whole.
pub limit_changes-take :
    (limit : ℕ) (cs : List WalChange) → 0 < limit → limit_changes limit cs ≡ take limit cs
unfolding limit_changes
limit_changes-take limit cs h = elim (Bool-cases (ltb limit (length cs))) [
  | inl e ↦ rw (lt→ltb 0 limit h, e)
  | inr e ↦ rw (lt→ltb 0 limit h, e) (sym (take_all limit cs (ltb→le _ _ e)))
]

-- A clear takes from the device's queue what the LSN covers.
pub queue-clear_self :
    (device : String) (synced : ℕ) (changes : Dict (List WalChange))
    → queue (clear device synced changes) device
      ≡ select (λ c. ltb synced c.lsn) (queue changes device)
unfolding clear
queue-clear_self device synced changes = elim (Option-cases (lookup device changes)) [
  | inl e ↦ rw (e, clear) (rw e)
  | inr (q, e) ↦
      let kept = select (λ c. ltb synced c.lsn) q in
      let stored : lookup device (insert device kept changes) ≡ some kept =
        lookup-insert device device kept changes ∙ rw (eq_refl device) in
      rw (e, clear) (ap or_nil stored)
]

-- A clear leaves the entries of other devices as they were.
pub lookup-clear_other :
    (device d : String) (synced : ℕ) (changes : Dict (List WalChange))
    → (device == d) ≡ false
    → lookup d (clear device synced changes) ≡ lookup d changes
unfolding clear
lookup-clear_other device d synced changes h = elim (Option-cases (lookup device changes)) [
  | inl e ↦ rw (e, clear)
  | inr (q, e) ↦
      let kept = select (λ c. ltb synced c.lsn) q in
      rw (e, clear) (lookup-insert device d kept changes ∙ rw h)
]

pub All-const : (P : WalChange → Type 0) (cs : List WalChange) → ((c : WalChange) → P c) → All P cs
All-const P [] h = tt
All-const P (c ∷ cs) h = (h c, All-const P cs h)

All-pair :
    (b : List WalChange) (c : WalChange) (cs : List WalChange)
    → All (λ e. c.lsn < e.lsn) cs
    → All (λ e. All (λ x. x.lsn < e.lsn) b) cs
    → All (λ e. All (λ x. x.lsn < e.lsn) (c ∷ b)) cs
All-pair b c [] h k = tt
All-pair b c (e ∷ cs) h k = ((h.0, k.0), All-pair b c cs h.1 k.1)

-- In an ascending queue all that a limit cuts off lies above all that it lets through.
pub Ascending-cut :
    (n : ℕ) (q : List WalChange)
    → Ascending q
    → All (λ e. All (λ x. x.lsn < e.lsn) (take n q)) (drop n q)
Ascending-cut zero q h = All-const _ q (λ c. tt)
Ascending-cut (suc n) [] h = tt
Ascending-cut (suc n) (c ∷ q) h =
    All-pair (take n q) c (drop n q) (All-drop (λ e. c.lsn < e.lsn) n q h.0) (Ascending-cut n q h.1)
