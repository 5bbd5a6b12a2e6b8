-- ===== src/Sync/Manager/Batch.antt =====
-- manager.go: the loop of syncIncomingWAL over a batch of changes.
use posduif.Common.{
  ℕ, ◌≤◌, ◌<◌, true, false, ◌||◌, ◌==◌, ltb, ◌≡◌, refl, ap, ◌∙◌, sym, subst, ◌++◌, List, [], ◌∷◌,
  arith, map, select, select-whole, select-nothing, select-append, All, lt→ltb, le→ltb,
}
use posduif.Models.{WalChange}
use posduif.Sync.Tracker.{convert, to_message}
use posduif.Sync.Manager.{collect, larger}

-- An INSERT or UPDATE, the only changes that the tracker queues.
abbrev pub IsWrite : WalChange → Type 0
IsWrite c = (c.operation == "INSERT" || c.operation == "UPDATE") ≡ true

collect-step :
    (max : ℕ) (c : WalChange) (cs : List WalChange)
    → IsWrite c
    → collect max (c ∷ cs)
      ≡ (to_message c ∷ (collect (larger max c.lsn) cs).0, (collect (larger max c.lsn) cs).1)
unfolding collect convert
collect-step max c cs h = rw (h, collect)

-- The messages of a batch are those of its changes, in order.
pub collect-messages :
    (max : ℕ) (cs : List WalChange) → All IsWrite cs → (collect max cs).0 ≡ map to_message cs
unfolding collect
collect-messages max [] h = refl
collect-messages max (c ∷ cs) h =
    ap (λ r. r.0) (collect-step max c cs h.0)
    ∙ ap (λ ms. to_message c ∷ ms) (collect-messages (larger max c.lsn) cs h.1)

-- maxLSN bounds the start value and every change of the batch,
pub collect-upper :
    (max : ℕ) (cs : List WalChange)
    → All IsWrite cs
    → (max ≤ (collect max cs).1) × All (λ c. c.lsn ≤ (collect max cs).1) cs
unfolding collect
collect-upper max [] h = (omega arith, tt)
collect-upper max (c ∷ cs) h =
    let (low, rest) = collect-upper (larger max c.lsn) cs h.1 in
    subst (λ l. (max ≤ l) × All (λ x. x.lsn ≤ l) (c ∷ cs))
      (sym (ap (λ r. r.1) (collect-step max c cs h.0))) (ground arith, (ground arith, rest))

-- and lies below whatever they all lie below.
pub collect-lower :
    (max e : ℕ) (cs : List WalChange)
    → All IsWrite cs
    → max < e
    → All (λ c. c.lsn < e) cs
    → (collect max cs).1 < e
unfolding collect
collect-lower max e [] h k b = k
collect-lower max e (c ∷ cs) h k b =
    rw (collect-step max c cs h.0) (collect-lower (larger max c.lsn) e cs h.1 (ground arith) b.1)

pub covered :
    (l : ℕ) (cs : List WalChange) → All (λ c. c.lsn ≤ l) cs → All (λ c. ltb l c.lsn ≡ false) cs
covered l [] h = tt
covered l (c ∷ cs) h = (le→ltb l c.lsn h.0, covered l cs h.1)

pub beyond :
    (c : WalChange) (b cs : List WalChange)
    → All IsWrite (c ∷ b)
    → All (λ e. All (λ x. x.lsn < e.lsn) (c ∷ b)) cs
    → All (λ e. ltb (collect 0 (c ∷ b)).1 e.lsn ≡ true) cs
beyond c b [] h k = tt
beyond c b (e ∷ cs) h k = (
  lt→ltb (collect 0 (c ∷ b)).1 e.lsn (collect-lower 0 e.lsn (c ∷ b) h (omega arith) k.0),
  beyond c b cs h k.1,
)

-- Clearing by maxLSN removes exactly the batch, if LSNs grow strictly along the queue.
pub select-collect :
    (c : WalChange) (b rest : List WalChange)
    → All IsWrite (c ∷ b)
    → All (λ e. All (λ x. x.lsn < e.lsn) (c ∷ b)) rest
    → select (λ x. ltb (collect 0 (c ∷ b)).1 x.lsn) ((c ∷ b) ++ rest) ≡ rest
select-collect c b rest h k =
    let l = (collect 0 (c ∷ b)).1 in
    let above = λ (x : WalChange). ltb l x.lsn in
    select-append above (c ∷ b) rest
    ∙ rw (select-nothing above (c ∷ b) (covered l (c ∷ b) (collect-upper 0 (c ∷ b) h).1))
        (select-whole above rest (beyond c b rest h k))
