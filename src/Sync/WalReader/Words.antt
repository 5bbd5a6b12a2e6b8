-- ===== src/Sync/WalReader/Words.antt =====
-- wal_reader.go: big-endian words, and the layout of the status update.
use native.Mathlib.Nat.{pow-suc, mod-add-div, div-div-eq-div-mul}
use posduif.Common.{
  ℕ, zero, suc, ◌+◌, ◌*◌, ◌/◌, ◌%◌, ◌^◌, ◌<◌, ◌≡◌, refl, ap, ◌∙◌, sym, ◌++◌, List, [], ◌∷◌, arith,
  take, drop, length,
}
use posduif.Sync.WalReader.{read_be, put_be, create_standby_status_update, micros_since_2000}

-- A word over base 256, split at a digit.
split_word : (acc v p : ℕ) → (acc * 256 + v / p % 256) * p + v % p ≡ acc * (p * 256) + v % (p * 256)
split_word acc v p =
    let whole = mod-add-div v p in
    let cut = mod-add-div v (p * 256) in
    let twice = div-div-eq-div-mul v p 256 in
    let digit = ap (λ x. p * x) (mod-add-div (v / p) 256) in
    omega (arith, whole, cut, digit, ap (λ x. p * 256 * x) twice)

-- The bytes in front of a tail shift what was read so far and add the value.
read-put :
    (k acc v : ℕ) (tail : List ℕ)
    → read_be acc (put_be k v ++ tail) ≡ read_be (acc * 256 ^ k + v % 256 ^ k) tail
unfolding read_be put_be
read-put zero acc v tail = ap (λ n. read_be n tail) (omega arith)
read-put (suc k) acc v tail =
    read-put k (acc * 256 + v / 256 ^ k % 256) v tail
    ∙ ap (λ n. read_be n tail)
        (split_word acc v (256 ^ k) ∙ sym (ap (λ p. acc * p + v % p) (pow-suc 256 k)))

append_nil : (xs : List ℕ) → xs ++ [] ≡ xs
append_nil [] = refl
append_nil (x ∷ xs) = ap (λ t. x ∷ t) (append_nil xs)

-- A uint64 that was put is read back.
pub read-put_word : (v : ℕ) → v < 2 ^ 64 → read_be 0 (put_be 8 v) ≡ v
unfolding read_be
read-put_word v h = ap (read_be 0) (sym (append_nil (put_be 8 v))) ∙ read-put 8 0 v [] ∙ omega arith

abbrev lsn_lsn_time : ℕ → ℕ → List ℕ
lsn_lsn_time t lsn = b'r' ∷ (put_be 8 lsn ++ (put_be 8 lsn ++ put_be 8 (micros_since_2000 t)))

layout : (t lsn : ℕ) → create_standby_status_update t lsn ≡ lsn_lsn_time t lsn
unfolding create_standby_status_update put_be
layout t lsn = refl

micros_lt : (t : ℕ) → micros_since_2000 t < 2 ^ 64
unfolding micros_since_2000
micros_lt t = ground arith

-- The status update for a uint64 has 25 bytes: 'r', the LSN twice, and the microseconds since
-- 2000, which stand from byte 17 on, where the apply LSN was written first.
pub status_update_layout :
    (t lsn : ℕ)
    → lsn < 2 ^ 64
    → let buf = create_standby_status_update t lsn in
      (length buf ≡ 25)
      × (take 1 buf ≡ b'r' ∷ [])
      × (read_be 0 (take 8 (drop 1 buf)) ≡ lsn)
      × (read_be 0 (take 8 (drop 9 buf)) ≡ lsn)
      × (drop 17 buf ≡ put_be 8 (micros_since_2000 t))
      × (read_be 0 (drop 17 buf) ≡ micros_since_2000 t)
unfolding create_standby_status_update put_be
status_update_layout t lsn h =
    (refl, refl, read-put_word lsn h, read-put_word lsn h, refl, read-put_word _ (micros_lt t))
