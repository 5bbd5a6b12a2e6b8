-- ===== src/Config/Defaults.antt =====
-- config.go: the defaults are stable.
use posduif.Common.{ℕ, ◌<◌, String, false, ◌≡◌, refl, arith, List, [], ◌∷◌, ◌==◌}
use posduif.Config.{Config, or_number, or_text, or_list, with_defaults}

or_number_twice : (d n : ℕ) → 0 < d → or_number d (or_number d n) ≡ or_number d n
or_number_twice d n h = ground arith

or_number-lt : (d n : ℕ) → 0 < d → 0 < or_number d n
or_number-lt d n h = ground arith

or_list_twice :
    (d : String) (ds s : List String) → or_list (d ∷ ds) (or_list (d ∷ ds) s) ≡ or_list (d ∷ ds) s
or_list_twice d ds [] = refl
or_list_twice d ds (s ∷ strs) = refl

or_text_twice : (d s : String) → (d == "") ≡ false → or_text d (or_text d s) ≡ or_text d s
or_text_twice d s h = ground arith

-- A configuration with its defaults has no port, size or expiry that is 0, and setting the defaults
-- once more changes nothing.
pub with_defaults_complete :
    (c : Config)
    → let d = with_defaults c in
      (with_defaults d ≡ d)
      × (0 < d.postgres_port)
      × (0 < d.postgres_max_connections)
      × (0 < d.redis_port)
      × (0 < d.sse_port)
      × (0 < d.sync_batch_size)
      × (0 < d.wal_batch_size)
      × (0 < d.jwt_expiration)
unfolding with_defaults
with_defaults_complete c = (
  rw
      (
        or_number_twice 5432 c.postgres_port (omega arith),
        or_number_twice 25 c.postgres_max_connections (omega arith),
        or_number_twice 6379 c.redis_port (omega arith),
        or_number_twice 8080 c.sse_port (omega arith),
        or_number_twice 100 c.sync_batch_size (omega arith),
        or_number_twice 100 c.wal_batch_size (omega arith),
        or_number_twice 3600 c.jwt_expiration (omega arith),
        or_text_twice "1s" c.wal_read_interval refl,
        or_list_twice "GET" ("POST" ∷ "PUT" ∷ "DELETE" ∷ "OPTIONS" ∷ []) c.allowed_methods,
        or_list_twice "Content-Type" ("Authorization" ∷ "X-Device-ID" ∷ []) c.allowed_headers,
      )
      refl,
  or_number-lt 5432 c.postgres_port (omega arith),
  or_number-lt 25 c.postgres_max_connections (omega arith),
  or_number-lt 6379 c.redis_port (omega arith),
  or_number-lt 8080 c.sse_port (omega arith),
  or_number-lt 100 c.sync_batch_size (omega arith),
  or_number-lt 100 c.wal_batch_size (omega arith),
  or_number-lt 3600 c.jwt_expiration (omega arith),
)
