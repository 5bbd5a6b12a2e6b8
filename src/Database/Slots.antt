-- ===== src/Database/Slots.antt =====
-- sync-engine/internal/database/replication.go: the name of a tenant's replication slot. The
-- name of a database is ASCII, so that its bytes are its characters.
pub mod Names
pub mod Server
use Prim.Native.Char.{Char}
use Prim.Native.String.{[], ◌∷◌}
use posduif.Common.{ℕ, zero, suc, code, String, nat_eq, ltb, if◌then◌else◌}
use posduif.Common.Text.{text_length}

-- strings.ReplaceAll(s, "-", "_")
unfoldable pub underscored : String → String
underscored [] = []
underscored (c ∷ s) = if nat_eq (code c) b'-' then "_" ∷ underscored s else c ∷ underscored s

-- s + t
unfoldable pub append : String → String → String
append [] t = t
append (c ∷ s) t = c ∷ append s t

-- s[:n]
unfoldable pub prefix : ℕ → String → String
prefix zero s = []
prefix (suc n) [] = []
prefix (suc n) (c ∷ s) = c ∷ prefix n s

-- GetSlotName
unfoldable pub slot_name : String → String
slot_name db =
    let name = append "posduif_sync_" (underscored db) in
    if ltb 63 (text_length name) then prefix 63 name else name
