-- ===== src/Pipeline/Hash.antt =====
-- hw4/worker/main.go: `fnv64` and `chunkIDToUUID`, by big integers modulo 2^64.
use Prim.Native.Nat.{bit_xor}
use cmsc.Prelude.{ℕ, ◌*◌, ◌%◌, ◌^◌, [], ◌∷◌, Text}

abbrev pub prime : ℕ
prime = 1099511628211

abbrev pub offset : ℕ
offset = 14695981039346656037

-- One round: `h.Xor`, `h.Mul`, `h.Mod`.
unfoldable pub mix : ℕ → ℕ → ℕ
mix h c = bit_xor h c * prime % 2 ^ 64

-- The loop over the bytes.
unfoldable pub fnv_from : ℕ → Text → ℕ
unfolding mix
fnv_from h [] = h
fnv_from h (c ∷ s) = fnv_from (mix h c) s

unfoldable pub fnv64 : Text → ℕ
unfolding fnv_from
fnv64 s = fnv_from offset s

-- `PointId_Num`
unfoldable pub chunk_id_to_uuid : Text → ℕ
unfolding fnv64
chunk_id_to_uuid chunk_id = fnv64 chunk_id
