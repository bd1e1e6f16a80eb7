-- ===== src/Kvraft/Command.antt =====
-- hw3/server/main.go: `encodeCommand` and `decodeCommand`, over the bytes of a command.
pub mod RoundTrip
use cmsc.Prelude.{
  ℕ, zero, suc, Option, none, some, List, [], ◌∷◌, ◌++◌, Text, codes, ◌==◌, nat_eq, if◌then◌else◌,
}

abbrev pub colon : ℕ
colon = b':'

-- `fmt.Sprintf("put:%s:%s", key, value)`
unfoldable pub encode_command : Text → Text → Text
encode_command key value = codes "put:" ++ (key ++ (colon ∷ value))

abbrev pub prepend : ℕ → Option (Text × Text) → Option (Text × Text)
prepend c none = none
prepend c (some (a, b)) = some (c ∷ a, b)

-- The text before and behind the first colon.
unfoldable pub cut : Text → Option (Text × Text)
cut [] = none
cut (c ∷ s) = let rest = cut s in if c == colon then some ([], s) else prepend c rest

-- `strings.SplitN(s, ":", n)`
unfoldable pub split_n : ℕ → Text → List Text
unfolding cut
split_n zero s = []
split_n (suc zero) s = s ∷ []
split_n (suc (suc n)) s = elim (cut s) [ none ↦ s ∷ [] | some (a, b) ↦ a ∷ split_n (suc n) b ]

abbrev pub Command : Type 0
Command = Text × Text × Text

-- The tests on `len(parts)`.
abbrev pub of_parts : List Text → Command
of_parts [] = ([], [], [])
of_parts (a ∷ []) = ([], [], [])
of_parts (a ∷ b ∷ []) = (a, b, [])
of_parts (a ∷ b ∷ c ∷ []) = (a, b, c)
of_parts (a ∷ b ∷ c ∷ d ∷ rest) = (a, b, [])

-- (op, key, value)
unfoldable pub decode_command : Text → Command
unfolding split_n
decode_command cmd = of_parts (split_n 3 cmd)
