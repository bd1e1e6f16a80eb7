-- ===== src/Kvraft/Command/RoundTrip.antt =====
-- hw3/server/main.go: what `decodeCommand` makes of an encoded command.
use mathlib.Core.List.{append_assoc}
use cmsc.Prelude.{◌≡◌, ◌≢◌, refl, none, some, [], ◌∷◌, ◌++◌, Text, codes, nat_eq, All, arith}
use cmsc.Kvraft.Command.{colon, encode_command, cut, decode_command}

-- No byte of the text is a colon.
abbrev pub ColonFree : Text → Type 0
ColonFree s = All (λ c. c ≢ colon) s

cut-colon : (a b : Text) → ColonFree a → cut (a ++ colon ∷ b) ≡ some (a, b)
unfolding cut
cut-colon [] b h = refl
cut-colon (c ∷ a) b h = ground (arith, h.0, cut-colon a b h.1)

cut-none : (a : Text) → ColonFree a → cut a ≡ none
unfolding cut
cut-none [] h = refl
cut-none (c ∷ a) h = ground (arith, h.0, cut-none a h.1)

put_op : (s : Text) → cut (codes "put:" ++ s) ≡ some (codes "put", s)
unfolding cut
put_op s = refl

decode-put :
    (s a b : Text) → cut s ≡ some (a, b) → decode_command (codes "put:" ++ s) ≡ (codes "put", a, b)
unfolding decode_command
decode-put s a b h = ground arith

regroup : (a b c : Text) → (a ++ colon ∷ b) ++ c ≡ a ++ colon ∷ (b ++ c)
regroup a b c = append_assoc a (colon ∷ b) c

-- A key without a colon and any value at all come back from the command that encodes them.
pub decode-encode :
    (key value : Text)
    → ColonFree key
    → decode_command (encode_command key value) ≡ (codes "put", key, value)
unfolding encode_command
decode-encode key value h = decode-put (key ++ colon ∷ value) key value (cut-colon key value h)

-- A key with a colon does not come back: of `a:b`, where `a` has no colon, the key that is decoded
-- is `a`, and `b`, a colon and the value make up the value.
pub decode-encode_colon :
    (a b value : Text)
    → ColonFree a
    → decode_command (encode_command (a ++ colon ∷ b) value) ≡ (codes "put", a, b ++ colon ∷ value)
unfolding encode_command
decode-encode_colon a b value h =
    decode-put ((a ++ colon ∷ b) ++ colon ∷ value) a (b ++ colon ∷ value)
      (rw (regroup a b (colon ∷ value)) (cut-colon a (b ++ colon ∷ value) h))

-- A command with no colon, such as the no-op of a new leader, decodes to nothing.
pub decode-ColonFree : (cmd : Text) → ColonFree cmd → decode_command cmd ≡ ([], [], [])
unfolding decode_command
decode-ColonFree cmd h = ground (arith, cut-none cmd h)
