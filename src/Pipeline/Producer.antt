-- ===== src/Pipeline/Producer.antt =====
-- hw4/producer/main.go: an article becomes chunks, and each chunk a task of the broker.
pub mod Chunks
use cmsc.Prelude.{
  ℕ, zero, suc, ◌+◌, ◌-◌, Option, none, some, List, [], ◌∷◌, ◌++◌, String, Bool, true, false, ltb,
  if◌then◌else◌, length, take, drop, map,
}
use cmsc.Pipeline.Broker
use cmsc.Pipeline.Broker.{BrokerServer}

-- The loop of `chunkText` from word `i` on, with fuel for its rounds; `none` is a loop that goes on.
-- A chunk is the words that `strings.Join` puts together.
unfoldable pub chunk_from : ℕ → ℕ → ℕ → List String → Option (List (List String))
chunk_from zero i max_words words = if ltb i (length words) then none else some []
chunk_from (suc fuel) i max_words words =
    let end = if ltb (length words) (i + max_words) then length words else i + max_words in
    let rest = chunk_from fuel (i + max_words) max_words words in
    if ltb i (length words)
    then elim rest [ none ↦ none | some chunks ↦ some (take (end - i) (drop i words) ∷ chunks) ]
    else some []

-- `chunkText`, with `strings.FieldsFunc` and `strings.Join` as arguments. Where a word is taken in
-- each round, as many rounds as words are enough.
unfoldable pub chunk_text :
    (String → List String) → (List String → String) → String → ℕ → Option (List String)
chunk_text fields join text max_words =
    elim (chunk_from (length (fields text)) 0 max_words (fields text)) [
      | none ↦ none
      | some chunks ↦ some (map join chunks)
    ]
