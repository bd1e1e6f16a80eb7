-- ===== src/Tests/ProducerRun.antt =====
-- hw4/producer/main.go: three words in chunks of two.
use cmsc.Prelude.{◌≡◌, refl, none, some, List, [], ◌∷◌, String, All, arith, map}
use cmsc.Pipeline.Producer.{chunk_from, chunk_text}
use cmsc.Pipeline.Producer.Chunks.{joined, Fits, chunk_text-joined, chunk_from-endless}

abbrev three_words : List String
three_words = "a" ∷ "b" ∷ "c" ∷ []

abbrev first_word : List String → String
first_word [] = ""
first_word (w ∷ ws) = w

chunked : chunk_text (λ _. three_words) first_word "a b c" 2 ≡ some ("a" ∷ "c" ∷ [])
unfolding chunk_text chunk_from
chunked = refl

chunk_text-joined_example :
    (chunks : List (List String)) × (chunk_text (λ _. three_words) first_word "a b c" 2
      ≡ some (map first_word chunks))
    × (joined chunks ≡ three_words)
    × All (Fits 2) chunks
chunk_text-joined_example = chunk_text-joined (λ _. three_words) first_word "a b c" 2 (omega arith)

chunk_from-endless_example : chunk_from 5 0 0 three_words ≡ none
chunk_from-endless_example = chunk_from-endless 5 three_words (omega arith)
