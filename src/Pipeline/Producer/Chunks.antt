-- ===== src/Pipeline/Producer/Chunks.antt =====
-- hw4/producer/main.go: the chunks of a text are its words, in order, cut at the given size.

use cmsc.Prelude.{
  ℕ, zero, suc, ◌+◌, ◌-◌, ◌≤◌, ◌<◌, ◌≡◌, refl, sym, ap, ◌∙◌, inl, inr, none, some, List, [], ◌∷◌,
  ◌++◌, String, ltb, if◌then◌else◌, length, map, take, drop, length-take, length-drop,
  take-append-drop, All, Bool-cases, arith,
}
use cmsc.Pipeline.Producer.{chunk_from, chunk_text}

-- The words of chunks, one chunk after the other.
unfoldable pub joined : List (List String) → List String
joined [] = []
joined (chunk ∷ chunks) = chunk ++ joined chunks

-- No chunk is empty or larger than the size.
abbrev pub Fits : ℕ → List String → Type 0
Fits max_words chunk = (0 < length chunk) × (length chunk ≤ max_words)

drop_past : (n : ℕ) (xs : List String) → length xs ≤ n → drop n xs ≡ []
drop_past zero [] h = refl
drop_past zero (x ∷ xs) h = absurd (omega arith)
drop_past (suc n) [] h = refl
drop_past (suc n) (x ∷ xs) h = drop_past n xs (omega arith)

drop-drop : (n m : ℕ) (xs : List String) → drop n (drop m xs) ≡ drop (m + n) xs
drop-drop n zero xs = let e : zero + n ≡ n = omega arith in ap (λ (k : ℕ). drop k xs) (sym e)
drop-drop zero (suc m) [] = sym (drop_past (suc m + zero) [] (omega arith))
drop-drop (suc n) (suc m) [] = sym (drop_past (suc m + suc n) [] (omega arith))
drop-drop n (suc m) (x ∷ xs) =
    let e : suc m + n ≡ suc (m + n) = omega arith in
    drop-drop n m xs ∙ ap (λ (k : ℕ). drop k (x ∷ xs)) (sym e)

-- The end of a round's chunk: `min(i+maxWords, len(words))`.
abbrev end : ℕ → ℕ → List String → ℕ
end i max_words words = if ltb (length words) (i + max_words) then length words else i + max_words

rest_of_round :
    (i max_words : ℕ) (words : List String)
    → i < length words
    → drop (end i max_words words - i) (drop i words) ≡ drop (i + max_words) words
rest_of_round i max_words words lt =
    drop-drop (end i max_words words - i) i words
    ∙ elim (Bool-cases (ltb (length words) (i + max_words))) [
      | inl last ↦
          drop_past (i + (end i max_words words - i)) words (ground (arith, last, lt))
          ∙ sym (drop_past (i + max_words) words (ground (arith, last)))
      | inr inner ↦
          let e : i + (end i max_words words - i) ≡ i + max_words = ground (arith, inner) in
          ap (λ (k : ℕ). drop k words) e
    ]

round-Fits :
    (i max_words : ℕ) (words : List String)
    → 0 < max_words
    → i < length words
    → Fits max_words (take (end i max_words words - i) (drop i words))
round-Fits i max_words words pos lt =
    let size = length-take (end i max_words words - i) (drop i words) in
    let left = length-drop i words in
    elim (Bool-cases (ltb (length words) (i + max_words))) [
      | inl last ↦ (ground (arith, last, size, left, pos, lt), ground (arith, last, size, left))
      | inr inner ↦ (ground (arith, inner, size, left, pos, lt), ground (arith, inner, size, left))
    ]

-- With a size of at least 1 and as much fuel as there are words left, the loop of `chunkText` from
-- a word on ends, and its chunks are the rest of the words in order, none of them empty or larger
-- than the size.
pub chunk_from-joined :
    (fuel i max_words : ℕ) (words : List String)
    → 0 < max_words
    → length words - i ≤ fuel
    → (chunks : List (List String)) × (chunk_from fuel i max_words words ≡ some chunks)
      × (joined chunks ≡ drop i words)
      × All (Fits max_words) chunks
unfolding chunk_from joined
chunk_from-joined zero i max_words words pos enough =
    let past : length words ≤ i = omega arith in
    ([], ground (arith, past), sym (drop_past i words past), tt)
chunk_from-joined (suc fuel) i max_words words pos enough =
    elim (Bool-cases (ltb i (length words))) [
      | inr done ↦ ([], ground (arith, done), sym (drop_past i words (ground (arith, done))), tt)
      | inl more ↦
          let lt : i < length words = ground (arith, more) in
          let (chunks, run, all, fit) =
            chunk_from-joined fuel (i + max_words) max_words words pos
              (omega (arith, pos, enough)) in
          (
            take (end i max_words words - i) (drop i words) ∷ chunks,
            ground (arith, more, run),
            ap (λ (l : List String). take (end i max_words words - i) (drop i words) ++ l)
                  (all ∙ sym (rest_of_round i max_words words lt))
                ∙ take-append-drop (end i max_words words - i) (drop i words),
            (round-Fits i max_words words pos lt, fit),
          )
    ]

-- With a size of at least 1, `chunkText` ends, and returns the words of the text in order, joined in
-- chunks none of which is empty or larger than the size.
pub chunk_text-joined :
    (fields : String → List String) (join : List String → String) (text : String) (max_words : ℕ)
    → 0 < max_words
    → (chunks : List (List String)) × (chunk_text fields join text max_words
        ≡ some (map join chunks))
      × (joined chunks ≡ fields text)
      × All (Fits max_words) chunks
unfolding chunk_text
chunk_text-joined fields join text max_words pos =
    let (chunks, run, all, fit) =
      chunk_from-joined (length (fields text)) 0 max_words (fields text) pos (omega arith) in
    (chunks, ground (arith, run), all, fit)

-- With a size of 0 and a word in the text, the loop of `chunkText` is not done after any number of
-- rounds.
pub chunk_from-endless :
    (fuel : ℕ) (words : List String) → 0 < length words → chunk_from fuel 0 0 words ≡ none
unfolding chunk_from
chunk_from-endless zero words some_word = ground (arith, some_word)
chunk_from-endless (suc fuel) words some_word =
    ground (arith, some_word, chunk_from-endless fuel words some_word)
