-- ===== src/Raft/Log/WellFormed.antt =====
-- hw3/internal/log/log.go: the shape of the log, which every operation keeps, and what `At` reads.

use cmsc.Prelude.{
  ◌⊎◌, inl, inr, ℕ, zero, suc, ◌+◌, ◌<◌, ◌≡◌, refl, ◌&&◌, not, none, some, List, [], ◌∷◌, ◌++◌, ok,
  leb, ◌==◌, nat_eq, if◌then◌else◌, length, get_elem?, take, arith, length-append, length-take,
  get_elem?-none, get_elem?-take, get_elem?-append_left, get_elem?-append_last,
}
use cmsc.Raft.Log.{Log, LogEntry, new, last_index, append, at, truncate}

-- The entries carry their positions, counted from `k`.
abbrev pub IsIndexed : ℕ → List LogEntry → Type 0
IsIndexed k [] = Unit
IsIndexed k (e ∷ es) = (e.index ≡ k) × IsIndexed (suc k) es

-- The sentinel stands at 0 and each entry at its own index.
pub record IsWf (l : Log) : Type 0 where
  pub indexed : IsIndexed 0 l.entries
  pub nonempty : 0 < length l.entries

IsIndexed-append_last :
    (k : ℕ) (xs : List LogEntry) (e : LogEntry)
    → IsIndexed k xs
    → e.index ≡ k + length xs
    → IsIndexed k (xs ++ e ∷ [])
IsIndexed-append_last k [] e h p = (omega arith, tt)
IsIndexed-append_last k (x ∷ xs) e h p = (h.0, IsIndexed-append_last (suc k) xs e h.1 (omega arith))

IsIndexed-take : (n k : ℕ) (xs : List LogEntry) → IsIndexed k xs → IsIndexed k (take n xs)
IsIndexed-take zero k xs h = tt
IsIndexed-take (suc n) k [] h = tt
IsIndexed-take (suc n) k (x ∷ xs) h = (h.0, IsIndexed-take n (suc k) xs h.1)

pub index-get_elem? :
    (k : ℕ) (xs : List LogEntry) (i : ℕ) {e : LogEntry}
    → IsIndexed k xs
    → get_elem? xs i ≡ some e
    → e.index ≡ k + i
index-get_elem? k [] i h p = absurd (ground arith)
index-get_elem? k (x ∷ xs) zero h p = ground arith
index-get_elem? k (x ∷ xs) (suc i) h p = omega (arith, index-get_elem? (suc k) xs i h.1 p)

pub new-IsWf : IsWf new
unfolding new
new-IsWf = record { indexed = (refl, tt); nonempty = omega arith }

-- What `Append` does when it does not panic.
pub append_eq :
    (l : Log) (e : LogEntry)
    → e.index ≡ last_index l + 1
    → append l e ≡ ok (record { entries = l.entries ++ e ∷ [] })
unfolding append
append_eq l e h = ground arith

pub append_inv :
    (l : Log) (e : LogEntry) {l' : Log}
    → append l e ≡ ok l'
    → (e.index ≡ last_index l + 1) × (l' ≡ record { entries = l.entries ++ e ∷ [] })
unfolding append
append_inv l e h = ground arith

append_entries-IsWf :
    (l : Log) (e : LogEntry)
    → IsWf l
    → e.index ≡ last_index l + 1
    → IsWf (record { entries = l.entries ++ e ∷ [] })
unfolding last_index
append_entries-IsWf l e w p = record {
  indexed = IsIndexed-append_last 0 l.entries e w.indexed (omega (arith, w.nonempty));
  nonempty = omega (arith, length-append l.entries (e ∷ []));
}

pub append-IsWf : (l : Log) (e : LogEntry) {l' : Log} → IsWf l → append l e ≡ ok l' → IsWf l'
append-IsWf l e w h = let (p, q) = append_inv l e h in rw q (append_entries-IsWf l e w p)

pub truncate-cases :
    (l : Log) (from : ℕ)
    → (truncate l from ≡ l)
      ⊎ ((0 < from)
          × (from < length l.entries)
          × (truncate l from ≡ record { entries = take from l.entries }))
unfolding truncate
truncate-cases l from = ground arith

pub truncate-IsWf : (l : Log) (from : ℕ) → IsWf l → IsWf (truncate l from)
truncate-IsWf l from w = elim (truncate-cases l from) [
  | inl e ↦ rw e w
  | inr (pos, lt, e) ↦ rw e (record {
    indexed = IsIndexed-take from 0 l.entries w.indexed;
    nonempty = omega (arith, length-take from l.entries, w.nonempty);
  })
]

-- An appended entry is read back at the new last index, and every other index reads as before.
pub at-append :
    (l : Log) (e : LogEntry) {l' : Log} (i : ℕ)
    → IsWf l
    → append l e ≡ ok l'
    → at l' i ≡ (if i == e.index then some e else at l i)
unfolding at last_index
at-append l e i w h =
    let (p, q) = append_inv l e h in
    rw q (
      ground (
        arith,
        w.nonempty,
        length-append l.entries (e ∷ []),
        get_elem?-append_last l.entries e,
        get_elem?-append_left l.entries (e ∷ []) i,
      ))

-- After a truncation in range nothing is read from that index on, and below it all is as before.
pub at-truncate :
    (l : Log) (from i : ℕ)
    → at (truncate l from) i ≡ (if not (from == 0) && leb from i then none else at l i)
unfolding at truncate
at-truncate l from i =
    ground (
      arith,
      length-take from l.entries,
      get_elem?-take from i l.entries,
      get_elem?-none l.entries i,
    )
