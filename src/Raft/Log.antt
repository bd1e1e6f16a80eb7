-- ===== src/Raft/Log.antt =====
-- hw3/internal/log/log.go: the 1-indexed log of a Raft node. An int64 index or term is a natural.
pub mod WellFormed
use cmsc.Prelude.{
  ℕ, zero, suc, ◌+◌, ◌-◌, ◌≡◌, refl, Bool, true, false, ◌||◌, Option, none, some, List, [], ◌∷◌,
  ◌++◌, Text, Outcome, ok, panic, leb, ltb, ◌==◌, nat_eq, if◌then◌else◌, length, get_elem?, take,
  drop,
}

pub record LogEntry : Type 0 where
  pub index : ℕ
  pub term : ℕ
  pub command : Text

-- `entries[0]` is the sentinel.
pub record Log : Type 0 where
  pub entries : List LogEntry

-- `LogEntry{}`, Go's zero value
abbrev pub sentinel : LogEntry
sentinel = record { index = 0; term = 0; command = [] }

-- `New`
unfoldable pub new : Log
new = record { entries = sentinel ∷ [] }

-- `LastIndex`; the slice is never empty, so the truncated subtraction is exact.
unfoldable pub last_index : Log → ℕ
last_index l = length l.entries - 1

-- `Append` panics on an entry whose index is not the next one.
unfoldable pub append : Log → LogEntry → Outcome Log
unfolding last_index
append l entry =
    if entry.index == last_index l + 1
    then ok (record { entries = l.entries ++ entry ∷ [] })
    else panic

-- `At`: the entry and true, or nothing.
unfoldable pub at : Log → ℕ → Option LogEntry
at l index = if index == 0 || leb (length l.entries) index then none else get_elem? l.entries index

-- `LastTerm`: `l.entries[len(l.entries)-1].Term`, which panics on an empty slice.
unfoldable pub last_term : Log → Outcome ℕ
last_term l = elim (get_elem? l.entries (length l.entries - 1)) [
  | none ↦ panic
  | some e ↦ ok e.term
]

-- `Truncate` drops the entries from an index on, and does nothing out of range.
unfoldable pub truncate : Log → ℕ → Log
truncate l from =
    if from == 0 || leb (length l.entries) from then l else record { entries = take from l.entries }

-- `Entries`: the half-open range, clamped to the log.
unfoldable pub range : Log → ℕ → ℕ → List LogEntry
range l from to =
    let n = length l.entries in
    let first : ℕ = if from == 0 then 1 else from in
    let past : ℕ = if ltb n to then n else to in
    if leb past first then [] else take (past - first) (drop first l.entries)

-- `Len`
unfoldable pub len : Log → ℕ
len l = length l.entries - 1
