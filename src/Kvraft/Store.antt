-- ===== src/Kvraft/Store.antt =====
-- hw3/internal/store/store.go: the key-value store of a node. Keys and values are bytes.
use cmsc.Prelude.{ℕ, Option, Text, bytes_eq}
use cmsc.Prelude.Table
use cmsc.Prelude.Table.{Table}

pub record Entry : Type 0 where
  pub value : Text

pub record Store : Type 0 where
  pub content : Table Text Entry

-- `New`
unfoldable pub new : Store
new = record { content = Table.empty }

-- `Put`
unfoldable pub put : Store → Text → Text → Store
put s key value = record { content = Table.put s.content key (record { value = value }) }

-- `Get`: the entry and true, or nothing.
unfoldable pub get : Store → Text → Option Entry
get s key = Table.get s.content key

-- `Snapshot`: a copy, which later writes to the store do not reach.
unfoldable pub snapshot : Store → Table Text Entry
snapshot s = s.content

-- `Len`
unfoldable pub len : Store → ℕ
len s = Table.size s.content
