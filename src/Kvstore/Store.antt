-- ===== src/Kvstore/Store.antt =====
-- hw2/internal/store/store.go: the store of a node, where an entry has the stamp of its write.
use cmsc.Prelude.{ℕ, Option, Text, bytes_eq}
use cmsc.Prelude.Int.{ℤ}
use cmsc.Prelude.Table
use cmsc.Prelude.Table.{Table}

pub record Entry : Type 0 where
  pub value : Text
  pub ts : ℤ

pub record Store : Type 0 where
  pub content : Table Text Entry

-- `New`
unfoldable pub new : Store
new = record { content = Table.empty }

-- `Put` overwrites whatever stands there, whatever its stamp.
unfoldable pub put : Store → Text → Text → ℤ → Store
put s key value ts = record {
  content = Table.put s.content key (record { value = value; ts = ts });
}

-- `Get`: the entry and true, or nothing.
unfoldable pub get : Store → Text → Option Entry
get s key = Table.get s.content key

-- `Snapshot`: a copy, which later writes to the store do not reach.
unfoldable pub snapshot : Store → Table Text Entry
snapshot s = s.content

-- `Len`
unfoldable pub len : Store → ℕ
len s = Table.size s.content
