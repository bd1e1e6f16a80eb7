-- ===== src/Kvstore/Clock.antt =====
-- hw2/internal/clock/clock.go: the Lamport clock, an int64 that wraps around.
pub mod Order
use cmsc.Prelude.{if◌then◌else◌}
use cmsc.Prelude.Int.{ℤ, pos, ltb_ℤ, inc64}

pub record LamportClock : Type 0 where
  pub t : ℤ

-- `New`
unfoldable pub new : LamportClock
new = record { t = pos 0 }

-- `Tick`: the clock and the value that it returns.
unfoldable pub tick : LamportClock → LamportClock × ℤ
unfolding inc64
tick c = (record { t = inc64 c.t }, inc64 c.t)

-- `Now`
unfoldable pub now : LamportClock → ℤ
now c = c.t

-- `Update`
unfoldable pub update : ℤ → LamportClock → LamportClock × ℤ
unfolding inc64
update received c =
    let t = if ltb_ℤ c.t received then received else c.t in (record { t = inc64 t }, inc64 t)
