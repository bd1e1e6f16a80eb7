-- ===== src/Kvstore/Clock/Order.antt =====
-- hw2/internal/clock/clock.go: the clock goes forward past what it had and what it receives.
use cmsc.Prelude.{◌-◌, ◌^◌, ◌≡◌, refl, ap, ◌∙◌, arith, if◌then◌else◌}
use cmsc.Prelude.Int.{ℤ, pos, negsuc, ltb_ℤ, ◌<ℤ◌, ◌≤ℤ◌, inc64, lt-inc64}
use cmsc.Kvstore.Clock.{LamportClock, tick, now, update}

-- The largest int64.
abbrev pub max_int64 : ℤ
max_int64 = pos (2 ^ 63 - 1)

-- Below the largest int64 a tick moves the clock forward, and it returns the new reading.
pub tick-lt :
    (c : LamportClock)
    → now c <ℤ max_int64
    → (now c <ℤ now (tick c).0) × ((tick c).1 ≡ now (tick c).0)
unfolding tick now
tick-lt c h = (lt-inc64 c.t h, refl)

-- Where neither the clock nor the stamp that comes in is the largest int64, the clock moves past
-- both, and it returns the new reading: a receipt is later than the send and all that was before.
pub update-lt :
    (received : ℤ) (c : LamportClock)
    → now c <ℤ max_int64
    → received <ℤ max_int64
    → (now c <ℤ now (update received c).0)
      × (received <ℤ now (update received c).0)
      × ((update received c).1 ≡ now (update received c).0)
unfolding update now
update-lt received c h k = ground (arith, lt-inc64 c.t h, lt-inc64 received k)

-- The least int64, -2^63.
abbrev pub min_int64 : ℤ
min_int64 = negsuc (2 ^ 63 - 1)

-- What the clock counts on from when the stamp is the largest int64.
reads_max : (a : ℤ) → a ≤ℤ max_int64 → (if ltb_ℤ a max_int64 then max_int64 else a) ≡ max_int64
reads_max (pos n) h = ground arith
reads_max (negsuc n) h = ground arith

-- The increment of the largest int64 is the least.
inc64-max : inc64 max_int64 ≡ min_int64
unfolding inc64
inc64-max = refl

-- A stamp that is the largest int64 wraps the clock around, whatever the clock read within an int64:
-- it then reads the least int64, -2^63, and returns that as its stamp, so it has gone back from any
-- clock that read more.
pub update_overflow :
    (c : LamportClock)
    → now c ≤ℤ max_int64
    → (now (update max_int64 c).0 ≡ min_int64)
      × ((update max_int64 c).1 ≡ min_int64)
      × (min_int64 <ℤ now c → now (update max_int64 c).0 <ℤ now c)
unfolding update now
update_overflow c h =
    let wraps : inc64 (if ltb_ℤ c.t max_int64 then max_int64 else c.t) ≡ min_int64 =
      ap inc64 (reads_max c.t h) ∙ inc64-max in
    (wraps, wraps, λ k. rw wraps k)
