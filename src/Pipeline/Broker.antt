-- ===== src/Pipeline/Broker.antt =====
-- hw4/broker/main.go: the task broker. Times are nanoseconds of the monotonic clock; `uuid.New` is
-- an argument of `submit`.
pub mod Tasks
pub mod Progress
pub mod Scan
use cmsc.Prelude.{
  ℕ, zero, suc, ◌+◌, ◌-◌, ◌*◌, Bool, true, false, Option, none, some, List, [], ◌∷◌, ◌++◌, String,
  ◌==◌, string_eq, ltb, if◌then◌else◌,
}
use cmsc.Prelude.Table
use cmsc.Prelude.Table.{Table}

-- `TaskTimeout`
abbrev pub task_timeout : ℕ
task_timeout = 10000000000

pub record Task : Type 0 where
  pub id : String
  pub payload : String

pub record InFlightEntry : Type 0 where
  pub task : Task
  pub worker_id : String
  pub last_heartbeat : ℕ

pub record BrokerServer : Type 0 where
  pub pending : List Task
  pub inflight : Table String InFlightEntry
  pub errors : Table String String
  pub done : Table String Bool

-- `newBrokerServer`
unfoldable pub new : BrokerServer
new = record { pending = []; inflight = Table.empty; errors = Table.empty; done = Table.empty }

-- `Submit`, with the id that `uuid.New` drew
unfoldable pub submit : String → String → BrokerServer → BrokerServer × String
submit id payload s =
    (record s { pending = s.pending ++ record { id = id; payload = payload } ∷ [] }, id)

abbrev pub poll_from : List Task → String → ℕ → BrokerServer → BrokerServer × Option Task
poll_from [] worker now s = (s, none)
poll_from (task ∷ rest) worker now s = (
  record s {
    pending = rest;
    inflight =
        Table.put s.inflight task.id
          (record { task = task; worker_id = worker; last_heartbeat = now });
  },
  some task,
)

-- `Poll` by a worker at a time
unfoldable pub poll : String → ℕ → BrokerServer → BrokerServer × Option Task
poll worker now s = poll_from s.pending worker now s

-- `Complete`: the reply is always ok.
unfoldable pub complete : String → String → BrokerServer → BrokerServer
complete id error s = elim (Table.get s.inflight id) [
  | none ↦ s
  | some _ ↦ record s {
    inflight = Table.remove s.inflight id;
    done = Table.put s.done id true;
    errors = Table.put s.errors id error;
  }
]

-- Reading a missing key gives Go's zero value.
abbrev pub flag : Option Bool → Bool
flag none = false
flag (some b) = b

abbrev pub message : Option String → String
message none = ""
message (some e) = e

-- `GetResult`: done, and the error
unfoldable pub get_result : String → BrokerServer → Bool × String
get_result id s =
    if flag (Table.get s.done id) then (true, message (Table.get s.errors id)) else (false, "")

-- `Heartbeat` for a task at a time
unfoldable pub heartbeat : String → ℕ → BrokerServer → BrokerServer
heartbeat id now s = elim (Table.get s.inflight id) [
  | none ↦ s
  | some e ↦ record s { inflight = Table.put s.inflight id (record e { last_heartbeat = now }) }
]

-- One round of the scan in `reEnqueueStalled`, at a time: the entry of one key.
unfoldable pub reclaim : ℕ → String → BrokerServer → BrokerServer
reclaim now id s = elim (Table.get s.inflight id) [
  | none ↦ s
  | some e ↦
      if ltb task_timeout (now - e.last_heartbeat)
      then record s { pending = e.task ∷ s.pending; inflight = Table.remove s.inflight id }
      else s
]

-- The scan comes to a key at a time: `time.Since` reads the clock at each.
pub record Visit : Type 0 where
  pub id : String
  pub now : ℕ

-- A tick of `reEnqueueStalled`. Go walks the map in any order: `walk` has the visits in their order.
unfoldable pub re_enqueue_stalled : List Visit → BrokerServer → BrokerServer
unfolding reclaim
re_enqueue_stalled [] s = s
re_enqueue_stalled (v ∷ walk) s = re_enqueue_stalled walk (reclaim v.now v.id s)
