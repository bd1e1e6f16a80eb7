-- ===== src/Tests/KvraftRun.antt =====
-- hw3/server/main.go: commands, replay and waiters at concrete inputs.
use cmsc.Prelude.{true, ℕ, ◌≡◌, refl, none, some, List, [], ◌∷◌, ◌++◌, map, codes, arith, nat_eq}
use cmsc.Prelude.Table.{get-empty}
use cmsc.Raft.Node.{ApplyMsg}
use cmsc.Kvraft.Store
use cmsc.Kvraft.Store.{Entry}
use cmsc.Kvraft.Command.{colon, encode_command, decode_command}
use cmsc.Kvraft.Command.RoundTrip.{decode-encode, decode-encode_colon}
use cmsc.Kvraft.Server.{
  Server, new_server, waiting, put_ok, deadline_exceeded, get, put_timeout, put_register, put_wake,
  apply, apply_all,
}
use cmsc.Kvraft.Server.Replay.{noop, put, Committed, msg_of, last_put, apply_all-last_put}
use cmsc.Kvraft.Server.Waiters.{PendingFits, put_answered}
use cmsc.Kvraft.Server.Race.{put_msg, late_put_waits}
use cmsc.Tests.Samples.{three}

decode-encode_example :
    decode_command (encode_command (codes "k") (codes "a:b"))
    ≡ (codes "put", codes "k", codes "a:b")
decode-encode_example = decode-encode (codes "k") (codes "a:b") (omega arith)

decode-encode_colon_example :
    decode_command (encode_command (codes "a" ++ colon ∷ codes "b") (codes "v"))
    ≡ (codes "put", codes "a", codes "b" ++ colon ∷ codes "v")
decode-encode_colon_example = decode-encode_colon (codes "a") (codes "b") (codes "v") (omega arith)

abbrev node0 : Server
node0 = new_server 0 three

abbrev committed : List Committed
committed =
    record { index = 1; term = 1; op = noop }
    ∷ record { index = 2; term = 1; op = put (codes "k") (codes "a:b") }
    ∷ record { index = 3; term = 1; op = put (codes "k") (codes "c") }
    ∷ []

apply_all-last_put_example :
    Store.get (apply_all (map msg_of committed) node0).st (codes "k")
    ≡ last_put
        (codes "k")
        (map (λ (c : Committed). c.op) committed)
        (Store.get node0.st (codes "k"))
apply_all-last_put_example = apply_all-last_put committed node0 (codes "k") (omega arith)

last_value :
    last_put (codes "k") (map (λ (c : Committed). c.op) committed) none
    ≡ some (record { value = codes "c" })
unfolding last_put
last_value = refl

node0-PendingFits : PendingFits node0
unfolding new_server
node0-PendingFits index pp h = ground (arith, get-empty {V = ℕ} index)

abbrev message : ℕ → ApplyMsg
message i = record { index = i; term = 1; command = codes "noop" }

put_answered_example :
    (put_wake (put_register 2 1 node0).1 1 (apply_all (message 1 ∷ []) (put_register 2 1 node0).0)
      ≡ waiting)
    × (put_wake
          (put_register 2 1 node0).1
          1
          (apply (message 2) (apply_all (message 1 ∷ []) (put_register 2 1 node0).0))
        ≡ put_ok)
put_answered_example =
    put_answered 2 1 node0 (message 1 ∷ []) (message 2) node0-PendingFits (omega arith) refl

late_put_waits_example :
    let msg = put_msg 1 1 (codes "k") (codes "v") in
    let early = put_register 1 1 node0 in
    let late = put_register 1 1 (apply msg node0) in
    (get (codes "k") (apply msg early.0) ≡ (true, codes "v"))
    × (put_wake early.1 1 (apply msg early.0) ≡ put_ok)
    × (get (codes "k") late.0 ≡ (true, codes "v"))
    × (put_wake late.1 1 (apply_all (message 2 ∷ []) late.0) ≡ waiting)
    × ((put_timeout 1 (apply_all (message 2 ∷ []) late.0)).1 ≡ deadline_exceeded)
late_put_waits_example =
    late_put_waits 1 1 (codes "k") (codes "v") node0 (message 2 ∷ []) (omega arith)
      node0-PendingFits (omega arith)
