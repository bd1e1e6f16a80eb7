-- ===== src/Tests/KvstoreRun.antt =====
-- hw2: the clock, a Put and an election at concrete inputs.
use cmsc.Prelude.{
  ℕ, ◌<◌, ◌≡◌, ◌≢◌, refl, inl, inr, true, false, not, some, List, [], ◌∷◌, Text, codes, arith,
}
use cmsc.Prelude.Int.{pos, ◌<ℤ◌}
use cmsc.Kvstore.Clock.{LamportClock, tick, update, now}
use cmsc.Kvstore.Clock.Order.{max_int64, min_int64, update-lt, update_overflow}
use cmsc.Kvstore.Node.{
  Node, candidate, new_node, ReplicateRequest, fan_out, put_begin, put_finish, get, replicate,
  accepts, claim,
}
use cmsc.Kvstore.Node.Election.{one_winner}
use cmsc.Kvstore.Node.Replication.{
  Exchange, put_request, outcomes, Finished, written, put_replicated, replicate_order,
}
use cmsc.Tests.Samples.{three}

abbrev clock5 : LamportClock
clock5 = record { t = pos 5 }

update-lt_example :
    (now clock5 <ℤ now (update (pos 9) clock5).0)
    × (pos 9 <ℤ now (update (pos 9) clock5).0)
    × ((update (pos 9) clock5).1 ≡ now (update (pos 9) clock5).0)
unfolding now
update-lt_example = update-lt (pos 9) clock5 (omega arith) (omega arith)

update_overflow_example :
    (now (update max_int64 clock5).0 ≡ min_int64)
    × ((update max_int64 clock5).1 ≡ min_int64)
    × (min_int64 <ℤ now clock5 → now (update max_int64 clock5).0 <ℤ now clock5)
unfolding now
update_overflow_example = update_overflow clock5 (omega arith)

abbrev primary0 : Node
primary0 = record (new_node 0 three) { peer_conns = 1 ∷ 2 ∷ [] }

-- One backup took the Put, and the call to the other failed.
abbrev half : List Exchange
half =
    record {
      peer = 1;
      before = new_node 1 three;
      after = (replicate (put_request (codes "k") (codes "v") primary0) (new_node 1 three)).0;
      returned = true;
    }
    ∷ record { peer = 2; before = new_node 2 three; after = new_node 2 three; returned = false }
    ∷ []

put_replicated_example :
    let req = put_request (codes "k") (codes "v") primary0 in
    (put_begin (codes "k") (codes "v") primary0
      ≡ (record primary0 { clk = (tick primary0.clk).0 }, fan_out req (1 ∷ 2 ∷ [])))
    × (primary0.clk.t <ℤ req.lamport_ts)
    × Finished req (1 ∷ 2 ∷ []) half primary0 (put_finish req (outcomes half) primary0)
unfolding new_node
put_replicated_example =
    put_replicated (codes "k") (codes "v") primary0 primary0 half refl (omega arith) refl
      (inl refl, (inr (refl, refl), tt))

abbrev write : ℕ → Text → ReplicateRequest
write t v = record { key = codes "k"; value = v; lamport_ts = pos t; origin_id = 0 }

replicate_order_example :
    (get
        (codes "k")
        (replicate (write 2 (codes "b")) (replicate (write 1 (codes "a")) (new_node 1 three)).0).0
      ≡ some (written (write 2 (codes "b"))))
    × (get
          (codes "k")
          (replicate (write 1 (codes "a")) (replicate (write 2 (codes "b")) (new_node 2 three)).0).0
        ≡ some (written (write 1 (codes "a"))))
    × (get
          (codes "k")
          (replicate (write 2 (codes "b")) (replicate (write 1 (codes "a")) (new_node 1 three)).0).0
        ≢ get
            (codes "k")
            (replicate
              (write 1 (codes "a"))
              (replicate (write 2 (codes "b")) (new_node 2 three)).0).0)
replicate_order_example =
    replicate_order (write 1 (codes "a")) (write 2 (codes "b")) (new_node 1 three)
      (new_node 2 three) (codes "k") refl refl (λ e. ground arith)

abbrev standing : ℕ → Node
standing i = record (new_node i three) { role = candidate; election_ts = pos 4; id = i }

one_winner_example :
    (accepts (claim (standing 1)) (standing 2) ≡ not (accepts (claim (standing 2)) (standing 1)))
    × (pos 4 <ℤ pos 4 → accepts (claim (standing 2)) (standing 1) ≡ true)
    × (pos 4 ≡ pos 4 → 1 < 2 → accepts (claim (standing 2)) (standing 1) ≡ true)
one_winner_example = one_winner (standing 1) (standing 2) refl refl (omega arith)
