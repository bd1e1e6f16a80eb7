-- ===== src/Kvstore/Node/Replication.antt =====
-- hw2/server/main.go: a Put reaches every backup before it is acknowledged, and the order in which
-- writes arrive decides what a backup holds.
use cmsc.Prelude.{
  ℕ, zero, suc, sym, ◌≡◌, ◌≢◌, refl, ◌⊎◌, inl, inr, [], ◌∷◌, All, get_elem?, Bool-cases, Bool, true,
  false, some, List, Text, ◌==◌, bytes_eq, bytes_beq_iff, if◌then◌else◌, arith,
}
use cmsc.Prelude.Int.{◌<ℤ◌}
use cmsc.Prelude.Table.{get-put}
use cmsc.Kvstore.Clock
use cmsc.Kvstore.Clock.{LamportClock}
use cmsc.Kvstore.Clock.Order.{max_int64, tick-lt}
use cmsc.Kvstore.Store
use cmsc.Kvstore.Store.{Store, Entry}
use cmsc.Kvstore.Node.{
  Node, primary, ReplicateRequest, fan_out, put_begin, PutReply, put_ok, unavailable, put_finish,
  get, replicate, all_ok,
}

abbrev pub written : ReplicateRequest → Entry
written req = record { value = req.value; ts = req.lamport_ts }

-- What a node holds for a key after a write that was forwarded to it.
get-replicate :
    (req : ReplicateRequest) (n : Node) (key : Text)
    → get key (replicate req n).0 ≡ (if req.key == key then some (written req) else get key n)
unfolding get replicate Store.get
get-replicate req n key = get-put n.store.content req.key key (written req)

get-replicate_self :
    (req : ReplicateRequest) (n : Node) → get req.key (replicate req n).0 ≡ some (written req)
get-replicate_self req n =
    ground (arith, get-replicate req n req.key, bytes_beq_iff req.key req.key)

-- The request of a Put: the pair, the next stamp of the primary's clock, and its id.
abbrev pub put_request : Text → Text → Node → ReplicateRequest
put_request key value n = record {
  key = key;
  value = value;
  lamport_ts = (Clock.tick n.clk).1;
  origin_id = n.id;
}

put_begin-primary :
    (key value : Text) (n : Node)
    → n.role ≡ primary
    → put_begin key value n
      ≡ (record n { clk = (Clock.tick n.clk).0 }, fan_out (put_request key value n) n.peer_conns)
unfolding put_begin
put_begin-primary key value n h = ground arith

-- One call of `Replicate`: the peer, its node before and after it, and whether the call returned
-- without an error.
pub record Exchange : Type 0 where
  pub peer : ℕ
  pub before : Node
  pub after : Node
  pub returned : Bool

-- The backup took the request, or the call failed and it did not; a failed call may be either.
abbrev pub Exchanged : ReplicateRequest → Exchange → Type 0
Exchanged req x =
    (x.after ≡ (replicate req x.before).0) ⊎ ((x.returned ≡ false) × (x.after ≡ x.before))

abbrev pub Returned : Exchange → Type 0
Returned x = x.returned ≡ true

abbrev pub Holds : ReplicateRequest → Exchange → Type 0
Holds req x = get req.key x.after ≡ some (written req)

-- What `wg.Wait()` has collected
abbrev pub outcomes : List Exchange → List Bool
outcomes [] = []
outcomes (x ∷ xs) = x.returned ∷ outcomes xs

-- The peers that were called
abbrev pub called : List Exchange → List ℕ
called [] = []
called (x ∷ xs) = x.peer ∷ called xs

-- The peer at each position was called, and its node holds the value.
abbrev pub Replicated : ReplicateRequest → List ℕ → List Exchange → Type 0
Replicated req peers calls =
    (i p : ℕ)
    → get_elem? peers i ≡ some p
    → (x : Exchange) × (get_elem? calls i ≡ some x) × (x.peer ≡ p) × Holds req x

-- How a Put to the peers ends on the primary `m`.
pub data Finished (req : ReplicateRequest) (peers : List ℕ) (calls : List Exchange) (m : Node)
    (out : Node × PutReply) : Type 0 where
  acknowledged :
      All Returned calls
      → Replicated req peers calls
      → out.1 ≡ put_ok req.lamport_ts
      → get req.key out.0 ≡ some (written req)
      → ((other : Text) → (req.key == other) ≡ false → get other out.0 ≡ get other m)
      → Finished req peers calls m out
  failed :
      (k : ℕ) (x : Exchange)
      → get_elem? calls k ≡ some x
      → x.returned ≡ false
      → out.1 ≡ unavailable
      → out.0 ≡ m
      → Finished req peers calls m out

-- The Boolean test sees each failure.
all_ok-cases :
    (calls : List Exchange)
    → (All Returned calls × (all_ok (outcomes calls) ≡ true))
      ⊎ ((k : ℕ) × (x : Exchange) × (get_elem? calls k ≡ some x)
          × (x.returned ≡ false)
          × (all_ok (outcomes calls) ≡ false))
all_ok-cases [] = inl (tt, refl)
all_ok-cases (c ∷ calls) = elim (Bool-cases c.returned) [
  | inr bad ↦ inr (0, c, refl, bad, ground (arith, bad))
  | inl good ↦ elim (all_ok-cases calls) [
    | inl (all, e) ↦ inl ((good, all), ground (arith, good, e))
    | inr (k, x, there, bad, e) ↦ inr (suc k, x, there, bad, ground (arith, good, e))
  ]
]

Returned-Holds :
    (req : ReplicateRequest) (calls : List Exchange)
    → All (Exchanged req) calls
    → All Returned calls
    → All (Holds req) calls
Returned-Holds req [] xs rs = tt
Returned-Holds req (c ∷ calls) (inl took, xs) (r, rs) =
    (rw took (get-replicate_self req c.before), Returned-Holds req calls xs rs)
Returned-Holds req (c ∷ calls) (inr (bad, _), xs) (r, rs) = absurd (ground (arith, r, bad))

Holds-Replicated :
    (req : ReplicateRequest) (calls : List Exchange)
    → All (Holds req) calls
    → Replicated req (called calls) calls
Holds-Replicated req [] hs i p there = absurd (ground arith)
Holds-Replicated req (c ∷ calls) (h, hs) zero p there = (c, refl, ground arith, h)
Holds-Replicated req (c ∷ calls) (h, hs) (suc i) p there = Holds-Replicated req calls hs i p there

put_finish-Finished :
    (req : ReplicateRequest) (calls : List Exchange) (m : Node)
    → All (Exchanged req) calls
    → Finished req (called calls) calls m (put_finish req (outcomes calls) m)
unfolding put_finish get Store.get
put_finish-Finished req calls m xs = elim (all_ok-cases calls) [
  | inl (all, e) ↦
      acknowledged all (Holds-Replicated req calls (Returned-Holds req calls xs all))
        (ground (arith, e))
        (ground (
          arith,
          e,
          get-put m.store.content req.key req.key (written req),
          bytes_beq_iff req.key req.key,
        ))
        (λ other apart.
          ground (arith, e, apart, get-put m.store.content req.key other (written req)))
  | inr (k, x, there, bad, e) ↦ failed k x there bad (ground (arith, e)) (ground (arith, e))
]

-- A Put on the primary, whose clock is below the largest int64, stamps one request later than its
-- clock and sends it to each of its peers; `calls` is what became of it at each of them, where a
-- call that fails may have been taken or not, and `m` is the primary when all calls are over. If
-- every call returned, then the node of every peer holds the value with that stamp, the Put is
-- acknowledged with the stamp, and the primary holds it too and keeps its other keys. Else some
-- call failed, the Put fails, and the primary stays as it was.
pub put_replicated :
    (key value : Text) (n m : Node) (calls : List Exchange)
    → n.role ≡ primary
    → n.clk.t <ℤ max_int64
    → called calls ≡ n.peer_conns
    → All (Exchanged (put_request key value n)) calls
    → let req = put_request key value n in
      (put_begin key value n ≡ (record n { clk = (Clock.tick n.clk).0 }, fan_out req n.peer_conns))
      × (n.clk.t <ℤ req.lamport_ts)
      × Finished req n.peer_conns calls m (put_finish req (outcomes calls) m)
put_replicated key value n m calls h small each xs = (
  put_begin-primary key value n h,
  unfold Clock.now Clock.tick in (tick-lt n.clk small).0,
  rw (sym each) (put_finish-Finished (put_request key value n) calls m xs),
)

-- Two writes of one key that differ in value or stamp leave a backup with the one that arrives last,
-- so two backups that get them in opposite orders end up different, whatever the stamps are.
pub replicate_order :
    (first second : ReplicateRequest) (m n : Node) (key : Text)
    → first.key ≡ key
    → second.key ≡ key
    → written first ≢ written second
    → (get key (replicate second (replicate first m).0).0 ≡ some (written second))
      × (get key (replicate first (replicate second n).0).0 ≡ some (written first))
      × (get key (replicate second (replicate first m).0).0
          ≢ get key (replicate first (replicate second n).0).0)
replicate_order first second m n key p q apart =
    let a = get-replicate second (replicate first m).0 key in
    let b = get-replicate first (replicate second n).0 key in
    (
      ground (arith, a, bytes_beq_iff second.key key),
      ground (arith, b, bytes_beq_iff first.key key),
      λ e. apart (ground (arith, a, b, bytes_beq_iff second.key key, bytes_beq_iff first.key key)),
    )
