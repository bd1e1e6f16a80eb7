-- ===== src/Raft/Replicate/Sender.antt =====
-- hw3/raft/raft.go: what `sendAppendEntries` puts into a request.
use cmsc.Prelude.{
  ℕ, zero, suc, ◌+◌, ◌-◌, ◌<◌, ◌≤◌, ◌≡◌, refl, ap, true, some, List, [], ◌∷◌, ◌++◌, ok, ltb, nat_eq,
  nat_beq_iff, if◌then◌else◌, length, get_elem?, get_elem?-some, take, drop, arith, length-drop,
  take-append-drop,
}
use cmsc.Raft.Log.{Log, LogEntry, range, last_index, at}
use cmsc.Raft.Log.WellFormed.{IsIndexed, IsWf}
use cmsc.Raft.Node.{Raft, leader}
use cmsc.Raft.Replicate.{AppendEntriesArgs, consistent, prev_term, append_args}

take_all : (n : ℕ) (xs : List LogEntry) → length xs ≤ n → take n xs ≡ xs
take_all zero [] h = refl
take_all zero (x ∷ xs) h = absurd (omega arith)
take_all (suc n) [] h = refl
take_all (suc n) (x ∷ xs) h = ap (λ t. x ∷ t) (take_all n xs (omega arith))

pub drop_all : (n : ℕ) (xs : List LogEntry) → length xs ≤ n → drop n xs ≡ []
drop_all zero [] h = refl
drop_all zero (x ∷ xs) h = absurd (omega arith)
drop_all (suc n) [] h = refl
drop_all (suc n) (x ∷ xs) h = drop_all n xs (omega arith)

pub range-drop : (l : Log) (k : ℕ) → range l (suc k) (last_index l + 1) ≡ drop (suc k) l.entries
unfolding range last_index
range-drop l k = ground (
  arith,
  drop_all (suc k) l.entries,
  take_all (length l.entries - suc k) (drop (suc k) l.entries),
  length-drop (suc k) l.entries,
)

pub IsIndexed-drop :
    (n k m : ℕ) (xs : List LogEntry) → m ≡ k + n → IsIndexed k xs → IsIndexed m (drop n xs)
IsIndexed-drop zero k m xs e h = let e' : m ≡ k = omega arith in rw e' h
IsIndexed-drop (suc n) k m [] e h = tt
IsIndexed-drop (suc n) k m (x ∷ xs) e h = IsIndexed-drop n (suc k) m xs (omega arith) h.1

passes :
    (log : Log) (k : ℕ) (args : AppendEntriesArgs)
    → k < length log.entries
    → args.prev_log_index ≡ k
    → args.prev_log_term ≡ (if ltb 0 k then prev_term log k else 0)
    → consistent args log ≡ true
unfolding consistent prev_term at
passes log k args inside e f =
    let (x, here) = get_elem?-some log.entries k inside in
    ground (arith, e, f, here, nat_beq_iff x.term x.term)

-- A leader whose `nextIndex` for a peer is `k + 1`, within its well-formed log, sends it all of the
-- log behind index `k`, in order and under its own indices, and the request passes the check of a
-- follower that has the same log.
pub append_args-rest :
    (peer k : ℕ) (rf : Raft)
    → rf.state ≡ leader
    → IsWf rf.log
    → get_elem? rf.next_index peer ≡ some (suc k)
    → k < length rf.log.entries
    → (args : AppendEntriesArgs) × (append_args peer rf ≡ ok (some args))
      × ((args.prev_log_index ≡ k)
          × (args.term ≡ rf.current_term)
          × (take (suc k) rf.log.entries ++ args.entries ≡ rf.log.entries)
          × IsIndexed (suc k) args.entries
          × (consistent args rf.log ≡ true))
unfolding append_args
append_args-rest peer k rf lead w next inside =
    let args : AppendEntriesArgs = record {
      term = rf.current_term;
      leader_id = rf.id;
      prev_log_index = k;
      prev_log_term = if ltb 0 k then prev_term rf.log k else 0;
      entries = range rf.log (suc k) (last_index rf.log + 1);
      leader_commit = rf.commit_index;
    } in
    (
      args,
      ground (arith, lead, next),
      (
        refl,
        refl,
        rw (range-drop rf.log k) (take-append-drop (suc k) rf.log.entries),
        rw (range-drop rf.log k)
            (IsIndexed-drop (suc k) 0 (suc k) rf.log.entries (omega arith) w.indexed),
        passes rf.log k args inside refl refl,
      ),
    )
