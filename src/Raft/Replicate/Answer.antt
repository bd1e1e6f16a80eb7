-- ===== src/Raft/Replicate/Answer.antt =====
-- hw3/raft/raft.go: how `AppendEntries` answers, stated without the code's own tests.
use native.Mathlib.Decide.{dec_le}
use cmsc.Prelude.{
  ℕ, ◌+◌, ◌≤◌, ◌<◌, ◌≡◌, ◌≢◌, true, false, inl, inr, some, ok, nat_eq, length, get_elem?,
  get_elem?-some, length-take, length-append, take, drop, List, arith, Option-cases,
}
use cmsc.Raft.Log.{Log, LogEntry, last_index, at}
use cmsc.Raft.Log.WellFormed.{IsIndexed, IsWf}
use cmsc.Raft.Node.{Raft}
use cmsc.Raft.Replicate.{
  AppendEntriesArgs, AppendEntriesReply, consistent, follow_commit, append_entries,
}
use cmsc.Raft.Replicate.Merge.{reconcile}
use cmsc.Raft.Replicate.Follower.{
  Handled, stale, rejected, accepted, reconciled, append_entries-Handled,
}

-- The follower has the leader's entry before the new ones: there is none, or it holds one with the
-- leader's index and term.
pub data Agrees (req : AppendEntriesArgs) (log : Log) : Type 0 where
  from_start : req.prev_log_index ≡ 0 → Agrees req log
  at_entry :
      (e : LogEntry)
      → get_elem? log.entries req.prev_log_index ≡ some e
      → e.term ≡ req.prev_log_term
      → Agrees req log

-- The follower does not have it: it is too short, or holds an entry of another term.
pub data Differs (req : AppendEntriesArgs) (log : Log) : Type 0 where
  too_short : length log.entries ≤ req.prev_log_index → Differs req log
  other_term :
      (e : LogEntry)
      → 0 < req.prev_log_index
      → get_elem? log.entries req.prev_log_index ≡ some e
      → e.term ≢ req.prev_log_term
      → Differs req log

-- The commit index after the request: where the leader's is ahead it is the smaller of the leader's
-- and the index of the last entry, and else it stays.
pub data Commits (req : AppendEntriesArgs) (rf rf' : Raft) : Type 0 where
  stays :
      req.leader_commit ≤ rf.commit_index → rf'.commit_index ≡ rf.commit_index → Commits req rf rf'
  follows :
      rf.commit_index < req.leader_commit
      → req.leader_commit < length rf'.log.entries
      → rf'.commit_index ≡ req.leader_commit
      → Commits req rf rf'
  clamps :
      rf.commit_index < req.leader_commit
      → length rf'.log.entries ≤ req.leader_commit
      → rf'.commit_index + 1 ≡ length rf'.log.entries
      → Commits req rf rf'

-- The three ways in which `AppendEntries` may answer.
pub data Answered (req : AppendEntriesArgs) (rf rf' : Raft) (reply : AppendEntriesReply)
    : Type 0 where
  old_term :
      req.term < rf.current_term
      → rf' ≡ rf
      → reply ≡ record { term = rf.current_term; success = false }
      → Answered req rf rf' reply
  declined :
      rf.current_term ≤ req.term
      → Differs req rf.log
      → rf'.current_term ≡ req.term
      → rf'.log ≡ rf.log
      → rf'.commit_index ≡ rf.commit_index
      → reply ≡ record { term = req.term; success = false }
      → Answered req rf rf' reply
  followed :
      rf.current_term ≤ req.term
      → Agrees req rf.log
      → rf'.current_term ≡ req.term
      → rf'.log.entries ≡ reconciled req rf.log.entries
      → Commits req rf rf'
      → reply ≡ record { term = req.term; success = true }
      → Answered req rf rf' reply

consistent-Agrees :
    (req : AppendEntriesArgs) (log : Log) → consistent req log ≡ true → Agrees req log
unfolding consistent at
consistent-Agrees req log c = elim (Option-cases (get_elem? log.entries req.prev_log_index)) [
  | inl absent ↦ from_start (ground (arith, absent))
  | inr (e, there) ↦ elim (dec_le req.prev_log_index 0) [
    | yes none_before ↦ from_start (omega arith)
    | no inside ↦ at_entry e there (ground (arith, there))
  ]
]

consistent-Differs :
    (req : AppendEntriesArgs) (log : Log) → consistent req log ≡ false → Differs req log
unfolding consistent at
consistent-Differs req log c = elim (dec_le (length log.entries) req.prev_log_index) [
  | yes beyond ↦ too_short beyond
  | no inside ↦ elim (Option-cases (get_elem? log.entries req.prev_log_index)) [
    | inl absent ↦
        absurd (let (e, there) = get_elem?-some log.entries req.prev_log_index (omega arith) in cc)
    | inr (e, there) ↦
        other_term e (ground (arith, there)) there (λ same. ground (arith, there, same))
  ]
]

follow_commit-Commits :
    (req : AppendEntriesArgs) (rf rf' : Raft)
    → 0 < length rf'.log.entries
    → rf'.commit_index ≡ follow_commit req.leader_commit (last_index rf'.log) rf.commit_index
    → Commits req rf rf'
unfolding follow_commit last_index
follow_commit-Commits req rf rf' some_entry e = elim (dec_le req.leader_commit rf.commit_index) [
  | yes behind ↦ stays behind (ground arith)
  | no ahead ↦ elim (dec_le (length rf'.log.entries) req.leader_commit) [
    | yes beyond ↦ clamps (omega arith) beyond (ground arith)
    | no inside ↦ follows (omega arith) (omega arith) (ground arith)
  ]
]

reconciled_nonempty :
    (req : AppendEntriesArgs) (es : List LogEntry) → 0 < length es → 0 < length (reconciled req es)
reconciled_nonempty req es h =
    let n = req.prev_log_index + 1 in
    omega (arith, length-take n es, length-append (take n es) (reconcile (drop n es) req.entries))

Handled-Answered :
    (req : AppendEntriesArgs) (rf rf' : Raft) (reply : AppendEntriesReply)
    → IsWf rf.log
    → Handled req rf rf' reply
    → Answered req rf rf' reply
Handled-Answered req rf rf' reply w (stale late same answer) = old_term late same answer
Handled-Answered req rf rf' reply w (rejected current c term log commit answer) =
    declined current (consistent-Differs req rf.log c) term log commit answer
Handled-Answered req rf rf' reply w (accepted current c term log commit answer) =
    let some_entry : 0 < length rf'.log.entries =
      rw log (reconciled_nonempty req rf.log.entries w.nonempty) in
    followed current (consistent-Agrees req rf.log c) term log
      (follow_commit-Commits req rf rf' some_entry commit) answer

-- `AppendEntries` at a node with a well-formed log, for entries that carry the indices that follow
-- `prevLogIndex`, never panics, and answers in one of three ways. A stale term changes nothing.
-- Otherwise the node is in the term of the request. Where it is too short for `prevLogIndex` or holds
-- an entry of another term there, the log and the commit index stay and the request fails. Where
-- `prevLogIndex` is 0 or its entry has the leader's term, the request succeeds: the log is the
-- reconciled one, and the commit index is the smaller of the leader's and the last index if the
-- leader's is ahead, and else stays.
pub append_entries-Answered :
    (draw : ℕ) (req : AppendEntriesArgs) (rf : Raft)
    → IsWf rf.log
    → IsIndexed (req.prev_log_index + 1) req.entries
    → (rf' : Raft) × (reply : AppendEntriesReply) × (append_entries draw req rf ≡ ok (rf', reply))
      × Answered req rf rf' reply
append_entries-Answered draw req rf w x =
    let (rf', reply, run, h) = append_entries-Handled draw req rf w x in
    (rf', reply, run, Handled-Answered req rf rf' reply w h)
