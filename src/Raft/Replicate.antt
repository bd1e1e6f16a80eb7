-- ===== src/Raft/Replicate.antt =====
-- hw3/raft/raft.go: replication. `Start` and `sendAppendEntries` at the leader, `AppendEntries` at
-- the follower. The mutex is released around an RPC, so a sender is two functions.
pub mod Merge
pub mod Follower
pub mod Answer
pub mod Sender
pub mod Catchup
use cmsc.Prelude.{
  ℕ, zero, suc, ◌+◌, ◌-◌, ◌≡◌, refl, Bool, true, false, not, ◌&&◌, ◌||◌, Option, none, some, List,
  [], ◌∷◌, Text, ltb, leb, ◌==◌, nat_eq, if◌then◌else◌, Outcome, ok, panic, indexed, ◌>>=◌, length,
  get_elem?, set,
}
use cmsc.Raft.Log
use cmsc.Raft.Log.{Log, LogEntry}
use cmsc.Raft.Node.{Raft, reset_election_timer, become_follower, is_leader}
use cmsc.Raft.Commit.{advance_commit_index}

pub record AppendEntriesArgs : Type 0 where
  pub term : ℕ
  pub leader_id : ℕ
  pub prev_log_index : ℕ
  pub prev_log_term : ℕ
  pub entries : List LogEntry
  pub leader_commit : ℕ

pub record AppendEntriesReply : Type 0 where
  pub term : ℕ
  pub success : Bool

-- `Start`, up to the goroutines that it starts: index, term, isLeader
unfoldable pub start : Text → Raft → Outcome (Raft × (ℕ × ℕ × Bool))
unfolding Log.last_index
start command rf =
    if is_leader rf.state
    then (do
      let index = Log.last_index rf.log + 1
      log ← Log.append rf.log (record { index = index; term = rf.current_term; command = command })
      ok (record rf { log = log }, (index, rf.current_term, true)))
    else ok (rf, (0, rf.current_term, false))

-- The consistency check at `prevLogIndex`.
unfoldable pub consistent : AppendEntriesArgs → Log → Bool
unfolding Log.at
consistent req log =
    if ltb 0 req.prev_log_index
    then elim (Log.at log req.prev_log_index) [
      | none ↦ false
      | some existing ↦ existing.term == req.prev_log_term
    ]
    else true

-- One round of the merge, at index `idx`: keep, truncate and append, or append.
unfoldable pub merge_entry : Log → ℕ → LogEntry → Outcome Log
unfolding Log.at
merge_entry log idx entry = elim (Log.at log idx) [
  | none ↦ Log.append log entry
  | some existing ↦
      if existing.term == entry.term then ok log else Log.append (Log.truncate log idx) entry
]

-- The loop over `req.Entries`; `idx` is `req.PrevLogIndex + i + 1`.
unfoldable pub merge : Log → ℕ → List LogEntry → Outcome Log
unfolding merge_entry
merge log idx [] = ok log
merge log idx (entry ∷ rest) = do log' ← merge_entry log idx entry; merge log' (idx + 1) rest

-- The commit index after the merge.
unfoldable pub follow_commit : ℕ → ℕ → ℕ → ℕ
follow_commit leader_commit last commit =
    if ltb commit leader_commit
    then if ltb last leader_commit then last else leader_commit
    else commit

-- The part of `AppendEntries` behind the tests of the term.
unfoldable pub replicate_log : AppendEntriesArgs → Raft → Outcome (Raft × AppendEntriesReply)
unfolding consistent follow_commit Log.last_index
replicate_log req rf =
    if consistent req rf.log
    then (do
      log ← merge rf.log (req.prev_log_index + 1) req.entries
      ok (
        record rf {
          log = log;
          commit_index = follow_commit req.leader_commit (Log.last_index log) rf.commit_index;
        },
        record { term = rf.current_term; success = true },
      ))
    else ok (rf, record { term = rf.current_term; success = false })

-- `AppendEntries`
unfoldable pub append_entries : ℕ → AppendEntriesArgs → Raft → Outcome (Raft × AppendEntriesReply)
unfolding replicate_log reset_election_timer become_follower
append_entries draw req rf =
    if ltb req.term rf.current_term
    then ok (rf, record { term = rf.current_term; success = false })
    else replicate_log req (
        if ltb rf.current_term req.term
        then become_follower draw req.term rf
        else reset_election_timer draw rf)

-- `InstallSnapshot` answers with the term and does nothing.
unfoldable pub install_snapshot : Raft → Raft × ℕ
install_snapshot rf = (rf, rf.current_term)

-- The term at `prevLogIndex`, 0 if there is no entry
unfoldable pub prev_term : Log → ℕ → ℕ
unfolding Log.at
prev_term log prev = elim (Log.at log prev) [ none ↦ 0 | some e ↦ e.term ]

-- `sendAppendEntries` up to the RPC, or nothing on a node that is no leader. `prevLogIndex` is
-- `ni - 1`; a leader's `ni` is at least 1.
unfoldable pub append_args : ℕ → Raft → Outcome (Option AppendEntriesArgs)
unfolding prev_term Log.range Log.last_index
append_args peer rf =
    if is_leader rf.state
    then (do
      ni ← indexed (get_elem? rf.next_index peer)
      ok (
          some (record {
            term = rf.current_term;
            leader_id = rf.id;
            prev_log_index = ni - 1;
            prev_log_term = if ltb 0 (ni - 1) then prev_term rf.log (ni - 1) else 0;
            entries = Log.range rf.log ni (Log.last_index rf.log + 1);
            leader_commit = rf.commit_index;
          })))
    else ok none

-- `matchIndex` and `nextIndex` of the peer after a success that reaches up to `new_match`.
unfoldable pub note_match : ℕ → ℕ → Raft → Outcome Raft
note_match peer new_match rf = do
  m ← indexed (get_elem? rf.match_index peer)
  if ltb m new_match
      then (do
        old ← indexed (get_elem? rf.next_index peer)
        ok (record rf {
          match_index = set rf.match_index peer new_match;
          next_index = set rf.next_index peer (new_match + 1);
        }))
      else ok rf

-- The success branch: the match, then the commit index.
unfoldable pub note_success : ℕ → ℕ → Raft → Outcome Raft
note_success peer new_match rf = do noted ← note_match peer new_match rf; advance_commit_index noted

-- `nextIndex` of the peer after a rejection.
unfoldable pub back_up : ℕ → Raft → Outcome Raft
back_up peer rf = do
  ni ← indexed (get_elem? rf.next_index peer)
  ok (if ltb 1 ni then record rf { next_index = set rf.next_index peer (ni - 1) } else rf)

-- The reply to `args` in `sendAppendEntries`; `none` is an error or a nil reply. The Boolean says
-- that the loop goes round again.
unfoldable pub append_reply :
    ℕ → ℕ → AppendEntriesArgs → Option AppendEntriesReply → Raft → Outcome (Raft × Bool)
unfolding become_follower
append_reply draw peer args none rf = ok (rf, false)
append_reply draw peer args (some reply) rf =
    if ltb rf.current_term reply.term
    then ok (become_follower draw reply.term rf, false)
    else if not (is_leader rf.state) || not (rf.current_term == args.term)
    then ok (rf, false)
    else if reply.success
    then (do
      moved ← note_success peer (args.prev_log_index + length args.entries) rf
      ok (moved, ltb rf.commit_index moved.commit_index))
    else (do backed ← back_up peer rf; ok (backed, true))
