-- ===== src/Cluster/Replicas/Counts.antt =====
-- hw3/raft/raft.go: no call but a turn of `applyLoop` moves `lastApplied`.
use cmsc.Prelude.{ℕ, zero, suc, ◌+◌, ◌≡◌, ◌∙◌, some, arith, ok, Bool, Text, length, >>=-eq-ok}
use cmsc.Raft.Node.{Raft, resume, kill}
use cmsc.Raft.Vote.{
  RequestVoteArgs, RequestVoteReply, request_vote, start_election, become_leader, vote_reply,
}
use cmsc.Raft.Replicate.{
  AppendEntriesArgs, AppendEntriesReply, start, note_match, note_success, back_up, append_reply,
  append_entries,
}
use cmsc.Raft.Commit.{scan_commit, advance_commit_index}
use cmsc.Raft.Step.{Act, resumes, kills, submits, follows, replies, applies}
use cmsc.Cluster.Network.{IsLocal}

-- A call that hands nothing out.
abbrev pub Rests : Raft → Raft → Type 0
Rests rf rf' = rf'.last_applied ≡ rf.last_applied

pub request_vote-Rests :
    (d e : ℕ) (req : RequestVoteArgs) (reply : RequestVoteReply) (rf rf' : Raft)
    → request_vote d e req rf ≡ ok (rf', reply)
    → Rests rf rf'
unfolding request_vote
request_vote-Rests d e req reply rf rf' h = ground arith

pub start_election-Rests :
    (draw : ℕ) (args : RequestVoteArgs) (rf rf' : Raft)
    → start_election draw rf ≡ ok (rf', some args)
    → Rests rf rf'
unfolding start_election
start_election-Rests draw args rf rf' h = ground arith

become_leader-Rests : (rf rf' : Raft) → become_leader rf ≡ ok rf' → Rests rf rf'
unfolding become_leader
become_leader-Rests rf rf' h = ground arith

pub vote_reply-Rests :
    (draw term had has : ℕ) (reply : RequestVoteReply) (rf rf' : Raft)
    → vote_reply draw term had (some reply) rf ≡ ok (rf', has)
    → Rests rf rf'
unfolding vote_reply
vote_reply-Rests draw term had has reply rf rf' h = ground (arith, become_leader-Rests rf rf')

pub append_entries-Rests :
    (draw : ℕ) (req : AppendEntriesArgs) (reply : AppendEntriesReply) (rf rf' : Raft)
    → append_entries draw req rf ≡ ok (rf', reply)
    → Rests rf rf'
unfolding append_entries
append_entries-Rests draw req reply rf rf' h = ground arith

scan_commit-Rests : (k : ℕ) (rf rf' : Raft) → scan_commit rf k ≡ ok rf' → Rests rf rf'
unfolding scan_commit
scan_commit-Rests zero rf rf' h = ground arith
scan_commit-Rests (suc k) rf rf' h = ground (arith, scan_commit-Rests k rf rf')

note_match-Rests : (peer m : ℕ) (rf rf' : Raft) → note_match peer m rf ≡ ok rf' → Rests rf rf'
unfolding note_match
note_match-Rests peer m rf rf' h = ground arith

note_success-Rests : (peer m : ℕ) (rf rf' : Raft) → note_success peer m rf ≡ ok rf' → Rests rf rf'
unfolding note_success advance_commit_index
note_success-Rests peer m rf rf' h =
    let (noted, p, q) = >>=-eq-ok (note_match peer m rf) advance_commit_index h in
    scan_commit-Rests _ noted rf' q ∙ note_match-Rests peer m rf noted p

back_up-Rests : (peer : ℕ) (rf rf' : Raft) → back_up peer rf ≡ ok rf' → Rests rf rf'
unfolding back_up
back_up-Rests peer rf rf' h = ground arith

pub append_reply-Rests :
    (draw peer : ℕ) (args : AppendEntriesArgs) (reply : AppendEntriesReply) (again : Bool)
    (rf rf' : Raft)
    → append_reply draw peer args (some reply) rf ≡ ok (rf', again)
    → Rests rf rf'
unfolding append_reply
append_reply-Rests draw peer args reply again rf rf' h = ground (
  arith,
  note_success-Rests peer (args.prev_log_index + length args.entries) rf rf',
  back_up-Rests peer rf rf',
)

start-Rests :
    (command : Text) (result : ℕ × ℕ × Bool) (rf rf' : Raft)
    → start command rf ≡ ok (rf', result)
    → Rests rf rf'
unfolding start
start-Rests command result rf rf' h = ground arith

pub Act-Rests : {rf rf' : Raft} (a : Act rf rf') → IsLocal a → Rests rf rf'
unfolding resume kill
Act-Rests {rf} {rf'} (resumes draw e) l = ground arith
Act-Rests {rf} {rf'} (kills e) l = ground arith
Act-Rests {rf} {rf'} (submits command result e) l = start-Rests command result rf rf' e
Act-Rests (follows draw req reply e) l = absurd l
Act-Rests (replies draw peer args reply again e) l = absurd l
Act-Rests (applies e) l = absurd l
