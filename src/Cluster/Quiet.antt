-- ===== src/Cluster/Quiet.antt =====
-- hw3/raft/raft.go: what a call on one node does to its term, its vote and its leadership.
use cmsc.Prelude.{
  ℕ, zero, suc, ◌+◌, ◌≤◌, ◌<◌, ◌≡◌, ◌∙◌, true, false, ◌⊎◌, inl, none, some, arith, ok, length,
  >>=-eq-ok,
}
use cmsc.Raft.Node.{Raft, is_leader, quorum, resume, kill}
use cmsc.Raft.Vote.{
  RequestVoteArgs, RequestVoteReply, request_vote, start_election, become_leader, vote_reply,
}
use cmsc.Raft.Replicate.{append_entries, start, note_match, note_success, back_up, append_reply}
use cmsc.Raft.Commit.{scan_commit, advance_commit_index, apply_step}
use cmsc.Raft.Step.{Act, resumes, kills, submits, follows, replies, applies}

-- The identity of the node stays, and it is in its term as before, with its vote, and leads only if
-- it did; or it has moved on to a later term, with no vote, and does not lead.
abbrev pub SamePlace : Raft → Raft → Type 0
SamePlace rf rf' =
    (rf'.id ≡ rf.id)
    × (rf'.peers ≡ rf.peers)
    × (rf'.current_term ≡ rf.current_term)
    × (rf'.voted_for ≡ rf.voted_for)
    × (is_leader rf'.state ≡ is_leader rf.state)

abbrev pub Moved : Raft → Raft → Type 0
Moved rf rf' =
    (rf'.id ≡ rf.id)
    × (rf'.peers ≡ rf.peers)
    × (rf.current_term < rf'.current_term)
    × (rf'.voted_for ≡ none)
    × (is_leader rf'.state ≡ false)

abbrev pub IsQuiet : Raft → Raft → Type 0
IsQuiet rf rf' = SamePlace rf rf' ⊎ Moved rf rf'

SamePlace-trans : (a b c : Raft) → SamePlace a b → SamePlace b c → SamePlace a c
SamePlace-trans a b c (i, p, t, v, l) (i', p', t', v', l') =
    (i' ∙ i, p' ∙ p, t' ∙ t, v' ∙ v, l' ∙ l)

scan_commit-SamePlace : (k : ℕ) (rf rf' : Raft) → scan_commit rf k ≡ ok rf' → SamePlace rf rf'
unfolding scan_commit
scan_commit-SamePlace zero rf rf' h = ground arith
scan_commit-SamePlace (suc k) rf rf' h = ground (arith, scan_commit-SamePlace k rf rf')

note_match-SamePlace :
    (peer m : ℕ) (rf rf' : Raft) → note_match peer m rf ≡ ok rf' → SamePlace rf rf'
unfolding note_match
note_match-SamePlace peer m rf rf' h = ground arith

back_up-SamePlace : (peer : ℕ) (rf rf' : Raft) → back_up peer rf ≡ ok rf' → SamePlace rf rf'
unfolding back_up
back_up-SamePlace peer rf rf' h = ground arith

note_success-SamePlace :
    (peer m : ℕ) (rf rf' : Raft) → note_success peer m rf ≡ ok rf' → SamePlace rf rf'
unfolding note_success advance_commit_index
note_success-SamePlace peer m rf rf' h =
    let (noted, p, q) = >>=-eq-ok (note_match peer m rf) advance_commit_index h in
    SamePlace-trans rf noted rf' (note_match-SamePlace peer m rf noted p)
      (scan_commit-SamePlace _ noted rf' q)

pub Act-IsQuiet : {rf rf' : Raft} → Act rf rf' → IsQuiet rf rf'
unfolding resume kill apply_step start append_entries append_reply
Act-IsQuiet (resumes draw e) = inl (ground arith)
Act-IsQuiet (kills e) = inl (ground arith)
Act-IsQuiet (submits command result e) = inl (ground arith)
Act-IsQuiet (follows draw req reply e) = ground arith
Act-IsQuiet {rf} {rf'} (replies draw peer args none again e) = inl (ground arith)
Act-IsQuiet {rf} {rf'} (replies draw peer args (some reply) again e) = ground (
  arith,
  note_success-SamePlace peer (args.prev_log_index + length args.entries) rf rf',
  back_up-SamePlace peer rf rf',
)
Act-IsQuiet (applies e) = inl (ground arith)

-- `RequestVote` is quiet where it denies, and a quiet call followed by the vote where it grants.
pub record Granted (req : RequestVoteArgs) (rf rf' : Raft) : Type 0 where
  pub id : rf'.id ≡ rf.id
  pub peers : rf'.peers ≡ rf.peers
  pub term : rf'.current_term ≡ req.term
  pub vote : rf'.voted_for ≡ some req.candidate_id
  pub free :
      ((rf.current_term < req.term) × (is_leader rf'.state ≡ false))
      ⊎ ((rf.current_term ≡ req.term)
          × ((rf.voted_for ≡ none) ⊎ (rf.voted_for ≡ some req.candidate_id))
          × (is_leader rf'.state ≡ is_leader rf.state))

pub request_vote-Granted :
    (d e : ℕ) (req : RequestVoteArgs) (reply : RequestVoteReply) (rf rf' : Raft)
    → request_vote d e req rf ≡ ok (rf', reply)
    → reply.vote_granted ≡ true
    → Granted req rf rf'
unfolding request_vote
request_vote-Granted d e req reply rf rf' h g = record {
  id = ground arith;
  peers = ground arith;
  term = ground arith;
  vote = ground arith;
  free = ground arith;
}

pub request_vote-IsQuiet :
    (d e : ℕ) (req : RequestVoteArgs) (reply : RequestVoteReply) (rf rf' : Raft)
    → request_vote d e req rf ≡ ok (rf', reply)
    → reply.vote_granted ≡ false
    → IsQuiet rf rf'
unfolding request_vote
request_vote-IsQuiet d e req reply rf rf' h g = ground arith

-- The node has moved to its next term as a candidate that voted for itself.
pub record Stands (args : RequestVoteArgs) (rf rf' : Raft) : Type 0 where
  pub id : rf'.id ≡ rf.id
  pub peers : rf'.peers ≡ rf.peers
  pub term : rf'.current_term ≡ rf.current_term + 1
  pub vote : rf'.voted_for ≡ some rf.id
  pub no_leader : is_leader rf'.state ≡ false
  pub args_term : args.term ≡ rf'.current_term
  pub args_id : args.candidate_id ≡ rf.id

pub start_election-Stands :
    (draw : ℕ) (args : RequestVoteArgs) (rf rf' : Raft)
    → start_election draw rf ≡ ok (rf', some args)
    → Stands args rf rf'
unfolding start_election
start_election-Stands draw args rf rf' h = ground arith

-- A counted vote: the candidate is still in the term of the election, and leads if this was the vote
-- that made the majority.
pub record Counted (term had has : ℕ) (reply : RequestVoteReply) (rf rf' : Raft) : Type 0 where
  pub id : rf'.id ≡ rf.id
  pub peers : rf'.peers ≡ rf.peers
  pub more : has ≡ suc had
  pub granted : reply.vote_granted ≡ true
  pub term_now : rf.current_term ≡ term
  pub term_kept : rf'.current_term ≡ term
  pub vote : rf'.voted_for ≡ rf.voted_for
  pub majority : (is_leader rf'.state ≡ false) ⊎ (quorum rf ≤ has)

become_leader-place :
    (rf rf' : Raft)
    → become_leader rf ≡ ok rf'
    → (rf'.id ≡ rf.id)
      × (rf'.peers ≡ rf.peers)
      × (rf'.current_term ≡ rf.current_term)
      × (rf'.voted_for ≡ rf.voted_for)
unfolding become_leader
become_leader-place rf rf' h = ground arith

pub vote_reply-cases :
    (draw term had has : ℕ) (reply : RequestVoteReply) (rf rf' : Raft)
    → vote_reply draw term had (some reply) rf ≡ ok (rf', has)
    → (IsQuiet rf rf' × (has ≡ had)) ⊎ Counted term had has reply rf rf'
unfolding vote_reply
vote_reply-cases draw term had has reply rf rf' h = ground (arith, become_leader-place rf rf')
