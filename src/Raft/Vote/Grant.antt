-- ===== src/Raft/Vote/Grant.antt =====
-- hw3/raft/raft.go: when `RequestVote` grants a vote, and what it leaves.
use cmsc.Prelude.{
  ℕ, ◌-◌, ◌≤◌, ◌<◌, ◌≡◌, true, ◌⊎◌, ◌↔◌, none, some, ok, panic, nat_eq, length, get_elem?, arith,
  ok_of_ne_panic, ◌≢◌, get_elem?-some,
}
use cmsc.Raft.Log.{Log, LogEntry, last_index, last_term}
use cmsc.Raft.Log.WellFormed.{IsWf}
use cmsc.Raft.Node.{Raft}
use cmsc.Raft.Vote.{RequestVoteArgs, RequestVoteReply, request_vote}

last_term_at :
    (l : Log)
    → (e : LogEntry) × (get_elem? l.entries (length l.entries - 1) ≡ some e)
    → (t : ℕ) × (last_term l ≡ ok t)
unfolding last_term
last_term_at l (e, p) = (e.term, ground arith)

-- The last term of a well-formed log can be read.
pub last_term_ok : (l : Log) → IsWf l → (t : ℕ) × (last_term l ≡ ok t)
last_term_ok l w =
    last_term_at l (get_elem?-some l.entries (length l.entries - 1) (omega (arith, w.nonempty)))

-- The election restriction: a later last term, or the same one and a log that is not shorter.
abbrev pub UpToDate : RequestVoteArgs → ℕ → ℕ → Type 0
UpToDate req term index =
    (term < req.last_log_term) ⊎ ((req.last_log_term ≡ term) × (index ≤ req.last_log_index))

-- The vote in the term of the request is still free, or is the candidate's already.
abbrev pub MayVote : RequestVoteArgs → Raft → Type 0
MayVote req rf =
    (rf.current_term < req.term) ⊎ (rf.voted_for ≡ none) ⊎ (rf.voted_for ≡ some req.candidate_id)

pub request_vote-ne-panic :
    (draw draw' : ℕ) (req : RequestVoteArgs) (rf : Raft) (t : ℕ)
    → last_term rf.log ≡ ok t
    → request_vote draw draw' req rf ≢ panic
unfolding request_vote
request_vote-ne-panic draw draw' req rf t h = ground arith

module _ (draw draw' : ℕ) (req : RequestVoteArgs) (rf rf' : Raft) (reply : RequestVoteReply)
    (run : request_vote draw draw' req rf ≡ ok (rf', reply)) where
  pub granted_records :
      reply.vote_granted ≡ true
      → (rf'.voted_for ≡ some req.candidate_id) × (rf'.current_term ≡ req.term)
  unfolding request_vote
  granted_records g = ground arith

module _ (draw draw' : ℕ) (req : RequestVoteArgs) (rf : Raft) (t : ℕ)
    (ends : last_term rf.log ≡ ok t) (rf' : Raft) (reply : RequestVoteReply)
    (run : request_vote draw draw' req rf ≡ ok (rf', reply)) where
  granted_only :
      reply.vote_granted ≡ true
      → (rf.current_term ≤ req.term) × MayVote req rf × UpToDate req t (last_index rf.log)
  unfolding request_vote
  granted_only g = ground arith

  granted_if :
      (rf.current_term ≤ req.term) × MayVote req rf × UpToDate req t (last_index rf.log)
      → reply.vote_granted ≡ true
  unfolding request_vote
  granted_if g = ground arith

  vote_frame :
      (reply.term ≡ rf'.current_term) × (rf'.log ≡ rf.log) × (rf'.commit_index ≡ rf.commit_index)
  unfolding request_vote
  vote_frame = ground arith

-- At a node whose log ends in an entry of term `t`, `RequestVote` never panics, and it grants the
-- vote exactly when the term of the request is not behind, the vote is free or the candidate's, and
-- the candidate's log is up to date. A granted vote is recorded, in the term of the request. The
-- reply has the term of the node afterwards. The log and the commit index stay.
pub request_vote-granted :
    (draw draw' : ℕ) (req : RequestVoteArgs) (rf : Raft) (t : ℕ)
    → last_term rf.log ≡ ok t
    → (r : Raft × RequestVoteReply) × (request_vote draw draw' req rf ≡ ok r)
      × ((r.1.vote_granted ≡ true)
          ↔ ((rf.current_term ≤ req.term) × MayVote req rf × UpToDate req t (last_index rf.log)))
      × (r.1.vote_granted ≡ true
          → (r.0.voted_for ≡ some req.candidate_id) × (r.0.current_term ≡ req.term))
      × ((r.1.term ≡ r.0.current_term) × (r.0.log ≡ rf.log) × (r.0.commit_index ≡ rf.commit_index))
request_vote-granted draw draw' req rf t h =
    let (r, e) = ok_of_ne_panic _ (request_vote-ne-panic draw draw' req rf t h) in
    (
      r,
      e,
      (granted_only draw draw' req rf t h r.0 r.1 e, granted_if draw draw' req rf t h r.0 r.1 e),
      granted_records draw draw' req rf r.0 r.1 e,
      vote_frame draw draw' req rf t h r.0 r.1 e,
    )
