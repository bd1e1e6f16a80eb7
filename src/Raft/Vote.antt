-- ===== src/Raft/Vote.antt =====
-- hw3/raft/raft.go: elections. `RequestVote` at the voter, `startElection` and the goroutine that
-- takes a reply at the candidate, and `becomeLeader`.
pub mod Grant
use cmsc.Prelude.{
  ℕ, zero, suc, ◌+◌, ◌≡◌, refl, Bool, true, false, not, ◌&&◌, ◌||◌, Option, none, some, List, [],
  ◌∷◌, map, Text, codes, ltb, leb, ◌==◌, nat_eq, if◌then◌else◌, Outcome, ok, panic, ◌>>=◌,
}
use cmsc.Raft.Log
use cmsc.Raft.Log.{Log, LogEntry}
use cmsc.Raft.Node.{
  RaftState, follower, candidate, leader, Raft, reset_election_timer, become_follower, is_leader,
  is_candidate, quorum,
}

pub record RequestVoteArgs : Type 0 where
  pub term : ℕ
  pub candidate_id : ℕ
  pub last_log_index : ℕ
  pub last_log_term : ℕ

pub record RequestVoteReply : Type 0 where
  pub term : ℕ
  pub vote_granted : Bool

-- `rf.votedFor != -1 && rf.votedFor != req.CandidateId`
abbrev pub voted_for_other : Option ℕ → ℕ → Bool
voted_for_other none c = false
voted_for_other (some v) c = not (v == c)

-- `logOK`: the candidate's log is at least as up-to-date as one with this last term and index.
abbrev pub log_ok : RequestVoteArgs → ℕ → ℕ → Bool
log_ok req last_term last_index =
    ltb last_term req.last_log_term
    || (req.last_log_term == last_term && leb last_index req.last_log_index)

-- The part of `RequestVote` behind the two tests of the term.
unfoldable pub decide_vote : ℕ → RequestVoteArgs → Raft → Outcome (Raft × RequestVoteReply)
unfolding reset_election_timer Log.last_index Log.last_term
decide_vote draw req rf = do
  last_term ← Log.last_term rf.log
  if voted_for_other rf.voted_for req.candidate_id
      then ok (rf, record { term = rf.current_term; vote_granted = false })
      else if not (log_ok req last_term (Log.last_index rf.log))
      then ok (rf, record { term = rf.current_term; vote_granted = false })
      else ok (
        reset_election_timer draw (record rf { voted_for = some req.candidate_id }),
        record { term = rf.current_term; vote_granted = true },
      )

-- `RequestVote`. The draws are for the two places that reset the timer.
unfoldable pub request_vote : ℕ → ℕ → RequestVoteArgs → Raft → Outcome (Raft × RequestVoteReply)
unfolding decide_vote become_follower
request_vote draw draw' req rf =
    if ltb req.term rf.current_term
    then ok (rf, record { term = rf.current_term; vote_granted = false })
    else decide_vote draw' req
        (if ltb rf.current_term req.term then become_follower draw req.term rf else rf)

-- `startElection` up to the RPCs: the arguments that go to every peer, or nothing.
unfoldable pub start_election : ℕ → Raft → Outcome (Raft × Option RequestVoteArgs)
unfolding reset_election_timer Log.last_index Log.last_term
start_election draw rf = if is_leader rf.state || rf.dead then ok (rf, none) else do
  let rf' =
      reset_election_timer draw (record rf {
        current_term = rf.current_term + 1;
        state = candidate;
        voted_for = some rf.id;
      })
  last_term ← Log.last_term rf'.log
  ok (
    rf',
    some (record {
      term = rf'.current_term;
      candidate_id = rf'.id;
      last_log_index = Log.last_index rf'.log;
      last_log_term = last_term;
    }),
  )

-- `becomeLeader`, with the no-op entry that it appends
unfoldable pub become_leader : Raft → Outcome Raft
unfolding Log.last_index
become_leader rf = do
  log ←
      Log.append rf.log (record {
        index = Log.last_index rf.log + 1;
        term = rf.current_term;
        command = codes "noop";
      })
  ok (record rf {
    state = leader;
    next_index = map (λ _. Log.last_index rf.log + 1) rf.next_index;
    match_index = map (λ _. 0) rf.match_index;
    log = log;
  })

-- The goroutine of one peer in `startElection`, once its RPC has returned. `none` is an error or a
-- nil reply; `term` and `votes` are the variables that the goroutines of the election share.
unfoldable pub vote_reply : ℕ → ℕ → ℕ → Option RequestVoteReply → Raft → Outcome (Raft × ℕ)
unfolding become_follower quorum
vote_reply draw term votes none rf = ok (rf, votes)
vote_reply draw term votes (some reply) rf =
    if ltb rf.current_term reply.term
    then ok (become_follower draw reply.term rf, votes)
    else if not (is_candidate rf.state) || not (rf.current_term == term)
    then ok (rf, votes)
    else if reply.vote_granted
    then if leb (quorum rf) (votes + 1)
      then (do rf' ← become_leader rf; ok (rf', votes + 1))
      else ok (rf, votes + 1)
    else ok (rf, votes)
