-- ===== src/Raft/Step.antt =====
-- hw3/raft/raft.go: one node under any sequence of the calls that take its mutex.
pub mod Sound
use cmsc.Prelude.{
  ℕ, zero, suc, ◌+◌, ◌-◌, ◌≤◌, ◌<◌, ◌≡◌, refl, sym, ◌∙◌, Bool, true, false, ◌&&◌, not, ◌⊎◌, ◌↔◌,
  Option, none, some, List, [], ◌∷◌, ok, panic, leb, ltb, ◌==◌, nat_eq, if◌then◌else◌, length,
  get_elem?, arith, Outcome, ◌>>=◌, >>=-eq-ok, Text,
}
use cmsc.Raft.Log.{Log, LogEntry, last_index, last_term}
use cmsc.Raft.Node.{Raft, resume, kill}
use cmsc.Raft.Vote.{
  RequestVoteArgs, RequestVoteReply, decide_vote, request_vote, start_election, become_leader,
  vote_reply,
}
use cmsc.Raft.Vote.Grant.{granted_records}
use cmsc.Raft.Replicate.{
  AppendEntriesArgs, AppendEntriesReply, replicate_log, append_entries, start, note_match,
  note_success, back_up, append_reply,
}
use cmsc.Raft.Commit.{scan_commit, advance_commit_index, apply_step}

-- The sections of the code that hold the mutex and take no part in an election, with the arguments
-- and replies left open.
pub data Act (rf rf' : Raft) : Type 0 where
  resumes : (draw : ℕ) → rf' ≡ resume draw rf → Act rf rf'
  kills : rf' ≡ kill rf → Act rf rf'
  submits :
      (command : Text) (result : ℕ × ℕ × Bool) → start command rf ≡ ok (rf', result) → Act rf rf'
  follows :
      (draw : ℕ) (req : AppendEntriesArgs) (reply : AppendEntriesReply)
      → append_entries draw req rf ≡ ok (rf', reply)
      → Act rf rf'
  replies :
      (draw peer : ℕ) (args : AppendEntriesArgs) (reply : Option AppendEntriesReply) (again : Bool)
      → append_reply draw peer args reply rf ≡ ok (rf', again)
      → Act rf rf'
  applies : rf' ≡ (apply_step rf).0 → Act rf rf'

-- Every section of the code that holds the mutex.
pub data Step (rf rf' : Raft) : Type 0 where
  acts : Act rf rf' → Step rf rf'
  votes :
      (draw draw' : ℕ) (req : RequestVoteArgs) (reply : RequestVoteReply)
      → request_vote draw draw' req rf ≡ ok (rf', reply)
      → Step rf rf'
  elects :
      (draw : ℕ) (args : Option RequestVoteArgs)
      → start_election draw rf ≡ ok (rf', args)
      → Step rf rf'
  counts :
      (draw term had has : ℕ) (reply : Option RequestVoteReply)
      → vote_reply draw term had reply rf ≡ ok (rf', has)
      → Step rf rf'

pub data Reach (rf : Raft) : Raft → Type 0 where
  here : Reach rf rf
  next : {s t : Raft} → Reach rf s → Step s t → Reach rf t

-- The term does not go back, and within a term a vote that was given stays.
pub record Keeps (rf rf' : Raft) : Type 0 where
  pub term : rf.current_term ≤ rf'.current_term
  pub vote :
      (c : ℕ) → rf'.current_term ≡ rf.current_term → rf.voted_for ≡ some c → rf'.voted_for ≡ some c

request_vote-Keeps :
    (draw draw' : ℕ) (req : RequestVoteArgs) (reply : RequestVoteReply) (rf rf' : Raft)
    → request_vote draw draw' req rf ≡ ok (rf', reply)
    → Keeps rf rf'
unfolding request_vote
request_vote-Keeps draw draw' req reply rf rf' h = record {
  term = ground arith;
  vote = λ c. ground arith;
}

start_election-Keeps :
    (draw : ℕ) (args : Option RequestVoteArgs) (rf rf' : Raft)
    → start_election draw rf ≡ ok (rf', args)
    → Keeps rf rf'
unfolding start_election
start_election-Keeps draw args rf rf' h = record { term = ground arith; vote = λ c. ground arith }

-- A part of a call that leaves the term and the vote.
abbrev SameVote : Raft → Raft → Type 0
SameVote rf rf' = (rf'.current_term ≡ rf.current_term) × (rf'.voted_for ≡ rf.voted_for)

become_leader-SameVote : (rf rf' : Raft) → become_leader rf ≡ ok rf' → SameVote rf rf'
unfolding become_leader
become_leader-SameVote rf rf' h = ground arith

vote_reply-Keeps :
    (draw term had has : ℕ) (reply : Option RequestVoteReply) (rf rf' : Raft)
    → vote_reply draw term had reply rf ≡ ok (rf', has)
    → Keeps rf rf'
unfolding vote_reply
vote_reply-Keeps draw term had has reply rf rf' h = record {
  term = ground (arith, become_leader-SameVote rf rf');
  vote = λ c. ground (arith, become_leader-SameVote rf rf');
}

start-Keeps :
    (command : Text) (result : ℕ × ℕ × Bool) (rf rf' : Raft)
    → start command rf ≡ ok (rf', result)
    → Keeps rf rf'
unfolding start
start-Keeps command result rf rf' h = record { term = ground arith; vote = λ c. ground arith }

append_entries-Keeps :
    (draw : ℕ) (req : AppendEntriesArgs) (reply : AppendEntriesReply) (rf rf' : Raft)
    → append_entries draw req rf ≡ ok (rf', reply)
    → Keeps rf rf'
unfolding append_entries
append_entries-Keeps draw req reply rf rf' h = record {
  term = ground arith;
  vote = λ c. ground arith;
}

scan_commit-SameVote : (k : ℕ) (rf rf' : Raft) → scan_commit rf k ≡ ok rf' → SameVote rf rf'
unfolding scan_commit
scan_commit-SameVote zero rf rf' h = ground arith
scan_commit-SameVote (suc k) rf rf' h = ground (arith, scan_commit-SameVote k rf rf')

note_match-SameVote : (peer m : ℕ) (rf rf' : Raft) → note_match peer m rf ≡ ok rf' → SameVote rf rf'
unfolding note_match
note_match-SameVote peer m rf rf' h = ground arith

back_up-SameVote : (peer : ℕ) (rf rf' : Raft) → back_up peer rf ≡ ok rf' → SameVote rf rf'
unfolding back_up
back_up-SameVote peer rf rf' h = ground arith

advance_commit_index-SameVote : (rf rf' : Raft) → advance_commit_index rf ≡ ok rf' → SameVote rf rf'
unfolding advance_commit_index
advance_commit_index-SameVote rf rf' h = scan_commit-SameVote _ rf rf' h

note_success-SameVote :
    (peer m : ℕ) (rf rf' : Raft) → note_success peer m rf ≡ ok rf' → SameVote rf rf'
unfolding note_success
note_success-SameVote peer m rf rf' h =
    let (noted, p, q) = >>=-eq-ok (note_match peer m rf) advance_commit_index h in
    let (t, v) = note_match-SameVote peer m rf noted p in
    let (t', v') = advance_commit_index-SameVote noted rf' q in (t' ∙ t, v' ∙ v)

append_reply-Keeps :
    (draw peer : ℕ) (args : AppendEntriesArgs) (reply : Option AppendEntriesReply) (again : Bool)
    (rf rf' : Raft)
    → append_reply draw peer args reply rf ≡ ok (rf', again)
    → Keeps rf rf'
unfolding append_reply
append_reply-Keeps draw peer args reply again rf rf' h = record {
  term = grind (arith, note_success-SameVote, back_up-SameVote);
  vote = λ c. grind (arith, note_success-SameVote, back_up-SameVote);
}

Act-Keeps : {rf rf' : Raft} → Act rf rf' → Keeps rf rf'
unfolding resume kill apply_step
Act-Keeps (resumes draw e) = record { term = ground arith; vote = λ c. ground arith }
Act-Keeps (kills e) = record { term = ground arith; vote = λ c. ground arith }
Act-Keeps (submits command result e) = start-Keeps command result _ _ e
Act-Keeps (follows draw req reply e) = append_entries-Keeps draw req reply _ _ e
Act-Keeps (replies draw peer args reply again e) =
    append_reply-Keeps draw peer args reply again _ _ e
Act-Keeps (applies e) = record { term = ground arith; vote = λ c. ground arith }

Step-Keeps : {rf rf' : Raft} → Step rf rf' → Keeps rf rf'
Step-Keeps (acts act) = Act-Keeps act
Step-Keeps (votes draw draw' req reply e) = request_vote-Keeps draw draw' req reply _ _ e
Step-Keeps (elects draw args e) = start_election-Keeps draw args _ _ e
Step-Keeps (counts draw term had has reply e) = vote_reply-Keeps draw term had has reply _ _ e

-- However the calls on a node follow one another, its term never goes back, and a vote that it has
-- given is the same as long as the term is.
pub Reach-Keeps : {rf rf' : Raft} → Reach rf rf' → Keeps rf rf'
Reach-Keeps here = record { term = omega arith; vote = λ c e h. h }
Reach-Keeps (next {s = s} r st) = record {
  term = omega (arith, (Reach-Keeps r).term, (Step-Keeps st).term);
  vote = λ c e h.
      let back : s.current_term ≡ _ =
        omega (arith, e, (Reach-Keeps r).term, (Step-Keeps st).term) in
      (Step-Keeps st).vote c (e ∙ sym back) ((Reach-Keeps r).vote c back h);
}

-- A node gives its vote to at most one candidate in a term: of two requests that it grants, with
-- any calls between them, in one term, the candidate is the same.
pub one_vote_per_term :
    (d e f g : ℕ) (req req' : RequestVoteArgs) (reply reply' : RequestVoteReply) (rf s t u : Raft)
    → request_vote d e req rf ≡ ok (s, reply)
    → reply.vote_granted ≡ true
    → Reach s t
    → request_vote f g req' t ≡ ok (u, reply')
    → reply'.vote_granted ≡ true
    → req'.term ≡ req.term
    → req'.candidate_id ≡ req.candidate_id
one_vote_per_term d e f g req req' reply reply' rf s t u first y between second y' same =
    let (mine, at_first) = granted_records d e req rf s reply first y in
    let (theirs, at_second) = granted_records f g req' t u reply' second y' in
    let kept =
      (Reach-Keeps (next between (votes f g req' reply' second))).vote req.candidate_id
        (at_second ∙ same ∙ sym at_first) mine in
    cc (theirs, kept)
