-- ===== src/Cluster/Completeness/Stance.antt =====
-- hw3/raft/raft.go: who stands in an election after a call, in which term, and what of the leader's
-- books a call leaves.
use cmsc.Prelude.{
  ℕ, ◌+◌, ◌<◌, ◌≡◌, ◌⊎◌, inl, inr, true, some, arith, ok, Bool, Text, length, map, set,
  Option-cases, get_elem?, get_elem?_lt,
}
use cmsc.Raft.Log.{last_index, last_term}
use cmsc.Raft.Node.{Raft, is_leader, is_candidate, resume, kill}
use cmsc.Raft.Vote.{
  RequestVoteArgs, RequestVoteReply, request_vote, start_election, become_leader, vote_reply,
}
use cmsc.Raft.Replicate.{
  AppendEntriesArgs, AppendEntriesReply, start, note_match, note_success, back_up, append_reply,
  append_entries,
}
use cmsc.Raft.Commit.{apply_step}
use cmsc.Raft.Step.{Act, resumes, kills, submits, follows, replies, applies}
use cmsc.Cluster.Network.{IsLocal}
use cmsc.Cluster.Network.Effect.{Kept, note_success-Same, back_up-Same}

-- A call that starts no election.
abbrev pub Calm : Raft → Raft → Type 0
Calm rf rf' =
    is_candidate rf'.state ≡ true
    → (is_candidate rf.state ≡ true) × (rf'.current_term ≡ rf.current_term)

-- A call that moves no commit index, and no match index, unless a new leader sets all to 0.
abbrev pub Books : Raft → Raft → Type 0
Books rf rf' =
    (rf'.commit_index ≡ rf.commit_index)
    × (rf'.peers ≡ rf.peers)
    × (rf'.id ≡ rf.id)
    × (((rf'.match_index ≡ rf.match_index)
          × (is_leader rf'.state ≡ true
              → (is_leader rf.state ≡ true) × (rf'.current_term ≡ rf.current_term)))
        ⊎ (rf'.match_index ≡ map (λ _. 0) rf.match_index))

abbrev pub Modest : Raft → Raft → Type 0
Modest rf rf' = Calm rf rf' × Books rf rf'

start-Modest :
    (command : Text) (result : ℕ × ℕ × Bool) (rf rf' : Raft)
    → start command rf ≡ ok (rf', result)
    → Modest rf rf'
unfolding start
start-Modest command result rf rf' h = ground arith

pub Act-Modest : {rf rf' : Raft} (a : Act rf rf') → IsLocal a → Modest rf rf'
unfolding resume kill
Act-Modest {rf} {rf'} (resumes draw e) l = ground arith
Act-Modest {rf} {rf'} (kills e) l = ground arith
Act-Modest {rf} {rf'} (submits command result e) l = start-Modest command result rf rf' e
Act-Modest (follows draw req reply e) l = absurd l
Act-Modest (replies draw peer args reply again e) l = absurd l
Act-Modest (applies e) l = absurd l

pub apply_step-Modest : (rf : Raft) → Modest rf (apply_step rf).0
unfolding apply_step
apply_step-Modest rf = ground arith

pub request_vote-Modest :
    (d e : ℕ) (req : RequestVoteArgs) (reply : RequestVoteReply) (rf rf' : Raft)
    → request_vote d e req rf ≡ ok (rf', reply)
    → Modest rf rf'
unfolding request_vote
request_vote-Modest d e req reply rf rf' h = ground arith

-- A voter keeps its log.
pub request_vote-Kept :
    (d e : ℕ) (req : RequestVoteArgs) (reply : RequestVoteReply) (rf rf' : Raft)
    → request_vote d e req rf ≡ ok (rf', reply)
    → Kept rf rf'
unfolding request_vote
request_vote-Kept d e req reply rf rf' h = (ground arith, ground arith)

pub start_election-Books :
    (draw : ℕ) (args : RequestVoteArgs) (rf rf' : Raft)
    → start_election draw rf ≡ ok (rf', some args)
    → Books rf rf'
unfolding start_election
start_election-Books draw args rf rf' h = ground arith

-- What the arguments of an election say of the log.
pub start_election-args :
    (draw : ℕ) (args : RequestVoteArgs) (rf rf' : Raft)
    → start_election draw rf ≡ ok (rf', some args)
    → (rf'.log ≡ rf.log)
      × (args.last_log_index ≡ last_index rf.log)
      × (last_term rf.log ≡ ok args.last_log_term)
      × (rf'.current_term ≡ rf.current_term + 1)
unfolding start_election
start_election-args draw args rf rf' h = (ground arith, ground arith, ground arith, ground arith)

become_leader-Modest : (rf rf' : Raft) → become_leader rf ≡ ok rf' → Modest rf rf'
unfolding become_leader
become_leader-Modest rf rf' h = ground arith

vote_reply-split :
    (draw term had has : ℕ) (reply : RequestVoteReply) (rf rf' : Raft)
    → vote_reply draw term had (some reply) rf ≡ ok (rf', has)
    → Modest rf rf' ⊎ (become_leader rf ≡ ok rf')
unfolding vote_reply
vote_reply-split draw term had has reply rf rf' h = ground arith

pub vote_reply-Modest :
    (draw term had has : ℕ) (reply : RequestVoteReply) (rf rf' : Raft)
    → vote_reply draw term had (some reply) rf ≡ ok (rf', has)
    → Modest rf rf'
vote_reply-Modest draw term had has reply rf rf' h =
    elim (vote_reply-split draw term had has reply rf rf' h) [
      | inl m ↦ m
      | inr led ↦ become_leader-Modest rf rf' led
    ]

pub append_reply-Calm :
    (draw peer : ℕ) (args : AppendEntriesArgs) (reply : AppendEntriesReply) (again : Bool)
    (rf rf' : Raft)
    → append_reply draw peer args (some reply) rf ≡ ok (rf', again)
    → Calm rf rf'
unfolding append_reply
append_reply-Calm draw peer args reply again rf rf' h = ground (
  arith,
  note_success-Same peer (args.prev_log_index + length args.entries) rf rf',
  back_up-Same peer rf rf',
)

pub append_entries-Calm :
    (draw : ℕ) (req : AppendEntriesArgs) (reply : AppendEntriesReply) (rf rf' : Raft)
    → append_entries draw req rf ≡ ok (rf', reply)
    → Calm rf rf'
unfolding append_entries
append_entries-Calm draw req reply rf rf' h = ground arith

-- A delivery leaves the leader's books.
pub append_entries-match :
    (draw : ℕ) (req : AppendEntriesArgs) (reply : AppendEntriesReply) (rf rf' : Raft)
    → append_entries draw req rf ≡ ok (rf', reply)
    → (rf'.match_index ≡ rf.match_index) × (rf'.peers ≡ rf.peers) × (rf'.id ≡ rf.id)
unfolding append_entries
append_entries-match draw req reply rf rf' h = (ground arith, ground arith, ground arith)

-- A reply moves nothing that the commit index depends on, or it is a success in the leader's term.
pub append_reply-cases :
    (draw peer : ℕ) (args : AppendEntriesArgs) (reply : AppendEntriesReply) (again : Bool)
    (rf rf' : Raft)
    → append_reply draw peer args (some reply) rf ≡ ok (rf', again)
    → Modest rf rf'
      ⊎ ((is_leader rf.state ≡ true)
          × (rf.current_term ≡ args.term)
          × (reply.success ≡ true)
          × (note_success peer (args.prev_log_index + length args.entries) rf ≡ ok rf'))
unfolding append_reply back_up
append_reply-cases draw peer args reply again rf rf' h = ground arith

pub note_match-cases :
    (peer m : ℕ) (rf rf' : Raft)
    → note_match peer m rf ≡ ok rf'
    → (rf' ≡ rf)
      ⊎ ((peer < length rf.match_index)
          × (rf'.match_index ≡ set rf.match_index peer m)
          × (rf'.commit_index ≡ rf.commit_index)
          × (rf'.peers ≡ rf.peers)
          × (rf'.id ≡ rf.id))
unfolding note_match
note_match-cases peer m rf rf' h = elim (Option-cases (get_elem? rf.match_index peer)) [
  | inl absent ↦ ground (arith, absent)
  | inr (old, present) ↦
      let within = get_elem?_lt rf.match_index peer present in ground (arith, present, within)
]
