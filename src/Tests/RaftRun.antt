-- ===== src/Tests/RaftRun.antt =====
-- hw3/raft/raft.go and hw3/internal/log/log.go at the sample nodes.
use cmsc.Prelude.{
  length, ◌++◌, take, ℕ, ◌≤◌, ◌<◌, ◌≡◌, refl, true, ◌↔◌, none, some, [], ◌∷◌, arith, ok, nat_eq,
}
use cmsc.Raft.Log.{Log, sentinel, append, at, truncate, last_index, last_term}
use cmsc.Raft.Log.WellFormed.{IsIndexed, IsWf, at-append, at-truncate}
use cmsc.Raft.Node
use cmsc.Raft.Node.{Raft, new_paused}
use cmsc.Raft.Vote.{RequestVoteArgs, RequestVoteReply, request_vote, start_election}
use cmsc.Raft.Vote.Grant.{MayVote, UpToDate, request_vote-granted}
use cmsc.Raft.Replicate.{
  AppendEntriesArgs, AppendEntriesReply, append_entries, append_args, consistent,
}
use cmsc.Raft.Replicate.Answer.{Answered, append_entries-Answered}
use cmsc.Raft.Replicate.Sender.{append_args-rest}
use cmsc.Raft.Replicate.Catchup.{terms, append_entries-terms}
use cmsc.Raft.Commit.{advance_commit_index, apply_pending}
use cmsc.Raft.Commit.Advance.{Committable, advance_commit_index-highest}
use cmsc.Raft.Commit.Apply.{msgs, apply_pending-msgs}
use cmsc.Raft.Step.{Keeps, Reach, here, next, elects, Reach-Keeps, one_vote_per_term}
use cmsc.Raft.Step.Sound.{Sound, Reach-Sound}
use cmsc.Tests.Samples.{three, entry, two_entries, behind, leading}

two_entries-IsWf : IsWf two_entries
two_entries-IsWf = record { indexed = omega arith; nonempty = omega arith }

-- A leader of term 2 overwrites the second entry and adds a third.
abbrev conflicting : AppendEntriesArgs
conflicting = record {
  term = 2;
  leader_id = 2;
  prev_log_index = 1;
  prev_log_term = 1;
  entries = entry 2 2 ∷ entry 3 2 ∷ [];
  leader_commit = 2;
}

append_entries-Answered_example :
    (rf' : Raft) × (reply : AppendEntriesReply) × (append_entries 5 conflicting behind
      ≡ ok (rf', reply))
    × Answered conflicting behind rf' reply
append_entries-Answered_example =
    append_entries-Answered 5 conflicting behind two_entries-IsWf (omega arith)

abbrev three_entries : Log
three_entries = record { entries = sentinel ∷ entry 1 1 ∷ entry 2 1 ∷ entry 3 2 ∷ [] }

at-append_example : at three_entries 3 ≡ some (entry 3 2)
unfolding append
at-append_example = at-append two_entries (entry 3 2) {l' = three_entries} 3 two_entries-IsWf refl

at-truncate_example : at (truncate two_entries 2) 2 ≡ none
at-truncate_example = at-truncate two_entries 2 2

abbrev vote_request : RequestVoteArgs
vote_request = record { term = 2; candidate_id = 2; last_log_index = 2; last_log_term = 1 }

request_vote-granted_example :
    (r : Raft × RequestVoteReply) × (request_vote 3 4 vote_request behind ≡ ok r)
    × ((r.1.vote_granted ≡ true) ↔ (
        (1 ≤ vote_request.term)
        × MayVote vote_request behind
        × UpToDate vote_request 1 (last_index two_entries)))
    × (r.1.vote_granted ≡ true → (r.0.voted_for ≡ some 2) × (r.0.current_term ≡ 2))
    × ((r.1.term ≡ r.0.current_term) × (r.0.log ≡ two_entries) × (r.0.commit_index ≡ 1))
unfolding last_term
request_vote-granted_example = request_vote-granted 3 4 vote_request behind 1 refl

abbrev granted_to_two : Raft
granted_to_two = record behind {
  current_term = 2;
  voted_for = some 2;
  election_timer = some 150000004;
}

grants :
    request_vote 3 4 vote_request behind
    ≡ ok (granted_to_two, record { term = 2; vote_granted = true })
unfolding request_vote
grants = refl

one_vote_per_term_example : vote_request.candidate_id ≡ 2
unfolding request_vote
one_vote_per_term_example =
    one_vote_per_term 3 4 3 4 vote_request vote_request (record { term = 2; vote_granted = true })
      (record { term = 2; vote_granted = true }) behind granted_to_two granted_to_two granted_to_two
      grants refl here refl refl refl

stands : Reach behind (record behind {
  current_term = 2;
  voted_for = some 1;
  state = Node.candidate;
  election_timer = some 150000009;
})
unfolding start_election
stands = next here (elects 9 _ refl)

Reach-Keeps_example : Keeps behind (record behind {
  current_term = 2;
  voted_for = some 1;
  state = Node.candidate;
  election_timer = some 150000009;
})
Reach-Keeps_example = Reach-Keeps stands

fresh_election : (rf : Raft) × Reach (new_paused 1 three) rf
unfolding start_election new_paused
fresh_election = (_, next here (elects 9 _ refl))

Reach-Sound_example : Sound fresh_election.0
Reach-Sound_example = Reach-Sound 1 three fresh_election.1

advance_commit_index-highest_example :
    (c : ℕ) × (advance_commit_index leading ≡ ok (record leading { commit_index = c }))
    × (1 ≤ c)
    × (1 < c → (c ≤ last_index two_entries) × Committable leading c)
    × ((n : ℕ) → c < n → ¬ Committable leading n)
advance_commit_index-highest_example = advance_commit_index-highest leading (omega arith)

advances : advance_commit_index leading ≡ ok (record leading { commit_index = 2 })
unfolding advance_commit_index
advances = refl

apply_pending-msgs_example :
    apply_pending leading ≡ (record leading { last_applied = 1 }, msgs two_entries 0 1)
unfolding last_index
apply_pending-msgs_example = apply_pending-msgs leading refl (omega arith) (omega arith)

-- A leader of term 1 that has to send its second entry to node 1.
abbrev sending : Raft
sending = record leading { next_index = 3 ∷ 2 ∷ 3 ∷ [] }

append_args-rest_example :
    (args : AppendEntriesArgs) × (append_args 1 sending ≡ ok (some args))
    × ((args.prev_log_index ≡ 1)
        × (args.term ≡ sending.current_term)
        × (take 2 sending.log.entries ++ args.entries ≡ sending.log.entries)
        × IsIndexed 2 args.entries
        × (consistent args sending.log ≡ true))
append_args-rest_example = append_args-rest 1 1 sending refl two_entries-IsWf refl (omega arith)

-- A follower whose second entry is of another term.
abbrev diverged : Raft
diverged = record behind { log = record { entries = sentinel ∷ entry 1 1 ∷ entry 2 0 ∷ [] } }

diverged-IsWf : IsWf diverged.log
diverged-IsWf = record { indexed = omega arith; nonempty = omega arith }

append_entries-terms_example :
    (args : AppendEntriesArgs) × (foll' : Raft) × (append_args 1 sending ≡ ok (some args))
    × ((append_entries 5 args diverged
          ≡ ok (foll', record { term = sending.current_term; success = true }))
        × (terms (take (length sending.log.entries) foll'.log.entries) ≡ terms sending.log.entries))
append_entries-terms_example =
    append_entries-terms 5 1 1 sending diverged refl two_entries-IsWf diverged-IsWf refl
      (omega arith) (omega arith) refl
