-- ===== src/Raft/Step/Sound.antt =====
-- hw3/raft/raft.go: what every sequence of calls keeps: the shape of the log, and a slot for each
-- node of the cluster in the slices of the leader.
use cmsc.Prelude.{
  ℕ, zero, suc, ◌+◌, ◌≡◌, sym, ap, ◌∙◌, Bool, ◌⊎◌, Option, ok, length, arith, >>=-eq-ok, Text,
  length-set, length-map, length-replicate, codes, inl, inr,
}
use cmsc.Raft.Log.{last_index, append}
use cmsc.Raft.Log.WellFormed.{IsWf, new-IsWf, append-IsWf}
use cmsc.Raft.Config.{ClusterConfig}
use cmsc.Raft.Node.{Raft, new_paused, resume, kill}
use cmsc.Raft.Vote.{
  RequestVoteArgs, RequestVoteReply, request_vote, start_election, become_leader, vote_reply,
}
use cmsc.Raft.Replicate.{
  AppendEntriesArgs, AppendEntriesReply, merge, append_entries, start, note_match, note_success,
  back_up, append_reply,
}
use cmsc.Raft.Replicate.Follower.{merge-IsWf}
use cmsc.Raft.Commit.{scan_commit, advance_commit_index, apply_step}
use cmsc.Raft.Step.{
  Act, resumes, kills, submits, follows, replies, applies, Step, acts, votes, elects, counts, Reach,
  here, next,
}

pub record Sound (rf : Raft) : Type 0 where
  pub log_wf : IsWf rf.log
  pub next_fits : length rf.next_index ≡ length rf.peers
  pub match_fits : length rf.match_index ≡ length rf.peers

-- A call that leaves the log, the peers and the sizes of the slices.
abbrev SameShape : Raft → Raft → Type 0
SameShape rf rf' =
    (rf'.log ≡ rf.log)
    × (rf'.peers ≡ rf.peers)
    × (rf'.id ≡ rf.id)
    × (length rf'.next_index ≡ length rf.next_index)
    × (length rf'.match_index ≡ length rf.match_index)

SameShape-Sound : (rf rf' : Raft) → SameShape rf rf' → Sound rf → Sound rf'
SameShape-Sound rf rf' (l, p, i, n, m) s = record {
  log_wf = rw l s.log_wf;
  next_fits = n ∙ s.next_fits ∙ ap length (sym p);
  match_fits = m ∙ s.match_fits ∙ ap length (sym p);
}

pub new_paused-Sound : (id : ℕ) (cfg : ClusterConfig) → Sound (new_paused id cfg)
unfolding new_paused
new_paused-Sound id cfg = record {
  log_wf = new-IsWf;
  next_fits = length-replicate (length cfg.nodes) 0;
  match_fits = length-replicate (length cfg.nodes) 0;
}

request_vote-shape :
    (d e : ℕ) (req : RequestVoteArgs) (reply : RequestVoteReply) (rf rf' : Raft)
    → request_vote d e req rf ≡ ok (rf', reply)
    → SameShape rf rf'
unfolding request_vote
request_vote-shape d e req reply rf rf' h =
    (ground arith, ground arith, ground arith, ground arith, ground arith)

start_election-shape :
    (draw : ℕ) (args : Option RequestVoteArgs) (rf rf' : Raft)
    → start_election draw rf ≡ ok (rf', args)
    → SameShape rf rf'
unfolding start_election
start_election-shape draw args rf rf' h =
    (ground arith, ground arith, ground arith, ground arith, ground arith)

scan_commit-shape : (k : ℕ) (rf rf' : Raft) → scan_commit rf k ≡ ok rf' → SameShape rf rf'
unfolding scan_commit
scan_commit-shape zero rf rf' h = ground arith
scan_commit-shape (suc k) rf rf' h = ground (arith, scan_commit-shape k rf rf')

advance_commit_index-shape : (rf rf' : Raft) → advance_commit_index rf ≡ ok rf' → SameShape rf rf'
unfolding advance_commit_index
advance_commit_index-shape rf rf' h = scan_commit-shape _ rf rf' h

note_match-shape : (peer m : ℕ) (rf rf' : Raft) → note_match peer m rf ≡ ok rf' → SameShape rf rf'
unfolding note_match
note_match-shape peer m rf rf' h =
    ground (arith, length-set rf.next_index peer (m + 1), length-set rf.match_index peer m)

back_up-shape : (peer : ℕ) (rf rf' : Raft) → back_up peer rf ≡ ok rf' → SameShape rf rf'
unfolding back_up
back_up-shape peer rf rf' h = grind (arith, length-set)

note_success-shape :
    (peer m : ℕ) (rf rf' : Raft) → note_success peer m rf ≡ ok rf' → SameShape rf rf'
unfolding note_success
note_success-shape peer m rf rf' h =
    let (noted, p, q) = >>=-eq-ok (note_match peer m rf) advance_commit_index h in
    let (a, b, c, d, e) = note_match-shape peer m rf noted p in
    let (a', b', c', d', e') = advance_commit_index-shape noted rf' q in
    (a' ∙ a, b' ∙ b, c' ∙ c, d' ∙ d, e' ∙ e)

append_reply-cases :
    (draw peer : ℕ) (args : AppendEntriesArgs) (reply : Option AppendEntriesReply) (again : Bool)
    (rf rf' : Raft)
    → append_reply draw peer args reply rf ≡ ok (rf', again)
    → SameShape rf rf'
      ⊎ (note_success peer (args.prev_log_index + length args.entries) rf ≡ ok rf')
      ⊎ (back_up peer rf ≡ ok rf')
unfolding append_reply
append_reply-cases draw peer args reply again rf rf' h = ground arith

append_reply-shape :
    (draw peer : ℕ) (args : AppendEntriesArgs) (reply : Option AppendEntriesReply) (again : Bool)
    (rf rf' : Raft)
    → append_reply draw peer args reply rf ≡ ok (rf', again)
    → SameShape rf rf'
append_reply-shape draw peer args reply again rf rf' h =
    elim (append_reply-cases draw peer args reply again rf rf' h) [
      | inl same ↦ same
      | inr (inl e) ↦ note_success-shape peer _ rf rf' e
      | inr (inr e) ↦ back_up-shape peer rf rf' e
    ]

-- A call that may only replace the log.
abbrev SameSlices : Raft → Raft → Type 0
SameSlices rf rf' =
    (rf'.peers ≡ rf.peers)
    × (length rf'.next_index ≡ length rf.next_index)
    × (length rf'.match_index ≡ length rf.match_index)

SameSlices-Sound : (rf rf' : Raft) → SameSlices rf rf' → IsWf rf'.log → Sound rf → Sound rf'
SameSlices-Sound rf rf' (p, n, m) w s = record {
  log_wf = w;
  next_fits = n ∙ s.next_fits ∙ ap length (sym p);
  match_fits = m ∙ s.match_fits ∙ ap length (sym p);
}

become_leader_log :
    (rf rf' : Raft)
    → become_leader rf ≡ ok rf'
    → SameSlices rf rf'
      × (append rf.log (record {
        index = last_index rf.log + 1;
        term = rf.current_term;
        command = codes "noop";
      })
          ≡ ok rf'.log)
unfolding become_leader
become_leader_log rf rf' h = ground (
  arith,
  length-map (λ (_ : ℕ). last_index rf.log + 1) rf.next_index,
  length-map (λ (_ : ℕ). zero) rf.match_index,
)

become_leader-Sound : (rf rf' : Raft) → become_leader rf ≡ ok rf' → Sound rf → Sound rf'
become_leader-Sound rf rf' h s =
    let (same, e) = become_leader_log rf rf' h in
    SameSlices-Sound rf rf' same (append-IsWf rf.log _ s.log_wf e) s

vote_reply-cases :
    (draw term had has : ℕ) (reply : Option RequestVoteReply) (rf rf' : Raft)
    → vote_reply draw term had reply rf ≡ ok (rf', has)
    → SameShape rf rf' ⊎ (become_leader rf ≡ ok rf')
unfolding vote_reply
vote_reply-cases draw term had has reply rf rf' h = ground arith

vote_reply-Sound :
    (draw term had has : ℕ) (reply : Option RequestVoteReply) (rf rf' : Raft)
    → vote_reply draw term had reply rf ≡ ok (rf', has)
    → Sound rf
    → Sound rf'
vote_reply-Sound draw term had has reply rf rf' h s =
    elim (vote_reply-cases draw term had has reply rf rf' h) [
      | inl same ↦ SameShape-Sound rf rf' same s
      | inr e ↦ become_leader-Sound rf rf' e s
    ]

start_log :
    (command : Text) (result : ℕ × ℕ × Bool) (rf rf' : Raft)
    → start command rf ≡ ok (rf', result)
    → SameShape rf rf'
      ⊎ (SameSlices rf rf'
          × (append rf.log (record {
            index = last_index rf.log + 1;
            term = rf.current_term;
            command = command;
          })
              ≡ ok rf'.log))
unfolding start
start_log command result rf rf' h = ground arith

start-Sound :
    (command : Text) (result : ℕ × ℕ × Bool) (rf rf' : Raft)
    → start command rf ≡ ok (rf', result)
    → Sound rf
    → Sound rf'
start-Sound command result rf rf' h s = elim (start_log command result rf rf' h) [
  | inl same ↦ SameShape-Sound rf rf' same s
  | inr (same, e) ↦ SameSlices-Sound rf rf' same (append-IsWf rf.log _ s.log_wf e) s
]

append_entries_log :
    (draw : ℕ) (req : AppendEntriesArgs) (reply : AppendEntriesReply) (rf rf' : Raft)
    → append_entries draw req rf ≡ ok (rf', reply)
    → SameShape rf rf'
      ⊎ (SameSlices rf rf' × (merge rf.log (req.prev_log_index + 1) req.entries ≡ ok rf'.log))
unfolding append_entries
append_entries_log draw req reply rf rf' h = ground arith

append_entries-Sound :
    (draw : ℕ) (req : AppendEntriesArgs) (reply : AppendEntriesReply) (rf rf' : Raft)
    → append_entries draw req rf ≡ ok (rf', reply)
    → Sound rf
    → Sound rf'
append_entries-Sound draw req reply rf rf' h s = elim (append_entries_log draw req reply rf rf' h) [
  | inl same ↦ SameShape-Sound rf rf' same s
  | inr (same, e) ↦ SameSlices-Sound rf rf' same (merge-IsWf rf.log _ req.entries s.log_wf e) s
]

Act-Sound : {rf rf' : Raft} → Act rf rf' → Sound rf → Sound rf'
unfolding resume kill apply_step
Act-Sound (resumes draw e) s = ground arith
Act-Sound (kills e) s = ground arith
Act-Sound (submits command result e) s = start-Sound command result _ _ e s
Act-Sound (follows draw req reply e) s = append_entries-Sound draw req reply _ _ e s
Act-Sound (replies draw peer args reply again e) s =
    SameShape-Sound _ _ (append_reply-shape draw peer args reply again _ _ e) s
Act-Sound (applies e) s = ground arith

Step-Sound : {rf rf' : Raft} → Step rf rf' → Sound rf → Sound rf'
Step-Sound (acts act) s = Act-Sound act s
Step-Sound (votes d d' req reply e) s =
    SameShape-Sound _ _ (request_vote-shape d d' req reply _ _ e) s
Step-Sound (elects draw args e) s = SameShape-Sound _ _ (start_election-shape draw args _ _ e) s
Step-Sound (counts draw term had has reply e) s = vote_reply-Sound draw term had has reply _ _ e s

-- From the start, whatever the calls, messages and replies, the log of a node is the sentinel
-- followed by entries at their own indices, and the slices of the leader have one slot for each node.
pub Reach-Sound :
    (id : ℕ) (cfg : ClusterConfig) {rf : Raft} → Reach (new_paused id cfg) rf → Sound rf
Reach-Sound id cfg here = new_paused-Sound id cfg
Reach-Sound id cfg (next r st) = Step-Sound st (Reach-Sound id cfg r)
