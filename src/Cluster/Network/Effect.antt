-- ===== src/Cluster/Network/Effect.antt =====
-- hw3/raft/raft.go: what a call does to the log of its node.
use cmsc.Prelude.{
  ℕ, zero, suc, ◌+◌, ◌≤◌, ◌≡◌, refl, ◌∙◌, true, ◌⊎◌, inl, inr, none, some, [], ◌∷◌, ◌++◌, arith, ok,
  Bool, Text, Option, length, codes, >>=-eq-ok,
}
use cmsc.Raft.Log.{LogEntry, append, last_index}
use cmsc.Raft.Log.WellFormed.{append_inv}
use cmsc.Raft.Node.{Raft, is_leader, is_candidate, resume, kill}
use cmsc.Raft.Vote.{
  RequestVoteArgs, RequestVoteReply, request_vote, start_election, become_leader, vote_reply,
}
use cmsc.Raft.Replicate.{
  AppendEntriesArgs, AppendEntriesReply, start, note_match, note_success, back_up, append_reply,
  append_entries,
}
use cmsc.Raft.Commit.{scan_commit, advance_commit_index, apply_step}
use cmsc.Raft.Step.{Act, resumes, kills, submits, follows, replies, applies}
use cmsc.Cluster.Network.{IsLocal}

-- In its term a leader stays one, and no term comes back.
abbrev pub Steady : Raft → Raft → Type 0
Steady rf rf' =
    (rf.current_term ≤ rf'.current_term)
    × (rf'.current_term ≡ rf.current_term → is_leader rf.state ≡ true → is_leader rf'.state ≡ true)

-- A call that leaves the log, and makes no leader.
abbrev pub Kept : Raft → Raft → Type 0
Kept rf rf' =
    (rf'.log ≡ rf.log)
    × (is_leader rf'.state ≡ true
        → (is_leader rf.state ≡ true) × (rf'.current_term ≡ rf.current_term))

-- A leader, an old or a new one, that has appended an entry of its term.
pub record Led (rf rf' : Raft) : Type 0 where
  pub entry : LogEntry
  pub leads : is_leader rf'.state ≡ true
  pub term : rf'.current_term ≡ rf.current_term
  pub own : entry.term ≡ rf.current_term
  pub grown : rf'.log.entries ≡ rf.log.entries ++ entry ∷ []
  pub before : (is_leader rf.state ≡ true) ⊎ (is_candidate rf.state ≡ true)

abbrev pub Effect : Raft → Raft → Type 0
Effect rf rf' = Steady rf rf' × (Kept rf rf' ⊎ Led rf rf')

-- The state and the log as they were.
abbrev pub Same : Raft → Raft → Type 0
Same rf rf' = (rf'.log ≡ rf.log) × (rf'.current_term ≡ rf.current_term) × (rf'.state ≡ rf.state)

Same-Effect : (rf rf' : Raft) → Same rf rf' → Effect rf rf'
Same-Effect rf rf' s = (ground arith, inl (ground arith))

scan_commit-Same : (k : ℕ) (rf rf' : Raft) → scan_commit rf k ≡ ok rf' → Same rf rf'
unfolding scan_commit
scan_commit-Same zero rf rf' h = ground arith
scan_commit-Same (suc k) rf rf' h = ground (arith, scan_commit-Same k rf rf')

pub note_match-Same : (peer m : ℕ) (rf rf' : Raft) → note_match peer m rf ≡ ok rf' → Same rf rf'
unfolding note_match
note_match-Same peer m rf rf' h = ground arith

pub back_up-Same : (peer : ℕ) (rf rf' : Raft) → back_up peer rf ≡ ok rf' → Same rf rf'
unfolding back_up
back_up-Same peer rf rf' h = ground arith

pub note_success-Same : (peer m : ℕ) (rf rf' : Raft) → note_success peer m rf ≡ ok rf' → Same rf rf'
unfolding note_success advance_commit_index
note_success-Same peer m rf rf' h =
    let (noted, p, q) = >>=-eq-ok (note_match peer m rf) advance_commit_index h in
    let (l, t, s) = note_match-Same peer m rf noted p in
    let (l', t', s') = scan_commit-Same _ noted rf' q in (l' ∙ l, t' ∙ t, s' ∙ s)

pub append_reply-Effect :
    (draw peer : ℕ) (args : AppendEntriesArgs) (reply : Option AppendEntriesReply) (again : Bool)
    (rf rf' : Raft)
    → append_reply draw peer args reply rf ≡ ok (rf', again)
    → Effect rf rf'
unfolding append_reply
append_reply-Effect draw peer args none again rf rf' h = Same-Effect rf rf' (ground arith)
append_reply-Effect draw peer args (some reply) again rf rf' h = (
  ground (
    arith,
    note_success-Same peer (args.prev_log_index + length args.entries) rf rf',
    back_up-Same peer rf rf',
  ),
  inl (
      ground (
        arith,
        note_success-Same peer (args.prev_log_index + length args.entries) rf rf',
        back_up-Same peer rf rf',
      )),
)

appends-Led :
    (rf rf' : Raft) (command : Text)
    → append rf.log
        (record { index = last_index rf.log + 1; term = rf.current_term; command = command })
      ≡ ok rf'.log
    → is_leader rf'.state ≡ true
    → rf'.current_term ≡ rf.current_term
    → (is_leader rf.state ≡ true) ⊎ (is_candidate rf.state ≡ true)
    → Led rf rf'
appends-Led rf rf' command h l t b = record {
  entry = record { index = last_index rf.log + 1; term = rf.current_term; command = command };
  leads = l;
  term = t;
  own = refl;
  grown = ground (
    arith,
    append_inv rf.log
        (record { index = last_index rf.log + 1; term = rf.current_term; command = command }) h,
  );
  before = b;
}

start-cases :
    (command : Text) (result : ℕ × ℕ × Bool) (rf rf' : Raft)
    → start command rf ≡ ok (rf', result)
    → (rf' ≡ rf)
      ⊎ ((append rf.log
              (record { index = last_index rf.log + 1; term = rf.current_term; command = command })
            ≡ ok rf'.log)
          × (is_leader rf'.state ≡ true)
          × (rf'.current_term ≡ rf.current_term)
          × (is_leader rf.state ≡ true))
unfolding start
start-cases command result rf rf' h = ground arith

start-Effect :
    (command : Text) (result : ℕ × ℕ × Bool) (rf rf' : Raft)
    → start command rf ≡ ok (rf', result)
    → Effect rf rf'
start-Effect command result rf rf' h = elim (start-cases command result rf rf' h) [
  | inl same ↦ Same-Effect rf rf' (ground (arith, same))
  | inr (put, leads, term, led) ↦ (
    (omega (arith, term), λ _ _. leads),
    inr (appends-Led rf rf' command put leads term (inl led)),
  )
]

pub Act-Effect : {rf rf' : Raft} (a : Act rf rf') → IsLocal a → Effect rf rf'
unfolding resume kill
Act-Effect {rf} {rf'} (resumes draw e) l = Same-Effect rf rf' (ground arith)
Act-Effect {rf} {rf'} (kills e) l = Same-Effect rf rf' (ground arith)
Act-Effect {rf} {rf'} (submits command result e) l = start-Effect command result rf rf' e
Act-Effect (follows draw req reply e) l = absurd l
Act-Effect (replies draw peer args reply again e) l = absurd l
Act-Effect (applies e) l = absurd l

pub apply_step-Effect : (rf : Raft) → Effect rf (apply_step rf).0
unfolding apply_step
apply_step-Effect rf = Same-Effect rf (apply_step rf).0 (ground arith)

pub request_vote-Effect :
    (d e : ℕ) (req : RequestVoteArgs) (reply : RequestVoteReply) (rf rf' : Raft)
    → request_vote d e req rf ≡ ok (rf', reply)
    → Effect rf rf'
unfolding request_vote
request_vote-Effect d e req reply rf rf' h = (ground arith, inl (ground arith))

pub start_election-Effect :
    (draw : ℕ) (args : RequestVoteArgs) (rf rf' : Raft)
    → start_election draw rf ≡ ok (rf', some args)
    → Effect rf rf'
unfolding start_election
start_election-Effect draw args rf rf' h = (ground arith, inl (ground arith))

become_leader-cases :
    (rf rf' : Raft)
    → become_leader rf ≡ ok rf'
    → (append rf.log
          (record { index = last_index rf.log + 1; term = rf.current_term; command = codes "noop" })
        ≡ ok rf'.log)
      × (is_leader rf'.state ≡ true)
      × (rf'.current_term ≡ rf.current_term)
unfolding become_leader
become_leader-cases rf rf' h = (ground arith, ground arith, ground arith)

vote_reply-outcome :
    (draw term had has : ℕ) (reply : RequestVoteReply) (rf rf' : Raft)
    → vote_reply draw term had (some reply) rf ≡ ok (rf', has)
    → (Steady rf rf' × Kept rf rf') ⊎ ((become_leader rf ≡ ok rf') × (is_candidate rf.state ≡ true))
unfolding vote_reply
vote_reply-outcome draw term had has reply rf rf' h = ground arith

pub vote_reply-Effect :
    (draw term had has : ℕ) (reply : RequestVoteReply) (rf rf' : Raft)
    → vote_reply draw term had (some reply) rf ≡ ok (rf', has)
    → Effect rf rf'
vote_reply-Effect draw term had has reply rf rf' h =
    elim (vote_reply-outcome draw term had has reply rf rf' h) [
      | inl (steady, kept) ↦ (steady, inl kept)
      | inr (led, stood) ↦
          let (put, leads, same) = become_leader-cases rf rf' led in
          (
            (omega (arith, same), λ _ _. leads),
            inr (appends-Led rf rf' (codes "noop") put leads same (inr stood)),
          )
    ]

-- A delivery changes the log by the merge alone.
pub append_entries-Steady :
    (draw : ℕ) (req : AppendEntriesArgs) (reply : AppendEntriesReply) (rf rf' : Raft)
    → append_entries draw req rf ≡ ok (rf', reply)
    → Steady rf rf'
      × (is_leader rf'.state ≡ true
          → (is_leader rf.state ≡ true) × (rf'.current_term ≡ rf.current_term))
unfolding append_entries
append_entries-Steady draw req reply rf rf' h = (ground arith, ground arith)
