-- ===== src/Raft/Replicate/Follower.antt =====
-- hw3/raft/raft.go: `AppendEntries` as a whole, at a node whose log is well formed.
use native.Mathlib.Decide.{dec_le}
use mathlib.Core.Path.{subst}
use cmsc.Prelude.{
  ℕ, ◌+◌, ◌≤◌, ◌<◌, ◌≡◌, refl, sym, ◌∙◌, true, false, ◌⊎◌, List, [], ◌∷◌, ◌++◌, ok, ltb, nat_eq,
  if◌then◌else◌, length, take, drop, arith, inl, inr, Bool-cases, >>=-eq-ok, ok-injective,
  length-take, take-append-drop,
}
use cmsc.Raft.Log.{Log, LogEntry, last_index, at, append, truncate}
use cmsc.Raft.Log.WellFormed.{IsIndexed, IsWf, append-IsWf, truncate-IsWf}
use cmsc.Raft.Node.{Raft, become_follower, reset_election_timer}
use cmsc.Raft.Replicate.{
  AppendEntriesArgs, AppendEntriesReply, consistent, merge_entry, merge, follow_commit,
  replicate_log, append_entries,
}
use cmsc.Raft.Replicate.Merge.{reconcile, merge-reconcile}

-- A request that passes the consistency check starts inside the log.
pub consistent-lt :
    (req : AppendEntriesArgs) (l : Log)
    → IsWf l
    → consistent req l ≡ true
    → req.prev_log_index < length l.entries
unfolding consistent at
consistent-lt req l w h = ground (arith, w.nonempty)

-- The log that `AppendEntries` leaves.
abbrev pub reconciled : AppendEntriesArgs → List LogEntry → List LogEntry
reconciled req es =
    take (req.prev_log_index + 1) es ++ reconcile (drop (req.prev_log_index + 1) es) req.entries

merge-reconciled :
    (req : AppendEntriesArgs) (l : Log)
    → IsWf l
    → consistent req l ≡ true
    → IsIndexed (req.prev_log_index + 1) req.entries
    → merge l (req.prev_log_index + 1) req.entries
      ≡ ok (record { entries = reconciled req l.entries })
merge-reconciled req l w c x =
    let n = req.prev_log_index + 1 in
    let len : length (take n l.entries) ≡ n =
      omega (arith, length-take n l.entries, consistent-lt req l w c) in
    let done =
      merge-reconcile (take n l.entries) (drop n l.entries) req.entries (omega (arith, len))
        (rw len x) in
    rw (len, take-append-drop n l.entries) at done

merge_entry-cases :
    (l : Log) (idx : ℕ) (e : LogEntry)
    → (merge_entry l idx e ≡ ok l)
      ⊎ (merge_entry l idx e ≡ append l e)
      ⊎ (merge_entry l idx e ≡ append (truncate l idx) e)
unfolding merge_entry
merge_entry-cases l idx e = ground arith

merge_entry-IsWf :
    (l : Log) (idx : ℕ) (e : LogEntry) {l' : Log} → IsWf l → merge_entry l idx e ≡ ok l' → IsWf l'
merge_entry-IsWf l idx e w h = elim (merge_entry-cases l idx e) [
  | inl same ↦ subst IsWf (ok-injective (sym same ∙ h)) w
  | inr (inl put) ↦ append-IsWf l e w (sym put ∙ h)
  | inr (inr cut) ↦ append-IsWf (truncate l idx) e (truncate-IsWf l idx w) (sym cut ∙ h)
]

-- Whatever the request holds, a merge that does not panic leaves a well-formed log.
pub merge-IsWf :
    (l : Log) (idx : ℕ) (es : List LogEntry) {l' : Log} → IsWf l → merge l idx es ≡ ok l' → IsWf l'
unfolding merge
merge-IsWf l idx [] {l'} w h = subst IsWf (ground arith) w
merge-IsWf l idx (e ∷ es) w h =
    let (k, p, q) = >>=-eq-ok (merge_entry l idx e) (λ k. merge k (idx + 1) es) h in
    merge-IsWf k (idx + 1) es (merge_entry-IsWf l idx e w p) q

-- The three ways in which `AppendEntries` may end, by the tests of the code.
pub data Handled (req : AppendEntriesArgs) (rf rf' : Raft) (reply : AppendEntriesReply)
    : Type 0 where
  stale :
      req.term < rf.current_term
      → rf' ≡ rf
      → reply ≡ record { term = rf.current_term; success = false }
      → Handled req rf rf' reply
  rejected :
      rf.current_term ≤ req.term
      → consistent req rf.log ≡ false
      → rf'.current_term ≡ req.term
      → rf'.log ≡ rf.log
      → rf'.commit_index ≡ rf.commit_index
      → reply ≡ record { term = req.term; success = false }
      → Handled req rf rf' reply
  accepted :
      rf.current_term ≤ req.term
      → consistent req rf.log ≡ true
      → rf'.current_term ≡ req.term
      → rf'.log.entries ≡ reconciled req rf.log.entries
      → rf'.commit_index ≡ follow_commit req.leader_commit (last_index rf'.log) rf.commit_index
      → reply ≡ record { term = req.term; success = true }
      → Handled req rf rf' reply

-- The node in the term of the request, its timer reset.
abbrev met : ℕ → AppendEntriesArgs → Raft → Raft
met draw req rf =
    if ltb rf.current_term req.term
    then become_follower draw req.term rf
    else reset_election_timer draw rf

met_same :
    (draw : ℕ) (req : AppendEntriesArgs) (rf : Raft)
    → rf.current_term ≤ req.term
    → ((met draw req rf).log ≡ rf.log)
      × ((met draw req rf).current_term ≡ req.term)
      × ((met draw req rf).commit_index ≡ rf.commit_index)
unfolding become_follower reset_election_timer
met_same draw req rf h = ground arith

replicate_log-accept :
    (req : AppendEntriesArgs) (rf : Raft) (log : Log)
    → consistent req rf.log ≡ true
    → merge rf.log (req.prev_log_index + 1) req.entries ≡ ok log
    → replicate_log req rf
      ≡ ok (
        record rf {
          log = log;
          commit_index = follow_commit req.leader_commit (last_index log) rf.commit_index;
        },
        record { term = rf.current_term; success = true },
      )
unfolding replicate_log follow_commit
replicate_log-accept req rf log c m = rw (c, m, replicate_log) refl

replicate_log-reject :
    (req : AppendEntriesArgs) (rf : Raft)
    → consistent req rf.log ≡ false
    → replicate_log req rf ≡ ok (rf, record { term = rf.current_term; success = false })
unfolding replicate_log
replicate_log-reject req rf c = rw (c, replicate_log) refl

append_entries-current :
    (draw : ℕ) (req : AppendEntriesArgs) (rf : Raft)
    → rf.current_term ≤ req.term
    → append_entries draw req rf ≡ replicate_log req (met draw req rf)
unfolding append_entries
append_entries-current draw req rf h = ground arith

-- On a well-formed log, and for entries that carry the indices that follow `prevLogIndex`, the handler
-- never panics, and it does one of the three.
pub append_entries-Handled :
    (draw : ℕ) (req : AppendEntriesArgs) (rf : Raft)
    → IsWf rf.log
    → IsIndexed (req.prev_log_index + 1) req.entries
    → (rf' : Raft) × (reply : AppendEntriesReply) × (append_entries draw req rf ≡ ok (rf', reply))
      × Handled req rf rf' reply
append_entries-Handled draw req rf w x = elim (dec_le rf.current_term req.term) [
  | yes current ↦
      let (same_log, same_term, same_commit) = met_same draw req rf current in
      elim (Bool-cases (consistent req rf.log)) [
        | inl c ↦ (
          _,
          _,
          append_entries-current draw req rf current
              ∙ replicate_log-accept req (met draw req rf) _ (rw same_log c)
                  (rw same_log (merge-reconciled req rf.log w c x)),
          accepted current c same_term refl (rw same_commit refl) (rw same_term refl),
        )
        | inr c ↦ (
          _,
          _,
          append_entries-current draw req rf current
              ∙ replicate_log-reject req (met draw req rf) (rw same_log c),
          rejected current c same_term same_log same_commit (rw same_term refl),
        )
      ]
  | no stale_term ↦
      let lt : req.term < rf.current_term = omega arith in
      (
        rf,
        record { term = rf.current_term; success = false },
        unfold append_entries in ground arith,
        stale lt refl refl,
      )
]
