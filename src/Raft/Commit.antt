-- ===== src/Raft/Commit.antt =====
-- hw3/raft/raft.go: `advanceCommitIndex` on a leader, and the loop that hands entries to the server.
pub mod Advance
pub mod Apply
use cmsc.Prelude.{
  ℕ, zero, suc, ◌+◌, ◌-◌, ◌≡◌, refl, Bool, true, false, Option, none, some, List, [], ◌∷◌, ltb, leb,
  ◌==◌, nat_eq, if◌then◌else◌, Outcome, ok, panic, indexed, ◌>>=◌, get_elem?,
}
use cmsc.Raft.Log
use cmsc.Raft.Log.{LogEntry}
use cmsc.Raft.Config.{NodeConfig}
use cmsc.Raft.Node.{Raft, ApplyMsg, quorum}

-- `p.ID != rf.id && rf.matchIndex[p.ID] >= n`, as what it adds to the count
unfoldable pub ack : Raft → ℕ → NodeConfig → Outcome ℕ
ack rf n p =
    if p.id == rf.id
    then ok 0
    else do m ← indexed (get_elem? rf.match_index p.id); ok (if leb n m then 1 else 0)

-- The loop over `rf.peers`.
unfoldable pub count_acks : Raft → ℕ → List NodeConfig → Outcome ℕ
unfolding ack
count_acks rf n [] = ok 0
count_acks rf n (p ∷ ps) = do k ← ack rf n p; rest ← count_acks rf n ps; ok (k + rest)

-- The loop of `advanceCommitIndex` from `n = rf.commitIndex + k` down: `k` rounds are left.
unfoldable pub scan_commit : Raft → ℕ → Outcome Raft
unfolding count_acks quorum Log.at
scan_commit rf zero = ok rf
scan_commit rf (suc k) =
    let n = rf.commit_index + suc k in
    let rest = scan_commit rf k in
    elim (Log.at rf.log n) [
      | none ↦ rest
      | some entry ↦
          if entry.term == rf.current_term
          then (do
            acks ← count_acks rf n rf.peers
            if leb (quorum rf) (1 + acks) then ok (record rf { commit_index = n }) else rest)
          else rest
    ]

unfoldable pub advance_commit_index : Raft → Outcome Raft
unfolding scan_commit Log.last_index
advance_commit_index rf = scan_commit rf (Log.last_index rf.log - rf.commit_index)

-- One turn of the inner loop of `applyLoop`. The mutex is released after it, when `emit` is sent.
pub data ApplyStep : Type 0 where
  up_to_date : ApplyStep
  missing : ApplyStep
  emit : ApplyMsg → ApplyStep

abbrev pub apply_msg : LogEntry → ApplyMsg
apply_msg e = record { index = e.index; term = e.term; command = e.command }

unfoldable pub apply_step : Raft → Raft × ApplyStep
unfolding Log.at
apply_step rf =
    if ltb rf.last_applied rf.commit_index
    then (
      record rf { last_applied = rf.last_applied + 1 },
      elim (Log.at rf.log (rf.last_applied + 1)) [ none ↦ missing | some e ↦ emit (apply_msg e) ],
    )
    else (rf, up_to_date)

-- The inner loop when nothing else takes the mutex between two turns, with fuel for the turns.
unfoldable pub drain : ℕ → Raft → Raft × List ApplyMsg
drain zero rf = (rf, [])
drain (suc fuel) rf =
    let (rf', step) = apply_step rf in
    elim step [
      | up_to_date ↦ (rf', [])
      | missing ↦ (rf', [])
      | emit msg ↦ let (last, rest) = drain fuel rf' in (last, msg ∷ rest)
    ]

-- `applyLoop` between two waits on the condition variable
unfoldable pub apply_pending : Raft → Raft × List ApplyMsg
apply_pending rf = if rf.dead then (rf, []) else drain (rf.commit_index - rf.last_applied) rf
