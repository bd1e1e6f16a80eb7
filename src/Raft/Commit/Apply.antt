-- ===== src/Raft/Commit/Apply.antt =====
-- hw3/raft/raft.go: `applyLoop` sends the committed entries, each once and in the order of the log.
use native.Mathlib.Numerals.{add-one}
use mathlib.Core.Path.{subst}
use cmsc.Prelude.{
  ℕ, zero, suc, ◌+◌, ◌-◌, ◌≤◌, ◌<◌, ◌≡◌, false, some, List, [], ◌∷◌, map, nat_eq, get_elem?, take,
  drop, arith, get_elem?-some,
}
use cmsc.Raft.Log.{Log, LogEntry, last_index, at}
use cmsc.Raft.Node.{Raft, ApplyMsg}
use cmsc.Raft.Commit.{emit, apply_msg, apply_step, drain, apply_pending}

-- The messages for the entries behind index `from`, up to `from + k`.
abbrev pub msgs : Log → ℕ → ℕ → List ApplyMsg
msgs l from k = map apply_msg (take k (drop (suc from) l.entries))

drop-cons :
    (n : ℕ) (xs : List LogEntry) {e : LogEntry}
    → get_elem? xs n ≡ some e
    → drop n xs ≡ e ∷ drop (suc n) xs
drop-cons n [] h = absurd (ground arith)
drop-cons zero (x ∷ xs) h = ground arith
drop-cons (suc n) (x ∷ xs) h = drop-cons n xs h

pub at_elem :
    (l : Log) (i : ℕ)
    → 0 < i
    → i ≤ last_index l
    → (e : LogEntry) × (at l i ≡ some e) × (get_elem? l.entries i ≡ some e)
unfolding at last_index
at_elem l i pos h = let (e, p) = get_elem?-some l.entries i (omega arith) in (e, ground arith, p)

pub apply_step-emit :
    (rf : Raft) (e : LogEntry)
    → rf.last_applied < rf.commit_index
    → at rf.log (rf.last_applied + 1) ≡ some e
    → apply_step rf ≡ (record rf { last_applied = rf.last_applied + 1 }, emit (apply_msg e))
unfolding apply_step
apply_step-emit rf e h p = ground arith

drain_emits :
    (k : ℕ) (rf : Raft)
    → rf.last_applied + k ≡ rf.commit_index
    → rf.commit_index ≤ last_index rf.log
    → drain k rf ≡ (record rf { last_applied = rf.commit_index }, msgs rf.log rf.last_applied k)
unfolding drain
drain_emits zero rf h b = ground arith
drain_emits (suc k) rf h b =
    let (e, here, elem) = at_elem rf.log (rf.last_applied + 1) (omega arith) (omega arith) in
    let shifted : get_elem? rf.log.entries (suc rf.last_applied) ≡ some e =
      subst (λ i. get_elem? rf.log.entries i ≡ some e) (add-one rf.last_applied) elem in
    let rf' : Raft = record rf { last_applied = rf.last_applied + 1 } in
    ground (
      arith,
      apply_step-emit rf e (omega arith) here,
      drain_emits k rf' (omega arith) b,
      drop-cons (suc rf.last_applied) rf.log.entries shifted,
    )

-- On a live node whose commit index lies in its log, the apply loop sends one message for each
-- entry behind `lastApplied` up to the commit index, in the order of the log, and leaves
-- `lastApplied` at the commit index and the rest of the node as it was.
pub apply_pending-msgs :
    (rf : Raft)
    → rf.dead ≡ false
    → rf.last_applied ≤ rf.commit_index
    → rf.commit_index ≤ last_index rf.log
    → apply_pending rf ≡ (
      record rf { last_applied = rf.commit_index },
      msgs rf.log rf.last_applied (rf.commit_index - rf.last_applied),
    )
unfolding apply_pending
apply_pending-msgs rf live h b =
    ground (arith, drain_emits (rf.commit_index - rf.last_applied) rf (omega arith) b)
