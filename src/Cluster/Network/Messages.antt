-- ===== src/Cluster/Network/Messages.antt =====
-- hw3/raft/raft.go: the requests that `sendAppendEntries` sends are pieces of a leader's log.
use mathlib.Core.List.{append-nil, append_assoc}
use cmsc.Prelude.{
  ℕ, zero, suc, ◌+◌, ◌-◌, ◌<◌, ◌≤◌, ◌≡◌, sym, ap, ◌∙◌, ◌⊎◌, inl, inr, List, [], ◌++◌, Option, some,
  none, true, ok, length, get_elem?, take, drop, arith, ltb, nat_eq, if◌then◌else◌, Bool-cases,
  get_elem?-some, get_elem?-take, take-append-drop, length-take, indexed, ◌>>=◌,
}
use cmsc.Raft.Log.{Log, LogEntry, range, last_index, at}
use cmsc.Raft.Log.WellFormed.{IsIndexed, IsWf}
use cmsc.Raft.Node.{Raft, is_leader}
use cmsc.Raft.Replicate.{AppendEntriesArgs, append_args, prev_term}
use cmsc.Raft.Replicate.Sender.{range-drop, drop_all, IsIndexed-drop}
use cmsc.Cluster.Network.Traced.{Leaders, Extends}

-- The entries stand in the log of the leader of the term, behind `pre`, which ends in the entry
-- that the request names.
pub record Piece (g : Leaders) (m : AppendEntriesArgs) : Type 0 where
  pub pre : List LogEntry
  pub s : List LogEntry
  pub prev : LogEntry
  pub whole : g m.term ≡ pre ++ (m.entries ++ s)
  pub size : length pre ≡ suc m.prev_log_index
  pub there : get_elem? pre m.prev_log_index ≡ some prev
  pub checks : 0 < m.prev_log_index → prev.term ≡ m.prev_log_term

-- A request with no entries that names an index behind the end of the leader's log.
abbrev pub IsBlank : AppendEntriesArgs → Type 0
IsBlank m = (m.entries ≡ []) × (0 < m.prev_log_index) × (m.prev_log_term ≡ 0)

pub record GoodMessage (g : Leaders) (m : AppendEntriesArgs) : Type 0 where
  pub indexed : IsIndexed (suc m.prev_log_index) m.entries
  pub origin : IsBlank m ⊎ Piece g m

pub GoodMessage-Extends :
    (g g' : Leaders) (m : AppendEntriesArgs) → Extends g g' → GoodMessage g m → GoodMessage g' m
GoodMessage-Extends g g' m ext good = record { indexed = good.indexed; origin = longer good.origin }
  where
    longer : IsBlank m ⊎ Piece g m → IsBlank m ⊎ Piece g' m
    longer (inl e) = inl e
    longer (inr p) =
        let (s, grown) = ext m.term in
        inr (record {
          pre = p.pre;
          s = p.s ++ s;
          prev = p.prev;
          whole =
              grown
              ∙ ap (λ l. l ++ s) p.whole
              ∙ append_assoc p.pre (m.entries ++ p.s) s
              ∙ ap (λ l. p.pre ++ l) (append_assoc m.entries p.s s);
          size = p.size;
          there = p.there;
          checks = p.checks;
        })

range_zero : (l : Log) (to : ℕ) → range l 0 to ≡ range l 1 to
unfolding range
range_zero l to = ground arith

range_rest : (l : Log) (ni : ℕ) → range l ni (last_index l + 1) ≡ drop (suc (ni - 1)) l.entries
range_rest l zero = range_zero l (last_index l + 1) ∙ range-drop l 0
range_rest l (suc k) = let e : suc k - 1 ≡ k = omega arith in rw e (range-drop l k)

pub append_args-inv :
    (peer : ℕ) (rf : Raft) (m : AppendEntriesArgs)
    → append_args peer rf ≡ ok (some m)
    → (is_leader rf.state ≡ true)
      × (m.term ≡ rf.current_term)
      × (m.entries ≡ drop (suc m.prev_log_index) rf.log.entries)
      × (m.prev_log_term
          ≡ (if ltb 0 m.prev_log_index then prev_term rf.log m.prev_log_index else 0))
unfolding append_args
append_args-inv peer rf m h = elim (Bool-cases (is_leader rf.state)) [
  | inr not_leader ↦ ground (arith, not_leader)
  | inl leads ↦ by_next (get_elem? rf.next_index peer) (rw leads at h)
]
  where
    by_next :
        (o : Option ℕ)
        → (indexed o >>= λ (ni : ℕ). ok (
            some (record {
              term = rf.current_term;
              leader_id = rf.id;
              prev_log_index = ni - 1;
              prev_log_term = if ltb 0 (ni - 1) then prev_term rf.log (ni - 1) else 0;
              entries = range rf.log ni (last_index rf.log + 1);
              leader_commit = rf.commit_index;
            })))
          ≡ ok (some m)
        → (is_leader rf.state ≡ true)
          × (m.term ≡ rf.current_term)
          × (m.entries ≡ drop (suc m.prev_log_index) rf.log.entries)
          × (m.prev_log_term
              ≡ (if ltb 0 m.prev_log_index then prev_term rf.log m.prev_log_index else 0))
    by_next none k = ground arith
    by_next (some ni) k = ground (arith, range_rest rf.log ni)

prev_term-at :
    (l : Log) (k : ℕ) (x : LogEntry)
    → get_elem? l.entries k ≡ some x
    → k < length l.entries
    → 0 < k
    → prev_term l k ≡ x.term
unfolding prev_term at
prev_term-at l k x h inside pos = ground arith

prev_term_past : (l : Log) (k : ℕ) → length l.entries ≤ k → prev_term l k ≡ 0
unfolding prev_term at
prev_term_past l k h = ground arith

-- What a leader sends is good, if its log is that of the leader of its term.
pub append_args-GoodMessage :
    (g : Leaders) (peer : ℕ) (rf : Raft) (m : AppendEntriesArgs)
    → append_args peer rf ≡ ok (some m)
    → IsWf rf.log
    → (is_leader rf.state ≡ true → rf.log.entries ≡ g rf.current_term)
    → GoodMessage g m
append_args-GoodMessage g peer rf m h w own =
    let (leads, term, entries, prev) = append_args-inv peer rf m h in
    let k = m.prev_log_index in
    record {
      indexed =
          rw entries (IsIndexed-drop (suc k) 0 (suc k) rf.log.entries (omega arith) w.indexed);
      origin = elim (Bool-cases (ltb k (length rf.log.entries))) [
        | inr past ↦
            let pos : 0 < k = ground (arith, past, w.nonempty) in
            inl (
              entries ∙ drop_all (suc k) rf.log.entries (ground (arith, past)),
              pos,
              ground (arith, prev, pos, past, prev_term_past rf.log k),
            )
        | inl within ↦
            let inside : k < length rf.log.entries = ground (arith, within) in
            let (x, here) = get_elem?-some rf.log.entries k inside in
            inr (record {
              pre = take (suc k) rf.log.entries;
              s = [];
              prev = x;
              whole =
                  ap g term
                  ∙ sym (own leads)
                  ∙ sym (take-append-drop (suc k) rf.log.entries)
                  ∙ ap (λ l. take (suc k) rf.log.entries ++ l)
                      (sym entries ∙ sym (append-nil m.entries));
              size = omega (arith, length-take (suc k) rf.log.entries, inside);
              there = get_elem?-take (suc k) k rf.log.entries (omega arith) ∙ here;
              checks = λ pos. ground (arith, prev, pos, prev_term-at rf.log k x here inside pos);
            })
      ];
    }
