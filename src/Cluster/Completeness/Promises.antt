-- ===== src/Cluster/Completeness/Promises.antt =====
-- hw3/raft/raft.go: what requests, replies and applied entries say about what is committed.
use mathlib.Core.Path.{subst}
use cmsc.Prelude.{
  ℕ, suc, ◌+◌, ◌-◌, ◌≤◌, ◌<◌, ◌≡◌, sym, ap, ◌∙◌, ◌⊎◌, inl, inr, true, some, List, ◌++◌, arith, ok,
  length, get_elem?, get_elem?-append_left, ltb, nat_eq, Bool-cases, Option-cases, length-append,
  length-drop,
}
use cmsc.Raft.Log.{LogEntry, at}
use cmsc.Raft.Log.WellFormed.{IsWf, index-get_elem?}
use cmsc.Raft.Node.{Raft, ApplyMsg, is_leader}
use cmsc.Raft.Replicate.{AppendEntriesArgs, append_args}
use cmsc.Raft.Commit.{emit, apply_msg, apply_step}
use cmsc.Cluster.Network.{Answer}
use cmsc.Cluster.Network.Messages.{IsBlank, GoodMessage, append_args-inv}
use cmsc.Cluster.Network.Agreement.{get_elem?-agree}
use cmsc.Cluster.Completeness.{Ghost, Committed}
use cmsc.Cluster.Completeness.Prefix.{Grown, Own-lt, Agrees-reaches, Committed-Grown}
use cmsc.Cluster.Completeness.Majority.{at-elem}
use cmsc.Cluster.Completeness.Ledger.{Backed, Backed-lt, Backed-Grown, Backed-append, Safe, More}

-- A request, but a blank one, reaches as far as its commit index, and its leader's log backs that.
abbrev pub Promise : ℕ → Ghost → AppendEntriesArgs → Type 0
Promise n gh m =
    IsBlank m
    ⊎ ((m.leader_commit ≤ m.prev_log_index + length m.entries)
        × Safe n gh (gh.g m.term) m.term m.leader_commit)

-- A success confirms the entries of the request.
abbrev pub Confirms : Ghost → Answer → Type 0
Confirms gh a =
    a.reply.success ≡ true
    → a.request.prev_log_index + length a.request.entries < gh.acked a.peer a.request.term

-- What a node has applied was committed in some term.
pub record Handed (n : ℕ) (gh : Ghost) (msg : ApplyMsg) : Type 0 where
  pub t : ℕ
  pub j : ℕ
  pub entry : LogEntry
  pub committed : Committed n gh t j
  pub within : msg.index ≤ j
  pub there : get_elem? (gh.g t) msg.index ≡ some entry
  pub same : msg ≡ apply_msg entry

pub Promise-Grown :
    (n : ℕ) (gh gh' : Ghost) (m : AppendEntriesArgs)
    → Grown gh gh'
    → More gh gh'
    → Promise n gh m
    → Promise n gh' m
Promise-Grown n gh gh' m grown more (inl blank) = inl blank
Promise-Grown n gh gh' m grown more (inr (reach, safe)) =
    let (s, longer) = grown.longer m.term in
    inr (
      reach,
      λ pos.
          subst (λ l. Backed n gh' l m.term m.leader_commit) (sym longer)
            (Backed-append n gh' (gh.g m.term) s m.term m.leader_commit (
              Backed-Grown n gh gh' (gh.g m.term) m.term m.term m.leader_commit grown more
                (omega arith) (safe pos))),
    )

pub Handed-Grown :
    (n : ℕ) (gh gh' : Ghost) (msg : ApplyMsg) (top top' : ℕ)
    → Grown gh gh'
    → More gh gh'
    → top ≤ top'
    → (c : Handed n gh msg) × (c.t ≤ top)
    → (c : Handed n gh' msg) × (c.t ≤ top')
Handed-Grown n gh gh' msg top top' grown more le (k, early) =
    let (s, longer) = grown.longer k.t in
    (
      record {
        t = k.t;
        j = k.j;
        entry = k.entry;
        committed = Committed-Grown n gh gh' k.t k.j grown more k.committed;
        within = k.within;
        there =
            ap (λ l. get_elem? l msg.index) longer
            ∙ get_elem?-append_left (gh.g k.t) s msg.index
                (omega (arith, k.within, Own-lt gh.g k.t k.j k.committed.own))
            ∙ k.there;
        same = k.same;
      },
      omega (arith, early, le),
    )

append_args-commit :
    (peer : ℕ) (rf : Raft) (m : AppendEntriesArgs)
    → append_args peer rf ≡ ok (some m)
    → m.leader_commit ≡ rf.commit_index
unfolding append_args
append_args-commit peer rf m h = elim (Option-cases (get_elem? rf.next_index peer)) [
  | inl absent ↦ ground (arith, absent)
  | inr (ni, present) ↦ ground (arith, present)
]

pub Backed-reaches :
    (n : ℕ) (gh : Ghost) (l : List LogEntry) (top k : ℕ) → Backed n gh l top k → k < length l
Backed-reaches n gh l top k b = Agrees-reaches gh.g l b.t k (Backed-lt n gh l top k b) b.agrees

-- A leader promises what its own log backs.
pub append_args-Promise :
    (n : ℕ) (gh : Ghost) (peer : ℕ) (rf : Raft) (m : AppendEntriesArgs)
    → append_args peer rf ≡ ok (some m)
    → GoodMessage gh.g m
    → (is_leader rf.state ≡ true → rf.log.entries ≡ gh.g rf.current_term)
    → Safe n gh rf.log.entries rf.current_term rf.commit_index
    → Promise n gh m
append_args-Promise n gh peer rf m h good own safe = elim good.origin [
  | inl blank ↦ inl blank
  | inr p ↦
      let (leads, term, entries, _) = append_args-inv peer rf m h in
      let commit = append_args-commit peer rf m h in
      let log : rf.log.entries ≡ gh.g m.term = own leads ∙ ap gh.g (sym term) in
      let size : length rf.log.entries ≡ length p.pre + length (m.entries ++ p.s) =
        ap length (log ∙ p.whole) ∙ length-append p.pre (m.entries ++ p.s) in
      let sent : length m.entries ≡ length rf.log.entries - suc m.prev_log_index =
        ap length entries ∙ length-drop (suc m.prev_log_index) rf.log.entries in
      let covers : 0 < rf.commit_index → rf.commit_index ≤ m.prev_log_index + length m.entries =
        λ pos. omega (
          arith,
          Backed-reaches n gh rf.log.entries rf.current_term rf.commit_index (safe pos),
          size,
          sent,
          p.size,
        ) in
      inr (
        elim (Bool-cases (ltb 0 rf.commit_index)) [
          | inl pos ↦ omega (arith, covers (ground (arith, pos)), commit)
          | inr none_yet ↦ ground (arith, none_yet, commit)
        ],
        λ pos.
            subst (λ (k : ℕ). Backed n gh (gh.g m.term) m.term k) (sym commit)
              (subst (λ (u : ℕ). Backed n gh (gh.g m.term) u rf.commit_index) (sym term)
                (subst (λ l. Backed n gh l rf.current_term rf.commit_index) log
                  (safe (omega (arith, pos, commit))))),
      )
]

apply_step-emits :
    (rf : Raft) (msg : ApplyMsg)
    → (apply_step rf).1 ≡ emit msg
    → (e : LogEntry) × (at rf.log (rf.last_applied + 1) ≡ some e)
      × (rf.last_applied < rf.commit_index)
      × (msg ≡ apply_msg e)
unfolding apply_step
apply_step-emits rf msg h = elim (Option-cases (at rf.log (rf.last_applied + 1))) [
  | inl absent ↦ ground (arith, absent)
  | inr (e, here) ↦ (e, here, ground (arith, here), ground (arith, here))
]

-- What a node hands to its server was committed.
pub apply_step-Handed :
    (n : ℕ) (gh : Ghost) (rf : Raft) (msg : ApplyMsg)
    → IsWf rf.log
    → Safe n gh rf.log.entries rf.current_term rf.commit_index
    → (apply_step rf).1 ≡ emit msg
    → (c : Handed n gh msg) × (c.t ≤ rf.current_term)
apply_step-Handed n gh rf msg w safe h =
    let (e, here, lt, same) = apply_step-emits rf msg h in
    let b = safe (omega (arith, lt)) in
    let elem = at-elem rf.log (rf.last_applied + 1) e here in
    let index : msg.index ≡ rf.last_applied + 1 =
      ap (λ (x : ApplyMsg). x.index) same
      ∙ index-get_elem? 0 rf.log.entries (rf.last_applied + 1) w.indexed elem
      ∙ omega arith in
    (
      record {
        t = b.t;
        j = b.j;
        entry = e;
        committed = b.committed;
        within = omega (arith, index, lt, b.within);
        there =
            ap (get_elem? (gh.g b.t)) index
            ∙ sym (
                get_elem?-agree (rf.last_applied + 1) (suc rf.commit_index) rf.log.entries
                  (gh.g b.t) (omega (arith, lt)) b.agrees)
            ∙ elem;
        same = same;
      },
      b.early,
    )
