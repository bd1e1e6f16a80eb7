-- ===== src/Raft/Commit/Advance.antt =====
-- hw3/raft/raft.go: `advanceCommitIndex` finds the highest entry that may be committed.
use native.Mathlib.Decide.{ℕ_discrete}
use cmsc.Prelude.{
  ℕ, zero, suc, ◌+◌, ◌-◌, ◌≤◌, ◌<◌, ◌≡◌, refl, ◌∙◌, ◌⊎◌, none, some, List, [], ◌∷◌, ok, leb, ◌==◌,
  nat_eq, if◌then◌else◌, length, get_elem?, arith, get_elem?-some, All, inl, inr, Bool-cases,
  Option-cases, nat_beq_iff, leb→le,
}
use cmsc.Raft.Log.{Log, LogEntry, last_index, at}
use cmsc.Raft.Config.{NodeConfig}
use cmsc.Raft.Node.{Raft, quorum}
use cmsc.Raft.Commit.{ack, count_acks, scan_commit, advance_commit_index}

-- Every node of the cluster has its slot in `matchIndex`.
abbrev pub PeersFit : Raft → Type 0
PeersFit rf = All (λ (p : NodeConfig). p.id < length rf.match_index) rf.peers

-- The other nodes that are known to hold the entry at `n`.
abbrev pub holds : Raft → ℕ → NodeConfig → ℕ
holds rf n p =
    if p.id == rf.id
    then 0
    else elim (get_elem? rf.match_index p.id) [ none ↦ 0 | some m ↦ if leb n m then 1 else 0 ]

unfoldable pub replicas : Raft → ℕ → List NodeConfig → ℕ
replicas rf n [] = 0
replicas rf n (p ∷ ps) = holds rf n p + replicas rf n ps

-- The entry at `n` is of the current term, and a majority of the nodes hold it, this one included.
pub record Committable (rf : Raft) (n : ℕ) : Type 0 where
  pub entry : LogEntry
  pub present : at rf.log n ≡ some entry
  pub own_term : entry.term ≡ rf.current_term
  pub majority : quorum rf ≤ 1 + replicas rf n rf.peers

ack-holds :
    (rf : Raft) (n : ℕ) (p : NodeConfig)
    → p.id < length rf.match_index
    → ack rf n p ≡ ok (holds rf n p)
unfolding ack
ack-holds rf n p h = ground (arith, (get_elem?-some rf.match_index p.id h).1)

count_acks-replicas :
    (rf : Raft) (n : ℕ) (ps : List NodeConfig)
    → All (λ (p : NodeConfig). p.id < length rf.match_index) ps
    → count_acks rf n ps ≡ ok (replicas rf n ps)
unfolding count_acks replicas
count_acks-replicas rf n [] h = refl
count_acks-replicas rf n (p ∷ ps) h =
    rw (ack-holds rf n p h.0, count_acks-replicas rf n ps h.1) refl

-- What a scan of `k` indices above the commit index returns.
record Found (rf : Raft) (k c : ℕ) : Type 0 where
  run : scan_commit rf k ≡ ok (record rf { commit_index = c })
  not_back : rf.commit_index ≤ c
  found : rf.commit_index < c → Committable rf c
  highest : (n : ℕ) → c < n → n ≤ rf.commit_index + k → ¬ Committable rf n

Committable-Found :
    (rf : Raft) (k : ℕ)
    → PeersFit rf
    → Committable rf (rf.commit_index + suc k)
    → Found rf (suc k) (rf.commit_index + suc k)
unfolding scan_commit
Committable-Found rf k fit c = record {
  run = ground (
    arith,
    c.present,
    c.own_term,
    c.majority,
    count_acks-replicas rf (rf.commit_index + suc k) rf.peers fit,
  );
  not_back = omega arith;
  found = λ _. c;
  highest = λ n above below. absurd (omega arith);
}

-- Either the entry may be committed, or the scan passes it by.
abbrev Passes : Raft → ℕ → Type 0
Passes rf k =
    (¬ Committable rf (rf.commit_index + suc k)) × (scan_commit rf (suc k) ≡ scan_commit rf k)

scan_absent : (rf : Raft) (k : ℕ) → at rf.log (rf.commit_index + suc k) ≡ none → Passes rf k
unfolding scan_commit
scan_absent rf k h = (λ c. cc (c.present), ground arith)

scan_present :
    (rf : Raft) (k : ℕ) (e : LogEntry)
    → PeersFit rf
    → at rf.log (rf.commit_index + suc k) ≡ some e
    → Committable rf (rf.commit_index + suc k) ⊎ Passes rf k
unfolding scan_commit
scan_present rf k e fit h = elim (Bool-cases (e.term == rf.current_term)) [
  | inr other ↦ inr (λ c. ground (arith, c.present, c.own_term), ground arith)
  | inl own ↦
      let n = rf.commit_index + suc k in
      let acks = count_acks-replicas rf n rf.peers fit in
      elim (Bool-cases (leb (quorum rf) (1 + replicas rf n rf.peers))) [
        | inl q ↦ inl (record {
          entry = e;
          present = h;
          own_term = (nat_beq_iff e.term rf.current_term).0 own;
          majority = leb→le _ _ q;
        })
        | inr q ↦ inr (λ c. ground (arith, c.majority), ground (arith, acks))
      ]
]

Passes-Found : (rf : Raft) (k c : ℕ) → Passes rf k → Found rf k c → Found rf (suc k) c
Passes-Found rf k c (not_here, skip) f = record {
  run = skip ∙ f.run;
  not_back = f.not_back;
  found = f.found;
  highest = λ n above below. elim (ℕ_discrete n (rf.commit_index + suc k)) [
    | yes e ↦ rw e not_here
    | no other ↦ f.highest n above (omega arith)
  ];
}

scan-Found : (rf : Raft) (k : ℕ) → PeersFit rf → (c : ℕ) × Found rf k c
scan-Found rf zero fit = (
  rf.commit_index,
  record {
    run = unfold scan_commit in refl;
    not_back = omega arith;
    found = λ h. absurd (omega arith);
    highest = λ n above below. absurd (omega arith);
  },
)
scan-Found rf (suc k) fit =
    let (c, f) = scan-Found rf k fit in
    elim (Option-cases (at rf.log (rf.commit_index + suc k))) [
      | inl absent ↦ (c, Passes-Found rf k c (scan_absent rf k absent) f)
      | inr (e, here) ↦ elim (scan_present rf k e fit here) [
        | inl now ↦ (rf.commit_index + suc k, Committable-Found rf k fit now)
        | inr p ↦ (c, Passes-Found rf k c p f)
      ]
    ]

present-le : (l : Log) (n : ℕ) {e : LogEntry} → at l n ≡ some e → n ≤ last_index l
unfolding at last_index
present-le l n h = ground arith

-- On a leader that has a `matchIndex` for every node, `advanceCommitIndex` never panics and moves
-- nothing but the commit index: never back, and if it moves then to the highest index of the log
-- whose entry is of the current term and held by a majority. Above the result no entry is such.
pub advance_commit_index-highest :
    (rf : Raft)
    → PeersFit rf
    → (c : ℕ) × (advance_commit_index rf ≡ ok (record rf { commit_index = c }))
      × (rf.commit_index ≤ c)
      × (rf.commit_index < c → (c ≤ last_index rf.log) × Committable rf c)
      × ((n : ℕ) → c < n → ¬ Committable rf n)
unfolding advance_commit_index
advance_commit_index-highest rf fit =
    let k = last_index rf.log - rf.commit_index in
    let (c, f) = scan-Found rf k fit in
    (
      c,
      f.run,
      f.not_back,
      λ h. (present-le rf.log c (f.found h).present, f.found h),
      λ n above here.
          f.highest n above (omega (arith, f.not_back, present-le rf.log n here.present)) here,
    )
