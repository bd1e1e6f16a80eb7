-- ===== src/Cluster/Completeness/Majority.antt =====
-- hw3/raft/raft.go: what a leader commits is confirmed by a majority.
use mathlib.Core.Path.{subst}
use cmsc.Prelude.{
  ℕ, zero, suc, ◌+◌, ◌/◌, ◌≤◌, ◌<◌, ◌≡◌, sym, ap, ◌∙◌, inl, inr, true, some, List, [], ◌∷◌, arith,
  Bool, not, ◌&&◌, All, ok, ok-injective, ltb, leb, length, length-set, take, set, get_elem?,
  get_elem?_lt, get_elem?-set_self, get_elem?-set_ne, ◌==◌, nat_eq, nat_beq_iff, if◌then◌else◌,
  Bool-cases, Option-cases, >>=-eq-ok,
}
use cmsc.Raft.Log.{Log, LogEntry, at}
use cmsc.Raft.Config.{NodeConfig}
use cmsc.Raft.Node.{Raft, is_leader, quorum}
use cmsc.Raft.Replicate.{note_match, note_success}
use cmsc.Raft.Commit.{advance_commit_index}
use cmsc.Raft.Commit.Advance.{PeersFit, holds, replicas, Committable, advance_commit_index-highest}
use cmsc.Cluster.Tally.{tally, tally_add}
use cmsc.Cluster.Network.Effect.{note_match-Same}
use cmsc.Cluster.Completeness.{Ghost}
use cmsc.Cluster.Completeness.Stance.{note_match-cases}
use cmsc.Cluster.Completeness.Ledger.{Backed, Ledger}

-- The nodes of a configuration stand in it by their ids.
abbrev pub IsNumbered : ℕ → List NodeConfig → Type 0
IsNumbered k [] = Unit
IsNumbered k (p ∷ ps) = (p.id ≡ k) × IsNumbered (suc k) ps

-- The tally of the numbers from `k` on, `l` of them.
tally_from : ℕ → ℕ → (ℕ → Bool) → ℕ
tally_from zero k f = 0
tally_from (suc l) k f = (if f k then 1 else 0) + tally_from l (suc k) f

tally_split : (l k : ℕ) (f : ℕ → Bool) → tally (l + k) f ≡ tally_from l k f + tally k f
unfolding tally tally_from
tally_split zero k f = let e : 0 + k ≡ k = omega arith in ap (λ (x : ℕ). tally x f) e ∙ omega arith
tally_split (suc l) k f =
    let e : suc l + k ≡ l + suc k = omega arith in
    ap (λ (x : ℕ). tally x f) e ∙ tally_split l (suc k) f ∙ omega arith

-- Those who are known to hold an entry are among those who confirmed it.
replicas-le :
    (rf : Raft) (c : ℕ) (f : ℕ → Bool)
    → ((p x : ℕ) → get_elem? rf.match_index p ≡ some x → c ≤ x → f p ≡ true)
    → (k : ℕ) (ps : List NodeConfig) → IsNumbered k ps
    → replicas rf c ps ≤ tally_from (length ps) k (λ v. f v && not (v == rf.id))
unfolding replicas tally_from
replicas-le rf c f known k [] num = omega arith
replicas-le rf c f known k (p ∷ ps) (id, num) =
    let rest = replicas-le rf c f known (suc k) ps num in
    let here : holds rf c p ≤ (if f k && not (k == rf.id) then 1 else 0) =
      elim (Option-cases (get_elem? rf.match_index p.id)) [
        | inl absent ↦ ground (arith, absent)
        | inr (x, present) ↦ elim (Bool-cases (leb c x)) [
          | inr short ↦ ground (arith, present, short)
          | inl long ↦
              let y : f k ≡ true = ap f (sym id) ∙ known p.id x present (ground (arith, long)) in
              ground (arith, present, long, y, id)
        ]
      ] in
    omega (arith, here, rest)

Numbered-Fit :
    (k b : ℕ) (ps : List NodeConfig)
    → IsNumbered k ps
    → k + length ps ≤ b
    → All (λ (p : NodeConfig). p.id < b) ps
Numbered-Fit k b [] num le = tt
Numbered-Fit k b (p ∷ ps) (id, num) le =
    (omega (arith, id, le), Numbered-Fit (suc k) b ps num (omega (arith, le)))

pub at-elem : (l : Log) (k : ℕ) (e : LogEntry) → at l k ≡ some e → get_elem? l.entries k ≡ some e
unfolding at
at-elem l k e h = ground arith

module _ (n : ℕ) (ps : List NodeConfig) (gh : Ghost) (i : ℕ) (rf : Raft) (num : IsNumbered 0 ps)
    (size : length ps ≡ n) (id : rf.id ≡ i) (leads : is_leader rf.state ≡ true)
    (own : rf.log.entries ≡ gh.g rf.current_term) (b : Ledger n ps gh i rf) where
  -- The leader itself is one of those who confirmed.
  Committable-majority :
      (c : ℕ)
      → 0 < c
      → Committable rf c
      → n / 2 + 1 ≤ tally n (λ v. ltb c (gh.acked v rf.current_term))
  Committable-majority c pos q =
      let f : ℕ → Bool = λ v. ltb c (gh.acked v rf.current_term) in
      let there = at-elem rf.log c q.entry q.present in
      let mine : f i ≡ true = ground (arith, b.own leads, get_elem?_lt rf.log.entries c there) in
      let others =
        replicas-le rf c f
          (λ p x at le. ground (arith, b.matched p x leads at (omega (arith, le, pos)), le)) 0 ps
          num in
      let all = tally_split (length ps) 0 (λ v. f v && not (v == rf.id)) in
      let count : tally (length ps + 0) (λ v. f v && not (v == rf.id))
          ≡ tally n (λ v. f v && not (v == rf.id)) =
        ap (λ (x : ℕ). tally x (λ v. f v && not (v == rf.id))) (omega (arith, size)) in
      let one =
        tally_add n i (λ v. f v && not (v == rf.id)) f (b.member (inl leads))
          (λ v e. ground (arith, e, id)) (ground (arith, id, nat_beq_iff i i)) mine in
      let few : replicas rf c rf.peers ≤ tally_from (length ps) 0 (λ v. f v && not (v == rf.id)) =
        subst
          (λ (l : List NodeConfig).
            replicas rf c l ≤ tally_from (length ps) 0 (λ v. f v && not (v == rf.id)))
          (sym b.peers) others in
      let enough : n / 2 + 1 ≤ 1 + replicas rf c rf.peers =
        subst (λ (x : ℕ). x / 2 + 1 ≤ 1 + replicas rf c rf.peers) (ap length b.peers ∙ size)
          (unfold quorum in q.majority) in
      omega (arith, all, count, one, few, enough)

  -- What is committed now is backed by the leader's own log.
  Committable-Backed :
      (c : ℕ) → 0 < c → Committable rf c → Backed n gh rf.log.entries rf.current_term c
  Committable-Backed c pos q = record {
    t = rf.current_term;
    j = c;
    committed = record {
      own = record {
        entry = q.entry;
        behind = pos;
        there = ap (λ l. get_elem? l c) (sym own) ∙ at-elem rf.log c q.entry q.present;
        term = q.own_term;
      };
      majority = Committable-majority c pos q;
    };
    within = omega arith;
    early = omega arith;
    agrees = ap (take (suc c)) own;
  }

  advance-Ledger :
      (rf' : Raft)
      → length rf.match_index ≡ n
      → advance_commit_index rf ≡ ok rf'
      → Ledger n ps gh i rf'
  advance-Ledger rf' wide run =
      let fit : PeersFit rf =
        subst (All (λ (p : NodeConfig). p.id < length rf.match_index)) (sym b.peers)
          (Numbered-Fit 0 (length rf.match_index) ps num (omega (arith, size, wide))) in
      let (c, there, le, found, _) = advance_commit_index-highest rf fit in
      let same : record rf { commit_index = c } ≡ rf' = ok-injective (sym there ∙ run) in
      subst (Ledger n ps gh i) same (record {
        safe = λ pos. elim (Bool-cases (ltb rf.commit_index c)) [
          | inl moved ↦ Committable-Backed c pos (found (ground (arith, moved))).1
          | inr stays ↦
              let e : rf.commit_index ≡ c = ground (arith, stays, le) in
              subst (Backed n gh rf.log.entries rf.current_term) e (b.safe (omega (arith, pos, e)))
        ];
        own = b.own;
        matched = b.matched;
        member = b.member;
        peers = b.peers;
      })

pub some-injective {ℓ} : {A : Type ℓ} {x y : A} → some x ≡ some y → x ≡ y
some-injective h = cc

-- A success of a peer that has confirmed the entries up to `m`.
module _ (n : ℕ) (ps : List NodeConfig) (gh : Ghost) (i : ℕ) (rf : Raft) (num : IsNumbered 0 ps)
    (size : length ps ≡ n) (id : rf.id ≡ i) (leads : is_leader rf.state ≡ true)
    (own : rf.log.entries ≡ gh.g rf.current_term) (wide : length rf.match_index ≡ n)
    (b : Ledger n ps gh i rf) (peer m : ℕ) (confirmed : m < gh.acked peer rf.current_term) where
  note-Ledger :
      (noted : Raft)
      → note_match peer m rf ≡ ok noted
      → Ledger n ps gh i noted × (length noted.match_index ≡ n) × (noted.id ≡ i)
  note-Ledger noted run = elim (note_match-cases peer m rf noted run) [
    | inl same ↦
        subst (λ (r : Raft). Ledger n ps gh i r × (length r.match_index ≡ n) × (r.id ≡ i))
          (sym same) (b, wide, id)
    | inr (within, new, commit, peers, id') ↦
        let (log, term, state) = note_match-Same peer m rf noted run in
        (
          record {
            safe = λ pos.
                let old = b.safe (omega (arith, pos, commit)) in
                subst (λ (l : Log). Backed n gh l.entries noted.current_term noted.commit_index)
                  (sym log)
                  (subst (λ (u : ℕ). Backed n gh rf.log.entries u noted.commit_index) (sym term)
                    (subst (Backed n gh rf.log.entries rf.current_term) (sym commit) old));
            own = λ led.
                omega (
                  arith,
                  b.own leads,
                  ap (λ (l : Log). length l.entries) log,
                  ap (gh.acked i) term,
                );
            matched = λ p x led there pos. elim (Bool-cases (peer == p)) [
              | inl e ↦
                  let at : peer ≡ p = (nat_beq_iff peer p).0 e in
                  let value : m ≡ x = some-injective (
                    sym (get_elem?-set_self rf.match_index peer m within)
                    ∙ ap (get_elem? (set rf.match_index peer m)) at
                    ∙ ap (λ l. get_elem? l p) (sym new)
                    ∙ there) in
                  subst (λ (u : ℕ). x < gh.acked p u) (sym term)
                    (subst (λ (q : ℕ). x < gh.acked q rf.current_term) at
                      (omega (arith, confirmed, value)))
              | inr e ↦
                  subst (λ (u : ℕ). x < gh.acked p u) (sym term)
                    (b.matched p x leads
                      (sym (
                          get_elem?-set_ne rf.match_index peer p m
                            (λ q. ground (arith, e, q, nat_beq_iff peer p)))
                        ∙ ap (λ l. get_elem? l p) (sym new)
                        ∙ there)
                      pos)
            ];
            member = λ _. b.member (inl leads);
            peers = peers ∙ b.peers;
          },
          ap length new ∙ length-set rf.match_index peer m ∙ wide,
          id' ∙ id,
        )
  ]

  pub success-Ledger : (rf' : Raft) → note_success peer m rf ≡ ok rf' → Ledger n ps gh i rf'
  unfolding note_success
  success-Ledger rf' run =
      let (noted, p, q) = >>=-eq-ok (note_match peer m rf) advance_commit_index run in
      let (log, term, state) = note_match-Same peer m rf noted p in
      let (b', wide', id') = note-Ledger noted p in
      advance-Ledger n ps gh i noted num size id' (ap is_leader state ∙ leads)
        (ap (λ (l : Log). l.entries) log ∙ own ∙ ap gh.g (sym term)) b' rf' wide' q
