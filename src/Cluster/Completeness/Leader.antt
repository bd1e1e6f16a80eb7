-- ===== src/Cluster/Completeness/Leader.antt =====
-- Leader completeness, from the voters of a term; and the vote that carries it to the next term.

use cmsc.Prelude.{
  ℕ, zero, suc, ◌+◌, ◌/◌, ◌<◌, ◌≤◌, ◌≡◌, refl, sym, ap, ◌∙◌, ◌⊎◌, inl, inr, List, [], ◌++◌, some,
  true, length, get_elem?, take, arith, ltb, get_elem?_lt, Bool-cases,
}
use cmsc.Raft.Log.{LogEntry}
use cmsc.Raft.Node.{Raft}
use cmsc.Cluster.Tally.{tally, tally_meet}
use cmsc.Cluster.Network.Traced.{Leaders, Traced, Headed}
use cmsc.Cluster.Network.Agreement.{take_shorter, get_elem?-agree}
use cmsc.Cluster.Completeness.{Ghost, Own, Agrees, Bad, Committed}
use cmsc.Cluster.Completeness.Prefix.{Agrees-Dec, Own-lt, Agrees-append}

-- What one who voted in the election of `t'` has confirmed before, the winner has, or else a leader
-- between them was the first to lack it.
abbrev pub Carries : Ghost → List LogEntry → ℕ → ℕ → Type 0
Carries gh l v u =
    (t j : ℕ) → j < gh.acked v t → t < u → Own gh.g t j → Agrees gh.g l t j ⊎ Bad gh t j u

-- The voters by whom a term was won.
pub record Won (n : ℕ) (gh : Ghost) (node : ℕ → Raft) (u : ℕ) : Type 0 where
  pub majority : n / 2 + 1 ≤ tally n (gh.quorum u)
  pub behind : (v : ℕ) → gh.quorum u v ≡ true → u ≤ (node v).current_term
  pub carries : (v : ℕ) → gh.quorum u v ≡ true → Carries gh (gh.first u) v u

below-complete :
    (b n : ℕ) (gh : Ghost) (node : ℕ → Raft)
    → ((u : ℕ) → (gh.g u ≡ []) ⊎ Won n gh node u)
    → (t j u : ℕ) → Committed n gh t j
    → t < u
    → u < b
    → ¬ (gh.g u ≡ [])
    → Agrees gh.g (gh.first u) t j
below-complete zero n gh node won t j u c lt bound real = absurd (omega arith)
below-complete (suc b) n gh node won t j u c lt bound real = elim (won u) [
  | inl none_yet ↦ absurd (real none_yet)
  | inr w ↦
      let (v, voter, holder) =
        tally_meet n (gh.quorum u) (λ x. ltb j (gh.acked x t))
          (omega (arith, w.majority, c.majority)) in
      elim (w.carries v voter t j (ground (arith, holder)) lt c.own) [
        | inl a ↦ a
        | inr bad ↦ absurd (
            bad.lacks (
              below-complete b n gh node won t j bad.at c bad.after
                (omega (arith, bad.before, bound)) bad.won))
      ]
]

-- Leader completeness: what was committed in a term was in the log of every later leader at once.
pub first-Agrees :
    (n : ℕ) (gh : Ghost) (node : ℕ → Raft)
    → ((u : ℕ) → (gh.g u ≡ []) ⊎ Won n gh node u)
    → (t j u : ℕ) → Committed n gh t j
    → t < u
    → ¬ (gh.g u ≡ [])
    → Agrees gh.g (gh.first u) t j
first-Agrees n gh node won t j u c lt real =
    below-complete (suc u) n gh node won t j u c lt (omega arith) real

-- The terms of a log never go down.
abbrev pub Ascends : List LogEntry → Type 0
Ascends l =
    (i k : ℕ) (x y : LogEntry)
    → i ≤ k
    → get_elem? l i ≡ some x
    → get_elem? l k ≡ some y
    → x.term ≤ y.term

pub Traced-Ascends :
    (g : Leaders) (l : List LogEntry) → ((t : ℕ) → Ascends (g t)) → Traced g l → Ascends l
Traced-Ascends g l asc t zero zero x y le hx hy = ground (arith, hx, hy)
Traced-Ascends g l asc t (suc i) zero x y le hx hy = absurd (omega arith)
Traced-Ascends g l asc t i (suc k) x y le hx hy =
    let same = t k y hy in
    asc y.term i (suc k) x y le
      (sym (get_elem?-agree i (suc (suc k)) l (g y.term) (omega arith) same) ∙ hx)
      (sym (get_elem?-agree (suc k) (suc (suc k)) l (g y.term) (omega arith) same) ∙ hy)

-- The last entry of a log stands at `k`.
pub record Ends (l : List LogEntry) (k term : ℕ) : Type 0 where
  pub last : LogEntry
  pub size : length l ≡ suc k
  pub there : get_elem? l k ≡ some last
  pub of_term : last.term ≡ term

module _ (gh : Ghost) (asc : (t : ℕ) → Ascends (gh.g t))
    (grown : (t : ℕ) → (s : List LogEntry) × (gh.g t ≡ gh.first t ++ s))
    (theirs ours : List LogEntry) (a b p q : ℕ) (traced : Traced gh.g theirs)
    (traced_ours : Traced gh.g ours) (headed : Headed theirs) (ends : Ends theirs a p)
    (ends_ours : Ends ours b q) (t j u : ℕ) (own : Own gh.g t j) (agrees : Agrees gh.g ours t j)
    (earlier : p < u) where
  at_j : get_elem? ours j ≡ some own.entry
  at_j = get_elem?-agree j (suc j) ours (gh.g t) (omega arith) agrees ∙ own.there

  reaches : j ≤ b
  reaches = omega (arith, get_elem?_lt ours j at_j, ends_ours.size)

  late : t ≤ q
  late = omega (
    arith,
    Traced-Ascends gh.g ours asc traced_ours j b own.entry ends_ours.last reaches at_j
        ends_ours.there,
    own.term,
    ends_ours.of_term,
  )

  pub equal_terms : q ≡ p → b ≤ a → Agrees gh.g theirs t j
  equal_terms e le = go a b le refl refl
    where
      go : (a' b' : ℕ) → b' ≤ a' → a ≡ a' → b ≡ b' → Agrees gh.g theirs t j
      go zero zero h ea eb = absurd (omega (arith, own.behind, reaches, eb))
      go zero (suc b') h ea eb = absurd (omega arith)
      go (suc a') zero h ea eb = absurd (omega (arith, own.behind, reaches, eb))
      go (suc a') (suc b') h ea eb =
          let x = traced a' ends.last (ap (get_elem? theirs) (sym ea) ∙ ends.there) in
          let y = traced_ours b' ends_ours.last (ap (get_elem? ours) (sym eb) ∙ ends_ours.there) in
          let same : gh.g ends.last.term ≡ gh.g ends_ours.last.term =
            ap gh.g (ends.of_term ∙ sym e ∙ sym ends_ours.of_term) in
          take_shorter (suc j) (suc (suc a')) theirs (gh.g ends.last.term)
            (omega (arith, reaches, eb, h)) x
          ∙ ap (take (suc j)) same
          ∙ sym (
              take_shorter (suc j) (suc (suc b')) ours (gh.g ends_ours.last.term)
                (omega (arith, reaches, eb)) y)
          ∙ agrees

  later_term : (a' : ℕ) → a ≡ suc a' → q < p → Agrees gh.g (gh.first p) t j → Agrees gh.g theirs t j
  later_term a' ea lt has =
      let (s, longer) = grown p in
      let in_g : Agrees gh.g (gh.g p) t j =
        ap (take (suc j)) longer
        ∙ Agrees-append gh.g (gh.first p) s t j (Own-lt gh.g t j own) has in
      let x : take (suc (suc a')) theirs ≡ take (suc (suc a')) (gh.g p) =
        traced a' ends.last (ap (get_elem? theirs) (sym ea) ∙ ends.there)
        ∙ ap (λ (r : ℕ). take (suc (suc a')) (gh.g r)) ends.of_term in
      let at_last : get_elem? (gh.g p) (suc a') ≡ some ends.last =
        sym (get_elem?-agree (suc a') (suc (suc a')) theirs (gh.g p) (omega arith) x)
        ∙ ap (get_elem? theirs) (sym ea)
        ∙ ends.there in
      let at_own : get_elem? (gh.g p) j ≡ some own.entry =
        get_elem?-agree j (suc j) (gh.g p) (gh.g t) (omega arith) in_g ∙ own.there in
      elim (Bool-cases (ltb j (suc a'))) [
        | inl inside ↦
            take_shorter (suc j) (suc (suc a')) theirs (gh.g p) (ground (arith, inside)) x ∙ in_g
        | inr past ↦ absurd (
            omega (
              arith,
              asc p (suc a') j ends.last own.entry (ground (arith, past)) at_last at_own,
              ends.of_term,
              own.term,
              late,
              lt,
            ))
      ]

  nonempty_at : (a' : ℕ) → a ≡ suc a' → ¬ (gh.g p ≡ [])
  nonempty_at a' ea none_yet =
      let x = traced a' ends.last (ap (get_elem? theirs) (sym ea) ∙ ends.there) in
      ground (arith, x, ap gh.g ends.of_term, none_yet, ends.size)

  -- A candidate that is up to date carries what the voter has.
  pub up_to_date : (q < p) ⊎ ((q ≡ p) × (b ≤ a)) → Agrees gh.g theirs t j ⊎ Bad gh t j u
  up_to_date (inr (e, le)) = inl (equal_terms e le)
  up_to_date (inl lt) = by_size a refl
    where
      by_size : (k : ℕ) → a ≡ k → Agrees gh.g theirs t j ⊎ Bad gh t j u
      by_size zero ea = ground (arith, ends.there, headed, ends.of_term, lt, ea)
      by_size (suc a') ea = elim (Agrees-Dec gh.g (gh.first p) t j) [
        | yes has ↦ inl (later_term a' ea lt has)
        | no lacks ↦ inr (record {
          at = p;
          after = omega (arith, late, lt);
          before = earlier;
          won = nonempty_at a' ea;
          lacks = lacks;
        })
      ]
