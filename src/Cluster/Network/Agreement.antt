-- ===== src/Cluster/Network/Agreement.antt =====
-- hw3/raft/raft.go: how far a log agrees with the leader's after a merge.
use mathlib.Core.Path.{subst}
use mathlib.Core.List.{append_assoc}
use cmsc.Prelude.{
  ℕ, zero, suc, ◌+◌, ◌<◌, ◌≤◌, ◌≡◌, refl, sym, ap, ◌∙◌, ◌⊎◌, inl, inr, List, [], ◌∷◌, ◌++◌, some,
  true, length, get_elem?, take, drop, arith, ltb, ◌==◌, nat_eq, nat_beq_iff, Bool-cases,
  get_elem?-take, get_elem?_lt, get_elem?-append_left, length-append,
}
use cmsc.Raft.Log.{Log, LogEntry}
use cmsc.Raft.Log.WellFormed.{IsWf}
use cmsc.Raft.Replicate.{AppendEntriesArgs, consistent}
use cmsc.Raft.Replicate.Merge.{reconcile}
use cmsc.Cluster.Network.Traced.{
  Leaders, Traced, Headed, take-append_le, take_full, take_last, get_elem?-middle, Traced-meet,
}
use cmsc.Cluster.Network.Messages.{Piece}
use cmsc.Cluster.Network.Delivery.{split, common}

pub take_shorter :
    (a b : ℕ) (xs ys : List LogEntry) → a ≤ b → take b xs ≡ take b ys → take a xs ≡ take a ys
take_shorter zero b xs ys h e = refl
take_shorter (suc a) zero xs ys h e = absurd (omega arith)
take_shorter (suc a) (suc b) [] [] h e = refl
take_shorter (suc a) (suc b) [] (y ∷ ys) h e = cc
take_shorter (suc a) (suc b) (x ∷ xs) [] h e = cc
take_shorter (suc a) (suc b) (x ∷ xs) (y ∷ ys) h e =
    let head : x ≡ y = cc in
    let rest : take b xs ≡ take b ys = cc in cc (head, take_shorter a b xs ys (omega arith) rest)

pub get_elem?-agree :
    (i k : ℕ) (xs ys : List LogEntry)
    → i < k
    → take k xs ≡ take k ys
    → get_elem? xs i ≡ get_elem? ys i
get_elem?-agree i k xs ys h e =
    sym (get_elem?-take k i xs h) ∙ ap (λ l. get_elem? l i) e ∙ get_elem?-take k i ys h

-- Behind `pre`, a merge keeps what is there and holds all of the new, or is just the new; then what
-- agreed before the merge with a log that goes on as the new does is no longer than that.
abbrev pub Merged : List LogEntry → List LogEntry → List LogEntry → List LogEntry → Type 0
Merged pre os ns s =
    ((r : List LogEntry) × (reconcile os ns ≡ os) × (os ≡ ns ++ r))
    ⊎ ((reconcile os ns ≡ ns)
        × ((k : ℕ)
            → k ≤ length (pre ++ os)
            → take k (pre ++ os) ≡ take k (pre ++ (ns ++ s))
            → k ≤ length (pre ++ ns)))

Merged-step :
    (pre os ns s : List LogEntry) (o : LogEntry)
    → reconcile (o ∷ os) (o ∷ ns) ≡ o ∷ reconcile os ns
    → Merged (pre ++ o ∷ []) os ns s
    → Merged pre (o ∷ os) (o ∷ ns) s
Merged-step pre os ns s o e (inl (r, kept, held)) =
    inl (r, e ∙ ap (λ l. o ∷ l) kept, ap (λ l. o ∷ l) held)
Merged-step pre os ns s o e (inr (new, bound)) = inr (
  e ∙ ap (λ l. o ∷ l) new,
  λ k le same. rw (sym (append_assoc pre (o ∷ []) ns)) (
      bound k (rw (append_assoc pre (o ∷ []) os) le)
        (rw (append_assoc pre (o ∷ []) os, append_assoc pre (o ∷ []) (ns ++ s)) same)),
)

reconcile-Merged :
    (g : Leaders) (p : LogEntry) (pre os ns s : List LogEntry)
    → Traced g ((p ∷ pre) ++ os)
    → Traced g ((p ∷ pre) ++ (ns ++ s))
    → Merged (p ∷ pre) os ns s
unfolding reconcile
reconcile-Merged g p pre os [] s mine theirs = inl (os, refl, refl)
reconcile-Merged g p pre [] (n ∷ ns) s mine theirs =
    inr (
      refl,
      λ k le same. omega (arith, length-append (p ∷ pre) [], length-append (p ∷ pre) (n ∷ ns)),
    )
reconcile-Merged g p pre (o ∷ os) (n ∷ ns) s mine theirs =
    let at_o = get_elem?-middle (p ∷ pre) o os in
    let at_n = get_elem?-middle (p ∷ pre) n (ns ++ s) in
    elim (Bool-cases (o.term == n.term)) [
      | inr other ↦ inr (
        rw other refl,
        λ k le same. elim (Bool-cases (ltb (suc (length pre)) k)) [
          | inr short ↦ ground (arith, short, length-append (p ∷ pre) (n ∷ ns))
          | inl long ↦
              let clash =
                get_elem?-agree (suc (length pre)) k ((p ∷ pre) ++ o ∷ os)
                  ((p ∷ pre) ++ (n ∷ ns ++ s)) (ground (arith, long)) same in
              ground (arith, other, clash, at_o, at_n, nat_beq_iff o.term n.term)
        ],
      )
      | inl agree ↦
          let same : o ≡ n =
            take_last (suc (length pre)) ((p ∷ pre) ++ o ∷ os) ((p ∷ pre) ++ (n ∷ ns ++ s)) o n
              (Traced-meet g ((p ∷ pre) ++ o ∷ os) ((p ∷ pre) ++ (n ∷ ns ++ s)) (length pre) o n
                mine theirs at_o at_n ((nat_beq_iff o.term n.term).0 agree))
              at_o at_n in
          let step =
            reconcile-Merged g p (pre ++ o ∷ []) os ns s (rw (append_assoc pre (o ∷ []) os) mine)
              (rw (append_assoc pre (o ∷ []) (ns ++ s), same) theirs) in
          subst (λ (x : LogEntry). Merged (p ∷ pre) (o ∷ os) (x ∷ ns) s) same
            (Merged-step (p ∷ pre) os ns s o (ground (arith, nat_beq_iff o.term o.term)) step)
    ]

module _ (g : Leaders) (m : AppendEntriesArgs) (l : Log) (w : IsWf l) (c : consistent m l ≡ true)
    (p : Piece g m) (mine : Traced g l.entries) (head : Headed l.entries)
    (theirs : Traced g (g m.term)) (top : (g m.term ≡ []) ⊎ Headed (g m.term)) where
  abbrev old : List LogEntry
  old = drop (suc m.prev_log_index) l.entries

  -- The log after the merge.
  abbrev pub merged : List LogEntry
  merged = take (suc m.prev_log_index) l.entries ++ reconcile old m.entries

  whole_log : p.pre ++ old ≡ l.entries
  whole_log = split g m l w c p mine head theirs top

  cases_at : (pre : List LogEntry) → p.pre ≡ pre → Merged pre old m.entries p.s
  cases_at [] e = ground (arith, p.size, e)
  cases_at (q ∷ pre) e =
      reconcile-Merged g q pre old m.entries p.s
        (subst (Traced g) (sym whole_log ∙ ap (λ t. t ++ old) e) mine)
        (subst (Traced g) (p.whole ∙ ap (λ t. t ++ (m.entries ++ p.s)) e) theirs)

  merged-pre : merged ≡ p.pre ++ reconcile old m.entries
  merged-pre = ap (λ t. t ++ reconcile old m.entries) (common g m l w c p mine head theirs top)

  -- What agreed with the leader's log before agrees with it afterwards.
  pub merged_agrees :
      (k : ℕ)
      → k ≤ length l.entries
      → take k l.entries ≡ take k (g m.term)
      → take k merged ≡ take k (g m.term)
  merged_agrees k le same = elim (cases_at p.pre refl) [
    | inl (r, kept, _) ↦ ap (take k) (merged-pre ∙ ap (λ t. p.pre ++ t) kept ∙ whole_log) ∙ same
    | inr (new, bound) ↦
        let lt : k ≤ length (p.pre ++ m.entries) =
          bound k (omega (arith, le, ap length whole_log))
            (ap (take k) whole_log ∙ same ∙ ap (take k) p.whole) in
        ap (take k) (merged-pre ∙ ap (λ t. p.pre ++ t) new)
        ∙ sym (take-append_le k (p.pre ++ m.entries) p.s lt)
        ∙ ap (take k) (append_assoc p.pre m.entries p.s ∙ sym p.whole)
  ]

  -- The log agrees with the leader's up to the last entry of the request.
  pub merged_reaches :
      take (suc m.prev_log_index + length m.entries) merged
      ≡ take (suc m.prev_log_index + length m.entries) (g m.term)
  merged_reaches =
      let n = suc m.prev_log_index + length m.entries in
      let size : length (p.pre ++ m.entries) ≡ n =
        omega (arith, length-append p.pre m.entries, p.size) in
      let theirs_at : take n (g m.term) ≡ p.pre ++ m.entries =
        ap (take n) (p.whole ∙ sym (append_assoc p.pre m.entries p.s))
        ∙ take-append_le n (p.pre ++ m.entries) p.s (omega (arith, size))
        ∙ take_full n (p.pre ++ m.entries) (omega (arith, size)) in
      elim (cases_at p.pre refl) [
        | inl (r, kept, held) ↦
            ap (take n) (
              merged-pre
              ∙ ap (λ t. p.pre ++ t) (kept ∙ held)
              ∙ sym (append_assoc p.pre m.entries r))
            ∙ take-append_le n (p.pre ++ m.entries) r (omega (arith, size))
            ∙ take_full n (p.pre ++ m.entries) (omega (arith, size))
            ∙ sym theirs_at
        | inr (new, _) ↦
            ap (take n) (merged-pre ∙ ap (λ t. p.pre ++ t) new)
            ∙ take_full n (p.pre ++ m.entries) (omega (arith, size))
            ∙ sym theirs_at
      ]

  -- An entry of the log after the merge was there before, or is the leader's.
  pub merged_source :
      (i : ℕ) (x : LogEntry)
      → get_elem? merged i ≡ some x
      → (get_elem? l.entries i ≡ some x) ⊎ (get_elem? (g m.term) i ≡ some x)
  merged_source i x here = elim (cases_at p.pre refl) [
    | inl (r, kept, _) ↦
        inl (
          ap (λ t. get_elem? t i) (sym (merged-pre ∙ ap (λ t. p.pre ++ t) kept ∙ whole_log)) ∙ here)
    | inr (new, _) ↦
        let there : get_elem? (p.pre ++ m.entries) i ≡ some x =
          ap (λ t. get_elem? t i) (sym (merged-pre ∙ ap (λ t. p.pre ++ t) new)) ∙ here in
        inr (
          ap (λ t. get_elem? t i) (p.whole ∙ sym (append_assoc p.pre m.entries p.s))
          ∙ get_elem?-append_left (p.pre ++ m.entries) p.s i
              (get_elem?_lt (p.pre ++ m.entries) i there)
          ∙ there)
  ]

  pub merged-fits : suc m.prev_log_index + length m.entries ≤ length (g m.term)
  merged-fits = omega (
    arith,
    ap length p.whole,
    length-append p.pre (m.entries ++ p.s),
    length-append m.entries p.s,
    p.size,
  )
