-- ===== src/Cluster/Network/Traced.antt =====
-- Logs against the logs of the leaders: an entry of a term brings all that the leader of that term
-- had before it.
use mathlib.Core.List.{append_assoc}
use mathlib.Core.Path.{subst}
use cmsc.Prelude.{
  ℕ, zero, suc, ◌<◌, ◌≤◌, ◌≡◌, refl, sym, ap, ◌∙◌, inl, inr, List, [], ◌∷◌, ◌++◌, some, length,
  get_elem?, take, arith, ◌==◌, nat_eq, nat_beq_iff, Bool-cases, get_elem?_lt, get_elem?-take,
  get_elem?-append_left, get_elem?-append_last, length-append, length-take,
}
use cmsc.Raft.Log.{LogEntry, sentinel}
use cmsc.Raft.Replicate.Merge.{reconcile}

-- For each term the log of its leader as it last was, or nothing before there is one.
abbrev pub Leaders : Type 0
Leaders = ℕ → List LogEntry

abbrev pub Traced : Leaders → List LogEntry → Type 0
Traced g l =
    (k : ℕ) (e : LogEntry)
    → get_elem? l (suc k) ≡ some e
    → take (suc (suc k)) l ≡ take (suc (suc k)) (g e.term)

abbrev pub Headed : List LogEntry → Type 0
Headed l = get_elem? l 0 ≡ some sentinel

-- The leaders' logs only grow.
abbrev pub Extends : Leaders → Leaders → Type 0
Extends g g' = (t : ℕ) → (s : List LogEntry) × (g' t ≡ g t ++ s)

pub take-append_le : (n : ℕ) (xs ys : List LogEntry) → n ≤ length xs → take n (xs ++ ys) ≡ take n xs
take-append_le zero xs ys h = refl
take-append_le (suc n) [] ys h = absurd (omega arith)
take-append_le (suc n) (x ∷ xs) ys h = ap (λ t. x ∷ t) (take-append_le n xs ys (omega arith))

pub take_full : (n : ℕ) (xs : List LogEntry) → length xs ≤ n → take n xs ≡ xs
take_full zero [] h = refl
take_full zero (x ∷ xs) h = absurd (omega arith)
take_full (suc n) [] h = refl
take_full (suc n) (x ∷ xs) h = ap (λ t. x ∷ t) (take_full n xs (omega arith))

-- Where a list has an entry, one with the same beginning is that long.
pub take_reaches :
    (k : ℕ) (xs ys : List LogEntry)
    → k < length xs
    → take (suc k) xs ≡ take (suc k) ys
    → suc k ≤ length ys
take_reaches k xs ys lt e =
    omega (arith, ap length e, length-take (suc k) xs, length-take (suc k) ys)

pub Traced-Extends : (g g' : Leaders) (l : List LogEntry) → Extends g g' → Traced g l → Traced g' l
Traced-Extends g g' l ext t k e here =
    let (s, grown) = ext e.term in
    let long = take_reaches (suc k) l (g e.term) (get_elem?_lt l (suc k) here) (t k e here) in
    t k e here
    ∙ sym (ap (take (suc (suc k))) grown ∙ take-append_le (suc (suc k)) (g e.term) s long)

pub Traced-prefix : (g : Leaders) (xs ys : List LogEntry) → Traced g (xs ++ ys) → Traced g xs
Traced-prefix g xs ys t k e here =
    let lt = get_elem?_lt xs (suc k) here in
    sym (take-append_le (suc (suc k)) xs ys lt)
    ∙ t k e (get_elem?-append_left xs ys (suc k) lt ∙ here)

Traced-prefix_piece :
    (g : Leaders) (xs ys zs : List LogEntry) → Traced g (xs ++ (ys ++ zs)) → Traced g (xs ++ ys)
Traced-prefix_piece g xs ys zs t =
    Traced-prefix g (xs ++ ys) zs (subst (Traced g) (sym (append_assoc xs ys zs)) t)

-- A leader appends an entry of its term, and its log is then the leader's log of that term.
pub Traced-append_last :
    (g : Leaders) (xs : List LogEntry) (e : LogEntry)
    → Traced g xs
    → g e.term ≡ xs ++ e ∷ []
    → Traced g (xs ++ e ∷ [])
Traced-append_last g xs e t own k x here = elim (Bool-cases (suc k == length xs)) [
  | inl last ↦
      let n : suc k ≡ length xs = (nat_beq_iff (suc k) (length xs)).0 last in
      let same : x ≡ e = ground (arith, here, n, get_elem?-append_last xs e) in
      ap (take (suc (suc k))) (sym own ∙ ap (λ (y : LogEntry). g y.term) (sym same))
  | inr inner ↦
      let lt : suc k < length xs = ground (
        arith,
        inner,
        nat_beq_iff (suc k) (length xs),
        length-append xs (e ∷ []),
        get_elem?_lt (xs ++ e ∷ []) (suc k) here,
      ) in
      take-append_le (suc (suc k)) xs (e ∷ []) lt
      ∙ t k x (sym (get_elem?-append_left xs (e ∷ []) (suc k) lt) ∙ here)
]

-- Two traced lists with entries of one term at one place are the same up to there.
pub Traced-meet :
    (g : Leaders) (xs ys : List LogEntry) (k : ℕ) (x y : LogEntry)
    → Traced g xs
    → Traced g ys
    → get_elem? xs (suc k) ≡ some x
    → get_elem? ys (suc k) ≡ some y
    → x.term ≡ y.term
    → take (suc (suc k)) xs ≡ take (suc (suc k)) ys
Traced-meet g xs ys k x y tx ty hx hy e =
    tx k x hx ∙ ap (λ t. take (suc (suc k)) (g t)) e ∙ sym (ty k y hy)

pub take_last :
    (k : ℕ) (xs ys : List LogEntry) (x y : LogEntry)
    → take (suc k) xs ≡ take (suc k) ys
    → get_elem? xs k ≡ some x
    → get_elem? ys k ≡ some y
    → x ≡ y
take_last k xs ys x y e hx hy =
    let a = get_elem?-take (suc k) k xs (omega arith) in
    let b = get_elem?-take (suc k) k ys (omega arith) in
    cc (a, b, ap (λ l. get_elem? l k) e, hx, hy)

pub get_elem?-middle :
    (pre : List LogEntry) (x : LogEntry) (xs : List LogEntry)
    → get_elem? (pre ++ x ∷ xs) (length pre) ≡ some x
get_elem?-middle [] x xs = refl
get_elem?-middle (p ∷ pre) x xs = get_elem?-middle pre x xs

-- Behind a common beginning, a traced log that is reconciled with a piece of a traced log is traced.
pub reconcile-Traced :
    (g : Leaders) (p : LogEntry) (pre os ns s : List LogEntry)
    → Traced g ((p ∷ pre) ++ os)
    → Traced g ((p ∷ pre) ++ (ns ++ s))
    → Traced g ((p ∷ pre) ++ reconcile os ns)
unfolding reconcile
reconcile-Traced g p pre os [] s mine theirs = mine
reconcile-Traced g p pre [] (n ∷ ns) s mine theirs =
    Traced-prefix_piece g (p ∷ pre) (n ∷ ns) s theirs
reconcile-Traced g p pre (o ∷ os) (n ∷ ns) s mine theirs = elim (Bool-cases (o.term == n.term)) [
  | inr other ↦ rw other (Traced-prefix_piece g (p ∷ pre) (n ∷ ns) s theirs)
  | inl agree ↦
      let at_o = get_elem?-middle (p ∷ pre) o os in
      let at_n = get_elem?-middle (p ∷ pre) n (ns ++ s) in
      let same : o ≡ n =
        take_last (suc (length pre)) ((p ∷ pre) ++ o ∷ os) ((p ∷ pre) ++ (n ∷ ns ++ s)) o n
          (Traced-meet g ((p ∷ pre) ++ o ∷ os) ((p ∷ pre) ++ (n ∷ ns ++ s)) (length pre) o n mine
            theirs at_o at_n ((nat_beq_iff o.term n.term).0 agree))
          at_o at_n in
      let step =
        reconcile-Traced g p (pre ++ o ∷ []) os ns s (rw (append_assoc pre (o ∷ []) os) mine)
          (rw (append_assoc pre (o ∷ []) (ns ++ s), same) theirs) in
      rw agree (rw (append_assoc pre (o ∷ []) (reconcile os ns)) at step)
]

-- A log that already holds the piece stays.
pub reconcile_held : (ns s : List LogEntry) → reconcile (ns ++ s) ns ≡ ns ++ s
unfolding reconcile
reconcile_held [] s = refl
reconcile_held (n ∷ ns) s = ground (arith, reconcile_held ns s, nat_beq_iff n.term n.term)
