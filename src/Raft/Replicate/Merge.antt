-- ===== src/Raft/Replicate/Merge.antt =====
-- hw3/raft/raft.go: the merge loop of `AppendEntries` against a description on lists.
use mathlib.Core.List.{append-nil, append_assoc}
use cmsc.Prelude.{
  ℕ, suc, ◌+◌, ◌<◌, ◌≡◌, refl, ap, ◌∙◌, false, some, List, [], ◌∷◌, ◌++◌, ok, ◌==◌, nat_eq,
  if◌then◌else◌, length, get_elem?, take, arith, inl, inr, Bool-cases, nat_beq_iff, Outcome, ◌>>=◌,
  length-append,
}
use cmsc.Raft.Log.{Log, LogEntry, last_index, append, at, truncate}
use cmsc.Raft.Log.WellFormed.{IsIndexed}
use cmsc.Raft.Replicate.{merge_entry, merge}

-- What the follower keeps of its entries `old` against the leader's `new`: while the terms agree its
-- own, from the first conflict on the leader's, and with no conflict also what it has beyond them.
unfoldable pub reconcile : List LogEntry → List LogEntry → List LogEntry
reconcile old [] = old
reconcile [] (n ∷ ns) = n ∷ ns
reconcile (o ∷ os) (n ∷ ns) = if o.term == n.term then o ∷ reconcile os ns else n ∷ ns

reconcile-nil : (ns : List LogEntry) → reconcile [] ns ≡ ns
unfolding reconcile
reconcile-nil [] = refl
reconcile-nil (n ∷ ns) = refl

abbrev of_entries : List LogEntry → Log
of_entries es = record { entries = es }

take-length : (xs ys : List LogEntry) → take (length xs) (xs ++ ys) ≡ xs
take-length [] ys = refl
take-length (x ∷ xs) ys = rw (take-length xs ys)

get_elem?-split :
    (xs : List LogEntry) (y : LogEntry) (ys : List LogEntry)
    → get_elem? (xs ++ y ∷ ys) (length xs) ≡ some y
get_elem?-split [] y ys = refl
get_elem?-split (x ∷ xs) y ys = get_elem?-split xs y ys

-- Each round at the index just behind `pre`.
merge_entry_keep :
    (pre : List LogEntry) (o n : LogEntry) (os : List LogEntry)
    → 0 < length pre
    → o.term ≡ n.term
    → merge_entry (of_entries (pre ++ o ∷ os)) (length pre) n ≡ ok (of_entries (pre ++ o ∷ os))
unfolding merge_entry at
merge_entry_keep pre o n os h e =
    ground (arith, get_elem?-split pre o os, length-append pre (o ∷ os))

merge_entry_conflict :
    (pre : List LogEntry) (o n : LogEntry) (os : List LogEntry)
    → 0 < length pre
    → n.index ≡ length pre
    → (o.term == n.term) ≡ false
    → merge_entry (of_entries (pre ++ o ∷ os)) (length pre) n ≡ ok (of_entries (pre ++ n ∷ []))
unfolding merge_entry at truncate append last_index
merge_entry_conflict pre o n os h p e =
    ground (arith, get_elem?-split pre o os, length-append pre (o ∷ os), take-length pre (o ∷ os))

merge_entry_new :
    (pre : List LogEntry) (n : LogEntry)
    → 0 < length pre
    → n.index ≡ length pre
    → merge_entry (of_entries pre) (length pre) n ≡ ok (of_entries (pre ++ n ∷ []))
unfolding merge_entry at append last_index
merge_entry_new pre n h p = ground arith

-- A round that gives `l'`, then the rest.
merge-cons :
    (l : Log) (idx : ℕ) (n : LogEntry) (ns : List LogEntry) {l' : Log}
    → merge_entry l idx n ≡ ok l'
    → merge l idx (n ∷ ns) ≡ merge l' (idx + 1) ns
unfolding merge
merge-cons l idx n ns e = ap (λ (m : Outcome Log). m >>= λ k. merge k (idx + 1) ns) e

-- The loop behind an entry that is now in place: `pre` has grown by it.
merge_next :
    (pre rest ns out : List LogEntry) (x : LogEntry)
    → (0 < length (pre ++ x ∷ [])
        → IsIndexed (length (pre ++ x ∷ [])) ns
        → merge (of_entries ((pre ++ x ∷ []) ++ rest)) (length (pre ++ x ∷ [])) ns
          ≡ ok (of_entries ((pre ++ x ∷ []) ++ out)))
    → IsIndexed (suc (length pre)) ns
    → merge (of_entries (pre ++ x ∷ rest)) (length pre + 1) ns ≡ ok (of_entries (pre ++ x ∷ out))
merge_next pre rest ns out x ih p =
    rw (len, ← append_assoc pre (x ∷ []) rest, ← append_assoc pre (x ∷ []) out)
      (ih (omega (arith, len)) (rw (← len') p))
  where
    len : length pre + 1 ≡ length (pre ++ x ∷ [])
    len = omega (arith, length-append pre (x ∷ []))

    len' : suc (length pre) ≡ length (pre ++ x ∷ [])
    len' = omega (arith, length-append pre (x ∷ []))

-- The loop never panics on entries that carry the right indices, and computes `reconcile`.
pub merge-reconcile :
    (pre old new : List LogEntry)
    → 0 < length pre
    → IsIndexed (length pre) new
    → merge (of_entries (pre ++ old)) (length pre) new ≡ ok (of_entries (pre ++ reconcile old new))
unfolding reconcile
merge-reconcile pre old [] h p = unfold merge in refl
merge-reconcile pre [] (n ∷ ns) h p = rw append-nil (
    merge-cons (of_entries pre) (length pre) n ns (merge_entry_new pre n h p.0)
    ∙ merge_next pre [] ns ns n
        (λ h' p'. rw reconcile-nil at (merge-reconcile (pre ++ n ∷ []) [] ns h' p')) p.1)
merge-reconcile pre (o ∷ os) (n ∷ ns) h p = elim (Bool-cases (o.term == n.term)) [
  | inl e ↦ rw e (
      merge-cons _ (length pre) n ns
        (merge_entry_keep pre o n os h ((nat_beq_iff o.term n.term).0 e))
      ∙ merge_next pre os ns (reconcile os ns) o (merge-reconcile (pre ++ o ∷ []) os ns) p.1)
  | inr e ↦ rw e (
      merge-cons _ (length pre) n ns (merge_entry_conflict pre o n os h p.0 e)
      ∙ merge_next pre [] ns ns n
          (λ h' p'. rw reconcile-nil at (merge-reconcile (pre ++ n ∷ []) [] ns h' p')) p.1)
]
