-- ===== src/Cluster/Replicas/Agree.antt =====
-- hw3/raft/raft.go and hw3/server/main.go: servers that have applied equally much hold the same.

use mathlib.Core.List.{append-nil}
use cmsc.Prelude.{
  ℕ, suc, ◌+◌, ◌<◌, ◌≡◌, refl, sym, ap, ◌∙◌, inl, inr, false, some, List, [], ◌∷◌, ◌++◌, arith,
  length, take, ltb, get_elem?, length-append, ◌==◌, nat_eq, nat_beq_iff, Bool-cases,
}
use cmsc.Raft.Log.{last_index}
use cmsc.Raft.Node.{Raft, ApplyMsg}
use cmsc.Raft.Commit.{ApplyStep, up_to_date, missing, emit, apply_msg, apply_step}
use cmsc.Cluster.{set1}
use cmsc.Cluster.Network.{emitted}
use cmsc.Raft.Log.WellFormed.{IsWf, index-get_elem?}
use cmsc.Raft.Commit.Apply.{apply_step-emit, at_elem}
use cmsc.Cluster.Completeness.Terms.{append_last-cases}
use cmsc.Cluster.Completeness.Majority.{some-injective}
use cmsc.Cluster.Completeness.Voters.{set1_each}
use cmsc.Cluster.Replicas.{handed_to}
use cmsc.Cluster.Replicas.Counts.{Rests}

-- What node `i` has handed out are the entries from index 1 on, as many as `lastApplied` says.
pub record Counted (i : ℕ) (rf : Raft) (applied : List (ℕ × ApplyMsg)) : Type 0 where
  pub size : length (handed_to i applied) ≡ rf.last_applied
  pub indexed :
      (p : ℕ) (x : ApplyMsg) → get_elem? (handed_to i applied) p ≡ some x → x.index ≡ suc p

Rests-Counted :
    (i : ℕ) (rf rf' : Raft) (applied : List (ℕ × ApplyMsg))
    → Rests rf rf'
    → Counted i rf applied
    → Counted i rf' applied
Rests-Counted i rf rf' applied same c = record { size = c.size ∙ sym same; indexed = c.indexed }

-- One node moves and hands out nothing.
pub set1-Counted :
    (node : ℕ → Raft) (i : ℕ) (rf' : Raft) (applied : List (ℕ × ApplyMsg))
    → Rests (node i) rf'
    → ((v : ℕ) → Counted v (node v) applied)
    → (v : ℕ) → Counted v (set1 node i rf' v) applied
set1-Counted node i rf' applied same all =
    set1_each (λ v rf. Counted v rf applied) node i rf'
      (Rests-Counted i (node i) rf' applied same (all i)) (λ v e. all v)

-- A message in a node's sequence was handed out by it.
pub handed_to-source :
    (i p : ℕ) (applied : List (ℕ × ApplyMsg)) (x : ApplyMsg)
    → get_elem? (handed_to i applied) p ≡ some x
    → (k : ℕ) × (get_elem? applied k ≡ some (i, x))
unfolding handed_to
handed_to-source i p [] x h = cc
handed_to-source i p ((j, msg) ∷ rest) x h = elim (Bool-cases (j == i)) [
  | inr e ↦
      let (k, there) = handed_to-source i p rest x (
        ap (λ (l : List ApplyMsg). get_elem? l p) (sym (append-nil (handed_to i rest)))
        ∙ (rw e at h)) in
      (suc k, there)
  | inl e ↦ elim (append_last-cases (handed_to i rest) msg p x (rw e at h)) [
    | inl (_, old) ↦ let (k, there) = handed_to-source i p rest x old in (suc k, there)
    | inr (_, same) ↦ (0, ground (arith, same, (nat_beq_iff j i).0 e))
  ]
]

pub prefix_ext :
    (xs ys : List ApplyMsg)
    → ((p : ℕ) (x : ApplyMsg) → get_elem? xs p ≡ some x → get_elem? ys p ≡ some x)
    → xs ≡ take (length xs) ys
prefix_ext [] ys h = refl
prefix_ext (x ∷ xs) [] h = absurd (cc (h 0 x refl))
prefix_ext (x ∷ xs) (y ∷ ys) h =
    let e : y ≡ x = some-injective (h 0 x refl) in
    let rest = prefix_ext xs ys (λ p z there. h (suc p) z there) in cc

apply_step-idle :
    (r : Raft) → ltb r.last_applied r.commit_index ≡ false → apply_step r ≡ (r, up_to_date)
unfolding apply_step
apply_step-idle r e = ground (arith, e)

-- A node that has not applied all that is committed hands out the next entry.
pub next-Counted :
    (i : ℕ) (rf : Raft) (applied : List (ℕ × ApplyMsg))
    → IsWf rf.log
    → (rf.last_applied < rf.commit_index → rf.commit_index < length rf.log.entries)
    → Counted i rf applied
    → Counted i (apply_step rf).0 (emitted i (apply_step rf).1 ++ applied)
next-Counted i rf applied w inside c = elim (Bool-cases (ltb rf.last_applied rf.commit_index)) [
  | inr done ↦ rw (apply_step-idle rf done) c
  | inl more ↦
      let lt : rf.last_applied < rf.commit_index = ground (arith, more) in
      let (e, here, elem) =
        at_elem rf.log (rf.last_applied + 1) (omega arith)
          (unfold last_index in omega (arith, lt, inside lt)) in
      let msg : ApplyMsg = apply_msg e in
      let index = index-get_elem? 0 rf.log.entries (rf.last_applied + 1) w.indexed elem in
      let own : handed_to i ((i, msg) ∷ applied) ≡ handed_to i applied ++ msg ∷ [] =
        unfold handed_to in ground (arith, nat_beq_iff i i) in
      rw (apply_step-emit rf e lt here) (record {
        size =
            ap length own ∙ length-append (handed_to i applied) (msg ∷ []) ∙ omega (arith, c.size);
        indexed = λ p x there.
            elim (append_last-cases (handed_to i applied) msg p x
              (ap (λ (l : List ApplyMsg). get_elem? l p) (sym own) ∙ there)) [
                | inl (_, old) ↦ c.indexed p x old
                | inr (at_end, same) ↦
                    omega (arith, at_end, c.size, index, ap (λ (y : ApplyMsg). y.index) same)
              ];
      })
]

-- What another node hands out leaves the sequence.
pub others_handed :
    (v i : ℕ) (step : ApplyStep) (applied : List (ℕ × ApplyMsg))
    → (v == i) ≡ false
    → handed_to v (emitted i step ++ applied) ≡ handed_to v applied
unfolding handed_to
others_handed v i up_to_date applied e = refl
others_handed v i missing applied e = refl
others_handed v i (emit msg) applied e =
    let other : (i == v) ≡ false = ground (arith, e, nat_beq_iff i v, nat_beq_iff v i) in
    rw other (append-nil (handed_to v applied))
