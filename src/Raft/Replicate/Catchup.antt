-- ===== src/Raft/Replicate/Catchup.antt =====
-- hw3/raft/raft.go: one request of a leader brings a follower's log to the terms of its own.
use cmsc.Prelude.{
  ℕ, suc, ◌+◌, ◌<◌, ◌≤◌, ◌≡◌, refl, sym, ap, ◌∙◌, true, some, List, [], ◌∷◌, ◌++◌, ok, map, nat_eq,
  nat_beq_iff, length, get_elem?, take, drop, arith, length-take, get_elem?-take,
}
use cmsc.Raft.Log.{Log, LogEntry, at}
use cmsc.Raft.Log.WellFormed.{IsWf}
use cmsc.Raft.Node.{Raft, leader}
use cmsc.Raft.Replicate.{
  AppendEntriesArgs, AppendEntriesReply, consistent, append_args, append_entries,
}
use cmsc.Raft.Replicate.Merge.{reconcile}
use cmsc.Raft.Replicate.Follower.{Handled, stale, rejected, accepted, append_entries-Handled}
use cmsc.Raft.Replicate.Sender.{append_args-rest}

-- The terms of a log.
abbrev pub terms : List LogEntry → List ℕ
terms = map (λ (e : LogEntry). e.term)

whole_terms : (ns : List LogEntry) → terms (take (length ns) ns) ≡ terms ns
whole_terms [] = refl
whole_terms (n ∷ ns) = ap (λ t. n.term ∷ t) (whole_terms ns)

reconcile-terms : (os ns : List LogEntry) → terms (take (length ns) (reconcile os ns)) ≡ terms ns
unfolding reconcile
reconcile-terms os [] = refl
reconcile-terms [] (n ∷ ns) = ap (λ t. n.term ∷ t) (whole_terms ns)
reconcile-terms (o ∷ os) (n ∷ ns) =
    ground (arith, reconcile-terms os ns, nat_beq_iff o.term n.term, whole_terms ns)

common-terms :
    (pre os ns : List LogEntry)
    → terms (take (length (pre ++ ns)) (pre ++ reconcile os ns)) ≡ terms (pre ++ ns)
common-terms [] os ns = reconcile-terms os ns
common-terms (x ∷ pre) os ns = ap (λ t. x.term ∷ t) (common-terms pre os ns)

same_check :
    (k : ℕ) (args : AppendEntriesArgs) (l m : Log)
    → args.prev_log_index ≡ k
    → k < length l.entries
    → take (suc k) m.entries ≡ take (suc k) l.entries
    → consistent args l ≡ true
    → consistent args m ≡ true
unfolding consistent at
same_check k args l m e inside same h =
    let long : k < length m.entries =
      omega (arith, length-take (suc k) m.entries, length-take (suc k) l.entries, ap length same) in
    let there : get_elem? m.entries k ≡ get_elem? l.entries k =
      sym (get_elem?-take (suc k) k m.entries (omega arith))
      ∙ ap (λ t. get_elem? t k) same
      ∙ get_elem?-take (suc k) k l.entries (omega arith) in
    ground (arith, e, inside, long, there, h)

Handled-terms :
    (args : AppendEntriesArgs) (k : ℕ) (lead foll foll' : Raft) (reply : AppendEntriesReply)
    → args.prev_log_index ≡ k
    → take (suc k) lead.log.entries ++ args.entries ≡ lead.log.entries
    → take (suc k) foll.log.entries ≡ take (suc k) lead.log.entries
    → foll.current_term ≤ args.term
    → consistent args foll.log ≡ true
    → Handled args foll foll' reply
    → (reply ≡ record { term = args.term; success = true })
      × (terms (take (length lead.log.entries) foll'.log.entries) ≡ terms lead.log.entries)
Handled-terms args k lead foll foll' reply e whole same t c (stale late _ _) =
    absurd (omega (arith, late))
Handled-terms args k lead foll foll' reply e whole same t c (rejected _ failed _ _ _ _) =
    ground (arith, c, failed)
Handled-terms args k lead foll foll' reply e whole same t c (accepted _ _ _ left _ answer) = (
  answer,
  let n : args.prev_log_index + 1 ≡ suc k = omega (arith, e) in
      let done =
        common-terms (take (suc k) lead.log.entries) (drop (suc k) foll.log.entries) args.entries in
      rw (left, n, same) (rw whole at done),
)

-- A leader sends to a peer from `nextIndex`, `k + 1`, on, and the peer is in no later term and has
-- the leader's entries up to index `k`. The peer then accepts the request, and up to the end of the
-- leader's log its own log has the terms of the leader's, whatever it held there before.
pub append_entries-terms :
    (draw peer k : ℕ) (lead foll : Raft)
    → lead.state ≡ leader
    → IsWf lead.log
    → IsWf foll.log
    → get_elem? lead.next_index peer ≡ some (suc k)
    → k < length lead.log.entries
    → foll.current_term ≤ lead.current_term
    → take (suc k) foll.log.entries ≡ take (suc k) lead.log.entries
    → (args : AppendEntriesArgs) × (foll' : Raft) × (append_args peer lead ≡ ok (some args))
      × ((append_entries draw args foll
            ≡ ok (foll', record { term = lead.current_term; success = true }))
          × (terms (take (length lead.log.entries) foll'.log.entries) ≡ terms lead.log.entries))
append_entries-terms draw peer k lead foll is_lead w v next inside late same =
    let (args, sent, (e, t, whole, own, check)) =
      append_args-rest peer k lead is_lead w next inside in
    let n : args.prev_log_index + 1 ≡ suc k = omega (arith, e) in
    let (foll', reply, run, answer) = append_entries-Handled draw args foll v (rw n own) in
    let (yeah, agree) =
      Handled-terms args k lead foll foll' reply e whole same (omega (arith, t, late))
        (same_check k args lead.log foll.log e inside same check) answer in
    (args, foll', sent, (ground (arith, run, yeah, t), agree))
