-- ===== src/Cluster/Network/Delivery.antt =====
-- hw3/raft/raft.go: a good request leaves a traced log traced.
use mathlib.Core.Path.{subst}
use cmsc.Prelude.{
  ℕ, zero, suc, ◌+◌, ◌<◌, ◌≡◌, refl, sym, ap, ◌∙◌, ◌⊎◌, inl, inr, List, [], ◌∷◌, ◌++◌, some, true,
  ok, length, get_elem?, take, drop, arith, nat_eq, nat_beq_iff, get_elem?-some,
  get_elem?-append_left, take-append-drop, ok-injective,
}
use cmsc.Raft.Log.{Log, LogEntry, sentinel, at}
use cmsc.Raft.Log.WellFormed.{IsWf}
use cmsc.Raft.Node.{Raft, is_leader}
use cmsc.Raft.Replicate.{AppendEntriesArgs, AppendEntriesReply, append_entries, consistent}
use cmsc.Raft.Replicate.Merge.{reconcile}
use cmsc.Raft.Replicate.Follower.{
  consistent-lt, Handled, stale, rejected, accepted, append_entries-Handled,
}
use cmsc.Cluster.Network.Traced.{
  Leaders, Traced, Headed, take-append_le, take_full, Traced-meet, reconcile-Traced, reconcile_held,
}
use cmsc.Cluster.Network.Effect.{append_entries-Steady}
use cmsc.Cluster.Network.Messages.{Piece, GoodMessage}

Headed-take_append : (p : ℕ) (l r : List LogEntry) → Headed l → Headed (take (suc p) l ++ r)
Headed-take_append p [] r h = cc
Headed-take_append p (x ∷ xs) r h = h

pub Headed-take_one : (l : List LogEntry) → Headed l → take 1 l ≡ sentinel ∷ []
Headed-take_one [] h = cc
Headed-take_one (x ∷ xs) h = ground (arith, h)

pub consistent-term :
    (m : AppendEntriesArgs) (l : Log) (k : ℕ) (x : LogEntry)
    → m.prev_log_index ≡ suc k
    → get_elem? l.entries (suc k) ≡ some x
    → suc k < length l.entries
    → consistent m l ≡ true
    → x.term ≡ m.prev_log_term
unfolding consistent at
consistent-term m l k x e here inside c =
    ground (arith, e, here, inside, nat_beq_iff x.term m.prev_log_term)

drop-append : (xs ys : List LogEntry) → drop (length xs) (xs ++ ys) ≡ ys
drop-append [] ys = refl
drop-append (x ∷ xs) ys = drop-append xs ys

module _ (g : Leaders) (m : AppendEntriesArgs) (l : Log) (w : IsWf l) (c : consistent m l ≡ true)
    (p : Piece g m) (mine : Traced g l.entries) (head : Headed l.entries)
    (theirs : Traced g (g m.term)) (top : (g m.term ≡ []) ⊎ Headed (g m.term)) where
  beginning : take (suc m.prev_log_index) (g m.term) ≡ p.pre
  beginning =
      ap (take (suc m.prev_log_index)) p.whole
      ∙ take-append_le (suc m.prev_log_index) p.pre (m.entries ++ p.s) (omega (arith, p.size))
      ∙ take_full (suc m.prev_log_index) p.pre (omega (arith, p.size))

  prev_at : get_elem? (g m.term) m.prev_log_index ≡ some p.prev
  prev_at =
      ap (λ t. get_elem? t m.prev_log_index) p.whole
      ∙ get_elem?-append_left p.pre (m.entries ++ p.s) m.prev_log_index (omega (arith, p.size))
      ∙ p.there

  -- The follower's log begins as the leader's does.
  common_at : (k : ℕ) → m.prev_log_index ≡ k → take (suc k) l.entries ≡ take (suc k) (g m.term)
  common_at zero e = elim top [
    | inl none_yet ↦ ground (arith, none_yet, prev_at)
    | inr headed ↦ Headed-take_one l.entries head ∙ sym (Headed-take_one (g m.term) headed)
  ]
  common_at (suc k) e =
      let inside : suc k < length l.entries = omega (arith, consistent-lt m l w c, e) in
      let (x, here) = get_elem?-some l.entries (suc k) inside in
      let term : x.term ≡ p.prev.term =
        consistent-term m l k x e here inside c ∙ sym (p.checks (omega (arith, e))) in
      Traced-meet g l.entries (g m.term) k x p.prev mine theirs here
        (ap (get_elem? (g m.term)) (sym e) ∙ prev_at) term

  pub common : take (suc m.prev_log_index) l.entries ≡ p.pre
  common = common_at m.prev_log_index refl ∙ beginning

  pub split : p.pre ++ drop (suc m.prev_log_index) l.entries ≡ l.entries
  split =
      ap (λ t. t ++ drop (suc m.prev_log_index) l.entries) (sym common)
      ∙ take-append-drop (suc m.prev_log_index) l.entries

  piece-Traced :
      (pre : List LogEntry)
      → p.pre ≡ pre
      → Traced g (pre ++ reconcile (drop (suc m.prev_log_index) l.entries) m.entries)
  piece-Traced [] e = ground (arith, p.size, e)
  piece-Traced (q ∷ pre) e =
      reconcile-Traced g q pre (drop (suc m.prev_log_index) l.entries) m.entries p.s
        (subst (Traced g) (sym split ∙ ap (λ t. t ++ drop (suc m.prev_log_index) l.entries) e) mine)
        (subst (Traced g) (p.whole ∙ ap (λ t. t ++ (m.entries ++ p.s)) e) theirs)

  pub merged-Traced : Traced g (
      take (suc m.prev_log_index) l.entries
      ++ reconcile (drop (suc m.prev_log_index) l.entries) m.entries)
  merged-Traced =
      subst (Traced g)
        (ap (λ t. t ++ reconcile (drop (suc m.prev_log_index) l.entries) m.entries) (sym common))
        (piece-Traced p.pre refl)

  -- The log of the leader of the term itself stays.
  pub merged_own :
      l.entries ≡ g m.term
      → take (suc m.prev_log_index) l.entries
          ++ reconcile (drop (suc m.prev_log_index) l.entries) m.entries
        ≡ l.entries
  merged_own own =
      let rest : drop (suc m.prev_log_index) l.entries ≡ m.entries ++ p.s =
        ap (drop (suc m.prev_log_index)) (own ∙ p.whole)
        ∙ ap (λ k. drop k (p.pre ++ (m.entries ++ p.s))) (sym p.size)
        ∙ drop-append p.pre (m.entries ++ p.s) in
      ap (λ t. take (suc m.prev_log_index) l.entries ++ t)
        (ap (λ t. reconcile t m.entries) rest ∙ reconcile_held m.entries p.s ∙ sym rest)
      ∙ take-append-drop (suc m.prev_log_index) l.entries

-- What a node's log is after a delivery, against the leaders' logs.
abbrev pub Fits : Leaders → Raft → Type 0
Fits g rf =
    Traced g rf.log.entries
    × Headed rf.log.entries
    × (is_leader rf.state ≡ true → rf.log.entries ≡ g rf.current_term)

pub kept-Fits :
    (g : Leaders) (rf rf' : Raft)
    → Fits g rf
    → rf'.log.entries ≡ rf.log.entries
    → (is_leader rf'.state ≡ true
        → (is_leader rf.state ≡ true) × (rf'.current_term ≡ rf.current_term))
    → Fits g rf'
kept-Fits g rf rf' (t, h, o) same leads = (
  subst (Traced g) (sym same) t,
  subst Headed (sym same) h,
  λ l. same ∙ o (leads l).0 ∙ sym (ap g (leads l).1),
)

merged-Fits :
    (g : Leaders) (m : AppendEntriesArgs) (rf rf' : Raft)
    → IsWf rf.log
    → GoodMessage g m
    → Traced g (g m.term)
    → (g m.term ≡ []) ⊎ Headed (g m.term)
    → Fits g rf
    → (is_leader rf'.state ≡ true
        → (is_leader rf.state ≡ true) × (rf'.current_term ≡ rf.current_term))
    → consistent m rf.log ≡ true
    → rf'.current_term ≡ m.term
    → rf'.log.entries
      ≡ take (suc m.prev_log_index) rf.log.entries
        ++ reconcile (drop (suc m.prev_log_index) rf.log.entries) m.entries
    → Fits g rf'
merged-Fits g m rf rf' w good theirs top (t, h, o) leads c term left = elim good.origin [
  | inl (nothing, _, _) ↦
      kept-Fits g rf rf' (t, h, o)
        (left
          ∙ ap
              (λ (es : List LogEntry).
                take (suc m.prev_log_index) rf.log.entries
                ++ reconcile (drop (suc m.prev_log_index) rf.log.entries) es)
              nothing
          ∙ unfold reconcile in take-append-drop (suc m.prev_log_index) rf.log.entries)
        leads
  | inr p ↦ (
    subst (Traced g) (sym left) (merged-Traced g m rf.log w c p t h theirs top),
    subst Headed (sym left) (Headed-take_append m.prev_log_index rf.log.entries _ h),
    λ l.
        let own : rf.log.entries ≡ g rf'.current_term = o (leads l).0 ∙ sym (ap g (leads l).1) in
        left ∙ merged_own g m rf.log w c p t h theirs top (own ∙ ap g term) ∙ own,
  )
]

pub delivery-Fits :
    (g : Leaders) (m : AppendEntriesArgs) (draw : ℕ) (reply : AppendEntriesReply) (rf rf' : Raft)
    → append_entries draw m rf ≡ ok (rf', reply)
    → IsWf rf.log
    → GoodMessage g m
    → Traced g (g m.term)
    → (g m.term ≡ []) ⊎ Headed (g m.term)
    → Fits g rf
    → Fits g rf'
delivery-Fits g m draw reply rf rf' run w good theirs top fits =
    let n : m.prev_log_index + 1 ≡ suc m.prev_log_index = omega arith in
    let (rf'', reply'', run'', answer) = append_entries-Handled draw m rf w (rw n good.indexed) in
    let both : Path (Raft × AppendEntriesReply) (rf'', reply'') (rf', reply) =
      ok-injective (sym run'' ∙ run) in
    let same : rf'' ≡ rf' = ap (λ (r : Raft × AppendEntriesReply). r.0) both in
    let (_, leads) = append_entries-Steady draw m reply rf rf' run in
    by_answer reply'' (subst (λ (r : Raft). Handled m rf r reply'') same answer) leads
  where
    by_answer :
        (r : AppendEntriesReply)
        → Handled m rf rf' r
        → (is_leader rf'.state ≡ true
            → (is_leader rf.state ≡ true) × (rf'.current_term ≡ rf.current_term))
        → Fits g rf'
    by_answer r (stale _ e _) leads = subst (Fits g) (sym e) fits
    by_answer r (rejected _ _ _ e _ _) leads =
        kept-Fits g rf rf' fits (ap (λ (l : Log). l.entries) e) leads
    by_answer r (accepted _ c term left _ _) leads =
        let n : m.prev_log_index + 1 ≡ suc m.prev_log_index = omega arith in
        merged-Fits g m rf rf' w good theirs top fits leads c term (
          left
          ∙ ap (λ (k : ℕ). take k rf.log.entries ++ reconcile (drop k rf.log.entries) m.entries) n)
