-- ===== src/Kvraft/Server/Waiters.antt =====
-- hw3/server/main.go: which Put handler an applied entry wakes, and what the handler then answers.
use cmsc.Prelude.{
  ℕ, ◌<◌, ◌≡◌, ◌≢◌, ◌∙◌, true, false, some, List, [], ◌∷◌, ◌==◌, nat_eq, if◌then◌else◌, All, arith,
  length, get_elem?, length-set, length, get_elem?-set_self, get_elem?-set_ne,
  get_elem?-append_last, get_elem?_lt, Option-cases, inl, inr,
}
use cmsc.Prelude.Table
use cmsc.Prelude.Table.{get-put, get-remove}
use cmsc.Raft.Node.{ApplyMsg}
use cmsc.Kvraft.Server.{
  Server, waiting, put_ok, aborted, put_register, put_wake, wake, apply, apply_all, apply_command,
}

-- The table refers to waiters that exist.
abbrev pub PendingFits : Server → Type 0
PendingFits s = (index pp : ℕ) → Table.get s.pending index ≡ some pp → pp < length s.puts

-- The waiter `pp` is open for `term` and is the one that the entry at `index` will wake.
pub record Awaits (index term pp : ℕ) (s : Server) : Type 0 where
  pub named : Table.get s.pending index ≡ some pp
  pub only : (other : ℕ) → Table.get s.pending other ≡ some pp → other ≡ index
  pub cell : get_elem? s.puts pp ≡ some (record { term = term; closed = false })

pub register-Awaits :
    (index term : ℕ) (s : Server)
    → PendingFits s
    → Awaits index term (put_register index term s).1 (put_register index term s).0
unfolding put_register
register-Awaits index term s fits = record {
  named = ground (arith, get-put s.pending index index (length s.puts));
  only = λ other h.
      ground (arith, get-put s.pending index other (length s.puts), fits other (length s.puts));
  cell = get_elem?-append_last s.puts _;
}

-- An entry at another index leaves the waiter.
wake-Awaits :
    (index term pp : ℕ) (msg : ApplyMsg) (s : Server)
    → Awaits index term pp s
    → msg.index ≢ index
    → Awaits index term pp (wake msg s)
unfolding wake
wake-Awaits index term pp msg s a other = elim (Option-cases (Table.get s.pending msg.index)) [
  | inl e ↦ rw (e, wake) a
  | inr (q, e) ↦
      let apart : q ≢ pp = λ same. other (a.only msg.index (rw (← same) e)) in
      rw (e, wake)
        (record {
          named = ground (arith, a.named, get-remove s.pending msg.index index);
          only = λ o h. ground (arith, a.only o, get-remove s.pending msg.index o);
          cell = get_elem?-set_ne s.puts q pp _ apart ∙ a.cell;
        })
]

apply-Awaits :
    (index term pp : ℕ) (msg : ApplyMsg) (s : Server)
    → Awaits index term pp s
    → msg.index ≢ index
    → Awaits index term pp (apply msg s)
unfolding apply
apply-Awaits index term pp msg s a other =
    wake-Awaits index term pp msg (record s { st = apply_command msg.command s.st })
      (record { named = a.named; only = a.only; cell = a.cell }) other

pub apply_all-Awaits :
    (index term pp : ℕ) (msgs : List ApplyMsg) (s : Server)
    → Awaits index term pp s
    → All (λ (m : ApplyMsg). m.index ≢ index) msgs
    → Awaits index term pp (apply_all msgs s)
unfolding apply_all
apply_all-Awaits index term pp [] s a h = a
apply_all-Awaits index term pp (m ∷ ms) s a h =
    apply_all-Awaits index term pp ms (apply m s) (apply-Awaits index term pp m s a h.0) h.1

wake-result :
    (index term pp : ℕ) (msg : ApplyMsg) (s : Server)
    → Awaits index term pp s
    → msg.index ≡ index
    → put_wake pp term (wake msg s) ≡ (if msg.term == term then put_ok else aborted)
unfolding wake put_wake
wake-result index term pp msg s a same = ground (
  arith,
  a.named,
  a.cell,
  get_elem?-set_self s.puts pp (record { term = msg.term; closed = true })
      (get_elem?_lt s.puts pp a.cell),
)

pub Awaits-waiting :
    (index term pp : ℕ) (s : Server) → Awaits index term pp s → put_wake pp term s ≡ waiting
unfolding put_wake
Awaits-waiting index term pp s a = ground (arith, a.cell)

-- A Put that registers for an index waits while entries at other indices are applied. When the entry
-- at its index is applied it answers: ok if that entry has the term in which the Put was submitted,
-- and aborted if it has another.
pub put_answered :
    (index term : ℕ) (s : Server) (earlier : List ApplyMsg) (msg : ApplyMsg)
    → PendingFits s
    → All (λ (m : ApplyMsg). m.index ≢ index) earlier
    → msg.index ≡ index
    → (put_wake (put_register index term s).1 term (apply_all earlier (put_register index term s).0)
        ≡ waiting)
      × (put_wake
            (put_register index term s).1
            term
            (apply msg (apply_all earlier (put_register index term s).0))
          ≡ (if msg.term == term then put_ok else aborted))
put_answered index term s earlier msg fits others same =
    let pp = (put_register index term s).1 in
    let a =
      apply_all-Awaits index term pp earlier (put_register index term s).0
        (register-Awaits index term s fits) others in
    (
      Awaits-waiting index term pp _ a,
      unfold apply in
          wake-result index term pp msg _ (record { named = a.named; only = a.only; cell = a.cell })
            same,
    )

pub apply-PendingFits : (msg : ApplyMsg) (s : Server) → PendingFits s → PendingFits (apply msg s)
unfolding apply wake
apply-PendingFits msg s fits i pp h = elim (Option-cases (Table.get s.pending msg.index)) [
  | inl e ↦ ground (arith, fits i pp)
  | inr (q, e) ↦ ground (
    arith,
    fits i pp,
    get-remove s.pending msg.index i,
    length-set s.puts q (record { term = msg.term; closed = true }),
  )
]
