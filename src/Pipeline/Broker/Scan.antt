-- ===== src/Pipeline/Broker/Scan.antt =====
-- hw4/broker/main.go: what one tick of `reEnqueueStalled` does to the whole broker.
pub mod Tick
use native.Mathlib.Decide.{dec_le}
use text.Mathlib.TextEquality.{eq_iff}
use mathlib.Core.List.{append_assoc}
use mathlib.Core.Option.{some-injective}
use mathlib.Core.Path.{subst}
use cmsc.Prelude.{
  length-append, ℕ, zero, suc, ◌-◌, ◌<◌, ◌≤◌, ◌≡◌, ◌≢◌, refl, sym, ap, ◌∙◌, ◌⊎◌, inl, inr, none,
  some, List, [], ◌∷◌, ◌++◌, String, ◌==◌, string_eq, ltb, if◌then◌else◌, All, length, get_elem?,
  get_elem?_lt, get_elem?-append_left, get_elem?-append_last, arith, Option-cases,
}
use cmsc.Prelude.Table
use cmsc.Prelude.Table.{get-remove}
use cmsc.Pipeline.Broker.{
  Task, InFlightEntry, BrokerServer, reclaim, Visit, re_enqueue_stalled, task_timeout,
}
use cmsc.Pipeline.Broker.Progress.{SameResults, re_enqueue_stalled-results}

-- The walk comes to each key at most once.
abbrev pub Once : List Visit → Type 0
Once [] = Unit
Once (v ∷ walk) = All (λ (w : Visit). v.id ≢ w.id) walk × Once walk

-- At the visit the worker's last sign of life is more than the timeout ago.
abbrev pub Stalled : Visit → InFlightEntry → Type 0
Stalled v e = task_timeout < v.now - e.last_heartbeat

-- The task of an entry that the walk found stalled.
pub data Taken (walk : List Visit) (s : BrokerServer) (t : Task) : Type 0 where
  taken :
      (k : ℕ) (v : Visit) (e : InFlightEntry)
      → get_elem? walk k ≡ some v
      → Table.get s.inflight v.id ≡ some e
      → Stalled v e
      → e.task ≡ t
      → Taken walk s t

-- What became of an entry that the walk came to: it was stalled and is gone, and its task is among
-- those put in front, or it was not and stays.
abbrev pub Decided : List Task → Visit → InFlightEntry → BrokerServer → Type 0
Decided front v e s' =
    (Stalled v e
      × (Table.get s'.inflight v.id ≡ none)
      × ((p : ℕ) × (get_elem? front p ≡ some e.task)))
    ⊎ (¬ Stalled v e × (Table.get s'.inflight v.id ≡ some e))

-- A tick: `front` is put before the queue.
pub record Scanned (walk : List Visit) (s s' : BrokerServer) : Type 0 where
  pub front : List Task
  pub queue : s'.pending ≡ front ++ s.pending
  pub source : (p : ℕ) (t : Task) → get_elem? front p ≡ some t → Taken walk s t
  pub visited :
      (k : ℕ) (v : Visit) (e : InFlightEntry)
      → get_elem? walk k ≡ some v
      → Table.get s.inflight v.id ≡ some e
      → Decided front v e s'
  pub others :
      (id : String)
      → All (λ (w : Visit). id ≢ w.id) walk
      → Table.get s'.inflight id ≡ Table.get s.inflight id
  pub results : SameResults s s'

pub All-get_elem? :
    (P : Visit → Type 0) (walk : List Visit) (k : ℕ) {v : Visit}
    → All P walk
    → get_elem? walk k ≡ some v
    → P v
All-get_elem? P [] k h there = absurd (ground arith)
All-get_elem? P (w ∷ walk) zero {v} h there = let same : w ≡ v = ground arith in rw (sym same) h.0
All-get_elem? P (w ∷ walk) (suc k) h there = All-get_elem? P walk k h.1 there

pub reclaim-other :
    (now : ℕ) (id j : String) (s : BrokerServer)
    → id ≢ j
    → Table.get (reclaim now id s).inflight j ≡ Table.get s.inflight j
unfolding reclaim
reclaim-other now id j s apart = ground (arith, get-remove s.inflight id j, eq_iff id j)

pub reclaim-old :
    (now : ℕ) (id j : String) (s : BrokerServer) {e : InFlightEntry}
    → Table.get (reclaim now id s).inflight j ≡ some e
    → Table.get s.inflight j ≡ some e
unfolding reclaim
reclaim-old now id j s h = ground (arith, get-remove s.inflight id j, eq_iff id j)

pub Taken-later :
    (v : Visit) (walk : List Visit) (s s1 : BrokerServer) (t : Task)
    → ((id : String) (e : InFlightEntry)
        → Table.get s1.inflight id ≡ some e
        → Table.get s.inflight id ≡ some e)
    → Taken walk s1 t
    → Taken (v ∷ walk) s t
Taken-later v walk s s1 t old (taken k w e there held stalled same) =
    taken (suc k) w e there (old w.id e held) stalled same

pub Decided-append :
    (front : List Task) (t : Task) (v : Visit) (e : InFlightEntry) (s' : BrokerServer)
    → Decided front v e s'
    → Decided (front ++ t ∷ []) v e s'
Decided-append front t v e s' (inl (stalled, gone, (p, at))) =
    inl (stalled, gone, (p, get_elem?-append_left front (t ∷ []) p (get_elem?_lt front p at) ∙ at))
Decided-append front t v e s' (inr stays) = inr stays

pub visited-cons :
    (front : List Task) (v : Visit) (walk : List Visit) (s s' : BrokerServer)
    → ((e : InFlightEntry) → Table.get s.inflight v.id ≡ some e → Decided front v e s')
    → ((k : ℕ) (w : Visit) (e : InFlightEntry)
        → get_elem? walk k ≡ some w
        → Table.get s.inflight w.id ≡ some e
        → Decided front w e s')
    → (k : ℕ) (w : Visit) (e : InFlightEntry) → get_elem? (v ∷ walk) k ≡ some w
    → Table.get s.inflight w.id ≡ some e
    → Decided front w e s'
visited-cons front v walk s s' first rest zero w e there held =
    let same : v ≡ w = ground arith in
    subst (λ (x : Visit). Table.get s.inflight x.id ≡ some e → Decided front x e s') same (first e)
      held
visited-cons front v walk s s' first rest (suc k) w e there held = rest k w e there held
