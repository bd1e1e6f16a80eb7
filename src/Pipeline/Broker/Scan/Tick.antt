-- ===== src/Pipeline/Broker/Scan/Tick.antt =====
-- hw4/broker/main.go: a tick of `reEnqueueStalled`, visit by visit.
use native.Mathlib.Decide.{dec_le}
use text.Mathlib.TextEquality.{eq_iff}
use mathlib.Core.List.{append_assoc}
use mathlib.Core.Option.{some-injective}
use mathlib.Core.Path.{subst}
use cmsc.Prelude.{
  length-append, ℕ, suc, ◌-◌, ◌≤◌, ◌≡◌, ◌≢◌, refl, sym, ap, ◌∙◌, inl, inr, none, some, List, [],
  ◌∷◌, ◌++◌, String, string_eq, All, length, get_elem?, get_elem?_lt, get_elem?-append_left,
  get_elem?-append_last, arith, Option-cases,
}
use cmsc.Prelude.Table
use cmsc.Prelude.Table.{get-remove}
use cmsc.Pipeline.Broker.{
  Task, InFlightEntry, BrokerServer, reclaim, Visit, re_enqueue_stalled, task_timeout,
}
use cmsc.Pipeline.Broker.Progress.{SameResults, re_enqueue_stalled-results}
use cmsc.Pipeline.Broker.Scan.{
  Once, Stalled, Taken, taken, Scanned, All-get_elem?, reclaim-other, reclaim-old, Taken-later,
  Decided-append, visited-cons,
}

-- A visit that finds nothing stalled.
Scanned-kept :
    (v : Visit) (walk : List Visit) (s s' : BrokerServer)
    → All (λ (w : Visit). v.id ≢ w.id) walk
    → ((e : InFlightEntry) → Table.get s.inflight v.id ≡ some e → ¬ Stalled v e)
    → Scanned walk s s'
    → Scanned (v ∷ walk) s s'
Scanned-kept v walk s s' fresh alive sc = record {
  front = sc.front;
  queue = sc.queue;
  source = λ p t at. Taken-later v walk s s t (λ id e held. held) (sc.source p t at);
  visited =
      visited-cons sc.front v walk s s' (λ e held. inr (alive e held, sc.others v.id fresh ∙ held))
        sc.visited;
  others = λ id h. sc.others id h.1;
  results = sc.results;
}

source-append :
    (v : Visit) (walk : List Visit) (s : BrokerServer) (front : List Task) (last t : Task) (p : ℕ)
    → ((q : ℕ) (u : Task) → get_elem? front q ≡ some u → Taken (v ∷ walk) s u)
    → Taken (v ∷ walk) s last
    → get_elem? (front ++ last ∷ []) p ≡ some t
    → Taken (v ∷ walk) s t
source-append v walk s front last t p early now at = elim (dec_le (suc p) (length front)) [
  | yes inside ↦ early p t (sym (get_elem?-append_left front (last ∷ []) p inside) ∙ at)
  | no beyond ↦
      let end : p ≡ length front =
        omega (
          arith,
          beyond,
          get_elem?_lt (front ++ last ∷ []) p at,
          length-append front (last ∷ []),
        ) in
      let final : get_elem? (front ++ last ∷ []) p ≡ some last =
        rw end (get_elem?-append_last front last) in
      let same : last ≡ t = some-injective last t (sym final ∙ at) in
      subst (Taken (v ∷ walk) s) same now
]

-- A visit that takes a task: the broker between the two is `s1`.
Scanned-taken :
    (v : Visit) (walk : List Visit) (s s1 s' : BrokerServer) (e : InFlightEntry)
    → All (λ (w : Visit). v.id ≢ w.id) walk
    → Table.get s.inflight v.id ≡ some e
    → Stalled v e
    → s1 ≡ record s { pending = e.task ∷ s.pending; inflight = Table.remove s.inflight v.id }
    → ((id : String) → v.id ≢ id → Table.get s1.inflight id ≡ Table.get s.inflight id)
    → ((id : String) (x : InFlightEntry)
        → Table.get s1.inflight id ≡ some x
        → Table.get s.inflight id ≡ some x)
    → SameResults s s'
    → Scanned walk s1 s'
    → Scanned (v ∷ walk) s s'
Scanned-taken v walk s s1 s' e fresh held stalled step other old same sc =
    let gone : Table.get s1.inflight v.id ≡ none =
      ground (arith, step, get-remove s.inflight v.id v.id, (eq_iff v.id v.id).1 refl) in
    record {
      front = sc.front ++ e.task ∷ [];
      queue =
          sc.queue
          ∙ ap (λ (b : BrokerServer). sc.front ++ b.pending) step
          ∙ sym (append_assoc sc.front (e.task ∷ []) s.pending);
      source = λ p t.
          source-append v walk s sc.front e.task t p
            (λ q u at. Taken-later v walk s s1 u old (sc.source q u at))
            (taken 0 v e refl held stalled refl);
      visited =
          visited-cons (sc.front ++ e.task ∷ []) v walk s s'
            (λ x here.
              let one : e ≡ x = some-injective e x (sym held ∙ here) in
              rw (sym one) (
                inl (
                  stalled,
                  sc.others v.id fresh ∙ gone,
                  (length sc.front, get_elem?-append_last sc.front e.task),
                )))
            (λ k w x there here.
              let apart = All-get_elem? (λ (w : Visit). v.id ≢ w.id) walk k fresh there in
              Decided-append sc.front e.task w x s'
                (sc.visited k w x there (other w.id apart ∙ here)));
      others = λ id h. sc.others id h.1 ∙ other id (λ eq. h.0 (sym eq));
      results = same;
    }

reclaim-idle :
    (v : Visit) (s : BrokerServer)
    → ((e : InFlightEntry) → Table.get s.inflight v.id ≡ some e → ¬ Stalled v e)
    → reclaim v.now v.id s ≡ s
unfolding reclaim
reclaim-idle v s alive = elim (Option-cases (Table.get s.inflight v.id)) [
  | inl absent ↦ ground (arith, absent)
  | inr (e, held) ↦
      let late : v.now - e.last_heartbeat ≤ task_timeout = omega (arith, alive e held) in
      ground (arith, held, late)
]

reclaim-take :
    (v : Visit) (s : BrokerServer) (e : InFlightEntry)
    → Table.get s.inflight v.id ≡ some e
    → Stalled v e
    → reclaim v.now v.id s
      ≡ record s { pending = e.task ∷ s.pending; inflight = Table.remove s.inflight v.id }
unfolding reclaim
reclaim-take v s e held stalled = ground (arith, held, stalled)

-- One tick of the scan, whatever the order in which Go walks the map, as long as it comes to no key
-- twice, and with the clock read anew at each key: an in-flight task that the walk comes to leaves
-- its worker exactly when the worker's last sign of life is more than the timeout ago, and else its
-- entry stays. The tasks that leave, and no others, are put before all that waited, which keeps its
-- order. Entries that the walk does not come to stay, and so do the results.
pub re_enqueue_stalled-Scanned :
    (walk : List Visit) (s : BrokerServer) → Once walk → Scanned walk s (re_enqueue_stalled walk s)
unfolding re_enqueue_stalled
re_enqueue_stalled-Scanned [] s once = record {
  front = [];
  queue = refl;
  source = λ p t at. absurd (ground arith);
  visited = λ k v e there held. absurd (ground arith);
  others = λ id h. refl;
  results = (refl, refl);
}
re_enqueue_stalled-Scanned (v ∷ walk) s (fresh, once) =
    let s1 = reclaim v.now v.id s in
    let s' = re_enqueue_stalled walk s1 in
    let sc = re_enqueue_stalled-Scanned walk s1 once in
    let kept : ((e : InFlightEntry) → Table.get s.inflight v.id ≡ some e → ¬ Stalled v e)
        → Scanned (v ∷ walk) s s' =
      λ alive.
        Scanned-kept v walk s s' fresh alive
          (subst (λ (b : BrokerServer). Scanned walk b s') (reclaim-idle v s alive) sc) in
    elim (Option-cases (Table.get s.inflight v.id)) [
      | inl absent ↦ kept (λ e held. absurd (ground arith))
      | inr (e, held) ↦ elim (dec_le (v.now - e.last_heartbeat) task_timeout) [
        | yes alive ↦ kept (λ x here.
            let one : e ≡ x = some-injective e x (sym held ∙ here) in
            rw (sym one) (λ late. omega (arith, alive, late)))
        | no late ↦
            let stalled : Stalled v e = omega arith in
            Scanned-taken v walk s s1 s' e fresh held stalled (reclaim-take v s e held stalled)
              (λ id. reclaim-other v.now v.id id s) (λ id x. reclaim-old v.now v.id id s)
              (re_enqueue_stalled-results (v ∷ walk) s) sc
      ]
    ]
