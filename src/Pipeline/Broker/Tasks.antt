-- ===== src/Pipeline/Broker/Tasks.antt =====
-- hw4/broker/main.go: a task is in one place at a time, is never lost, and has one final result.
use text.Mathlib.TextEquality.{eq_iff}
use cmsc.Prelude.{
  ℕ, ◌≡◌, refl, Bool, true, false, not, ◌&&◌, ◌||◌, inl, inr, none, some, List, [], ◌∷◌, ◌++◌,
  String, ◌==◌, string_eq, arith, Option-cases,
}
use cmsc.Prelude.Table
use cmsc.Prelude.Table.{Table, get-put, get-remove, get-empty}
use cmsc.Pipeline.Broker.{
  Task, InFlightEntry, BrokerServer, new, submit, poll, poll_from, complete, heartbeat, reclaim,
  Visit, re_enqueue_stalled,
}

abbrev pub has_task : String → List Task → Bool
has_task id [] = false
has_task id (t ∷ ts) = t.id == id || has_task id ts

abbrev pub distinct : List Task → Bool
distinct [] = true
distinct (t ∷ ts) = not (has_task t.id ts) && distinct ts

pub has_task-append :
    (id : String) (ts : List Task) (t : Task)
    → has_task id (ts ++ t ∷ []) ≡ (has_task id ts || t.id == id)
has_task-append id [] t = ground arith
has_task-append id (x ∷ ts) t = ground (arith, has_task-append id ts t)

distinct-append :
    (ts : List Task) (t : Task)
    → distinct ts ≡ true
    → has_task t.id ts ≡ false
    → distinct (ts ++ t ∷ []) ≡ true
distinct-append [] t d h = refl
distinct-append (x ∷ ts) t d h =
    ground
      (arith, has_task-append x.id ts t, distinct-append ts t, eq_iff x.id t.id, eq_iff t.id x.id)

-- A waiting task waits once, and is neither with a worker nor done; what a worker has is not done.
pub record Inv (s : BrokerServer) : Type 0 where
  pub once : distinct s.pending ≡ true
  pub keyed : (id : String) (e : InFlightEntry) → Table.get s.inflight id ≡ some e → e.task.id ≡ id
  pub waiting :
      (id : String)
      → has_task id s.pending ≡ true
      → (Table.get s.inflight id ≡ none) × (Table.get s.done id ≡ none)
  pub unfinished :
      (id : String) (e : InFlightEntry)
      → Table.get s.inflight id ≡ some e
      → Table.get s.done id ≡ none

-- Every section that holds the mutex. `uuid.New` does not repeat: a new id is at none of the places.
pub data BrokerStep (s s' : BrokerServer) : Type 0 where
  submits :
      (id payload : String)
      → has_task id s.pending ≡ false
      → Table.get s.inflight id ≡ none
      → Table.get s.done id ≡ none
      → s' ≡ (submit id payload s).0
      → BrokerStep s s'
  polls : (worker : String) (now : ℕ) → s' ≡ (poll worker now s).0 → BrokerStep s s'
  completes : (id error : String) → s' ≡ complete id error s → BrokerStep s s'
  beats : (id : String) (now : ℕ) → s' ≡ heartbeat id now s → BrokerStep s s'
  scans : (walk : List Visit) → s' ≡ re_enqueue_stalled walk s → BrokerStep s s'

pub data BrokerReach (s : BrokerServer) : BrokerServer → Type 0 where
  here : BrokerReach s s
  next : {t u : BrokerServer} → BrokerReach s t → BrokerStep t u → BrokerReach s u

pub new-Inv : Inv new
unfolding new
new-Inv = record {
  once = refl;
  keyed = λ id e h. ground (arith, get-empty {V = InFlightEntry} id);
  waiting = λ id h. cc;
  unfinished = λ id e h. get-empty id;
}

submit-Inv :
    (id payload : String) (s : BrokerServer)
    → has_task id s.pending ≡ false
    → Table.get s.inflight id ≡ none
    → Table.get s.done id ≡ none
    → Inv s
    → Inv (submit id payload s).0
unfolding submit
submit-Inv id payload s p q r v =
    let t : Task = record { id = id; payload = payload } in
    record {
      once = distinct-append s.pending t v.once p;
      keyed = v.keyed;
      waiting = λ j h. ground (arith, has_task-append j s.pending t, v.waiting j, eq_iff id j);
      unfinished = v.unfinished;
    }

poll_from-Inv :
    (ts : List Task) (worker : String) (now : ℕ) (s : BrokerServer)
    → s.pending ≡ ts
    → Inv s
    → Inv (poll_from ts worker now s).0
poll_from-Inv [] worker now s e v = v
poll_from-Inv (t ∷ ts) worker now s e v =
    let x : InFlightEntry = record { task = t; worker_id = worker; last_heartbeat = now } in
    record {
      once = ground (arith, v.once);
      keyed = λ j y. ground (arith, get-put s.inflight t.id j x, eq_iff t.id j, v.keyed j y);
      waiting =
          λ j h. ground (arith, v.once, get-put s.inflight t.id j x, eq_iff t.id j, v.waiting j);
      unfinished = λ j y. ground (
        arith,
        get-put s.inflight t.id j x,
        eq_iff t.id j,
        v.unfinished j y,
        v.waiting t.id,
        eq_iff t.id t.id,
      );
    }

complete-Inv : (id error : String) (s : BrokerServer) → Inv s → Inv (complete id error s)
unfolding complete
complete-Inv id error s v = record {
  once = ground (arith, v.once);
  keyed = λ j y. ground (arith, get-remove s.inflight id j, v.keyed j y);
  waiting = λ j h.
      ground
        (arith, get-remove s.inflight id j, get-put s.done id j true, eq_iff id j, v.waiting j);
  unfinished =
      λ j y. ground (arith, get-remove s.inflight id j, get-put s.done id j true, v.unfinished j y);
}

heartbeat-Inv : (id : String) (now : ℕ) (s : BrokerServer) → Inv s → Inv (heartbeat id now s)
unfolding heartbeat
heartbeat-Inv id now s v = elim (Option-cases (Table.get s.inflight id)) [
  | inl e ↦ rw (e, heartbeat) v
  | inr (x, e) ↦
      let x' : InFlightEntry = record x { last_heartbeat = now } in
      rw (e, heartbeat)
        (record {
          once = v.once;
          keyed = λ j y h.
              ground (arith, get-put s.inflight id j x', eq_iff id j, v.keyed j y, v.keyed id x e);
          waiting = λ j h. ground (arith, get-put s.inflight id j x', eq_iff id j, v.waiting j);
          unfinished = λ j y h. ground (
            arith,
            get-put s.inflight id j x',
            eq_iff id j,
            v.unfinished j y,
            v.unfinished id x e,
          );
        })
]

pub reclaim-Inv : (now : ℕ) (id : String) (s : BrokerServer) → Inv s → Inv (reclaim now id s)
unfolding reclaim
reclaim-Inv now id s v = elim (Option-cases (Table.get s.inflight id)) [
  | inl e ↦ rw (e, reclaim) v
  | inr (x, e) ↦ record {
    once = ground (arith, v.once, v.keyed id x e, v.waiting id);
    keyed = λ j y h. ground (arith, get-remove s.inflight id j, v.keyed j y);
    waiting = λ j h. ground (
      arith,
      get-remove s.inflight id j,
      eq_iff id j,
      eq_iff x.task.id j,
      v.waiting j,
      v.keyed id x e,
      v.unfinished id x e,
    );
    unfinished = λ j y h. ground (arith, get-remove s.inflight id j, v.unfinished j y);
  }
]

re_enqueue_stalled-Inv :
    (walk : List Visit) (s : BrokerServer) → Inv s → Inv (re_enqueue_stalled walk s)
unfolding re_enqueue_stalled
re_enqueue_stalled-Inv [] s v = v
re_enqueue_stalled-Inv (w ∷ walk) s v =
    re_enqueue_stalled-Inv walk (reclaim w.now w.id s) (reclaim-Inv w.now w.id s v)

pub Step-Inv : {s s' : BrokerServer} → BrokerStep s s' → Inv s → Inv s'
unfolding poll
Step-Inv {s} (submits id payload p q r e) v = rw e (submit-Inv id payload s p q r v)
Step-Inv {s} (polls worker now e) v = rw e (poll_from-Inv s.pending worker now s refl v)
Step-Inv {s} (completes id error e) v = rw e (complete-Inv id error s v)
Step-Inv {s} (beats id now e) v = rw e (heartbeat-Inv id now s v)
Step-Inv {s} (scans walk e) v = rw e (re_enqueue_stalled-Inv walk s v)

-- From a new broker, through any calls, a waiting task waits once, and is neither with a worker nor
-- done; a task that a worker has is under its own id, and is not done.
pub Reach-Inv : {s : BrokerServer} → BrokerReach new s → Inv s
Reach-Inv here = new-Inv
Reach-Inv (next r st) = Step-Inv st (Reach-Inv r)
