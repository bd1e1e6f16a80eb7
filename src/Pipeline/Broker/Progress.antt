-- ===== src/Pipeline/Broker/Progress.antt =====
-- hw4/broker/main.go: no call loses a task, and a result is final.
use text.Mathlib.TextEquality.{eq_iff}
use cmsc.Prelude.{
  ℕ, ◌≡◌, refl, ◌∙◌, Bool, true, false, ◌⊎◌, inl, inr, Option, none, some, List, [], ◌∷◌, String,
  string_eq, arith, Option-cases,
}
use cmsc.Prelude.Table
use cmsc.Prelude.Table.{get-put, get-remove}
use cmsc.Pipeline.Broker.{
  Task, InFlightEntry, BrokerServer, new, submit, poll, poll_from, complete, get_result, heartbeat,
  reclaim, Visit, re_enqueue_stalled,
}
use cmsc.Pipeline.Broker.Tasks.{
  has_task, has_task-append, Inv, BrokerStep, submits, polls, completes, beats, scans, BrokerReach,
  here, next, Step-Inv, Reach-Inv, reclaim-Inv,
}

abbrev pub is_some : Option InFlightEntry → Bool
is_some none = false
is_some (some e) = true

-- The broker knows the task: it waits, a worker has it, or it is done.
abbrev pub Known : String → BrokerServer → Type 0
Known id s =
    (has_task id s.pending ≡ true)
    ⊎ (is_some (Table.get s.inflight id) ≡ true)
    ⊎ (Table.get s.done id ≡ some true)

poll_from-Known :
    (id : String) (ts : List Task) (worker : String) (now : ℕ) (s : BrokerServer)
    → s.pending ≡ ts
    → Known id s
    → Known id (poll_from ts worker now s).0
poll_from-Known id [] worker now s e k = k
poll_from-Known id (t ∷ ts) worker now s e k =
    let x : InFlightEntry = record { task = t; worker_id = worker; last_heartbeat = now } in
    ground (arith, get-put s.inflight t.id id x, eq_iff t.id id)

complete-Known :
    (id j error : String) (s : BrokerServer) → Known id s → Known id (complete j error s)
unfolding complete
complete-Known id j error s k =
    ground (arith, get-remove s.inflight j id, get-put s.done j id true, eq_iff j id)

heartbeat-Known :
    (id j : String) (now : ℕ) (s : BrokerServer) → Known id s → Known id (heartbeat j now s)
unfolding heartbeat
heartbeat-Known id j now s k = elim (Option-cases (Table.get s.inflight j)) [
  | inl e ↦ rw (e, heartbeat) k
  | inr (x, e) ↦
      ground (arith, get-put s.inflight j id (record x { last_heartbeat = now }), eq_iff j id)
]

reclaim-Known :
    (id j : String) (now : ℕ) (s : BrokerServer) → Inv s → Known id s → Known id (reclaim now j s)
unfolding reclaim
reclaim-Known id j now s v k = elim (Option-cases (Table.get s.inflight j)) [
  | inl e ↦ rw (e, reclaim) k
  | inr (x, e) ↦
      ground (arith, v.keyed j x e, get-remove s.inflight j id, eq_iff j id, eq_iff x.task.id id)
]

re_enqueue_stalled-Known :
    (id : String) (walk : List Visit) (s : BrokerServer)
    → Inv s
    → Known id s
    → Known id (re_enqueue_stalled walk s)
unfolding re_enqueue_stalled
re_enqueue_stalled-Known id [] s v k = k
re_enqueue_stalled-Known id (w ∷ walk) s v k =
    re_enqueue_stalled-Known id walk (reclaim w.now w.id s) (reclaim-Inv w.now w.id s v)
      (reclaim-Known id w.id w.now s v k)

Step-Known :
    (id : String) {s s' : BrokerServer} → BrokerStep s s' → Inv s → Known id s → Known id s'
unfolding poll submit
Step-Known id {s} (submits j payload p q r e) v k =
    rw e (ground (arith, has_task-append id s.pending (record { id = j; payload = payload })))
Step-Known id {s} (polls worker now e) v k = rw e (poll_from-Known id s.pending worker now s refl k)
Step-Known id {s} (completes j error e) v k = rw e (complete-Known id j error s k)
Step-Known id {s} (beats j now e) v k = rw e (heartbeat-Known id j now s k)
Step-Known id {s} (scans walk e) v k = rw e (re_enqueue_stalled-Known id walk s v k)

Known-submit : (id payload : String) (s : BrokerServer) → Known id (submit id payload s).0
unfolding submit
Known-submit id payload s = inl (
    ground
      (arith, has_task-append id s.pending (record { id = id; payload = payload }), eq_iff id id))

Reach-both :
    (id : String) {s t : BrokerServer} → BrokerReach s t → Inv s × Known id s → Inv t × Known id t
Reach-both id here both = both
Reach-both id (next r st) both =
    let (v, k) = Reach-both id r both in (Step-Inv st v, Step-Known id st v k)

-- A task that was submitted with a new id to a broker in a reachable state is known ever after:
-- whatever the calls, it waits, a worker has it, or it is done.
pub no_task_lost :
    (id payload : String) (s t : BrokerServer)
    → BrokerReach new s
    → has_task id s.pending ≡ false
    → Table.get s.inflight id ≡ none
    → Table.get s.done id ≡ none
    → BrokerReach (submit id payload s).0 t
    → Known id t
no_task_lost id payload s t before p q r after =
    let v = Step-Inv (submits id payload p q r refl) (Reach-Inv before) in
    (Reach-both id after (v, Known-submit id payload s)).1

-- The call leaves the results as they are.
abbrev pub SameResults : BrokerServer → BrokerServer → Type 0
SameResults s s' = (s'.done ≡ s.done) × (s'.errors ≡ s.errors)

poll_from-results :
    (ts : List Task) (worker : String) (now : ℕ) (s : BrokerServer)
    → SameResults s (poll_from ts worker now s).0
poll_from-results [] worker now s = (refl, refl)
poll_from-results (t ∷ ts) worker now s = (refl, refl)

complete-result :
    (id j error text : String) (s : BrokerServer)
    → Inv s
    → get_result id s ≡ (true, error)
    → get_result id (complete j text s) ≡ (true, error)
unfolding get_result complete
complete-result id j error text s v h = elim (Option-cases (Table.get s.inflight j)) [
  | inl e ↦ ground arith
  | inr (x, e) ↦
      ground (
        arith,
        v.unfinished j x e,
        get-put s.done j id true,
        get-put s.errors j id text,
        eq_iff j id,
      )
]

pub re_enqueue_stalled-results :
    (walk : List Visit) (s : BrokerServer) → SameResults s (re_enqueue_stalled walk s)
unfolding re_enqueue_stalled reclaim
re_enqueue_stalled-results [] s = (refl, refl)
re_enqueue_stalled-results (w ∷ walk) s =
    let (done, errors) = re_enqueue_stalled-results walk (reclaim w.now w.id s) in
    (done ∙ ground arith, errors ∙ ground arith)

Step-result :
    (id error : String) {s s' : BrokerServer}
    → BrokerStep s s'
    → Inv s
    → get_result id s ≡ (true, error)
    → get_result id s' ≡ (true, error)
unfolding get_result submit poll heartbeat reclaim
Step-result id error (submits j payload p q r e) v h = rw e h
Step-result id error {s} (polls worker now e) v h =
    ground (arith, poll_from-results s.pending worker now s)
Step-result id error {s} (completes j text e) v h = rw e (complete-result id j error text s v h)
Step-result id error {s} (beats j now e) v h = ground arith
Step-result id error {s} (scans walk e) v h = ground (arith, re_enqueue_stalled-results walk s)

Reach-result :
    (id error : String) {s t : BrokerServer}
    → BrokerReach s t
    → Inv s
    → get_result id s ≡ (true, error)
    → Inv t × (get_result id t ≡ (true, error))
Reach-result id error here v h = (v, h)
Reach-result id error (next r st) v h =
    let (w, k) = Reach-result id error r v h in (Step-Inv st w, Step-result id error st w k)

-- A result is final: once a reachable broker reports a task as done, with some error text or none,
-- it reports just that after any further calls, second completions of the task included.
pub result_final :
    (id error : String) (s t : BrokerServer)
    → BrokerReach new s
    → get_result id s ≡ (true, error)
    → BrokerReach s t
    → get_result id t ≡ (true, error)
result_final id error s t before h after = (Reach-result id error after (Reach-Inv before) h).1
