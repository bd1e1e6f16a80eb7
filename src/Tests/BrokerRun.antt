-- ===== src/Tests/BrokerRun.antt =====
-- hw4/broker/main.go and hw4/worker/main.go at concrete inputs.
use text.Mathlib.TextEquality.{eq_iff}
use cmsc.Prelude.{string_eq, ◌≡◌, refl, true, List, [], ◌∷◌, arith, codes}
use cmsc.Prelude.Table
use cmsc.Pipeline.Broker.{
  BrokerServer, Visit, re_enqueue_stalled, new, submit, poll, complete, get_result,
}
use cmsc.Pipeline.Broker.Tasks.{Inv, BrokerReach, here, next, polls, submits, completes, Reach-Inv}
use cmsc.Pipeline.Broker.Progress.{Known, no_task_lost, result_final}
use cmsc.Pipeline.Broker.Scan.{Once, Scanned}
use cmsc.Pipeline.Broker.Scan.Tick.{re_enqueue_stalled-Scanned}
use cmsc.Pipeline.Hash.{fnv64}

submitted : BrokerReach new (submit "t" "payload" new).0
unfolding new Table.get Table.empty
submitted = next here (submits "t" "payload" refl refl refl refl)

polled : BrokerReach new (poll "w" 5 (submit "t" "payload" new).0).0
polled = next submitted (polls "w" 5 refl)

Reach-Inv_example : Inv (poll "w" 5 (submit "t" "payload" new).0).0
Reach-Inv_example = Reach-Inv polled

no_task_lost_example : Known "t" (poll "w" 5 (submit "t" "payload" new).0).0
unfolding new Table.get Table.empty
no_task_lost_example =
    no_task_lost "t" "payload" new (poll "w" 5 (submit "t" "payload" new).0).0 here refl refl refl
      (next here (polls "w" 5 refl))

abbrev finished : BrokerServer
finished = complete "t" "" (poll "w" 5 (submit "t" "payload" new).0).0

done : get_result "t" finished ≡ (true, "")
unfolding new submit poll complete get_result Table.get Table.put Table.remove Table.empty
done = refl

result_final_example : get_result "t" (complete "t" "again" finished) ≡ (true, "")
result_final_example =
    result_final "t" "" finished (complete "t" "again" finished)
      (next polled (completes "t" "" refl)) done (next here (completes "t" "again" refl))

-- Two workers that fell silent after the second 0, and a tick at the second 20.
abbrev silent : BrokerServer
silent = (poll "v" 6 (poll "w" 5 (submit "u" "more" (submit "t" "payload" new).0).0).0).0

abbrev tick : List Visit
tick = record { id = "u"; now = 20000000000 } ∷ record { id = "t"; now = 20000000001 } ∷ []

tick-Once : Once tick
tick-Once = ((λ e. ground (arith, eq_iff "u" "t"), tt), (tt, tt))

re_enqueue_stalled-Scanned_example : Scanned tick silent (re_enqueue_stalled tick silent)
re_enqueue_stalled-Scanned_example = re_enqueue_stalled-Scanned tick silent tick-Once

-- Both go back, the one that was visited last in front.
both_wait :
    (re_enqueue_stalled tick silent).pending
    ≡ record { id = "t"; payload = "payload" } ∷ record { id = "u"; payload = "more" } ∷ []
unfolding re_enqueue_stalled new submit poll Table.get Table.put Table.remove Table.empty
both_wait = refl

-- The FNV-1a hash of "a".
fnv64_a : fnv64 (codes "a") ≡ 0xaf63dc4c8601ec8c
unfolding fnv64
fnv64_a = refl
