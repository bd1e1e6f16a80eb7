-- ===== src/Kvraft/Server/Race.antt =====
-- hw3/server/main.go: `Put` starts the entry and registers its waiter in two steps, and `applyLoop` may
-- come in between.
use cmsc.Prelude.{
  ℕ, ◌≡◌, ◌≢◌, refl, ap, ◌∙◌, true, List, [], Text, bytes_eq, bytes_beq_iff, nat_eq, All, arith,
}
use cmsc.Raft.Node.{ApplyMsg}
use cmsc.Kvraft.Store
use cmsc.Kvraft.Command.{encode_command}
use cmsc.Kvraft.Command.RoundTrip.{ColonFree}
use cmsc.Kvraft.Server.{
  Server, waiting, put_ok, deadline_exceeded, put_register, put_wake, put_timeout, apply, apply_all,
  get,
}
use cmsc.Kvraft.Server.Replay.{put, last_put, apply-st, apply_command-op}
use cmsc.Kvraft.Server.Waiters.{
  PendingFits, Awaits-waiting, register-Awaits, apply_all-Awaits, apply-PendingFits, put_answered,
}

-- The committed entry of a Put
abbrev pub put_msg : ℕ → ℕ → Text → Text → ApplyMsg
put_msg index term key value = record {
  index = index;
  term = term;
  command = encode_command key value;
}

get-apply :
    (index term : ℕ) (key value : Text) (s : Server)
    → ColonFree key
    → get key (apply (put_msg index term key value) s) ≡ (true, value)
unfolding get last_put
get-apply index term key value s free =
    let stored =
      ap (λ (st : Store.Store). Store.get st key) (apply-st (put_msg index term key value) s)
      ∙ apply_command-op (put key value) s.st key free in
    ground (arith, stored, bytes_beq_iff key key)

get-put_register :
    (index term : ℕ) (key : Text) (s : Server) → get key (put_register index term s).0 ≡ get key s
unfolding get put_register
get-put_register index term key s = refl

-- At a server whose table names waiters that it has, the entry of a Put of a key without a colon is
-- applied, and its waiter is registered, in one of two orders. In both the store then has the
-- value. A Put that registers first is acknowledged when its entry is applied. One that registers
-- second still waits after any further entries at other indices, and its timeout then answers that
-- the deadline was exceeded.
pub late_put_waits :
    (index term : ℕ) (key value : Text) (s : Server) (later : List ApplyMsg)
    → ColonFree key
    → PendingFits s
    → All (λ (m : ApplyMsg). m.index ≢ index) later
    → let msg = put_msg index term key value in
      let early = put_register index term s in
      let late = put_register index term (apply msg s) in
      (get key (apply msg early.0) ≡ (true, value))
      × (put_wake early.1 term (apply msg early.0) ≡ put_ok)
      × (get key late.0 ≡ (true, value))
      × (put_wake late.1 term (apply_all later late.0) ≡ waiting)
      × ((put_timeout index (apply_all later late.0)).1 ≡ deadline_exceeded)
unfolding put_timeout
late_put_waits index term key value s later free fits others =
    let msg = put_msg index term key value in
    (
      get-apply index term key value (put_register index term s).0 free,
      unfold apply_all in ground (arith, (put_answered index term s [] msg fits tt refl).1),
      get-put_register index term key (apply msg s) ∙ get-apply index term key value s free,
      Awaits-waiting index term _ _ (
          apply_all-Awaits index term _ later _
            (register-Awaits index term (apply msg s) (apply-PendingFits msg s fits)) others),
      refl,
    )
