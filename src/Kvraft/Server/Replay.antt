-- ===== src/Kvraft/Server/Replay.antt =====
-- hw3/server/main.go: the store after committed commands is the map that the commands describe.
use cmsc.Prelude.{
  ℕ, ◌≡◌, refl, ap, ◌∙◌, Option, some, List, [], ◌∷◌, Text, codes, ◌==◌, bytes_eq, if◌then◌else◌,
  All, arith, map,
}
use cmsc.Prelude.Table.{get-put}
use cmsc.Raft.Node.{ApplyMsg}
use cmsc.Kvraft.Store
use cmsc.Kvraft.Store.{Store, Entry}
use cmsc.Kvraft.Command.{encode_command}
use cmsc.Kvraft.Command.RoundTrip.{ColonFree, decode-encode, decode-ColonFree}
use cmsc.Kvraft.Server.{Server, apply_command, wake, apply, apply_all}

-- What the log of a cluster holds: the no-op of a leader, or a Put.
pub data Op : Type 0 where
  noop : Op
  put : Text → Text → Op

abbrev pub command : Op → Text
command noop = codes "noop"
command (put key value) = encode_command key value

abbrev pub KeyFits : Op → Type 0
KeyFits noop = Unit
KeyFits (put key value) = ColonFree key

-- The value that a key has after the operations, with what it had before.
unfoldable pub last_put : Text → List Op → Option Entry → Option Entry
last_put key [] before = before
last_put key (noop ∷ ops) before = last_put key ops before
last_put key (put k value ∷ ops) before =
    last_put key ops (if k == key then some (record { value = value }) else before)

-- A committed entry
pub record Committed : Type 0 where
  pub index : ℕ
  pub term : ℕ
  pub op : Op

abbrev pub msg_of : Committed → ApplyMsg
msg_of c = record { index = c.index; term = c.term; command = command c.op }

-- Waking a Put leaves the store.
wake-st : (msg : ApplyMsg) (s : Server) → (wake msg s).st ≡ s.st
unfolding wake
wake-st msg s = ground arith

pub apply-st : (msg : ApplyMsg) (s : Server) → (apply msg s).st ≡ apply_command msg.command s.st
unfolding apply
apply-st msg s = wake-st msg (record s { st = apply_command msg.command s.st })

noop_free : ColonFree (codes "noop")
noop_free = ground arith

pub apply_command-op :
    (op : Op) (st : Store) (key : Text)
    → KeyFits op
    → Store.get (apply_command (command op) st) key ≡ last_put key (op ∷ []) (Store.get st key)
unfolding apply_command last_put
apply_command-op noop st key h = rw (decode-ColonFree (codes "noop") noop_free) refl
apply_command-op (put k value) st key h =
    rw (decode-encode k value h)
      (unfold Store.get Store.put in get-put st.content k key (record { value = value }))

-- After the apply loop has taken committed entries whose keys have no colon, a key reads as the last
-- Put of it says, and as before where there is none; the no-ops of leaders change nothing.
pub apply_all-last_put :
    (cs : List Committed) (s : Server) (key : Text)
    → All (λ (c : Committed). KeyFits c.op) cs
    → Store.get (apply_all (map msg_of cs) s).st key
      ≡ last_put key (map (λ (c : Committed). c.op) cs) (Store.get s.st key)
unfolding apply_all last_put
apply_all-last_put [] s key h = refl
apply_all-last_put (c ∷ cs) s key h =
    apply_all-last_put cs (apply (msg_of c) s) key h.1
    ∙ ap (last_put key (map (λ (c : Committed). c.op) cs)) (
        ap (λ (st : Store). Store.get st key) (apply-st (msg_of c) s)
        ∙ apply_command-op c.op s.st key h.0)
    ∙ last_put-cons key c.op (map (λ (c : Committed). c.op) cs) (Store.get s.st key)
  where
    last_put-cons :
        (key : Text) (op : Op) (ops : List Op) (o : Option Entry)
        → last_put key ops (last_put key (op ∷ []) o) ≡ last_put key (op ∷ ops) o
    last_put-cons key noop ops o = refl
    last_put-cons key (put k v) ops o = refl
