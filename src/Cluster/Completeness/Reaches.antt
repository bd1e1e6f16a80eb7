-- ===== src/Cluster/Completeness/Reaches.antt =====
-- All that holds of a cluster with its messages, in every reachable state.
use mathlib.Core.Path.{subst}
use cmsc.Prelude.{
  ℕ, zero, suc, ◌+◌, ◌≤◌, ◌<◌, ◌≡◌, refl, sym, ap, ◌∙◌, inl, inr, some, List, ◌∷◌, ◌++◌, arith,
  Bool, ok, length, get_elem?, nat_eq,
}
use cmsc.Raft.Config.{NodeConfig}
use cmsc.Raft.Node.{Raft, ApplyMsg}
use cmsc.Raft.Step.Sound.{Sound}
use cmsc.Raft.Replicate.{AppendEntriesArgs, append_reply}
use cmsc.Raft.Commit.{ApplyStep, up_to_date, missing, emit}
use cmsc.Cluster.{set1}
use cmsc.Cluster.Nodes.{Nodes}
use cmsc.Cluster.Network.{Answer, World, emitted}
use cmsc.Cluster.Network.Effect.{append_reply-Effect, note_success-Same}
use cmsc.Cluster.Network.Messages.{GoodMessage}
use cmsc.Cluster.Network.Matching.{Grows-refl}
use cmsc.Cluster.Completeness.{Ghost}
use cmsc.Cluster.Completeness.Stance.{append_reply-Calm, append_reply-cases}
use cmsc.Cluster.Completeness.Majority.{IsNumbered, success-Ledger}
use cmsc.Cluster.Completeness.Promises.{Promise, Confirms, Handed}
use cmsc.Cluster.Completeness.Whole.{Whole, Ledger-Whole, Calm-Votes}
use cmsc.Cluster.Completeness.Turns.{Effect-Whole}

abbrev pub Good : ℕ → List NodeConfig → Ghost → World → Type 0
Good n ps gh w =
    Whole n ps gh w.cluster.node w.cluster.history w.cluster.ballot w.sent w.answers w.applied

module _ (n : ℕ) (ps : List NodeConfig) (gh : Ghost) (w : World) (good : Good n ps gh w) where
  -- A request is sent.
  pub sends-Good :
      (args : AppendEntriesArgs)
      → GoodMessage gh.g args
      → Promise n gh args
      → Good n ps gh (record w { sent = args ∷ w.sent })
  sends-Good args fresh promise = record {
    tracks = record {
      logs = good.tracks.logs;
      chain = good.tracks.chain;
      tops = good.tracks.tops;
      owner = good.tracks.owner;
      good = all;
    };
    terms = good.terms;
    votes = good.votes;
    standing = good.standing;
    commits = record {
      ledgers = good.commits.ledgers;
      messages = promises;
      answered = good.commits.answered;
      handed = good.commits.handed;
    };
  }
    where
      all :
          (k : ℕ) (m : AppendEntriesArgs)
          → get_elem? (args ∷ w.sent) k ≡ some m
          → GoodMessage gh.g m
      all zero m there = let same : args ≡ m = ground arith in subst (GoodMessage gh.g) same fresh
      all (suc k) m there = good.tracks.good k m there

      promises :
          (k : ℕ) (m : AppendEntriesArgs) → get_elem? (args ∷ w.sent) k ≡ some m → Promise n gh m
      promises zero m there =
          let same : args ≡ m = ground arith in subst (Promise n gh) same promise
      promises (suc k) m there = good.commits.messages k m there

  -- An entry is handed to a server.
  pub emits-Good :
      (i : ℕ) (step : ApplyStep)
      → ((msg : ApplyMsg)
          → step ≡ emit msg
          → (c : Handed n gh msg) × (c.t ≤ (w.cluster.node i).current_term))
      → Good n ps gh (record w { applied = emitted i step ++ w.applied })
  emits-Good i up_to_date fresh = good
  emits-Good i missing fresh = good
  emits-Good i (emit msg) fresh = record {
    tracks = good.tracks;
    terms = good.terms;
    votes = good.votes;
    standing = good.standing;
    commits = record {
      ledgers = good.commits.ledgers;
      messages = good.commits.messages;
      answered = good.commits.answered;
      handed = all;
    };
  }
    where
      all :
          (k j : ℕ) (x : ApplyMsg)
          → get_elem? ((i, msg) ∷ w.applied) k ≡ some (j, x)
          → (c : Handed n gh x) × (c.t ≤ (w.cluster.node j).current_term)
      all zero j x there =
          let same : msg ≡ x = ground arith in
          let by : i ≡ j = ground arith in
          subst (λ (z : ℕ). (c : Handed n gh x) × (c.t ≤ (w.cluster.node z).current_term)) by
            (subst (λ (z : ApplyMsg). (c : Handed n gh z) × (c.t ≤ (w.cluster.node i).current_term))
              same (fresh msg refl))
      all (suc k) j x there = good.commits.handed k j x there

-- A reply of a peer comes in.
pub returns-Good :
    (n : ℕ) (ps : List NodeConfig) (gh : Ghost) (w : World) (draw : ℕ) (a : Answer) (again : Bool)
    (rf' : Raft)
    → IsNumbered 0 ps
    → length ps ≡ n
    → append_reply draw a.peer a.request (some a.reply) (w.cluster.node a.request.leader_id)
      ≡ ok (rf', again)
    → Sound (w.cluster.node a.request.leader_id)
    → Nodes n w.cluster.node w.cluster.history
    → Nodes n (set1 w.cluster.node a.request.leader_id rf') w.cluster.history
    → Confirms gh a
    → Good n ps gh w
    → (gh' : Ghost) × Whole n ps gh'
        (set1 w.cluster.node a.request.leader_id rf')
        w.cluster.history
        w.cluster.ballot
        w.sent
        w.answers
        w.applied
returns-Good n ps gh w draw a again rf' num size run sound now after confirms good =
    let i = a.request.leader_id in
    let rf = w.cluster.node i in
    let effect = append_reply-Effect draw a.peer a.request (some a.reply) again rf rf' run in
    elim (append_reply-cases draw a.peer a.request a.reply again rf rf' run) [
      | inl modest ↦
          Effect-Whole n ps gh w.cluster.node w.cluster.history w.cluster.ballot w.cluster.ballot
            w.sent w.answers w.applied i rf' now after (λ c t. refl) effect modest good
      | inr (leads, term, yes_sir, noted) ↦
          let upto = a.request.prev_log_index + length a.request.entries in
          let (log, same_term, state) = note_success-Same a.peer upto rf rf' noted in
          let calm = append_reply-Calm draw a.peer a.request a.reply again rf rf' run in
          let ledger =
            success-Ledger n ps gh i rf num size (now.ids i) leads ((good.tracks.logs i).2 leads)
              (sound.match_fits ∙ ap length (good.commits.ledgers i).peers ∙ size)
              (good.commits.ledgers i) a.peer upto
              (subst (λ (u : ℕ). upto < gh.acked a.peer u) (sym term) (confirms yes_sir)) rf'
              noted in
          (
            gh,
            Ledger-Whole n ps gh w.cluster.node w.cluster.history w.cluster.history w.cluster.ballot
                w.cluster.ballot w.sent w.answers w.applied i rf' (Grows-refl w.cluster.history)
                effect.0 (λ c t. refl) good log (λ _. (leads, same_term)) calm ledger
                (Calm-Votes n gh w.cluster.node w.cluster.history i rf' now log effect.0.0 calm
                  good.votes),
          )
    ]
