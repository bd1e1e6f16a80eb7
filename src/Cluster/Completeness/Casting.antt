-- ===== src/Cluster/Completeness/Casting.antt =====
-- hw3/raft/raft.go: a vote in an election, and the candidate who asks for it.
use mathlib.Core.Path.{subst}
use cmsc.Prelude.{
  ℕ, suc, ◌-◌, ◌≤◌, ◌<◌, ◌≡◌, sym, ap, ◌∙◌, inl, inr, true, some, List, [], ◌++◌, arith, ok, ◌&&◌,
  length, take, ◌==◌, nat_eq, Bool-cases, get_elem?-some,
}
use cmsc.Raft.Log.{Log, LogEntry, last_index, last_term}
use cmsc.Raft.Log.WellFormed.{IsWf}
use cmsc.Raft.Node.{Raft}
use cmsc.Raft.Vote.{RequestVoteArgs, RequestVoteReply, request_vote, log_ok}
use cmsc.Cluster.{set2, Ballot}
use cmsc.Cluster.History.{History}
use cmsc.Cluster.Network.Traced.{Traced, Headed, Extends, Traced-Extends}
use cmsc.Cluster.Completeness.{Ghost, Bad}
use cmsc.Cluster.Completeness.Prefix.{Bad-narrow}
use cmsc.Cluster.Completeness.Leader.{Carries, Ends, up_to_date}
use cmsc.Cluster.Completeness.Voters.{Votes, Holds}
use cmsc.Cluster.Completeness.Terms.{Terms}

-- The log with which a candidate stands, against the arguments that it sends.
pub record Stood (gh : Ghost) (rf : Raft) (c t : ℕ) (args : RequestVoteArgs) : Type 0 where
  pub ends : Ends (gh.stood c t) args.last_log_index args.last_log_term
  pub traced : Traced gh.g (gh.stood c t)
  pub headed : Headed (gh.stood c t)
  pub earlier : args.last_log_term < t
  pub reached : t ≤ rf.current_term

abbrev pub Standing : Ghost → (ℕ → Raft) → (ℕ → ℕ → Ballot) → Type 0
Standing gh node ballot =
    (c t : ℕ) (args : RequestVoteArgs) → (ballot c t).args ≡ some args → Stood gh (node c) c t args

pub Stood-later :
    (gh gh' : Ghost) (rf rf' : Raft) (c t : ℕ) (args : RequestVoteArgs)
    → Extends gh.g gh'.g
    → gh'.stood c t ≡ gh.stood c t
    → rf.current_term ≤ rf'.current_term
    → Stood gh rf c t args
    → Stood gh' rf' c t args
Stood-later gh gh' rf rf' c t args ext same later s = record {
  ends = subst (λ l. Ends l args.last_log_index args.last_log_term) (sym same) s.ends;
  traced = subst (Traced gh'.g) (sym same) (Traced-Extends gh.g gh'.g (gh.stood c t) ext s.traced);
  headed = subst Headed (sym same) s.headed;
  earlier = s.earlier;
  reached = omega (arith, s.reached, later);
}

pub last-Ends : (l : Log) (q : ℕ) → IsWf l → last_term l ≡ ok q → Ends l.entries (last_index l) q
unfolding last_term last_index
last-Ends l q w h =
    let (x, here) = get_elem?-some l.entries (length l.entries - 1) (omega (arith, w.nonempty)) in
    record {
      last = x;
      size = omega (arith, w.nonempty);
      there = here;
      of_term = ground (arith, here, h);
    }

pub last_term-ok : (l : Log) → IsWf l → (q : ℕ) × (last_term l ≡ ok q)
unfolding last_term
last_term-ok l w =
    let (x, here) = get_elem?-some l.entries (length l.entries - 1) (omega (arith, w.nonempty)) in
    (x.term, ground (arith, here))

-- What the arguments of a granted vote say of the voter's log.
pub request_vote-log_ok :
    (d e q : ℕ) (req : RequestVoteArgs) (reply : RequestVoteReply) (rf rf' : Raft)
    → request_vote d e req rf ≡ ok (rf', reply)
    → reply.vote_granted ≡ true
    → last_term rf.log ≡ ok q
    → (rf'.log ≡ rf.log) × (log_ok req q (last_index rf.log) ≡ true)
unfolding request_vote last_index last_term
request_vote-log_ok d e q req reply rf rf' h y k = (ground arith, ground arith)

-- Who votes in a term without a leader has confirmed nothing that the candidate lacks.
pub voter-Carries :
    (gh : Ghost) (node : ℕ → Raft) (v c : ℕ) (args : RequestVoteArgs) (rf rf' : Raft) (q : ℕ)
    → Terms gh.g node
    → ((t : ℕ) → (s : List LogEntry) × (gh.g t ≡ gh.first t ++ s))
    → Traced gh.g rf.log.entries
    → Ends rf.log.entries (last_index rf.log) q
    → rf'.log ≡ rf.log
    → log_ok args q (last_index rf.log) ≡ true
    → rf'.current_term ≡ args.term
    → gh.g args.term ≡ []
    → Holds gh v rf'
    → Stood gh (node c) c args.term args
    → Carries gh (gh.stood c args.term) v args.term
voter-Carries gh node v c args rf rf' q tm prefix traced ends same fresh term empty k s t j lt le
      own =
    elim (k.has t j lt own) [
      | inr b ↦
          inr (Bad-narrow gh t j args.term empty (subst (λ (u : ℕ). Bad gh t j (suc u)) term b))
      | inl a ↦
          up_to_date gh tm.ascends prefix (gh.stood c args.term) rf.log.entries args.last_log_index
            (last_index rf.log) args.last_log_term q s.traced traced s.headed s.ends ends t j
            args.term own (ap (λ (l : Log). take (suc j) l.entries) (sym same) ∙ a) s.earlier
            (ground (arith, fresh))
    ]

-- A vote is remembered.
pub vote-Votes :
    (n : ℕ) (gh : Ghost) (node : ℕ → Raft) (h : History) (v u c : ℕ)
    → u ≤ (node c).current_term
    → (gh.g u ≡ [] → Carries gh (gh.stood c u) v u)
    → Votes n gh node h
    → Votes n gh node (set2 h v u (some c))
vote-Votes n gh node h v u c reached carries vs = record {
  prefix = vs.prefix;
  inside = vs.inside;
  nodes = vs.nodes;
  voted = λ x t d y. elim (Bool-cases (x == v && t == u)) [
    | inr e ↦ vs.voted x t d (rw e at y)
    | inl e ↦ ground (arith, e, reached, y)
  ];
  votes = λ x t d empty y. elim (Bool-cases (x == v && t == u)) [
    | inr e ↦ vs.votes x t d empty (rw e at y)
    | inl e ↦
        let p : v ≡ x = ground arith in
        let q : u ≡ t = ground arith in
        let r : c ≡ d = ground (arith, e, y) in
        let here : Carries gh (gh.stood c u) v u = carries (ap gh.g q ∙ empty) in
        subst (λ (z : ℕ). Carries gh (gh.stood d z) x z) q
          (subst (λ (z : ℕ). Carries gh (gh.stood z u) x u) r
            (subst (λ (z : ℕ). Carries gh (gh.stood c u) z u) p here))
  ];
  won = vs.won;
}
