-- ===== src/Cluster/Nodes.antt =====
-- What holds of the nodes of a cluster between two steps, and how a call on one node keeps it.
use cmsc.Prelude.{ℕ, ◌+◌, ◌/◌, ◌≤◌, ◌<◌, ◌≡◌, true, ◌⊎◌, inl, arith, none, some, nat_eq, length}
use cmsc.Raft.Node.{Raft, is_leader, quorum}
use cmsc.Raft.Vote.{RequestVoteArgs, RequestVoteReply}
use cmsc.Cluster.{set1, set2}
use cmsc.Cluster.Quiet.{IsQuiet, Granted, Stands, Counted}
use cmsc.Cluster.History.{History, backers, Grows, backers_mono, set2-Grows}

pub record Nodes (n : ℕ) (node : ℕ → Raft) (h : History) : Type 0 where
  pub ids : (i : ℕ) → (node i).id ≡ i
  pub sizes : (i : ℕ) → length (node i).peers ≡ n
  pub fresh : (v t : ℕ) → (node v).current_term < t → h v t ≡ none
  pub agree : (v : ℕ) → h v (node v).current_term ≡ (node v).voted_for
  pub leads :
      (i : ℕ) → is_leader (node i).state ≡ true → n / 2 + 1 ≤ backers n h (node i).current_term i

module _ (n : ℕ) (node : ℕ → Raft) (h : History) (inv : Nodes n node h) (i : ℕ) (rf' : Raft) where
  open inv use {ids, sizes, fresh, agree, leads}

  pub quiet-Nodes : IsQuiet (node i) rf' → Nodes n (set1 node i rf') h
  quiet-Nodes q = record {
    ids = λ j. ground (arith, ids i, ids j);
    sizes = λ j. ground (arith, sizes i, sizes j);
    fresh = λ v t. ground (arith, fresh i t, fresh v t);
    agree = λ v. ground (arith, agree i, agree v, fresh i rf'.current_term);
    leads = λ j. ground (arith, leads i, leads j);
  }

  -- The vote that is recorded was free.
  grant_free :
      (req : RequestVoteArgs)
      → Granted req (node i) rf'
      → (h i req.term ≡ none) ⊎ (h i req.term ≡ some req.candidate_id)
  grant_free req g = ground (arith, g.free, fresh i req.term, agree i)

  pub grant-Grows :
      (req : RequestVoteArgs)
      → Granted req (node i) rf'
      → Grows h (set2 h i req.term (some req.candidate_id))
  grant-Grows req g = set2-Grows h i req.term req.candidate_id (grant_free req g)

  pub grant-Nodes :
      (req : RequestVoteArgs)
      → Granted req (node i) rf'
      → Nodes n (set1 node i rf') (set2 h i req.term (some req.candidate_id))
  grant-Nodes req g =
      let h' = set2 h i req.term (some req.candidate_id) in
      record {
        ids = λ j. ground (arith, ids i, ids j, g.id);
        sizes = λ j. ground (arith, sizes i, sizes j, g.peers);
        fresh = λ v t. ground (arith, fresh i t, fresh v t, g.term, g.free);
        agree = λ v. ground (arith, agree i, agree v, g.term, g.vote);
        leads = λ j. ground (
          arith,
          leads i,
          leads j,
          g.term,
          g.free,
          backers_mono n h h' (node j).current_term j (grant-Grows req g),
          backers_mono n h h' (node i).current_term i (grant-Grows req g),
        );
      }

  pub stand-Grows :
      (args : RequestVoteArgs)
      → Stands args (node i) rf'
      → Grows h (set2 h i rf'.current_term (some i))
  stand-Grows args s =
      set2-Grows h i rf'.current_term i (inl (fresh i rf'.current_term (omega (arith, s.term))))

  pub stand-Nodes :
      (args : RequestVoteArgs)
      → Stands args (node i) rf'
      → Nodes n (set1 node i rf') (set2 h i rf'.current_term (some i))
  stand-Nodes args s =
      let h' = set2 h i rf'.current_term (some i) in
      record {
        ids = λ j. ground (arith, ids i, ids j, s.id);
        sizes = λ j. ground (arith, sizes i, sizes j, s.peers);
        fresh = λ v t. ground (arith, fresh i t, fresh v t, s.term);
        agree = λ v. ground (arith, ids i, agree v, s.term, s.vote);
        leads = λ j. ground (
          arith,
          leads j,
          s.no_leader,
          backers_mono n h h' (node j).current_term j (stand-Grows args s),
        );
      }

  pub count-Nodes :
      (t had has : ℕ) (reply : RequestVoteReply)
      → Counted t had has reply (node i) rf'
      → has ≤ backers n h t i
      → Nodes n (set1 node i rf') h
  unfolding quorum
  count-Nodes t had has reply k enough = record {
    ids = λ j. ground (arith, ids i, ids j, k.id);
    sizes = λ j. ground (arith, sizes i, sizes j, k.peers);
    fresh = λ v u. ground (arith, fresh i u, fresh v u, k.term_now, k.term_kept);
    agree = λ v. ground (arith, agree i, agree v, k.term_now, k.term_kept, k.vote);
    leads = λ j. ground (arith, leads j, sizes i, k.majority, k.term_kept);
  }
