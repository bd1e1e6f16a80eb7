-- ===== src/Cluster/Completeness/Prefix.antt =====
-- Logs that begin as a leader's does, while leaders' logs grow.
use native.Mathlib.Decide.{ℕ_discrete}
use cmsc.Prelude.{
  ℕ, suc, ◌<◌, ◌≤◌, ◌≡◌, refl, sym, ap, ◌∙◌, List, [], ◌∷◌, ◌++◌, length, get_elem?, take, arith,
  get_elem?_lt, get_elem?-append_left, ltb,
}
use cmsc.Raft.Log.{LogEntry}
use cmsc.Cluster.Network.Traced.{Leaders, Extends, take-append_le, take_reaches}
use cmsc.Cluster.Tally.{tally_mono}
use cmsc.Cluster.Completeness.{Ghost, Own, Agrees, Bad, Committed}

LogEntry-discrete : Discrete LogEntry
LogEntry-discrete = hlevel ℕ_discrete

pub Logs-discrete : Discrete (List LogEntry)
Logs-discrete = hlevel (LogEntry-discrete, ℕ_discrete)

pub Agrees-Dec : (g : Leaders) (l : List LogEntry) (t j : ℕ) → Dec (Agrees g l t j)
Agrees-Dec g l t j = Logs-discrete (take (suc j) l) (take (suc j) (g t))

pub Own-lt : (g : Leaders) (t j : ℕ) → Own g t j → j < length (g t)
Own-lt g t j o = get_elem?_lt (g t) j o.there

pub Own-Extends : (g g' : Leaders) (t j : ℕ) → Extends g g' → Own g t j → Own g' t j
Own-Extends g g' t j ext o =
    let (s, grown) = ext t in
    record {
      entry = o.entry;
      behind = o.behind;
      there =
          ap (λ l. get_elem? l j) grown
          ∙ get_elem?-append_left (g t) s j (Own-lt g t j o)
          ∙ o.there;
      term = o.term;
    }

pub Own-back : (g g' : Leaders) (t j : ℕ) → Extends g g' → j < length (g t) → Own g' t j → Own g t j
Own-back g g' t j ext lt o =
    let (s, grown) = ext t in
    record {
      entry = o.entry;
      behind = o.behind;
      there =
          sym (get_elem?-append_left (g t) s j lt) ∙ sym (ap (λ l. get_elem? l j) grown) ∙ o.there;
      term = o.term;
    }

pub same_beginning :
    (g g' : Leaders) (t j : ℕ)
    → Extends g g'
    → j < length (g t)
    → take (suc j) (g' t) ≡ take (suc j) (g t)
same_beginning g g' t j ext lt =
    let (s, grown) = ext t in ap (take (suc j)) grown ∙ take-append_le (suc j) (g t) s lt

pub Agrees-Extends :
    (g g' : Leaders) (l : List LogEntry) (t j : ℕ)
    → Extends g g'
    → j < length (g t)
    → Agrees g l t j
    → Agrees g' l t j
Agrees-Extends g g' l t j ext lt a = a ∙ sym (same_beginning g g' t j ext lt)

pub Agrees-reaches :
    (g : Leaders) (l : List LogEntry) (t j : ℕ) → j < length (g t) → Agrees g l t j → j < length l
Agrees-reaches g l t j lt a = take_reaches j (g t) l lt (sym a)

pub Agrees-append :
    (g : Leaders) (l s : List LogEntry) (t j : ℕ)
    → j < length (g t)
    → Agrees g l t j
    → Agrees g (l ++ s) t j
Agrees-append g l s t j lt a = take-append_le (suc j) l s (Agrees-reaches g l t j lt a) ∙ a

-- The memory only grows.
pub record Grown (gh gh' : Ghost) : Type 0 where
  pub longer : Extends gh.g gh'.g
  pub firsts : (t : ℕ) → ¬ (gh.g t ≡ []) → gh'.first t ≡ gh.first t

append_ne_nil : (xs ys : List LogEntry) → ¬ (xs ≡ []) → ¬ (xs ++ ys ≡ [])
append_ne_nil [] ys h e = h refl
append_ne_nil (x ∷ xs) ys h e = cc

pub won_Extends : (g g' : Leaders) (t : ℕ) → Extends g g' → ¬ (g t ≡ []) → ¬ (g' t ≡ [])
won_Extends g g' t ext h e = let (s, grown) = ext t in append_ne_nil (g t) s h (sym grown ∙ e)

pub Bad-Grown :
    (gh gh' : Ghost) (t j u u' : ℕ)
    → Grown gh gh'
    → j < length (gh.g t)
    → u ≤ u'
    → Bad gh t j u
    → Bad gh' t j u'
Bad-Grown gh gh' t j u u' k lt le b = record {
  at = b.at;
  after = b.after;
  before = omega (arith, b.before, le);
  won = won_Extends gh.g gh'.g b.at k.longer b.won;
  lacks = λ a. b.lacks (
      ap (take (suc j)) (sym (k.firsts b.at b.won))
      ∙ a
      ∙ same_beginning gh.g gh'.g t j k.longer lt);
}

pub Committed-Grown :
    (n : ℕ) (gh gh' : Ghost) (t j : ℕ)
    → Grown gh gh'
    → ((v u : ℕ) → gh.acked v u ≤ gh'.acked v u)
    → Committed n gh t j
    → Committed n gh' t j
Committed-Grown n gh gh' t j k more c = record {
  own = Own-Extends gh.g gh'.g t j k.longer c.own;
  majority = omega (
    arith,
    c.majority,
    tally_mono n (λ v. ltb j (gh.acked v t)) (λ v. ltb j (gh'.acked v t))
        (λ v y. ground (arith, y, more v t)),
  );
}

pub Bad-later : (gh : Ghost) (t j u u' : ℕ) → u ≤ u' → Bad gh t j u → Bad gh t j u'
Bad-later gh t j u u' le b = record {
  at = b.at;
  after = b.after;
  before = omega (arith, b.before, le);
  won = b.won;
  lacks = b.lacks;
}

-- A term that nobody won is not the one.
pub Bad-narrow : (gh : Ghost) (t j u : ℕ) → gh.g u ≡ [] → Bad gh t j (suc u) → Bad gh t j u
Bad-narrow gh t j u empty b = elim (ℕ_discrete b.at u) [
  | yes e ↦ absurd (b.won (ap gh.g e ∙ empty))
  | no other ↦ record {
    at = b.at;
    after = b.after;
    before = omega (arith, b.before, other);
    won = b.won;
    lacks = b.lacks;
  }
]
