-- ===== src/Cluster/History.antt =====
-- The remembered votes of a cluster: what backs a candidate, and that nothing in it is taken back.
use cmsc.Prelude.{
  ℕ, ◌+◌, ◌/◌, ◌≤◌, ◌≡◌, refl, Bool, true, false, ◌⊎◌, arith, Option, none, some, ◌==◌, nat_eq,
}
use cmsc.Cluster.{set2}
use cmsc.Cluster.Tally.{tally, tally_mono, tally_meet}

abbrev pub History : Type 0
History = ℕ → ℕ → Option ℕ

abbrev pub voted : Option ℕ → ℕ → Bool
voted none i = false
voted (some c) i = c == i

-- How many of the `n` nodes voted for `i` in term `t`.
unfoldable pub backers : ℕ → History → ℕ → ℕ → ℕ
backers n h t i = tally n (λ v. voted (h v t) i)

abbrev pub Grows : History → History → Type 0
Grows h h' = (v t c : ℕ) → h v t ≡ some c → h' v t ≡ some c

pub backers_mono :
    (n : ℕ) (h h' : History) (t i : ℕ) → Grows h h' → backers n h t i ≤ backers n h' t i
unfolding backers
backers_mono n h h' t i g =
    tally_mono n (λ v. voted (h v t) i) (λ v. voted (h' v t) i)
      λ v y. voted_grows (h v t) (h' v t) i (g v t) y
  where
    voted_grows :
        (o o' : Option ℕ) (i : ℕ)
        → ((c : ℕ) → o ≡ some c → o' ≡ some c)
        → voted o i ≡ true
        → voted o' i ≡ true
    voted_grows none o' i k y = cc
    voted_grows (some c) o' i k y = ground (arith, k c refl)

-- Counted voters who all voted for `i` in `t` are backers of `i` in `t`.
pub tally-le-backers :
    (n : ℕ) (h : History) (t i : ℕ) (f : ℕ → Bool)
    → ((v : ℕ) → f v ≡ true → h v t ≡ some i)
    → tally n f ≤ backers n h t i
unfolding backers
tally-le-backers n h t i f k = tally_mono n f (λ v. voted (h v t) i) (λ v y. ground (arith, k v y))

-- Two candidates that a majority each backs in one term are the same.
pub majority_unique :
    (n : ℕ) (h : History) (t i j : ℕ)
    → n / 2 + 1 ≤ backers n h t i
    → n / 2 + 1 ≤ backers n h t j
    → i ≡ j
unfolding backers
majority_unique n h t i j p q =
    let (v, a, b) = tally_meet n (λ v. voted (h v t) i) (λ v. voted (h v t) j) (omega arith) in
    same (h v t) a b
  where
    same : (o : Option ℕ) → voted o i ≡ true → voted o j ≡ true → i ≡ j
    same none a b = cc
    same (some c) a b = ground arith

-- A vote recorded where there was none, or the same one, takes nothing back.
pub set2-Grows :
    (h : History) (v t c : ℕ) → (h v t ≡ none) ⊎ (h v t ≡ some c) → Grows h (set2 h v t (some c))
set2-Grows h v t c old w u d k = ground arith
