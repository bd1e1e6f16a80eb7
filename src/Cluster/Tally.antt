-- ===== src/Cluster/Tally.antt =====
-- Counting the nodes that pass a test, and the node that two majorities share.
use cmsc.Prelude.{
  ℕ, zero, suc, ◌+◌, ◌≤◌, ◌<◌, ◌≡◌, refl, Bool, true, false, ◌&&◌, inl, inr, arith, Bool-cases,
  ◌==◌, nat_eq, if◌then◌else◌,
}

-- How many of the numbers below `n` pass the test.
unfoldable pub tally : ℕ → (ℕ → Bool) → ℕ
tally zero f = 0
tally (suc n) f = (if f n then 1 else 0) + tally n f

pub tally_mono :
    (n : ℕ) (f g : ℕ → Bool) → ((v : ℕ) → f v ≡ true → g v ≡ true) → tally n f ≤ tally n g
unfolding tally
tally_mono zero f g h = omega arith
tally_mono (suc n) f g h = ground (arith, h n, tally_mono n f g h)

pub tally_pos : (n i : ℕ) (f : ℕ → Bool) → i < n → f i ≡ true → 1 ≤ tally n f
unfolding tally
tally_pos zero i f lt h = absurd (omega arith)
tally_pos (suc n) i f lt h = ground (arith, tally_pos n i f)

tally_same :
    (n i : ℕ) (f g : ℕ → Bool)
    → n ≤ i
    → ((v : ℕ) → (v == i) ≡ false → g v ≡ f v)
    → tally n g ≡ tally n f
unfolding tally
tally_same zero i f g le h = refl
tally_same (suc n) i f g le h = ground (arith, h n, tally_same n i f g (omega arith) h)

-- One more number passes.
pub tally_add :
    (n i : ℕ) (f g : ℕ → Bool)
    → i < n
    → ((v : ℕ) → (v == i) ≡ false → g v ≡ f v)
    → f i ≡ false
    → g i ≡ true
    → tally n g ≡ suc (tally n f)
unfolding tally
tally_add zero i f g lt h a b = absurd (omega arith)
tally_add (suc n) i f g lt h a b = elim (Bool-cases (n == i)) [
  | inl e ↦
      let same : n ≡ i = ground arith in ground (arith, same, tally_same n i f g (omega arith) h)
  | inr e ↦ ground (arith, h n e, tally_add n i f g (ground arith) h a b)
]

pub tally_le : (n : ℕ) (f : ℕ → Bool) → tally n f ≤ n
unfolding tally
tally_le zero f = omega arith
tally_le (suc n) f = ground (arith, tally_le n f)

-- Two tests that together pass more than `n` times pass at one number.
pub tally_meet :
    (n : ℕ) (f g : ℕ → Bool) → n < tally n f + tally n g → (v : ℕ) × (f v ≡ true) × (g v ≡ true)
unfolding tally
tally_meet zero f g h = absurd (omega arith)
tally_meet (suc n) f g h = elim (Bool-cases (f n && g n)) [
  | inl both ↦ (n, ground arith, ground arith)
  | inr apart ↦ tally_meet n f g (ground arith)
]

pub tally_cong : (n : ℕ) (f g : ℕ → Bool) → ((v : ℕ) → f v ≡ g v) → tally n f ≡ tally n g
unfolding tally
tally_cong zero f g h = refl
tally_cong (suc n) f g h = ground (arith, h n, tally_cong n f g h)

pub tally_none : (n : ℕ) → tally n (λ _. false) ≡ 0
unfolding tally
tally_none zero = refl
tally_none (suc n) = omega (arith, tally_none n)
