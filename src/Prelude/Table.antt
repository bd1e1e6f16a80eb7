-- ===== src/Prelude/Table.antt =====
-- Go's `map[K]V`: the entries of distinct keys. The order of the entries is never read.
use Prim.Native.Nat.{ℕ}
use mathlib.Core.Path.{◌≡◌, refl}
use mathlib.Core.Option.{Option, none, some}
use mathlib.Core.List.{List, [], ◌∷◌}
use native.Mathlib.Omega.{arith}
use cmsc.Prelude.Tests.{Eq, ◌==◌, if◌then◌else◌}
use cmsc.Prelude.Lists.{length}

pub record Table (K V : Type 0) : Type 0 where
  entries : List (K × V)

unfoldable pub empty : {K V : Type 0} → Table K V
empty = record { entries = [] }

module _ {K V : Type 0} ⦃e : Eq K⦄ where
  find : List (K × V) → K → Option V
  find [] key = none
  find (slot ∷ more) key = if slot.0 == key then some slot.1 else find more key

  erase : List (K × V) → K → List (K × V)
  erase [] key = []
  erase (slot ∷ more) key = let kept = erase more key in if slot.0 == key then kept else slot ∷ kept

  -- `v, ok := m[k]`
  unfoldable pub get : Table K V → K → Option V
  unfolding find
  get t k = find t.entries k

  -- `delete(m, k)`
  unfoldable pub remove : Table K V → K → Table K V
  unfolding erase
  remove t k = record { entries = erase t.entries k }

  -- `m[k] = v`
  unfoldable pub put : Table K V → K → V → Table K V
  unfolding erase
  put t k v = record { entries = (k, v) ∷ erase t.entries k }

  -- `len(m)`
  unfoldable pub size : Table K V → ℕ
  size t = length t.entries

  find-erase :
      (m : List (K × V)) (gone key : K)
      → find (erase m gone) key ≡ (if gone == key then none else find m key)
  unfolding find erase
  find-erase [] gone key = ground arith
  find-erase (slot ∷ more) gone key = ground (
    arith,
    find-erase more gone key,
    e.beq_iff slot.0 gone,
    e.beq_iff slot.0 key,
    e.beq_iff gone key,
  )

  pub get-remove :
      (t : Table K V) (k j : K) → get (remove t k) j ≡ (if k == j then none else get t j)
  unfolding get remove
  get-remove t k j = find-erase t.entries k j

  pub get-put :
      (t : Table K V) (k j : K) (v : V) → get (put t k v) j ≡ (if k == j then some v else get t j)
  unfolding get put find
  get-put t k j v = ground (arith, find-erase t.entries k j)

  pub get-empty : (k : K) → get (empty {K = K} {V = V}) k ≡ none
  unfolding get empty find
  get-empty k = refl

pub ruleset table_laws = (get-empty, get-remove, get-put)
