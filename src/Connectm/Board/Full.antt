-- ===== src/Connectm/Board/Full.antt =====
-- hw1/game/game.go: `IsFull` looks at the top row only.
use cmsc.Prelude.{
  ℕ, zero, suc, ◌+◌, ◌<◌, ◌≤◌, ◌≡◌, refl, ◌≢◌, ◌↔◌, some, Bool, true, false, ok, ◌==◌, nat_eq,
  nat_beq_iff, inl, inr, arith, Bool-cases,
}
use cmsc.Connectm.Board.{empty, Board, full_from, is_full}
use cmsc.Connectm.Board.Cells.{peek, Fits, cell_inside, peek_col}
use cmsc.Connectm.Board.Gravity.{Settled}

pub top_from :
    (b : Board) (col n : ℕ)
    → Fits b
    → 0 < b.rows
    → col + n ≤ b.cols
    → (hit : Bool) × (full_from b col n ≡ ok hit)
      × ((hit ≡ true) → (j : ℕ) → col ≤ j → j < col + n → peek b.grid 0 j ≢ some empty)
      × ((hit ≡ false) → (j : ℕ) × (peek b.grid 0 j ≡ some empty))
unfolding full_from
top_from b col zero fit h k =
    (true, refl, λ hit j low high. absurd (omega arith), λ no. ground (arith, no))
top_from b col (suc n) fit h k =
    let (p, e, c) = cell_inside b 0 col fit h (omega arith) in
    let (hit, r, to, from) = top_from b (col + 1) n fit h (omega arith) in
    elim (Bool-cases (p == empty)) [
      | inl gap ↦ (
        false,
        rw (c, gap) refl,
        λ no. ground (arith, no),
        λ no. (col, ground (arith, e, gap, nat_beq_iff p empty)),
      )
      | inr piece ↦ (
        hit,
        rw (c, piece) r,
        λ yeah j low high bad. elim (Bool-cases (j == col)) [
          | inl same ↦ ground (arith, e, bad, same, piece, nat_beq_iff p empty, nat_beq_iff j col)
          | inr other ↦
              to yeah j (ground (arith, other, low, nat_beq_iff j col)) (omega (arith, high)) bad
        ],
        from,
      )
    ]

covered :
    (b : Board)
    → Fits b
    → Settled b
    → 0 < b.rows
    → ((j : ℕ) → 0 ≤ j → j < 0 + b.cols → peek b.grid 0 j ≢ some empty)
    → (i j : ℕ) → peek b.grid i j ≢ some empty
covered b fit s h top zero j bad =
    top j (omega arith) (omega (arith, peek_col b 0 j empty fit bad)) bad
covered b fit s h top (suc i) j bad =
    let inside = peek_col b (suc i) j empty fit bad in
    let (p, e, _) = cell_inside b 0 j fit h inside in
    s 0 j (suc i) p e (λ gap. top j (omega arith) (omega (arith, inside)) (ground (arith, e, gap)))
      (omega arith) bad

-- On a board with a row, with a grid of the board's size and no empty cell below a piece, `IsFull`
-- never panics, and it is true exactly when no cell at all is empty.
pub is_full-Settled :
    (b : Board)
    → Fits b
    → Settled b
    → 0 < b.rows
    → (hit : Bool) × (is_full b ≡ ok hit)
      × ((hit ≡ true) ↔ ((i j : ℕ) → peek b.grid i j ≢ some empty))
unfolding is_full
is_full-Settled b fit s h =
    let (hit, r, to, from) = top_from b 0 b.cols fit h (omega arith) in
    (
      hit,
      r,
      (
        λ yeah i j bad. covered b fit s h (to yeah) i j bad,
        λ none_free. elim (Bool-cases hit) [
          | inl yeah ↦ yeah
          | inr gap ↦ let (j, e) = from gap in absurd (none_free 0 j e)
        ],
      ),
    )
