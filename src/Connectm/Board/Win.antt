-- ===== src/Connectm/Board/Win.antt =====
-- hw1/game/game.go: the win test finds the lines through the last move.
use cmsc.Prelude.{
  ℕ, zero, suc, ◌+◌, ◌-◌, ◌<◌, ◌≤◌, ◌≡◌, refl, sym, ◌∙◌, ◌↔◌, ◌⊎◌, inl, inr, some, Bool, true,
  false, Outcome, ok, leb, ltb, ◌==◌, nat_eq, nat_beq_iff, Bool-cases, arith,
}
use cmsc.Prelude.Int.{ℤ, pos, negsuc, ◌+ℤ◌, ◌-ℤ◌, ◌*ℤ◌}
use cmsc.Connectm.Board.{
  Player, Move, Board, is_valid, owned, run, check_direction, or_else, check_win,
}
use cmsc.Connectm.Board.Cells.{peek, Fits, cell_inside, peek_row, peek_col}

-- A position of the board that a player has taken.
pub record Held (b : Board) (player : Player) (row col : ℤ) : Type 0 where
  pub i : ℕ
  pub j : ℕ
  pub row_is : row ≡ pos i
  pub col_is : col ≡ pos j
  pub taken : peek b.grid i j ≡ some player

owned-Held :
    (b : Board) (player : Player) (row col : ℤ)
    → Fits b
    → (hit : Bool) × (owned b player row col ≡ ok hit)
      × ((hit ≡ true) → Held b player row col)
      × ((hit ≡ false) → ¬ Held b player row col)
unfolding owned is_valid
owned-Held b player (negsuc n) col fit =
    (false, ground arith, λ h. cc, λ h held. ground (arith, held.row_is))
owned-Held b player (pos i) (negsuc n) fit =
    (false, ground arith, λ h. cc, λ h held. ground (arith, held.col_is))
owned-Held b player (pos i) (pos j) fit = elim (Bool-cases (ltb i b.rows)) [
  | inr low ↦ (
    false,
    ground (arith, low),
    λ h. cc,
    λ h held. ground (arith, low, held.row_is, peek_row b held.i held.j player fit held.taken),
  )
  | inl row ↦ elim (Bool-cases (ltb j b.cols)) [
    | inr wide ↦ (
      false,
      ground (arith, row, wide),
      λ h. cc,
      λ h held. ground (arith, wide, held.col_is, peek_col b held.i held.j player fit held.taken),
    )
    | inl col ↦
        let (p, e, c) = cell_inside b i j fit (ground (arith, row)) (ground (arith, col)) in
        (
          p == player,
          ground (arith, row, col, c),
          λ h. record {
            i = i;
            j = j;
            row_is = refl;
            col_is = refl;
            taken = ground (arith, e, h, nat_beq_iff p player);
          },
          λ h held.
              ground (arith, e, h, held.row_is, held.col_is, held.taken, nat_beq_iff p player),
        )
  ]
]

-- What the loop of `checkDirection` counts in `n` rounds.
record Counted (b : Board) (player : Player) (row_at col_at : ℕ → ℤ) (i n count : ℕ) : Type 0 where
  within : count ≤ n
  held : (j : ℕ) → j < count → Held b player (row_at (i + j)) (col_at (i + j))
  stops : count < n → ¬ Held b player (row_at (i + count)) (col_at (i + count))

shifted :
    (b : Board) (player : Player) (row_at col_at : ℕ → ℤ) (i j : ℕ)
    → i ≡ j
    → Held b player (row_at i) (col_at i)
    → Held b player (row_at j) (col_at j)
shifted b player row_at col_at i j e held = rw (sym e) held

Held-suc :
    (b : Board) (player : Player) (row_at col_at : ℕ → ℤ) (i count : ℕ)
    → Held b player (row_at i) (col_at i)
    → ((j : ℕ) → j < count → Held b player (row_at (i + 1 + j)) (col_at (i + 1 + j)))
    → (j : ℕ) → j < suc count
    → Held b player (row_at (i + j)) (col_at (i + j))
Held-suc b player row_at col_at i count first rest zero h =
    shifted b player row_at col_at i (i + 0) (omega arith) first
Held-suc b player row_at col_at i count first rest (suc j) h =
    shifted b player row_at col_at (i + 1 + j) (i + suc j) (omega arith) (rest j (omega arith))

run-Counted :
    (b : Board) (player : Player) (row_at col_at : ℕ → ℤ) (i n : ℕ)
    → Fits b
    → (count : ℕ) × (run b player row_at col_at i n ≡ ok count)
      × Counted b player row_at col_at i n count
unfolding run
run-Counted b player row_at col_at i zero fit = (
  0,
  refl,
  record {
    within = omega arith;
    held = λ j h. absurd (omega arith);
    stops = λ h. absurd (omega arith);
  },
)
run-Counted b player row_at col_at i (suc n) fit =
    let (hit, e, yeah, nay) = owned-Held b player (row_at i) (col_at i) fit in
    let (count, r, c) = run-Counted b player row_at col_at (i + 1) n fit in
    elim (Bool-cases hit) [
      | inr miss ↦ (
        0,
        rw (e, miss) refl,
        record {
          within = omega arith;
          held = λ j h. absurd (omega arith);
          stops = λ h held. nay miss (shifted b player row_at col_at (i + 0) i (omega arith) held);
        },
      )
      | inl mine ↦ (
        suc count,
        rw (e, mine, r) refl,
        record {
          within = omega (arith, c.within);
          held = Held-suc b player row_at col_at i count (yeah mine) c.held;
          stops = λ h held.
              c.stops (omega arith)
                (shifted b player row_at col_at (i + suc count) (i + 1 + count) (omega arith) held);
        },
      )
    ]

-- At least `m` pieces of the player in a row: the cell itself, `f` cells on one side of it and `k`
-- on the other.
pub record Line (b : Board) (row col : ℕ) (player : Player) (d_row d_col : ℤ) : Type 0 where
  pub f : ℕ
  pub k : ℕ
  pub enough : b.m ≤ f + k + 1
  pub forth :
      (i : ℕ)
      → i < f
      → Held b player (pos row +ℤ pos (1 + i) *ℤ d_row) (pos col +ℤ pos (1 + i) *ℤ d_col)
  pub back :
      (i : ℕ)
      → i < k
      → Held b player (pos row -ℤ pos (1 + i) *ℤ d_row) (pos col -ℤ pos (1 + i) *ℤ d_col)

-- Cells that are all held count towards what the loop finds.
run_reaches :
    {b : Board} {player : Player} {row_at col_at : ℕ → ℤ} {n count : ℕ} (f : ℕ)
    → Counted b player row_at col_at 1 n count
    → ((i : ℕ) → i < f → Held b player (row_at (1 + i)) (col_at (1 + i)))
    → (n ≤ count) ⊎ (f ≤ count)
run_reaches {n} {count} f c held = elim (Bool-cases (ltb count n)) [
  | inr all ↦ inl (ground (arith, all))
  | inl short ↦ elim (Bool-cases (ltb count f)) [
    | inr past ↦ inr (ground (arith, past))
    | inl inside ↦ absurd (c.stops (ground (arith, short)) (held count (ground (arith, inside))))
  ]
]

check_direction-Line :
    (b : Board) (row col : ℕ) (player : Player) (d_row d_col : ℤ)
    → Fits b
    → (hit : Bool) × (check_direction b row col player d_row d_col ≡ ok hit)
      × ((hit ≡ true) ↔ Line b row col player d_row d_col)
unfolding check_direction
check_direction-Line b row col player d_row d_col fit =
    let (forth, e, c) =
      run-Counted b player (λ i. pos row +ℤ pos i *ℤ d_row) (λ i. pos col +ℤ pos i *ℤ d_col) 1
        (b.m - 1) fit in
    let (back, e', c') =
      run-Counted b player (λ i. pos row -ℤ pos i *ℤ d_row) (λ i. pos col -ℤ pos i *ℤ d_col) 1
        (b.m - 1) fit in
    (
      leb b.m (1 + forth + back),
      rw (e, e') refl,
      (
        λ h. record {
          f = forth;
          k = back;
          enough = ground (arith, h);
          forth = c.held;
          back = c'.held;
        },
        λ l. ground (arith, l.enough, run_reaches l.f c l.forth, run_reaches l.k c' l.back),
      ),
    )

-- A test that does not panic, and what it decides.
abbrev Decides : Outcome Bool → Type 0 → Type 0
Decides test P = (hit : Bool) × (test ≡ ok hit) × ((hit ≡ true) ↔ P)

or_else-Decides :
    {P Q : Type 0} (first rest : Outcome Bool)
    → Decides first P
    → Decides rest Q
    → Decides (or_else first rest) (P ⊎ Q)
or_else-Decides first rest (true, e, (to, from)) d =
    (true, rw e refl, (λ h. inl (to refl), λ pq. refl))
or_else-Decides first rest (false, e, (to, from)) (hit, e', (to', from')) = (
  hit,
  rw e e',
  (λ h. inr (to' h), λ pq. elim pq [ inl p ↦ ground (arith, from p) | inr q ↦ from' q ]),
)

-- A line through the last move: across, down, or along one of the diagonals.
abbrev pub WinningLine : Board → Move → Type 0
WinningLine b mv =
    Line b mv.row mv.col mv.player (pos 0) (pos 1)
    ⊎ (Line b mv.row mv.col mv.player (pos 1) (pos 0)
        ⊎ (Line b mv.row mv.col mv.player (pos 1) (pos 1)
            ⊎ Line b mv.row mv.col mv.player (pos 1) (negsuc 0)))

last_Decides :
    {P : Type 0} (test : Outcome Bool) → Decides test P → Decides (or_else test (ok false)) P
last_Decides test (true, e, back) = (true, rw e refl, back)
last_Decides test (false, e, back) = (false, rw e refl, back)

-- On a board whose grid has the board's size and on which a move was made, `CheckWin` never panics,
-- and it is true exactly when a line of at least `M` pieces of the player goes through the last move.
pub check_win-WinningLine :
    (b : Board) (mv : Move)
    → Fits b
    → b.last_move ≡ some mv
    → (hit : Bool) × (check_win b ≡ ok hit) × ((hit ≡ true) ↔ WinningLine b mv)
unfolding check_win
check_win-WinningLine b mv fit h =
    let line =
      λ (d_row d_col : ℤ). check_direction-Line b mv.row mv.col mv.player d_row d_col fit in
    let (hit, e, back) = or_else-Decides _ _ (line (pos 0) (pos 1)) (
      or_else-Decides _ _ (line (pos 1) (pos 0))
        (or_else-Decides _ _ (line (pos 1) (pos 1)) (last_Decides _ (line (pos 1) (negsuc 0))))) in
    (hit, rw h refl ∙ e, back)
