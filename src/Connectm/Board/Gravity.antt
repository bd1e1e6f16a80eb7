-- ===== src/Connectm/Board/Gravity.antt =====
-- hw1/game/game.go: pieces fall to the lowest free cell, in `MakeMove` and in all that it leads to.
use cmsc.Prelude.{
  ℕ, zero, suc, ◌<◌, ◌≤◌, ◌≡◌, refl, ◌≢◌, ◌⊎◌, inl, inr, Option, none, some, ok, ◌==◌, nat_eq,
  nat_beq_iff, arith, Bool-cases, sym, ap, ◌∙◌, ok-injective, ◌||◌, ltb,
}
use cmsc.Prelude.Int.{ℤ, pos, negsuc, ◌<ℤ◌, ◌≤ℤ◌}
use cmsc.Connectm.Board.{
  Player, empty, player1, player2, Board, new_board, with_cell, free_row, MoveResult, landed,
  out_of_bounds, invalid_player, column_full, drop_at, make_move,
}
use cmsc.Connectm.Board.Cells.{
  peek, Fits, cell_inside, peek-with_cell, with_cell-Fits, new_board-Fits, peek_row, peek-replicate,
}

-- Nothing hangs in the air: below a piece there is no empty cell.
abbrev pub Settled : Board → Type 0
Settled b =
    (row col low : ℕ) (p : Player)
    → peek b.grid row col ≡ some p
    → p ≢ empty
    → row < low
    → peek b.grid low col ≢ some empty

-- What the loop finds in a column, among the first `n` rows.
data Scanned (b : Board) (col n : ℕ) : Option ℕ → Type 0 where
  taken : ((i : ℕ) → i < n → peek b.grid i col ≢ some empty) → Scanned b col n none
  free :
      (row : ℕ)
      → row < n
      → peek b.grid row col ≡ some empty
      → ((i : ℕ) → row < i → i < n → peek b.grid i col ≢ some empty)
      → Scanned b col n (some row)

Scanned-suc :
    (b : Board) (col n : ℕ) (o : Option ℕ)
    → peek b.grid n col ≢ some empty
    → Scanned b col n o
    → Scanned b col (suc n) o
Scanned-suc b col n none h (taken t) = taken (λ i below e. elim (Bool-cases (i == n)) [
  | inl same ↦ h (rw (sym ((nat_beq_iff i n).0 same)) e)
  | inr other ↦ t i (ground (arith, nat_beq_iff i n)) e
])
Scanned-suc b col n (some top) h (free row l e t) = free row (omega arith) e (λ i above below e'.
    elim (Bool-cases (i == n)) [
      | inl same ↦ h (rw (sym ((nat_beq_iff i n).0 same)) e')
      | inr other ↦ t i above (ground (arith, nat_beq_iff i n)) e'
    ])

free_row-Scanned :
    (b : Board) (col n : ℕ)
    → Fits b
    → col < b.cols
    → n ≤ b.rows
    → (o : Option ℕ) × (free_row b col n ≡ ok o) × Scanned b col n o
unfolding free_row
free_row-Scanned b col zero fit k h = (none, refl, taken (λ i below. absurd (omega arith)))
free_row-Scanned b col (suc n) fit k h =
    let (p, e, c) = cell_inside b n col fit (omega arith) k in
    let (o, r, s) = free_row-Scanned b col n fit k (omega arith) in
    elim (Bool-cases (p == empty)) [
      | inl hit ↦ (
        some n,
        rw (c, hit) refl,
        free n (omega arith) (ground (arith, e, hit, nat_beq_iff p empty))
            (λ i a l. absurd (omega arith)),
      )
      | inr miss ↦ (
        o,
        rw (c, miss) r,
        Scanned-suc b col n o (λ e'. ground (arith, e, e', miss, nat_beq_iff p empty)) s,
      )
    ]

-- The answer of `MakeMove` and the board after it.
pub data Dropped (b : Board) (col : ℤ) (player : Player) (b' : Board) : MoveResult → Type 0 where
  outside : (col <ℤ pos 0) ⊎ (pos b.cols ≤ℤ col) → b' ≡ b → Dropped b col player b' out_of_bounds
  stranger :
      pos 0 ≤ℤ col
      → col <ℤ pos b.cols
      → player ≢ player1
      → player ≢ player2
      → b' ≡ b
      → Dropped b col player b' invalid_player
  full :
      (c : ℕ)
      → col ≡ pos c
      → c < b.cols
      → (player ≡ player1) ⊎ (player ≡ player2)
      → ((i : ℕ) → i < b.rows → peek b.grid i c ≢ some empty)
      → b' ≡ b
      → Dropped b col player b' column_full
  falls :
      (c row : ℕ)
      → col ≡ pos c
      → c < b.cols
      → (player ≡ player1) ⊎ (player ≡ player2)
      → row < b.rows
      → peek b.grid row c ≡ some empty
      → ((i : ℕ) → row < i → i < b.rows → peek b.grid i c ≢ some empty)
      → b' ≡ record b {
        grid = with_cell b.grid row c player;
        last_move = some (record { col = c; row = row; player = player });
      }
      → Dropped b col player b' (landed row)

Scanned-Dropped :
    (b : Board) (c : ℕ) (player : Player)
    → c < b.cols
    → (player ≡ player1) ⊎ (player ≡ player2)
    → (o : Option ℕ) → Scanned b c b.rows o
    → Dropped b (pos c) player (drop_at b c player o).0 (drop_at b c player o).1
Scanned-Dropped b c player k known none (taken t) = full c refl k known t refl
Scanned-Dropped b c player k known (some row) (free _ l e t) = falls c row refl k known l e t refl

make_move-in :
    (b : Board) (c : ℕ) (player : Player)
    → Fits b
    → c < b.cols
    → (player ≡ player1) ⊎ (player ≡ player2)
    → (b' : Board) × (r : MoveResult) × (make_move (pos c) player b ≡ ok (b', r))
      × Dropped b (pos c) player b' r
unfolding make_move
make_move-in b c player fit k known =
    let (o, e, s) = free_row-Scanned b c b.rows fit k (omega arith) in
    (
      (drop_at b c player o).0,
      (drop_at b c player o).1,
      ground (arith, e, k, known, nat_beq_iff player player1, nat_beq_iff player player2),
      Scanned-Dropped b c player k known o s,
    )

-- `MakeMove` on a board whose grid has the board's size never panics. It refuses a column that is
-- not on the board, then a player that is neither of the two, then a column without an empty cell,
-- and leaves the board alone; else the piece takes the lowest empty cell, which is all that changes
-- in the grid, and becomes the last move.
pub make_move-Dropped :
    (col : ℤ) (player : Player) (b : Board)
    → Fits b
    → (b' : Board) × (r : MoveResult) × (make_move col player b ≡ ok (b', r))
      × Dropped b col player b' r
unfolding make_move
make_move-Dropped (negsuc n) player b fit =
    (b, out_of_bounds, ground arith, outside (inl (omega arith)) refl)
make_move-Dropped (pos c) player b fit = elim (Bool-cases (ltb c b.cols)) [
  | inr off ↦ (b, out_of_bounds, ground (arith, off), outside (inr (ground (arith, off))) refl)
  | inl on ↦ elim (Bool-cases (player == player1 || player == player2)) [
    | inl known ↦
        make_move-in b c player fit (ground (arith, on))
          (ground (arith, known, nat_beq_iff player player1, nat_beq_iff player player2))
    | inr other ↦ (
      b,
      invalid_player,
      ground (arith, on, other),
      stranger (omega arith) (ground (arith, on))
          (λ e. ground (arith, other, nat_beq_iff player player1, e))
          (λ e. ground (arith, other, nat_beq_iff player player2, e)) refl,
    )
  ]
]

-- A board as play makes it, from an empty one by any calls of `MakeMove`.
pub data BoardReach : Board → Type 0 where
  opened : (rows cols m : ℕ) → BoardReach (new_board rows cols m)
  moved :
      (b b' : Board) (col : ℤ) (player : Player) (r : MoveResult)
      → BoardReach b
      → make_move col player b ≡ ok (b', r)
      → BoardReach b'

peek_new :
    (rows cols m row col : ℕ) (p : Player)
    → peek (new_board rows cols m).grid row col ≡ some p
    → p ≡ empty
unfolding new_board
peek_new rows cols m row col p h = peek-replicate rows cols row col p h

falls-Settled :
    (b : Board) (c row : ℕ) (player : Player)
    → (player ≡ player1) ⊎ (player ≡ player2)
    → Fits b
    → peek b.grid row c ≡ some empty
    → ((i : ℕ) → row < i → i < b.rows → peek b.grid i c ≢ some empty)
    → Settled b
    → (b' : Board) → b'.grid ≡ with_cell b.grid row c player
    → Settled b'
falls-Settled b c row player known fit here below s b' eq i j low p at solid under bad = ground (
  arith,
  known,
  peek-with_cell b.grid row c i j player empty here,
  peek-with_cell b.grid row c low j player empty here,
  eq,
  at,
  bad,
  solid,
  under,
  nat_beq_iff i row,
  nat_beq_iff low row,
  nat_beq_iff j c,
  below low,
  s i j low p,
  peek_row b low j empty fit,
)

pub Dropped-Fits :
    (b b' : Board) (col : ℤ) (player : Player) (r : MoveResult)
    → Dropped b col player b' r
    → Fits b
    → Fits b'
Dropped-Fits b b' col player out_of_bounds (outside o e) fit = rw e fit
Dropped-Fits b b' col player invalid_player (stranger l k n m e) fit = rw e fit
Dropped-Fits b b' col player column_full (full c e k n t e') fit = rw e' fit
Dropped-Fits b b' col player (landed _) (falls c row e k known l here below eq) fit =
    with_cell-Fits b b' row c player (ap (λ (x : Board). x.rows) eq) (ap (λ (x : Board). x.cols) eq)
      (ap (λ (x : Board). x.grid) eq) fit

Dropped-board :
    (b b' : Board) (col : ℤ) (player : Player) (r : MoveResult)
    → Dropped b col player b' r
    → Fits b
    → Settled b
    → Fits b' × Settled b'
Dropped-board b b' col player out_of_bounds (outside o e) fit s = rw e (fit, s)
Dropped-board b b' col player invalid_player (stranger l k n m e) fit s = rw e (fit, s)
Dropped-board b b' col player column_full (full c e k n t e') fit s = rw e' (fit, s)
Dropped-board b b' col player (landed _) (falls c row e k known l here below eq) fit s = (
  with_cell-Fits b b' row c player (ap (λ (x : Board). x.rows) eq) (ap (λ (x : Board). x.cols) eq)
      (ap (λ (x : Board). x.grid) eq) fit,
  falls-Settled b c row player known fit here below s b' (ap (λ (x : Board). x.grid) eq),
)

-- On every board that play makes, the grid has the size of the board, and below a piece there is no
-- empty cell.
pub BoardReach-Settled : (b : Board) → BoardReach b → Fits b × Settled b
BoardReach-Settled _ (opened rows cols m) = (
  new_board-Fits rows cols m,
  λ row col low p h solid under bad. solid (peek_new rows cols m row col p h),
)
BoardReach-Settled _ (moved b b' col player r h e) =
    let (fit, s) = BoardReach-Settled b h in
    let (c, q, run, d) = make_move-Dropped col player b fit in
    let same : Path (Board × MoveResult) (c, q) (b', r) = ok-injective (sym run ∙ e) in
    let board : b' ≡ c = cc in
    let answer : r ≡ q = cc in Dropped-board b b' col player r (rw (board, answer) d) fit s
