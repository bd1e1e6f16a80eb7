-- ===== src/Connectm/Board.antt =====
-- hw1/game/game.go: the board. Its size is a pair of natural numbers, since `make` panics on a
-- negative one; a column comes from a client and is an integer. Row 0 is the top.
use cmsc.Prelude.{
  ℕ, zero, suc, ◌+◌, ◌-◌, ◌<◌, ◌≤◌, Option, none, some, List, [], ◌∷◌, Bool, true, false, not, ◌||◌,
  ◌&&◌, get_elem?, set, replicate, Outcome, ok, ◌>>=◌, indexed, leb, ◌==◌, nat_eq, if◌then◌else◌,
}
use cmsc.Prelude.Int.{ℤ, pos, negsuc, ◌+ℤ◌, ◌-ℤ◌, ◌*ℤ◌, pos_part, ltb_ℤ}
pub mod Cells
pub mod Gravity
pub mod Full
pub mod Win

-- `type Player int`
abbrev pub Player : Type 0
Player = ℕ

abbrev pub empty : Player
empty = 0

abbrev pub player1 : Player
player1 = 1

abbrev pub player2 : Player
player2 = 2

pub record Move : Type 0 where
  pub col : ℕ
  pub row : ℕ
  pub player : Player

pub record Board : Type 0 where
  pub rows : ℕ
  pub cols : ℕ
  pub m : ℕ
  pub grid : List (List Player)
  pub last_move : Option Move

-- `NewBoard`
unfoldable pub new_board : ℕ → ℕ → ℕ → Board
new_board rows cols m = record {
  rows = rows;
  cols = cols;
  m = m;
  grid = replicate rows (replicate cols empty);
  last_move = none;
}

-- `b.Grid[row][col]`
unfoldable pub cell : Board → ℕ → ℕ → Outcome Player
cell b row col = do line ← indexed (get_elem? b.grid row); indexed (get_elem? line col)

-- `b.Grid[row][col] = player` at a cell that exists.
abbrev pub with_cell : List (List Player) → ℕ → ℕ → Player → List (List Player)
with_cell [] row col player = []
with_cell (line ∷ lines) zero col player = set line col player ∷ lines
with_cell (line ∷ lines) (suc row) col player = line ∷ with_cell lines row col player

pub data MoveResult : Type 0 where
  landed : ℕ → MoveResult
  out_of_bounds invalid_player column_full : MoveResult

-- The loop of `MakeMove` from row `n - 1` up to row 0: the first empty cell.
unfoldable pub free_row : Board → ℕ → ℕ → Outcome (Option ℕ)
unfolding cell
free_row b col zero = ok none
free_row b col (suc row) =
    let rest = free_row b col row in
    do p ← cell b row col; if p == empty then ok (some row) else rest

-- What `MakeMove` does with the row that the loop found.
abbrev pub drop_at : Board → ℕ → Player → Option ℕ → Board × MoveResult
drop_at b col player none = (b, column_full)
drop_at b col player (some row) = (
  record b {
    grid = with_cell b.grid row col player;
    last_move = some (record { col = col; row = row; player = player });
  },
  landed row,
)

-- `MakeMove`
unfoldable pub make_move : ℤ → Player → Board → Outcome (Board × MoveResult)
unfolding free_row
make_move col player b =
    if ltb_ℤ col (pos 0) || not (ltb_ℤ col (pos b.cols))
    then ok (b, out_of_bounds)
    else if not (player == player1) && not (player == player2)
    then ok (b, invalid_player)
    else (do found ← free_row b (pos_part col) b.rows; ok (drop_at b (pos_part col) player found))

-- `isValid`
unfoldable pub is_valid : Board → ℤ → ℤ → Bool
is_valid b row col =
    not (ltb_ℤ row (pos 0))
    && ltb_ℤ row (pos b.rows)
    && not (ltb_ℤ col (pos 0))
    && ltb_ℤ col (pos b.cols)

-- `b.isValid(r, c) && b.Grid[r][c] == player`; the grid is read only at a valid position.
unfoldable pub owned : Board → Player → ℤ → ℤ → Outcome Bool
unfolding is_valid cell
owned b player row col =
    if is_valid b row col
    then (do p ← cell b (pos_part row) (pos_part col); ok (p == player))
    else ok false

-- A loop of `checkDirection` with `n` rounds left: how many cells in a row belong to the player.
unfoldable pub run : Board → Player → (ℕ → ℤ) → (ℕ → ℤ) → ℕ → ℕ → Outcome ℕ
unfolding owned
run b player row_at col_at i zero = ok 0
run b player row_at col_at i (suc n) =
    let rest = run b player row_at col_at (i + 1) n in
    do
      mine ← owned b player (row_at i) (col_at i)
      if mine then (do count ← rest; ok (suc count)) else ok 0

-- `checkDirection`
unfoldable pub check_direction : Board → ℕ → ℕ → Player → ℤ → ℤ → Outcome Bool
unfolding run ◌+ℤ◌ ◌-ℤ◌ ◌*ℤ◌
check_direction b row col player d_row d_col = do
  forth ← run b player (λ i. pos row +ℤ pos i *ℤ d_row) (λ i. pos col +ℤ pos i *ℤ d_col) 1 (b.m - 1)
  back ← run b player (λ i. pos row -ℤ pos i *ℤ d_row) (λ i. pos col -ℤ pos i *ℤ d_col) 1 (b.m - 1)
  ok (leb b.m (1 + forth + back))

-- `if b.checkDirection(...) { return true }`, and then the rest.
abbrev pub or_else : Outcome Bool → Outcome Bool → Outcome Bool
or_else first rest = do hit ← first; if hit then ok true else rest

-- `CheckWin`
unfoldable pub check_win : Board → Outcome Bool
unfolding check_direction
check_win b = elim b.last_move [
  | none ↦ ok false
  | some last ↦ or_else (check_direction b last.row last.col last.player (pos 0) (pos 1)) (
      or_else (check_direction b last.row last.col last.player (pos 1) (pos 0)) (
        or_else (check_direction b last.row last.col last.player (pos 1) (pos 1)) (
          or_else (check_direction b last.row last.col last.player (pos 1) (negsuc 0)) (ok false))))
]

-- The loop of `IsFull` from column `col` on, with `n` columns left.
unfoldable pub full_from : Board → ℕ → ℕ → Outcome Bool
unfolding cell
full_from b col zero = ok true
full_from b col (suc n) =
    let rest = full_from b (col + 1) n in do p ← cell b 0 col; if p == empty then ok false else rest

-- `IsFull`
unfoldable pub is_full : Board → Outcome Bool
unfolding full_from
is_full b = full_from b 0 b.cols

-- `IsColumnFull`
unfoldable pub is_column_full : Board → ℤ → Outcome Bool
unfolding cell
is_column_full b col =
    if ltb_ℤ col (pos 0) || not (ltb_ℤ col (pos b.cols))
    then ok true
    else (do p ← cell b 0 (pos_part col); ok (not (p == empty)))
