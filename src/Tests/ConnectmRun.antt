-- ===== src/Tests/ConnectmRun.antt =====
-- hw1/game/game.go on small boards.
use cmsc.Prelude.{ℕ, ◌≡◌, ◌≢◌, ◌↔◌, refl, some, Bool, true, false, [], ◌∷◌, arith, ok}
use cmsc.Prelude.Int.{pos}
use cmsc.Connectm.Board.{
  Board, empty, player1, player2, new_board, make_move, MoveResult, landed, check_win, is_full,
}
use cmsc.Connectm.Board.Cells.{peek, Fits}
use cmsc.Connectm.Board.Gravity.{
  Dropped, BoardReach, opened, moved, make_move-Dropped, BoardReach-Settled, Settled,
}
use cmsc.Connectm.Board.Win.{WinningLine, check_win-WinningLine}
use cmsc.Connectm.Board.Full.{is_full-Settled}

-- Three rows, two columns, two to connect; the first player has moved in column 1.
abbrev opening : Board
opening = record {
  rows = 3;
  cols = 2;
  m = 2;
  grid = (empty ∷ empty ∷ []) ∷ (empty ∷ empty ∷ []) ∷ (empty ∷ player1 ∷ []) ∷ [];
  last_move = some (record { col = 1; row = 2; player = player1 });
}

-- The first player has two pieces along a diagonal.
abbrev won : Board
won = record {
  rows = 3;
  cols = 2;
  m = 2;
  grid = (empty ∷ empty ∷ []) ∷ (empty ∷ player1 ∷ []) ∷ (player1 ∷ player2 ∷ []) ∷ [];
  last_move = some (record { col = 1; row = 1; player = player1 });
}

opening_runs : make_move (pos 1) player1 (new_board 3 2 2) ≡ ok (opening, landed 2)
unfolding make_move new_board
opening_runs = refl

won_runs : check_win won ≡ ok true
unfolding check_win
won_runs = refl

opening_open : is_full opening ≡ ok false
unfolding is_full
opening_open = refl

won-Fits : Fits won
won-Fits = record { rows_fit = refl; cols_fit = (refl, (refl, (refl, tt))) }

opening-BoardReach : BoardReach opening
opening-BoardReach =
    moved (new_board 3 2 2) opening (pos 1) player1 (landed 2) (opened 3 2 2) opening_runs

make_move-Dropped_example :
    (b' : Board) × (r : MoveResult) × (make_move (pos 0) player2 won ≡ ok (b', r))
    × Dropped won (pos 0) player2 b' r
make_move-Dropped_example = make_move-Dropped (pos 0) player2 won won-Fits

BoardReach-Settled_example : Fits opening × Settled opening
BoardReach-Settled_example = BoardReach-Settled opening opening-BoardReach

check_win-WinningLine_example :
    (hit : Bool) × (check_win won ≡ ok hit)
    × ((hit ≡ true) ↔ WinningLine won (record { col = 1; row = 1; player = player1 }))
check_win-WinningLine_example =
    check_win-WinningLine won (record { col = 1; row = 1; player = player1 }) won-Fits refl

is_full-Settled_example :
    (hit : Bool) × (is_full opening ≡ ok hit)
    × ((hit ≡ true) ↔ ((i j : ℕ) → peek opening.grid i j ≢ some empty))
is_full-Settled_example =
    is_full-Settled opening (BoardReach-Settled opening opening-BoardReach).0
      (BoardReach-Settled opening opening-BoardReach).1 (omega arith)
