-- ===== src/Connectm/Session/Turns.antt =====
-- hw1/server/main.go: who may move, and what a move does to the session.
use text.Mathlib.TextEquality.{eq_iff}
use cmsc.Prelude.{
  ◌≡◌, ◌≢◌, ◌⊎◌, refl, sym, ap, ◌∙◌, none, some, [], ◌∷◌, true, false, String, ok, ℕ, ◌==◌,
  string_eq, Option-cases, Bool-cases, Outcome-cases, inl, inr, arith,
}
use cmsc.Prelude.Int.{ℤ, pos, ◌-ℤ◌}
use cmsc.Prelude.Table
use cmsc.Connectm.Board.{
  Board, Player, player1, player2, MoveResult, landed, out_of_bounds, invalid_player, column_full,
  make_move, check_win, is_full,
}
use cmsc.Connectm.Session.{
  Session, Sent, Reply, ack_invalid, notify_win, ack_move, next_turn, piece_to_player, after_move,
  play, handle_send_move,
}

-- X is the first player, and any other piece the second.
abbrev pub Plays : String → Player → Type 0
Plays piece who = ((piece ≡ "X") × (who ≡ player1)) ⊎ ((piece ≢ "X") × (who ≡ player2))

-- O comes after X, and X after any other piece.
abbrev pub Follows : String → String → Type 0
Follows turn next = ((turn ≡ "X") × (next ≡ "O")) ⊎ ((turn ≢ "X") × (next ≡ "X"))

-- One reply for each of the two seats, X first.
abbrev pub ToBoth : Session → Reply → Sent → Type 0
ToBoth s reply sent =
    sent ≡ (Table.get s.player_conns "X", reply) ∷ (Table.get s.player_conns "O", reply) ∷ []

-- What the board after a move decides: a win, a draw, or the turn of the other player.
pub data Ended (piece : String) (b : Board) (s s' : Session) (sent : Sent) : Type 0 where
  won :
      check_win b ≡ ok true
      → s' ≡ record s { board = some b; game_over = true }
      → ToBoth s (notify_win piece b) sent
      → Ended piece b s s' sent
  drawn :
      check_win b ≡ ok false
      → is_full b ≡ ok true
      → s' ≡ record s { board = some b; game_over = true }
      → ToBoth s (ack_move "DRAW" "" b) sent
      → Ended piece b s s' sent
  passed :
      (turn : String)
      → check_win b ≡ ok false
      → is_full b ≡ ok false
      → Follows s.current_turn turn
      → s' ≡ record s { board = some b; current_turn = turn }
      → ToBoth s (ack_move "OK" turn b) sent
      → Ended piece b s s' sent

-- The game is on and it is the turn of the player that the identifier names.
pub record MayMove (id : String) (s : Session) : Type 0 where
  pub on : s.game_over ≡ false
  pub mine : Table.get s.player_registry id ≡ some s.current_turn

-- `MakeMove` on the board, for the player whose turn it is; the columns of the client count from 1.
pub record Tries (column : ℤ) (s : Session) (b' : Board) (r : MoveResult) : Type 0 where
  pub who : Player
  pub plays : Plays s.current_turn who
  pub b : Board
  pub there : s.board ≡ some b
  pub run : make_move (column -ℤ pos 1) who b ≡ ok (b', r)

-- Why a move is refused, and what the client is told then.
pub data Refusal (id : String) (column : ℤ) (s : Session) (why : String) : Type 0 where
  stranger :
      Table.get s.player_registry id ≡ none
      → why ≡ "client not registered"
      → Refusal id column s why
  over :
      (piece : String)
      → Table.get s.player_registry id ≡ some piece
      → s.game_over ≡ true
      → why ≡ "game is already over"
      → Refusal id column s why
  early :
      (piece : String)
      → Table.get s.player_registry id ≡ some piece
      → s.game_over ≡ false
      → piece ≢ s.current_turn
      → why ≡ "it is not your turn"
      → Refusal id column s why
  outside :
      (b' : Board)
      → MayMove id s
      → Tries column s b' out_of_bounds
      → why ≡ "column out of range"
      → Refusal id column s why
  nobody :
      (b' : Board)
      → MayMove id s
      → Tries column s b' invalid_player
      → why ≡ "invalid player"
      → Refusal id column s why
  full :
      (b' : Board)
      → MayMove id s
      → Tries column s b' column_full
      → why ≡ "column is full"
      → Refusal id column s why

-- What a call of `handleSendMove` does.
pub data Ruled (conn : ℕ) (id : String) (column : ℤ) (s s' : Session) (sent : Sent) : Type 0 where
  refused :
      (why : String)
      → Refusal id column s why
      → s' ≡ s
      → sent ≡ (some conn, ack_invalid why) ∷ []
      → Ruled conn id column s s' sent
  played :
      (b' : Board) (row : ℕ)
      → MayMove id s
      → Tries column s b' (landed row)
      → Ended s.current_turn b' s s' sent
      → Ruled conn id column s s' sent

piece_to_player-Plays : (piece : String) → Plays piece (piece_to_player piece)
piece_to_player-Plays piece = ground (arith, eq_iff piece "X")

next_turn-Follows : (turn : String) → Follows turn (next_turn turn)
next_turn-Follows turn = ground (arith, eq_iff turn "X")

after_move-Ended :
    (piece : String) (b : Board) (s s' : Session) (sent : Sent)
    → after_move piece b s ≡ ok (s', sent)
    → Ended piece b s s' sent
unfolding after_move
after_move-Ended piece b s s' sent h = elim (Outcome-cases (check_win b)) [
  | inl stop ↦ ground (arith, stop)
  | inr (true, e) ↦ won e (ground (arith, e)) (ground (arith, e))
  | inr (false, e) ↦ elim (Outcome-cases (is_full b)) [
    | inl stop ↦ ground (arith, e, stop)
    | inr (true, f) ↦ drawn e f (ground (arith, e, f)) (ground (arith, e, f))
    | inr (false, f) ↦
        passed (next_turn s.current_turn) e f (next_turn-Follows s.current_turn)
          (ground (arith, e, f)) (ground (arith, e, f))
  ]
]

play-Ruled :
    (conn : ℕ) (id : String) (column : ℤ) (s s' : Session) (sent : Sent)
    → MayMove id s
    → play conn s.current_turn column s ≡ ok (s', sent)
    → Ruled conn id column s s' sent
unfolding play
play-Ruled conn id column s s' sent may h = elim (Option-cases s.board) [
  | inl absent ↦ ground (arith, absent)
  | inr (b, here) ↦
      let tries : (b' : Board) (r : MoveResult)
          → make_move (column -ℤ pos 1) (piece_to_player s.current_turn) b ≡ ok (b', r)
          → Tries column s b' r =
        λ b' r run. (record {
          who = piece_to_player s.current_turn;
          plays = piece_to_player-Plays s.current_turn;
          b = b;
          there = here;
          run = run;
        }) in
      elim (Outcome-cases (make_move (column -ℤ pos 1) (piece_to_player s.current_turn) b)) [
        | inl stop ↦ ground (arith, here, stop)
        | inr ((b', landed row), e) ↦
            played b' row may (tries b' (landed row) e)
              (after_move-Ended s.current_turn b' s s' sent (ground (arith, here, e)))
        | inr ((b', out_of_bounds), e) ↦
            refused "column out of range" (outside b' may (tries b' out_of_bounds e) refl)
              (ground (arith, here, e)) (ground (arith, here, e))
        | inr ((b', invalid_player), e) ↦
            refused "invalid player" (nobody b' may (tries b' invalid_player e) refl)
              (ground (arith, here, e)) (ground (arith, here, e))
        | inr ((b', column_full), e) ↦
            refused "column is full" (full b' may (tries b' column_full e) refl)
              (ground (arith, here, e)) (ground (arith, here, e))
      ]
]

-- A move that `handleSendMove` handles without a panic is refused, for one of six reasons and with one
-- reply to its sender and the session as it was, or it is played. It is played only while the game is
-- on, for the player whose turn it is, and where `MakeMove` lands; then the game is won, or else drawn
-- when the board is full, or else it is the turn of O after X and of X after O, and both players are
-- told which.
pub handle_send_move-Ruled :
    (conn : ℕ) (id : String) (column : ℤ) (s s' : Session) (sent : Sent)
    → handle_send_move conn (some (id, column)) s ≡ ok (s', sent)
    → Ruled conn id column s s' sent
unfolding handle_send_move
handle_send_move-Ruled conn id column s s' sent h =
    elim (Option-cases (Table.get s.player_registry id)) [
      | inl absent ↦
          refused "client not registered" (stranger absent refl) (ground (arith, absent))
            (ground (arith, absent))
      | inr (piece, e) ↦ elim (Bool-cases s.game_over) [
        | inl gone ↦
            refused "game is already over" (over piece e gone refl) (ground (arith, e, gone))
              (ground (arith, e, gone))
        | inr on ↦ elim (Bool-cases (piece == s.current_turn)) [
          | inr other ↦
              refused "it is not your turn"
                (early piece e on
                  (λ same. ground (arith, other, (eq_iff piece s.current_turn).1 same)) refl)
                (ground (arith, e, on, other)) (ground (arith, e, on, other))
          | inl turn ↦
              let same : piece ≡ s.current_turn = (eq_iff piece s.current_turn).0 turn in
              play-Ruled conn id column s s' sent (record { on = on; mine = e ∙ ap some same })
                (rw (sym same) (ground (arith, e, on, turn)))
        ]
      ]
    ]
