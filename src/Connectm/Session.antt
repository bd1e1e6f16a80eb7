-- ===== src/Connectm/Session.antt =====
-- hw1/server/main.go: the one game of a server. A connection is a number; a payload that does not
-- parse is `none`. What a handler sends is a list of replies and the connections they go to, where
-- `none` is a nil connection. A reply carries the board that the code renders with `String`.
use cmsc.Prelude.{
  ℕ, Option, none, some, List, [], ◌∷◌, Bool, true, false, not, ◌&&◌, String, Outcome, ok, panic,
  indexed, ◌>>=◌, ◌==◌, string_eq, nat_eq, if◌then◌else◌,
}
use cmsc.Prelude.Int.{ℤ, pos, ◌-ℤ◌}
use cmsc.Prelude.Table
use cmsc.Prelude.Table.{Table}
use cmsc.Connectm.Board.{
  Board, Player, player1, player2, new_board, MoveResult, landed, out_of_bounds, invalid_player,
  column_full, make_move, check_win, is_full,
}
pub mod Turns
pub mod Ready
pub mod Seating
pub mod Seats
pub mod Release

-- The global variables.
pub record Session : Type 0 where
  pub board : Option Board
  pub player_registry : Table String String
  pub taken_pieces : Table String Bool
  pub player_conns : Table String ℕ
  pub first_player : String
  pub current_turn : String
  pub game_over : Bool
  pub board_rows : ℕ
  pub board_cols : ℕ
  pub board_m : ℕ

pub data Reply : Type 0 where
  ack_connect : Bool → String → String → Reply
  notify_start : String → String → Board → Reply
  ack_move : String → String → Board → Reply
  notify_win : String → Board → Reply
  ack_invalid : String → Reply

abbrev pub Sent : Type 0
Sent = List (Option ℕ × Reply)

abbrev pub is_taken : Session → String → Bool
is_taken s piece = elim (Table.get s.taken_pieces piece) [ none ↦ false | some taken ↦ taken ]

-- `"player "+payload.Player+" is already taken"`, for the two pieces that come to it.
abbrev pub already_taken : String → String
already_taken piece =
    if piece == "X" then "player X is already taken" else "player O is already taken"

-- The part of `handleSendConnect` that registers a player.
unfoldable pub register : ℕ → String → String → Session → Session
register conn piece id s =
    let seated = record s {
      player_registry = Table.put s.player_registry id piece;
      taken_pieces = Table.put s.taken_pieces piece true;
      player_conns = Table.put s.player_conns piece conn;
    } in
    elim s.board [
      | some b ↦ seated
      | none ↦ record seated {
        board = some (new_board s.board_rows s.board_cols s.board_m);
        first_player = piece;
        current_turn = piece;
      }
    ]

-- The replies once a player is registered; `String` on a nil board panics, and so does a message to
-- a nil connection.
abbrev pub welcome : ℕ → String → Session → Outcome Sent
welcome conn piece s =
    if is_taken s "X" && is_taken s "O"
    then (do
      b ← indexed s.board
      x ← indexed (Table.get s.player_conns "X")
      o ← indexed (Table.get s.player_conns "O")
      ok (
          (some conn, ack_connect true piece "")
          ∷ (some x, notify_start "O" s.current_turn b)
          ∷ (some o, notify_start "X" s.current_turn b)
          ∷ []))
    else ok ((some conn, ack_connect true piece "") ∷ [])

-- `handleSendConnect` on a payload of a piece and an identifier.
unfoldable pub handle_send_connect :
    ℕ → Option (String × String) → Session → Outcome (Session × Sent)
unfolding register
handle_send_connect conn none s =
    ok (s, (some conn, ack_connect false "" "malformed connect message") ∷ [])
handle_send_connect conn (some (piece, id)) s =
    if not (piece == "X") && not (piece == "O")
    then ok (s, (some conn, ack_connect false "" "invalid player, must be X or O") ∷ [])
    else if is_taken s piece
    then ok (s, (some conn, ack_connect false "" (already_taken piece)) ∷ [])
    else (do
      sent ← welcome conn piece (register conn piece id s)
      ok (register conn piece id s, sent))

-- `pieceToPlayer`
abbrev pub piece_to_player : String → Player
piece_to_player piece = if piece == "X" then player1 else player2

-- `playerToPiece`
abbrev pub player_to_piece : Player → String
player_to_piece p = if p == player1 then "X" else "O"

-- Both connections, as `broadcast` gets them; it skips a nil one.
abbrev pub broadcast : Session → Reply → Sent
broadcast s reply =
    (Table.get s.player_conns "X", reply) ∷ (Table.get s.player_conns "O", reply) ∷ []

abbrev pub next_turn : String → String
next_turn turn = if turn == "X" then "O" else "X"

-- The reason that the client is told.
abbrev pub reason : MoveResult → Option String
reason (landed row) = none
reason out_of_bounds = some "column out of range"
reason invalid_player = some "invalid player"
reason column_full = some "column is full"

-- The end of `handleSendMove`, on the board after the move.
unfoldable pub after_move : String → Board → Session → Outcome (Session × Sent)
after_move piece b s = do
  won ← check_win b
  if won
      then ok (record s { board = some b; game_over = true }, broadcast s (notify_win piece b))
      else (do
        full ← is_full b
        if full
            then ok
                (record s { board = some b; game_over = true }, broadcast s (ack_move "DRAW" "" b))
            else ok (
              record s { board = some b; current_turn = next_turn s.current_turn },
              broadcast s (ack_move "OK" (next_turn s.current_turn) b),
            ))

-- `handleSendMove` for a client whose turn it is; `MakeMove` on a nil board panics.
unfoldable pub play : ℕ → String → ℤ → Session → Outcome (Session × Sent)
unfolding after_move ◌-ℤ◌
play conn piece column s = elim s.board [
  | none ↦ panic
  | some b ↦ (do
    (b', result) ← make_move (column -ℤ pos 1) (piece_to_player piece) b
    elim (reason result) [
      | some why ↦ ok (s, (some conn, ack_invalid why) ∷ [])
      | none ↦ after_move piece b' s
    ])
]

-- `handleSendMove` on a payload of an identifier and a column that counts from 1.
unfoldable pub handle_send_move : ℕ → Option (String × ℤ) → Session → Outcome (Session × Sent)
unfolding play
handle_send_move conn none s = ok (s, [])
handle_send_move conn (some (id, column)) s = elim (Table.get s.player_registry id) [
  | none ↦ ok (s, (some conn, ack_invalid "client not registered") ∷ [])
  | some piece ↦
      if s.game_over
      then ok (s, (some conn, ack_invalid "game is already over") ∷ [])
      else if not (piece == s.current_turn)
      then ok (s, (some conn, ack_invalid "it is not your turn") ∷ [])
      else play conn piece column s
]

-- The inner loop of the release: the identifiers of a piece leave the registry. `ids` is the order in
-- which Go walks the map.
unfoldable pub forget_ids : String → List String → Table String String → Table String String
forget_ids piece [] registry = registry
forget_ids piece (id ∷ ids) registry = elim (Table.get registry id) [
  | none ↦ forget_ids piece ids registry
  | some p ↦
      if p == piece
      then forget_ids piece ids (Table.remove registry id)
      else forget_ids piece ids registry
]

-- A piece is given back.
unfoldable pub free_seat : String → List String → Session → Session
unfolding forget_ids
free_seat piece ids s = record s {
  player_conns = Table.remove s.player_conns piece;
  taken_pieces = Table.put s.taken_pieces piece false;
  player_registry = forget_ids piece ids s.player_registry;
}

-- What `main` does when a connection has closed: the first piece of the connection, in the order
-- `pieces` in which Go walks `playerConns`, is given back.
unfoldable pub release : ℕ → List String → List String → Session → Session
unfolding free_seat
release conn [] ids s = s
release conn (piece ∷ pieces) ids s = elim (Table.get s.player_conns piece) [
  | none ↦ release conn pieces ids s
  | some c ↦ if c == conn then free_seat piece ids s else release conn pieces ids s
]
