-- ===== src/Connectm/Session/Seats.antt =====
-- hw1/server/main.go: who gets a seat, and that the board is there from the first one on.
use text.Mathlib.TextEquality.{eq_iff}
use cmsc.Prelude.{
  ◌≡◌, refl, sym, some, [], ◌∷◌, inl, inr, true, false, String, ok, ℕ, ◌==◌, ◌||◌, string_eq,
  Option-cases, Bool-cases, arith,
}
use cmsc.Connectm.Board.{new_board}
use cmsc.Connectm.Board.Cells.{new_board-Fits}
use cmsc.Connectm.Session.{
  Session, Sent, ack_connect, is_taken, already_taken, welcome, register, handle_send_connect,
}
use cmsc.Connectm.Session.Ready.{Ready}
use cmsc.Connectm.Session.Seating.{
  NoSeat, no_piece, x_gone, o_gone, Seated, rejected, given, register-Seat, register-Game,
  welcome-Greeted,
}

register-Ready :
    (conn : ℕ) (piece id : String) (s : Session) → Ready s → Ready (register conn piece id s)
unfolding register
register-Ready conn piece id s ready = elim (Option-cases s.board) [
  | inl absent ↦ record {
    fits = λ b h.
        let same : new_board s.board_rows s.board_cols s.board_m ≡ b = ground (arith, absent, h) in
        rw (sym same) (new_board-Fits s.board_rows s.board_cols s.board_m);
    seated = λ j p h. (new_board s.board_rows s.board_cols s.board_m, ground (arith, absent));
  }
  | inr (b, here) ↦ record {
    fits = λ c h. ready.fits c (ground (arith, here, h));
    seated = λ j p h. (b, ground (arith, here));
  }
]

unseated :
    (conn : ℕ) (piece id : String) (s s' : Session) (sent : Sent)
    → Ready s
    → (why : String) → NoSeat piece s why
    → s' ≡ s
    → sent ≡ (some conn, ack_connect false "" why) ∷ []
    → Seated conn piece id s s' sent × Ready s'
unseated conn piece id s s' sent ready why because e f = (rejected why because e f, rw e ready)

taken-NoSeat :
    (piece : String) (s : Session)
    → (piece == "X" || piece == "O") ≡ true
    → is_taken s piece ≡ true
    → NoSeat piece s (already_taken piece)
taken-NoSeat piece s known gone = elim (Bool-cases (piece == "X")) [
  | inl x ↦
      let same : piece ≡ "X" = (eq_iff piece "X").0 x in
      x_gone same (rw (sym same) gone) (ground (arith, x))
  | inr other ↦
      let same : piece ≡ "O" = (eq_iff piece "O").0 (ground (arith, other)) in
      o_gone same (rw (sym same) gone) (ground (arith, other))
]

-- In a session with a board of the right size behind every registered player, a request for a seat
-- that is handled without a panic is rejected, with one reply and the session as it was, when the
-- piece is neither X nor O or is taken, and the reply says which. Else the piece is now the
-- client's, with its connection, and the other seats and identifiers stay. If there was no board,
-- one of the configured size is made and the piece is the first player and has the turn; if there
-- was one, the board, the first player and the turn stay. The client is told, and once both pieces
-- are taken each player is told that the game starts, against whom and whose turn it is. The
-- session keeps such a board.
pub handle_send_connect-Seated :
    (conn : ℕ) (piece id : String) (s s' : Session) (sent : Sent)
    → Ready s
    → handle_send_connect conn (some (piece, id)) s ≡ ok (s', sent)
    → Seated conn piece id s s' sent × Ready s'
unfolding handle_send_connect
handle_send_connect-Seated conn piece id s s' sent ready h =
    elim (Bool-cases (piece == "X" || piece == "O")) [
      | inr stranger ↦
          unseated conn piece id s s' sent ready "invalid player, must be X or O"
            (no_piece (λ e. ground (arith, stranger, (eq_iff piece "X").1 e))
              (λ e. ground (arith, stranger, (eq_iff piece "O").1 e)) refl)
            (ground (arith, stranger)) (ground (arith, stranger))
      | inl known ↦ elim (Bool-cases (is_taken s piece)) [
        | inl gone ↦
            unseated conn piece id s s' sent ready (already_taken piece)
              (taken-NoSeat piece s known gone) (ground (arith, known, gone))
              (ground (arith, known, gone))
        | inr vacant ↦
            let same : s' ≡ register conn piece id s = ground (arith, known, vacant) in
            let told : welcome conn piece (register conn piece id s) ≡ ok sent =
              ground (arith, known, vacant) in
            rw same (
              given
                  (register-Seat conn piece id s
                    (ground (arith, known, eq_iff piece "X", eq_iff piece "O")) vacant)
                  (register-Game conn piece id s)
                  (welcome-Greeted conn piece (register conn piece id s) sent told),
              register-Ready conn piece id s ready,
            )
      ]
    ]
