-- ===== src/Tests/SessionRun.antt =====
-- hw1/server/main.go on a short game.
use cmsc.Prelude.{String, arith, string_eq, ◌≡◌, refl, sym, some, none, [], ◌∷◌, true, false, ok}
use cmsc.Prelude.Int.{pos}
use cmsc.Prelude.Table
use cmsc.Connectm.Board.{new_board}
use cmsc.Connectm.Board.Cells.{new_board-Fits}
use cmsc.Connectm.Session.{
  Session, Sent, ack_connect, handle_send_connect, handle_send_move, release,
}
use cmsc.Connectm.Session.Release.{Freed, release-Freed}
use cmsc.Connectm.Session.Turns.{Ruled}
use cmsc.Connectm.Session.Seating.{Seated}
use cmsc.Connectm.Session.Seats.{handle_send_connect-Seated}
use cmsc.Connectm.Session.Ready.{Ready, handle_send_move-Ready}

-- A server for four rows, three columns and three to connect, before anyone has connected.
abbrev idle : Session
idle = record {
  board = none;
  player_registry = Table.empty;
  taken_pieces = Table.empty;
  player_conns = Table.empty;
  first_player = "";
  current_turn = "";
  game_over = false;
  board_rows = 4;
  board_cols = 3;
  board_m = 3;
}

-- The same once the client `a` on connection 7 has taken X.
abbrev waiting : Session
waiting = record idle {
  board = some (new_board 4 3 3);
  player_registry = Table.put Table.empty "a" "X";
  taken_pieces = Table.put Table.empty "X" true;
  player_conns = Table.put Table.empty "X" 7;
  first_player = "X";
  current_turn = "X";
}

idle-Ready : Ready idle
unfolding Table.get Table.empty
idle-Ready = record { fits = λ b h. cc; seated = λ id piece h. cc }

waiting_runs :
    handle_send_connect 7 (some ("X", "a")) idle
    ≡ ok (waiting, (some 7, ack_connect true "X" "") ∷ [])
unfolding handle_send_connect Table.get Table.put Table.empty
waiting_runs = refl

waiting-Ready : Ready waiting
waiting-Ready = record {
  fits = λ b h. let same : new_board 4 3 3 ≡ b = cc in rw (sym same) (new_board-Fits 4 3 3);
  seated = λ id piece h. (new_board 4 3 3, refl);
}

handle_send_move-Ready_example :
    (s' : Session) × (sent : Sent) × (handle_send_move 7 (some ("a", pos 2)) waiting
      ≡ ok (s', sent))
    × (Ruled 7 "a" (pos 2) waiting s' sent × Ready s')
handle_send_move-Ready_example = handle_send_move-Ready 7 "a" (pos 2) waiting waiting-Ready

handle_send_connect-Seated_example :
    Seated 7 "X" "a" idle waiting ((some 7, ack_connect true "X" "") ∷ []) × Ready waiting
handle_send_connect-Seated_example =
    handle_send_connect-Seated 7 "X" "a" idle waiting ((some 7, ack_connect true "X" "") ∷ [])
      idle-Ready waiting_runs

-- Connection 7 sits at X, and closes.
abbrev seated_x : Session
seated_x = record idle {
  player_registry = Table.put Table.empty "a" "X";
  taken_pieces = Table.put Table.empty "X" true;
  player_conns = Table.put Table.empty "X" 7;
}

only_x : (p : String) → Table.get seated_x.player_conns p ≡ some 7 → p ≡ "X"
unfolding Table.get Table.put Table.empty
only_x p h = ground (arith, string_eq.beq_iff "X" p)

release-Freed_example :
    Freed "X" ("a" ∷ []) seated_x (release 7 ("O" ∷ "X" ∷ []) ("a" ∷ []) seated_x)
release-Freed_example =
    release-Freed 7 "X" ("O" ∷ "X" ∷ []) ("a" ∷ []) 1 seated_x refl
      (unfold Table.get Table.put Table.empty in refl) only_x
