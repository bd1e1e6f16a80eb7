-- ===== src/Connectm/Session/Ready.antt =====
-- hw1/server/main.go: the handlers find the board that they use, so they do not panic.
use cmsc.Prelude.{
  ◌≡◌, sym, ap, ◌∙◌, some, [], ◌∷◌, ok-injective, ok_of_ne_panic, String, ok, ℕ, ◌<◌, ◌==◌,
  string_eq, Option-cases, Bool-cases, inl, inr, arith,
}
use cmsc.Prelude.Int.{ℤ, pos, ◌-ℤ◌}
use cmsc.Prelude.Table
use cmsc.Prelude.Table.{get-put}
use cmsc.Connectm.Board.{
  Board, Move, MoveResult, landed, out_of_bounds, invalid_player, column_full, make_move, is_full,
}
use cmsc.Connectm.Board.Cells.{Fits}
use cmsc.Connectm.Board.Gravity.{Dropped, falls, make_move-Dropped, Dropped-Fits}
use cmsc.Connectm.Board.Full.{top_from}
use cmsc.Connectm.Board.Win.{check_win-WinningLine}
use cmsc.Connectm.Session.{
  Session, Sent, ack_invalid, piece_to_player, after_move, play, handle_send_move,
}
use cmsc.Connectm.Session.Turns.{
  Ruled, Ended, won, drawn, passed, refused, played, handle_send_move-Ruled,
}

-- There is a board of the right size once a player is registered.
pub record Ready (s : Session) : Type 0 where
  pub fits : (b : Board) → s.board ≡ some b → Fits b
  pub seated :
      (id piece : String)
      → Table.get s.player_registry id ≡ some piece
      → (b : Board) × (s.board ≡ some b)

after_move_runs :
    (piece : String) (b : Board) (mv : Move) (s : Session)
    → Fits b
    → b.last_move ≡ some mv
    → 0 < b.rows
    → (r : Session × Sent) × (after_move piece b s ≡ ok r)
unfolding after_move is_full
after_move_runs piece b mv s fit h k =
    let (hit, e, _) = check_win-WinningLine b mv fit h in
    let (all, f, _, _) = top_from b 0 b.cols fit k (omega arith) in
    ok_of_ne_panic (after_move piece b s) (λ stop. ground (arith, e, f, stop))

abbrev refusal : ℕ → String → Session → Session × Sent
refusal conn why s = (s, (some conn, ack_invalid why) ∷ [])

play_landed :
    (conn : ℕ) (piece : String) (col : ℤ) (s : Session) (b b' : Board) (r : MoveResult)
    → s.board ≡ some b
    → make_move (col -ℤ pos 1) (piece_to_player piece) b ≡ ok (b', r)
    → Fits b'
    → Dropped b (col -ℤ pos 1) (piece_to_player piece) b' r
    → (out : Session × Sent) × (play conn piece col s ≡ ok out)
unfolding play
play_landed conn piece col s b b' out_of_bounds here run fit d =
    (refusal conn "column out of range" s, ground (arith, here, run))
play_landed conn piece col s b b' invalid_player here run fit d =
    (refusal conn "invalid player" s, ground (arith, here, run))
play_landed conn piece col s b b' column_full here run fit d =
    (refusal conn "column is full" s, ground (arith, here, run))
play_landed conn piece col s b b' (landed row) here run fit (falls c _ e k known l at below eq) =
    let (out, q) =
      after_move_runs piece b' (record { col = c; row = row; player = piece_to_player piece }) s fit
        (ap (λ (x : Board). x.last_move) eq)
        (rw (ap (λ (x : Board). x.rows) eq) (omega (arith, l))) in
    (out, ground (arith, here, run, q))

handle_send_move_runs :
    (conn : ℕ) (id : String) (column : ℤ) (s : Session)
    → Ready s
    → (out : Session × Sent) × (handle_send_move conn (some (id, column)) s ≡ ok out)
unfolding handle_send_move
handle_send_move_runs conn id column s ready =
    elim (Option-cases (Table.get s.player_registry id)) [
      | inl absent ↦ (refusal conn "client not registered" s, ground (arith, absent))
      | inr (piece, e) ↦ elim (Bool-cases s.game_over) [
        | inl over ↦ (refusal conn "game is already over" s, ground (arith, e, over))
        | inr on ↦ elim (Bool-cases (piece == s.current_turn)) [
          | inr other ↦ (refusal conn "it is not your turn" s, ground (arith, e, on, other))
          | inl turn ↦
              let (b, here) = ready.seated id piece e in
              let (b', r, run, d) =
                make_move-Dropped (column -ℤ pos 1) (piece_to_player piece) b (ready.fits b here) in
              let fit = Dropped-Fits b b' _ _ r d (ready.fits b here) in
              let (out, q) = play_landed conn piece column s b b' r here run fit d in
              (out, ground (arith, e, on, turn, q))
        ]
      ]
    ]

with_board-Ready : (s' : Session) (b : Board) → Fits b → s'.board ≡ some b → Ready s'
with_board-Ready s' b fit e = record {
  fits = λ c h. let same : b ≡ c = cc in rw (sym same) fit;
  seated = λ id piece h. (b, e);
}

Ended-Ready :
    (piece : String) (b : Board) (s s' : Session) (sent : Sent)
    → Ended piece b s s' sent
    → Fits b
    → Ready s'
Ended-Ready piece b s s' sent (won _ e _) fit =
    with_board-Ready s' b fit (ap (λ (x : Session). x.board) e)
Ended-Ready piece b s s' sent (drawn _ _ e _) fit =
    with_board-Ready s' b fit (ap (λ (x : Session). x.board) e)
Ended-Ready piece b s s' sent (passed _ _ _ _ e _) fit =
    with_board-Ready s' b fit (ap (λ (x : Session). x.board) e)

Ruled-Ready :
    (conn : ℕ) (id : String) (column : ℤ) (s s' : Session) (sent : Sent)
    → Ruled conn id column s s' sent
    → Ready s
    → Ready s'
Ruled-Ready conn id column s s' sent (refused why because e _) ready = rw e ready
Ruled-Ready conn id column s s' sent (played b' row may tries end) ready =
    let fit' = ready.fits tries.b tries.there in
    let (c, q, run', d) = make_move-Dropped (column -ℤ pos 1) tries.who tries.b fit' in
    let same : Path (Board × MoveResult) (c, q) (b', landed row) =
      ok-injective (sym run' ∙ tries.run) in
    let board : c ≡ b' = cc in
    let fit : Fits b' = rw (sym board) (Dropped-Fits tries.b c _ _ q d fit') in
    Ended-Ready s.current_turn b' s s' sent end fit

-- With a board of the right size behind every registered player, `handleSendMove` never panics, and
-- there is such a board afterwards. It refuses the move, leaves the session and tells the sender why:
-- the client is not registered, the game is over, it is another piece's turn, or `MakeMove` refuses the
-- column, the player or the full column. Or it plays the move of the player whose turn it is while
-- the game is on: then the game is over where the move wins or else fills the board, and else the
-- turn goes from X to O, or from O to X, and both players are told which.
pub handle_send_move-Ready :
    (conn : ℕ) (id : String) (column : ℤ) (s : Session)
    → Ready s
    → (s' : Session) × (sent : Sent) × (handle_send_move conn (some (id, column)) s ≡ ok (s', sent))
      × (Ruled conn id column s s' sent × Ready s')
handle_send_move-Ready conn id column s ready =
    let ((s', sent), run) = handle_send_move_runs conn id column s ready in
    let ruled = handle_send_move-Ruled conn id column s s' sent run in
    (s', sent, run, (ruled, Ruled-Ready conn id column s s' sent ruled ready))
