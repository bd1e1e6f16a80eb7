-- ===== src/Connectm/Session/Seating.antt =====
-- hw1/server/main.go: what a request for a seat may do to the session, and what is told to whom.
use text.Mathlib.TextEquality.{eq_iff}
use cmsc.Prelude.{
  ◌≡◌, ◌≢◌, refl, none, some, [], ◌∷◌, ◌⊎◌, inl, inr, true, false, String, ok, ℕ, string_eq,
  Option-cases, Bool-cases, arith,
}
use cmsc.Prelude.Table
use cmsc.Prelude.Table.{get-put}
use cmsc.Connectm.Board.{Board, new_board}
use cmsc.Connectm.Session.{Session, Sent, ack_connect, notify_start, is_taken, welcome, register}

-- The client got the seat of a piece that nobody had; the other seats and identifiers stay.
pub record Seat (conn : ℕ) (piece id : String) (s s' : Session) : Type 0 where
  pub known : (piece ≡ "X") ⊎ (piece ≡ "O")
  pub vacant : is_taken s piece ≡ false
  pub taken : is_taken s' piece ≡ true
  pub plays : Table.get s'.player_registry id ≡ some piece
  pub sits : Table.get s'.player_conns piece ≡ some conn
  pub others :
      (p : String)
      → piece ≢ p
      → (is_taken s' p ≡ is_taken s p) × (Table.get s'.player_conns p ≡ Table.get s.player_conns p)
  pub clients :
      (j : String) → id ≢ j → Table.get s'.player_registry j ≡ Table.get s.player_registry j
  pub over : s'.game_over ≡ s.game_over

-- What the seat does to the game: the first one makes it, the others leave it.
pub data Game (piece : String) (s s' : Session) : Type 0 where
  made :
      s.board ≡ none
      → s'.board ≡ some (new_board s.board_rows s.board_cols s.board_m)
      → s'.first_player ≡ piece
      → s'.current_turn ≡ piece
      → Game piece s s'
  joined :
      (b : Board)
      → s.board ≡ some b
      → s'.board ≡ some b
      → s'.first_player ≡ s.first_player
      → s'.current_turn ≡ s.current_turn
      → Game piece s s'

-- The replies to a client that got a seat, in the session that it left.
pub data Greeted (conn : ℕ) (piece : String) (s : Session) (sent : Sent) : Type 0 where
  alone :
      (p : String)
      → (p ≡ "X") ⊎ (p ≡ "O")
      → is_taken s p ≡ false
      → sent ≡ (some conn, ack_connect true piece "") ∷ []
      → Greeted conn piece s sent
  started :
      (b : Board) (x o : ℕ)
      → is_taken s "X" ≡ true
      → is_taken s "O" ≡ true
      → s.board ≡ some b
      → Table.get s.player_conns "X" ≡ some x
      → Table.get s.player_conns "O" ≡ some o
      → sent
        ≡ (some conn, ack_connect true piece "")
          ∷ (some x, notify_start "O" s.current_turn b)
          ∷ (some o, notify_start "X" s.current_turn b)
          ∷ []
      → Greeted conn piece s sent

-- Why a client gets no seat, and what it is told then.
pub data NoSeat (piece : String) (s : Session) (why : String) : Type 0 where
  no_piece : piece ≢ "X" → piece ≢ "O" → why ≡ "invalid player, must be X or O" → NoSeat piece s why
  x_gone :
      piece ≡ "X" → is_taken s "X" ≡ true → why ≡ "player X is already taken" → NoSeat piece s why
  o_gone :
      piece ≡ "O" → is_taken s "O" ≡ true → why ≡ "player O is already taken" → NoSeat piece s why

-- What a call of `handleSendConnect` does.
pub data Seated (conn : ℕ) (piece id : String) (s s' : Session) (sent : Sent) : Type 0 where
  rejected :
      (why : String)
      → NoSeat piece s why
      → s' ≡ s
      → sent ≡ (some conn, ack_connect false "" why) ∷ []
      → Seated conn piece id s s' sent
  given :
      Seat conn piece id s s'
      → Game piece s s'
      → Greeted conn piece s' sent
      → Seated conn piece id s s' sent

register_tables :
    (conn : ℕ) (piece id : String) (s : Session)
    → let s' = register conn piece id s in
      (s'.taken_pieces ≡ Table.put s.taken_pieces piece true)
      × (s'.player_registry ≡ Table.put s.player_registry id piece)
      × (s'.player_conns ≡ Table.put s.player_conns piece conn)
      × (s'.game_over ≡ s.game_over)
unfolding register
register_tables conn piece id s = elim (Option-cases s.board) [
  | inl absent ↦ ground (arith, absent)
  | inr (b, there) ↦ ground (arith, there)
]

pub register-Seat :
    (conn : ℕ) (piece id : String) (s : Session)
    → (piece ≡ "X") ⊎ (piece ≡ "O")
    → is_taken s piece ≡ false
    → Seat conn piece id s (register conn piece id s)
register-Seat conn piece id s known vacant =
    let (pieces, ids, conns, on) = register_tables conn piece id s in
    record {
      known = known;
      vacant = vacant;
      taken =
          ground
            (arith, pieces, get-put s.taken_pieces piece piece true, (eq_iff piece piece).1 refl);
      plays = ground (arith, ids, get-put s.player_registry id id piece, (eq_iff id id).1 refl);
      sits =
          ground
            (arith, conns, get-put s.player_conns piece piece conn, (eq_iff piece piece).1 refl);
      others = λ p apart. (
        ground (arith, pieces, get-put s.taken_pieces piece p true, eq_iff piece p),
        ground (arith, conns, get-put s.player_conns piece p conn, eq_iff piece p),
      );
      clients = λ j apart. ground (arith, ids, get-put s.player_registry id j piece, eq_iff id j);
      over = on;
    }

pub register-Game :
    (conn : ℕ) (piece id : String) (s : Session) → Game piece s (register conn piece id s)
unfolding register
register-Game conn piece id s = elim (Option-cases s.board) [
  | inl absent ↦
      made absent (ground (arith, absent)) (ground (arith, absent)) (ground (arith, absent))
  | inr (b, there) ↦
      joined b there (ground (arith, there)) (ground (arith, there)) (ground (arith, there))
]

pub welcome-Greeted :
    (conn : ℕ) (piece : String) (s : Session) (sent : Sent)
    → welcome conn piece s ≡ ok sent
    → Greeted conn piece s sent
welcome-Greeted conn piece s sent h = elim (Bool-cases (is_taken s "X")) [
  | inr free ↦ alone "X" (inl refl) free (ground (arith, free))
  | inl x_on ↦ elim (Bool-cases (is_taken s "O")) [
    | inr free ↦ alone "O" (inr refl) free (ground (arith, x_on, free))
    | inl o_on ↦ elim (Option-cases s.board) [
      | inl absent ↦ absurd (ground (arith, x_on, o_on, absent))
      | inr (b, there) ↦ elim (Option-cases (Table.get s.player_conns "X")) [
        | inl absent ↦ absurd (ground (arith, x_on, o_on, there, absent))
        | inr (x, x_here) ↦ elim (Option-cases (Table.get s.player_conns "O")) [
          | inl absent ↦ absurd (ground (arith, x_on, o_on, there, x_here, absent))
          | inr (o, o_here) ↦
              started b x o x_on o_on there x_here o_here
                (ground (arith, x_on, o_on, there, x_here, o_here))
        ]
      ]
    ]
  ]
]
