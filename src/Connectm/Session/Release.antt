-- ===== src/Connectm/Session/Release.antt =====
-- hw1/server/main.go: the seat of a connection that has closed is free again.
use mathlib.Core.Path.{subst}
use cmsc.Prelude.{
  ℕ, zero, suc, ◌≡◌, refl, sym, ap, ◌∙◌, inl, inr, none, some, List, [], ◌∷◌, String, false, ◌==◌,
  string_eq, nat_eq, get_elem?, Option-cases, Bool-cases, arith,
}
use cmsc.Prelude.Table
use cmsc.Prelude.Table.{Table, get-put, get-remove}
use cmsc.Connectm.Session.{Session, is_taken, forget_ids, free_seat, release}

-- The loop stops at the one piece of the connection.
release-free_seat :
    (conn : ℕ) (piece : String) (pieces ids : List String) (k : ℕ) (s : Session)
    → get_elem? pieces k ≡ some piece
    → Table.get s.player_conns piece ≡ some conn
    → ((p : String) → Table.get s.player_conns p ≡ some conn → p ≡ piece)
    → release conn pieces ids s ≡ free_seat piece ids s
unfolding release
release-free_seat conn piece [] ids k s there sits only = absurd (ground arith)
release-free_seat conn piece (p ∷ pieces) ids zero s there sits only = ground (arith, there, sits)
release-free_seat conn piece (p ∷ pieces) ids (suc k) s there sits only =
    elim (Option-cases (Table.get s.player_conns p)) [
      | inl absent ↦
          ground (arith, absent, release-free_seat conn piece pieces ids k s there sits only)
      | inr (c, seat) ↦ elim (Bool-cases (c == conn)) [
        | inr other ↦
            ground (arith, seat, other, release-free_seat conn piece pieces ids k s there sits only)
        | inl same ↦
            let at : c ≡ conn = ground (arith, same) in
            let here : p ≡ piece = only p (seat ∙ ap some at) in ground (arith, seat, same, here)
      ]
    ]

-- Nothing enters the registry.
forget_ids-old :
    (piece : String) (ids : List String) (t : Table String String) (id p : String)
    → Table.get (forget_ids piece ids t) id ≡ some p
    → Table.get t id ≡ some p
unfolding forget_ids
forget_ids-old piece [] t id p h = h
forget_ids-old piece (i ∷ ids) t id p h = ground (
  arith,
  forget_ids-old piece ids t id p,
  forget_ids-old piece ids (Table.remove t i) id p,
  get-remove t i id,
)

-- No identifier of the walk names the piece.
forget_ids-gone :
    (piece : String) (ids : List String) (t : Table String String) (k : ℕ) (id : String)
    → get_elem? ids k ≡ some id
    → ¬ (Table.get (forget_ids piece ids t) id ≡ some piece)
unfolding forget_ids
forget_ids-gone piece [] t k id there h = ground arith
forget_ids-gone piece (i ∷ ids) t zero id there h = ground (
  arith,
  there,
  forget_ids-old piece ids t id piece,
  forget_ids-old piece ids (Table.remove t i) id piece,
  get-remove t i id,
  string_eq.beq_iff piece piece,
  string_eq.beq_iff i id,
)
forget_ids-gone piece (i ∷ ids) t (suc k) id there h = ground (
  arith,
  forget_ids-gone piece ids t k id there,
  forget_ids-gone piece ids (Table.remove t i) k id there,
)

-- What the walk leaves of the other pieces.
forget_ids-kept :
    (piece : String) (ids : List String) (t : Table String String) (id p : String)
    → (piece == p) ≡ false
    → Table.get t id ≡ some p
    → Table.get (forget_ids piece ids t) id ≡ some p
unfolding forget_ids
forget_ids-kept piece [] t id p other h = h
forget_ids-kept piece (i ∷ ids) t id p other h = ground (
  arith,
  forget_ids-kept piece ids t id p,
  forget_ids-kept piece ids (Table.remove t i) id p,
  get-remove t i id,
  string_eq.beq_iff i id,
  string_eq.beq_iff p piece,
  string_eq.beq_iff piece p,
)

-- The seat of a piece is free: nobody holds it, and no identifier of the walk plays it. All else is as
-- it was: the other seats, the identifiers that play another piece, and the game. Nobody is registered
-- who was not.
pub record Freed (piece : String) (ids : List String) (s s' : Session) : Type 0 where
  pub free : is_taken s' piece ≡ false
  pub left : Table.get s'.player_conns piece ≡ none
  pub others :
      (p : String)
      → (piece == p) ≡ false
      → (Table.get s'.player_conns p ≡ Table.get s.player_conns p) × (is_taken s' p ≡ is_taken s p)
  pub forgotten :
      (k : ℕ) (id : String)
      → get_elem? ids k ≡ some id
      → ¬ (Table.get s'.player_registry id ≡ some piece)
  pub kept :
      (id p : String)
      → (piece == p) ≡ false
      → Table.get s.player_registry id ≡ some p
      → Table.get s'.player_registry id ≡ some p
  pub old :
      (id p : String)
      → Table.get s'.player_registry id ≡ some p
      → Table.get s.player_registry id ≡ some p
  pub game :
      (s'.board ≡ s.board)
      × (s'.first_player ≡ s.first_player)
      × (s'.current_turn ≡ s.current_turn)
      × (s'.game_over ≡ s.game_over)
  pub sizes :
      (s'.board_rows ≡ s.board_rows) × (s'.board_cols ≡ s.board_cols) × (s'.board_m ≡ s.board_m)

-- When a connection that sits at one piece has closed, in whatever order Go walks the maps, as long
-- as the walk of `playerConns` comes by the piece: the seat of the piece is free again, no identifier
-- of the walk of the registry plays it, every identifier that plays another piece stays registered,
-- nobody new is registered, and the other seats and the game are as they were.
pub release-Freed :
    (conn : ℕ) (piece : String) (pieces ids : List String) (k : ℕ) (s : Session)
    → get_elem? pieces k ≡ some piece
    → Table.get s.player_conns piece ≡ some conn
    → ((p : String) → Table.get s.player_conns p ≡ some conn → p ≡ piece)
    → Freed piece ids s (release conn pieces ids s)
unfolding free_seat
release-Freed conn piece pieces ids k s there sits only =
    subst (Freed piece ids s) (sym (release-free_seat conn piece pieces ids k s there sits only))
      (record {
        free =
            ground (arith, get-put s.taken_pieces piece piece false, string_eq.beq_iff piece piece);
        left = ground (arith, get-remove s.player_conns piece piece, string_eq.beq_iff piece piece);
        others = λ p other. (
          ground (arith, other, get-remove s.player_conns piece p),
          ground (arith, other, get-put s.taken_pieces piece p false),
        );
        forgotten = forget_ids-gone piece ids s.player_registry;
        kept = forget_ids-kept piece ids s.player_registry;
        old = forget_ids-old piece ids s.player_registry;
        game = (refl, refl, refl, refl);
        sizes = (refl, refl, refl);
      })
