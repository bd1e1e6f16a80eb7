-- ===== src/Connectm/Board/Cells.antt =====
-- hw1/game/game.go: reading and writing the cells of `Grid`.
use cmsc.Prelude.{
  ℕ, zero, suc, ◌<◌, ◌≡◌, refl, Option, none, some, List, [], ◌∷◌, ◌&&◌, get_elem?, set, length,
  replicate, ok, ◌>>=◌, indexed, ◌==◌, nat_eq, All, if◌then◌else◌, arith, get_elem?-some,
  get_elem?_lt, length-set, length-replicate,
}
use cmsc.Connectm.Board.{Player, empty, Board, cell, with_cell, new_board}

-- The cell of a grid, if there is one.
abbrev pub peek : List (List Player) → ℕ → ℕ → Option Player
peek [] row col = none
peek (line ∷ lines) zero col = get_elem? line col
peek (line ∷ lines) (suc row) col = peek lines row col

-- The grid has `rows` lines of `cols` cells.
pub record Fits (b : Board) : Type 0 where
  pub rows_fit : length b.grid ≡ b.rows
  pub cols_fit : All (λ (line : List Player). length line ≡ b.cols) b.grid

indexed-peek :
    (g : List (List Player)) (row col : ℕ)
    → (indexed (get_elem? g row) >>= λ (line : List Player). indexed (get_elem? line col))
      ≡ indexed (peek g row col)
indexed-peek [] row col = refl
indexed-peek (line ∷ lines) zero col = refl
indexed-peek (line ∷ lines) (suc row) col = indexed-peek lines row col

pub cell-peek : (b : Board) (row col : ℕ) → cell b row col ≡ indexed (peek b.grid row col)
unfolding cell
cell-peek b row col = indexed-peek b.grid row col

pub peek_inside :
    (g : List (List Player)) (cols row col : ℕ)
    → All (λ (line : List Player). length line ≡ cols) g
    → row < length g
    → col < cols
    → (p : Player) × (peek g row col ≡ some p)
peek_inside [] cols row col fit h k = absurd (omega arith)
peek_inside (line ∷ lines) cols zero col fit h k = get_elem?-some line col (omega (arith, fit.0))
peek_inside (line ∷ lines) cols (suc row) col fit h k =
    peek_inside lines cols row col fit.1 (omega arith) k

pub cell_inside :
    (b : Board) (row col : ℕ)
    → Fits b
    → row < b.rows
    → col < b.cols
    → (p : Player) × (peek b.grid row col ≡ some p) × (cell b row col ≡ ok p)
cell_inside b row col fit h k =
    let (p, e) = peek_inside b.grid b.cols row col fit.cols_fit (rw fit.rows_fit h) k in
    (p, e, rw (cell-peek b row col, e) refl)

get_elem?-set :
    (l : List Player) (c j : ℕ) (p q : Player)
    → get_elem? l c ≡ some q
    → get_elem? (set l c p) j ≡ (if j == c then some p else get_elem? l j)
get_elem?-set [] c j p q h = ground arith
get_elem?-set (x ∷ xs) zero zero p q h = ground arith
get_elem?-set (x ∷ xs) zero (suc j) p q h = ground arith
get_elem?-set (x ∷ xs) (suc c) zero p q h = ground arith
get_elem?-set (x ∷ xs) (suc c) (suc j) p q h = ground (arith, get_elem?-set xs c j p q h)

pub peek-with_cell :
    (g : List (List Player)) (r c i j : ℕ) (p q : Player)
    → peek g r c ≡ some q
    → peek (with_cell g r c p) i j ≡ (if i == r && j == c then some p else peek g i j)
peek-with_cell [] r c i j p q h = ground arith
peek-with_cell (l ∷ ls) zero c zero j p q h = get_elem?-set l c j p q h
peek-with_cell (l ∷ ls) zero c (suc i) j p q h = ground arith
peek-with_cell (l ∷ ls) (suc r) c zero j p q h = ground arith
peek-with_cell (l ∷ ls) (suc r) c (suc i) j p q h = ground (arith, peek-with_cell ls r c i j p q h)

length-with_cell :
    (g : List (List Player)) (r c : ℕ) (p : Player) → length (with_cell g r c p) ≡ length g
length-with_cell [] r c p = refl
length-with_cell (l ∷ ls) zero c p = refl
length-with_cell (l ∷ ls) (suc r) c p = omega (arith, length-with_cell ls r c p)

All-with_cell :
    (g : List (List Player)) (n r c : ℕ) (p : Player)
    → All (λ (line : List Player). length line ≡ n) g
    → All (λ (line : List Player). length line ≡ n) (with_cell g r c p)
All-with_cell [] n r c p fit = tt
All-with_cell (l ∷ ls) n zero c p fit = (omega (arith, length-set l c p, fit.0), fit.1)
All-with_cell (l ∷ ls) n (suc r) c p fit = (fit.0, All-with_cell ls n r c p fit.1)

pub with_cell-Fits :
    (b b' : Board) (r c : ℕ) (p : Player)
    → b'.rows ≡ b.rows
    → b'.cols ≡ b.cols
    → b'.grid ≡ with_cell b.grid r c p
    → Fits b
    → Fits b'
with_cell-Fits b b' r c p er ec eg fit = record {
  rows_fit = rw (eg, er, length-with_cell b.grid r c p) fit.rows_fit;
  cols_fit = rw (eg, ec) (All-with_cell b.grid b.cols r c p fit.cols_fit);
}

All-replicate :
    (n cols : ℕ)
    → All (λ (line : List Player). length line ≡ cols) (replicate n (replicate cols empty))
All-replicate zero cols = tt
All-replicate (suc n) cols = (length-replicate cols empty, All-replicate n cols)

pub new_board-Fits : (rows cols m : ℕ) → Fits (new_board rows cols m)
unfolding new_board
new_board-Fits rows cols m = record {
  rows_fit = length-replicate rows (replicate cols empty);
  cols_fit = All-replicate rows cols;
}

peek_lt :
    (g : List (List Player)) (row col : ℕ) {p : Player} → peek g row col ≡ some p → row < length g
peek_lt [] row col h = ground arith
peek_lt (line ∷ lines) zero col h = omega arith
peek_lt (line ∷ lines) (suc row) col h = omega (arith, peek_lt lines row col h)

pub peek_row :
    (b : Board) (row col : ℕ) (p : Player) → Fits b → peek b.grid row col ≡ some p → row < b.rows
peek_row b row col p fit h = omega (arith, peek_lt b.grid row col h, fit.rows_fit)

get_elem?-replicate : (n i : ℕ) (p q : Player) → get_elem? (replicate n q) i ≡ some p → p ≡ q
get_elem?-replicate zero i p q h = ground arith
get_elem?-replicate (suc n) zero p q h = ground arith
get_elem?-replicate (suc n) (suc i) p q h = get_elem?-replicate n i p q h

pub peek-replicate :
    (rows cols row col : ℕ) (p : Player)
    → peek (replicate rows (replicate cols empty)) row col ≡ some p
    → p ≡ empty
peek-replicate zero cols row col p h = ground arith
peek-replicate (suc n) cols zero col p h = get_elem?-replicate cols col p empty h
peek-replicate (suc n) cols (suc row) col p h = peek-replicate n cols row col p h

peek_lt_cols :
    (g : List (List Player)) (cols row col : ℕ) {p : Player}
    → All (λ (line : List Player). length line ≡ cols) g
    → peek g row col ≡ some p
    → col < cols
peek_lt_cols [] cols row col fit h = ground arith
peek_lt_cols (line ∷ lines) cols zero col fit h = omega (arith, get_elem?_lt line col h, fit.0)
peek_lt_cols (line ∷ lines) cols (suc row) col fit h = peek_lt_cols lines cols row col fit.1 h

pub peek_col :
    (b : Board) (row col : ℕ) (p : Player) → Fits b → peek b.grid row col ≡ some p → col < b.cols
peek_col b row col p fit h = peek_lt_cols b.grid b.cols row col fit.cols_fit h
