-- ===== src/Game/Moves.antt =====
-- What Enter and the keys do to the chess game.
use alilu_os.Common.{
  ℕ, ◌+◌, ◌-◌, ◌*◌, ◌%◌, ◌<◌, ◌≡◌, refl, ap, ◌∙◌, Bool, true, false, ◌&&◌, Option, none, some, List,
  [], arith, ◌∷◌, ◌++◌, ◌==◌, ltb, if◌then◌else◌, set, length, Text, codes, text_eq, pop_char,
  byte_len, Bool-cases, Option-cases, inl, inr, ◌↔◌, length-set, get_or-set,
}
use mathlib.Core.Path.{subst}
use alilu_os.Game.Chess.{
  Chess, ChessPiece, Piece, empty, ChessColor, light, dark, new_chess, empty_square, at, other,
  has_mover, move_piece, enter_line, chess_char, type_square, chess_key,
}

-- The characters of a square, by its column and row.
abbrev pub square : (col row : ℕ) → Text
square col row = (b'a' + col) ∷ (b'8' - row) ∷ []

abbrev pub same_square : (row col row' col' : ℕ) → Bool
same_square row col row' col' = row == row' && col == col'

index_eq :
    (row col row' col' : ℕ)
    → col < 8
    → col' < 8
    → (row * 8 + col == row' * 8 + col') ≡ same_square row' col' row col
index_eq row col row' col' h g = ground arith

at-set :
    (board : List ChessPiece) (row col row' col' : ℕ) (p : ChessPiece)
    → length board ≡ 64
    → row < 8
    → col < 8
    → row' < 8
    → col' < 8
    → at (set board (row * 8 + col) p) row' col'
      ≡ (if same_square row' col' row col then p else at board row' col')
at-set board row col row' col' p size h1 h2 h3 h4 =
    get_or-set board (row * 8 + col) (row' * 8 + col') p empty_square (omega arith)
    ∙ rw (index_eq row col row' col' h2 h4) refl

column_of : (col : ℕ) → col < 8 → ((b'a' + col + 256 - b'a') % 256) ≡ col
column_of col h = omega arith

row_of : (row : ℕ) → row < 8 → ((b'8' + 256 - (b'8' - row)) % 256) ≡ row
row_of row h = omega arith

on_board : (n : ℕ) → n < 8 → ltb n 8 ≡ true
on_board n h = ground arith

enter_line-square :
    (start_col start_row end_col end_row : ℕ) (s : Chess)
    → start_col < 8
    → start_row < 8
    → end_col < 8
    → end_row < 8
    → enter_line (square start_col start_row ++ square end_col end_row) s
      ≡ move_piece start_col start_row end_col end_row s
unfolding enter_line
enter_line-square start_col start_row end_col end_row s h1 h2 h3 h4 =
    rw
      (
        column_of start_col h1,
        row_of start_row h2,
        column_of end_col h3,
        row_of end_row h4,
        on_board start_col h1,
        on_board start_row h2,
        on_board end_col h3,
        on_board end_row h4,
      )
      refl

-- The characters of the input line come before `i`.
abbrev pub Typed : Text → Type 0
Typed [] = Unit
Typed (c ∷ s) = (c < b'i') × Typed s

exit_untyped : (s : Text) → Typed s → text_eq s (codes "exit") ≡ false
unfolding text_eq
exit_untyped [] v = refl
exit_untyped (c ∷ []) v = ground arith
exit_untyped (c ∷ d ∷ s) (h, (g, v)) = ground arith

Typed-append : (s : Text) (c : ℕ) → Typed s → c < b'i' → Typed (s ++ (c ∷ []))
Typed-append [] c v h = (h, tt)
Typed-append (d ∷ s) c (g, v) h = (g, Typed-append s c v h)

pop_char-Typed : (s : Text) → Typed s → Typed (pop_char s)
pop_char-Typed [] v = tt
pop_char-Typed (c ∷ []) v = tt
pop_char-Typed (c ∷ d ∷ s) (h, v) = (h, pop_char-Typed (d ∷ s) v)

chess_char-below : (code c : ℕ) → chess_char code ≡ some c → c < b'i'
unfolding chess_char
chess_char-below code c h = ground arith

type_square-Typed :
    (c : Option ℕ) (s : Chess)
    → Typed s.input_buffer
    → ((d : ℕ) → c ≡ some d → d < b'i')
    → Typed (type_square c s).input_buffer
unfolding type_square
type_square-Typed none s v h = v
type_square-Typed (some c) s v h = elim (Bool-cases (ltb (byte_len s.input_buffer) 10)) [
  | inl room ↦ rw room (Typed-append s.input_buffer c v (h c refl))
  | inr full ↦ rw full v
]

-- A game that goes on has such a line.
abbrev Goes : Option Chess → Type 0
Goes none = Unit
Goes (some t) = Typed t.input_buffer

if-Goes : (b : Bool) (x y : Option Chess) → Goes x → Goes y → Goes (if b then x else y)
if-Goes true x y v w = v
if-Goes false x y v w = w

chess_key-Goes : (code : ℕ) (s : Chess) → Typed s.input_buffer → Goes (chess_key code s)
unfolding chess_key
chess_key-Goes code s v = if-Goes (code == 0x01) none _ tt (
    if-Goes (code == 0x1C) _ _
      (if-Goes (text_eq s.input_buffer (codes "exit")) none
        (some (record (enter_line s.input_buffer s) { input_buffer = [] })) tt tt)
      (if-Goes (code == 0x0E) (some (record s { input_buffer = pop_char s.input_buffer }))
        (some (type_square (chess_char code) s)) (pop_char-Typed s.input_buffer v)
        (type_square-Typed (chess_char code) s v (chess_char-below code))))

-- The game after some scancodes, none of which ends it.
unfoldable pub after : List ℕ → Chess → Option Chess
after [] s = some s
after (code ∷ rest) s = elim (chess_key code s) [ some t ↦ after rest t | none ↦ none ]

after-Typed :
    (keys : List ℕ) (s t : Chess)
    → Typed s.input_buffer
    → after keys s ≡ some t
    → Typed t.input_buffer
unfolding after
after-Typed [] s t v h =
    subst (λ (u : Chess). Typed u.input_buffer) {x = s} {y = t} (ground arith) v
after-Typed (code ∷ keys) s t v h = elim (Option-cases (chess_key code s)) [
  | inl leaves ↦ absurd (ground arith)
  | inr (u, e) ↦ after-Typed keys u t (subst Goes e (chess_key-Goes code s v)) (ground arith)
]

-- Whatever was typed since the start of the game, Escape ends it and no other key does: the line
-- `exit` that the game asks for cannot be typed.
pub chess_key-escape :
    (keys : List ℕ) (s : Chess) (code : ℕ)
    → after keys new_chess ≡ some s
    → (chess_key code s ≡ none) ↔ (code ≡ 0x01)
unfolding chess_key
chess_key-escape keys s code h =
    let typed : Typed s.input_buffer = after-Typed keys new_chess s tt h in
    ((λ e. ground (arith, exit_untyped s.input_buffer typed)), λ e. ground arith)

-- The game after a move of the line.
abbrev pub played : (start_col start_row end_col end_row : ℕ) → Chess → Chess
played start_col start_row end_col end_row s =
    record (move_piece start_col start_row end_col end_row s) { input_buffer = [] }

enter-played :
    (start_col start_row end_col end_row : ℕ) (s : Chess)
    → start_col < 8
    → start_row < 8
    → end_col < 8
    → end_row < 8
    → s.input_buffer ≡ square start_col start_row ++ square end_col end_row
    → chess_key 0x1C s ≡ some (played start_col start_row end_col end_row s)
unfolding chess_key
enter-played start_col start_row end_col end_row s h1 h2 h3 h4 typed =
    let squares = square start_col start_row ++ square end_col end_row in
    let squares-Typed : Typed squares =
      (omega arith, (omega arith, (omega arith, (omega arith, tt)))) in
    let not_exit : text_eq s.input_buffer (codes "exit") ≡ false =
      ap (λ l. text_eq l (codes "exit")) typed ∙ exit_untyped squares squares-Typed in
    let moved : enter_line s.input_buffer s ≡ move_piece start_col start_row end_col end_row s =
      ap (λ l. enter_line l s) typed
      ∙ enter_line-square start_col start_row end_col end_row s h1 h2 h3 h4 in
    ap (λ b. if b then none else some (record (enter_line s.input_buffer s) { input_buffer = [] }))
      not_exit
    ∙ ap (λ (u : Chess). some (record u { input_buffer = [] })) moved

move_piece-at :
    (start_col start_row end_col end_row row col : ℕ) (s : Chess)
    → start_col < 8
    → start_row < 8
    → end_col < 8
    → end_row < 8
    → row < 8
    → col < 8
    → length s.board ≡ 64
    → at (move_piece start_col start_row end_col end_row s).board row col ≡ (
        if has_mover s.turn (at s.board start_row start_col)
        then (if same_square row col start_row start_col
            then empty_square
            else if same_square row col end_row end_col
            then at s.board start_row start_col
            else at s.board row col)
        else at s.board row col)
unfolding move_piece
move_piece-at start_col start_row end_col end_row row col s h1 h2 h3 h4 h5 h6 size =
    elim (Bool-cases (has_mover s.turn (at s.board start_row start_col))) [
      | inl moves ↦
          rw
            (
              moves,
              at-set (set s.board (end_row * 8 + end_col) (at s.board start_row start_col))
                  start_row start_col row col empty_square (length-set s.board _ _ ∙ size) h2 h1 h5
                  h6,
              at-set s.board end_row end_col row col (at s.board start_row start_col) size h4 h3 h5
                  h6,
            )
            refl
      | inr stays ↦ rw stays refl
    ]

move_piece-turn :
    (start_col start_row end_col end_row : ℕ) (s : Chess)
    → (move_piece start_col start_row end_col end_row s).turn
      ≡ (if has_mover s.turn (at s.board start_row start_col) then other s.turn else s.turn)
unfolding move_piece
move_piece-turn start_col start_row end_col end_row s =
    elim (Bool-cases (has_mover s.turn (at s.board start_row start_col))) [
      | inl moves ↦ rw moves refl
      | inr stays ↦ rw stays refl
    ]

-- The side whose piece stands on a square.
abbrev pub piece_owner : Piece → ChessColor → Option ChessColor
piece_owner empty side = none
piece_owner _ side = some side

abbrev pub owner : ChessPiece → Option ChessColor
owner p = piece_owner p.piece p.side

-- Whether the side to move is the owner, and the side that moves next.
abbrev pub moves : (turn : ChessColor) → Option ChessColor → Bool
moves light (some light) = true
moves dark (some dark) = true
moves _ _ = false

abbrev pub next_turn : (turn : ChessColor) → Option ChessColor → ChessColor
next_turn light (some light) = dark
next_turn dark (some dark) = light
next_turn turn _ = turn

has_mover-moves :
    (turn side : ChessColor) (piece : Piece)
    → has_mover turn (record { piece = piece; side = side }) ≡ moves turn (piece_owner piece side)
has_mover-moves turn side piece = ground arith

turn-next_turn :
    (turn side : ChessColor) (piece : Piece)
    → (if has_mover turn (record { piece = piece; side = side }) then other turn else turn)
      ≡ next_turn turn (piece_owner piece side)
turn-next_turn turn side piece = ground arith

-- Where the line names two squares of the board, Enter moves the piece of the side to move from the
-- first to the second, whatever stood there, leaves the first empty, changes no other square and
-- gives the other side the turn; where the first square has no such piece it changes no square and
-- keeps the turn. The line is cleared. A move onto its own square removes the piece.
pub chess_key-move :
    (start_col start_row end_col end_row row col : ℕ) (s : Chess)
    → start_col < 8
    → start_row < 8
    → end_col < 8
    → end_row < 8
    → row < 8
    → col < 8
    → length s.board ≡ 64
    → s.input_buffer ≡ square start_col start_row ++ square end_col end_row
    → let mover = at s.board start_row start_col in
      let t = played start_col start_row end_col end_row s in
      (chess_key 0x1C s ≡ some t)
      × ((at t.board row col ≡ (
            if moves s.turn (owner mover)
            then (if same_square row col start_row start_col
                then empty_square
                else if same_square row col end_row end_col
                then mover
                else at s.board row col)
            else at s.board row col))
          × (t.turn ≡ next_turn s.turn (owner mover)))
chess_key-move start_col start_row end_col end_row row col s h1 h2 h3 h4 h5 h6 size typed =
    let mover = at s.board start_row start_col in
    let kept = at s.board row col in
    let target = if same_square row col end_row end_col then mover else kept in
    let moved = if same_square row col start_row start_col then empty_square else target in
    (
      enter-played start_col start_row end_col end_row s h1 h2 h3 h4 typed,
      (
        move_piece-at start_col start_row end_col end_row row col s h1 h2 h3 h4 h5 h6 size
            ∙ ap (λ b. if b then moved else kept) (has_mover-moves s.turn mover.side mover.piece),
        move_piece-turn start_col start_row end_col end_row s
            ∙ turn-next_turn s.turn mover.side mover.piece,
      ),
    )
