-- ===== src/Game/Chess.antt =====
-- `start_chess`: the board, the input line and what is drawn. The board is the list of its 64 squares, row
-- after row from the eighth rank down.
use alilu_os.Common.{
  ℕ, zero, suc, ◌+◌, ◌-◌, ◌*◌, ◌%◌, Bool, true, false, not, ◌&&◌, Option, none, some, List, [],
}
use alilu_os.Common.{
  ◌∷◌, ◌++◌, ◌==◌, ltb, if◌then◌else◌, get_or, set, replicate, map, Text, codes, text_eq, pop_char,
  byte_len,
}
use alilu_os.Vga.{Vga, white, black, light_red, light_gray, light_cyan, dark_gray}
use alilu_os.Vga.Bounds
use alilu_os.Vga.Bounds.{Op, draw, color, wipe}
use alilu_os.Vga.Loops.{screen_loop}
use alilu_os.Shell.{line}

pub data Piece : Type 0 where
  pawn knight bishop rook queen king empty : Piece

pub data ChessColor : Type 0 where
  light dark : ChessColor

pub record ChessPiece : Type 0 where
  pub piece : Piece
  pub side : ChessColor

-- The variables of `start_chess`.
pub record Chess : Type 0 where
  pub board : List ChessPiece
  pub turn : ChessColor
  pub input_buffer : Text

abbrev pub empty_square : ChessPiece
empty_square = record { piece = empty; side = light }

abbrev back_row : List Piece
back_row = rook ∷ knight ∷ bishop ∷ queen ∷ king ∷ bishop ∷ knight ∷ rook ∷ []

abbrev row_of : ChessColor → List Piece → List ChessPiece
row_of side pieces = map (λ p. record { piece = p; side = side }) pieces

abbrev pub new_board : List ChessPiece
new_board =
    row_of dark back_row
    ++ (row_of dark (replicate 8 pawn)
        ++ (replicate 32 empty_square
            ++ (row_of light (replicate 8 pawn) ++ row_of light back_row)))

abbrev pub new_chess : Chess
new_chess = record { board = new_board; turn = light; input_buffer = [] }

-- `scancode_to_char`, without shift: the only call is without it.
unfoldable pub chess_char : ℕ → Option ℕ
chess_char code =
    if code == 0x1E
    then some b'a'
    else if code == 0x30
    then some b'b'
    else if code == 0x2E
    then some b'c'
    else if code == 0x20
    then some b'd'
    else if code == 0x12
    then some b'e'
    else if code == 0x21
    then some b'f'
    else if code == 0x22
    then some b'g'
    else if code == 0x23
    then some b'h'
    else if code == 0x02
    then some b'1'
    else if code == 0x03
    then some b'2'
    else if code == 0x04
    then some b'3'
    else if code == 0x05
    then some b'4'
    else if code == 0x06
    then some b'5'
    else if code == 0x07
    then some b'6'
    else if code == 0x08
    then some b'7'
    else if code == 0x09
    then some b'8'
    else if code == 0x0A
    then some b'9'
    else if code == 0x0B
    then some b'0'
    else none

-- `a - b` of bytes, as a release build has it; a development build panics where it wraps.
abbrev sub_u8 : ℕ → ℕ → ℕ
sub_u8 a b = (a + 256 - b) % 256

abbrev pub at : List ChessPiece → (row col : ℕ) → ChessPiece
at board row col = get_or board (row * 8 + col) empty_square

abbrev pub is_empty_piece : Piece → Bool
is_empty_piece empty = true
is_empty_piece _ = false

abbrev pub color_eq : ChessColor → ChessColor → Bool
color_eq light light = true
color_eq dark dark = true
color_eq _ _ = false

abbrev pub other : ChessColor → ChessColor
other light = dark
other dark = light

-- Whether the side to move has a piece on a square.
abbrev pub has_mover : ChessColor → ChessPiece → Bool
has_mover side p = not (is_empty_piece p.piece) && color_eq p.side side

-- A move between two squares of the board.
unfoldable pub move_piece : (start_col start_row end_col end_row : ℕ) → Chess → Chess
move_piece start_col start_row end_col end_row s =
    let selected = at s.board start_row start_col in
    if has_mover s.turn selected
    then record s {
      board =
          set (set s.board (end_row * 8 + end_col) selected) (start_row * 8 + start_col)
            empty_square;
      turn = other s.turn;
    }
    else s

-- The line that Enter reads: one of four characters is two squares.
unfoldable pub enter_line : Text → Chess → Chess
enter_line (c0 ∷ c1 ∷ c2 ∷ c3 ∷ []) s =
    let start_col = sub_u8 c0 b'a' in
    let start_row = sub_u8 b'8' c1 in
    let end_col = sub_u8 c2 b'a' in
    let end_row = sub_u8 b'8' c3 in
    if ltb start_col 8 && ltb start_row 8 && ltb end_col 8 && ltb end_row 8
    then move_piece start_col start_row end_col end_row s
    else s
enter_line _ s = s

-- A character of the input line, which holds ten.
unfoldable pub type_square : Option ℕ → Chess → Chess
type_square none s = s
type_square (some c) s =
    if ltb (byte_len s.input_buffer) 10
    then record s { input_buffer = s.input_buffer ++ (c ∷ []) }
    else s

-- One scancode of `start_chess`; `none` is the end of the program.
unfoldable pub chess_key : ℕ → Chess → Option Chess
chess_key scancode s =
    if scancode == 0x01
    then none
    else if scancode == 0x1C
    then (if text_eq s.input_buffer (codes "exit")
        then none
        else some (record (enter_line s.input_buffer s) { input_buffer = [] }))
    else if scancode == 0x0E
    then some (record s { input_buffer = pop_char s.input_buffer })
    else some (type_square (chess_char scancode) s)

-- Characters drawn one after the other from a cell on.
abbrev pub draw_text : (row col : ℕ) → Text → List Op
draw_text row col [] = []
draw_text row col (c ∷ s) = draw row col c ∷ draw_text row (col + 1) s

abbrev letter_of : Piece → ℕ × ℕ
letter_of pawn = (b'P', b' ')
letter_of knight = (b'N', b' ')
letter_of bishop = (b'B', b' ')
letter_of rook = (b'R', b' ')
letter_of queen = (b'Q', b' ')
letter_of king = (b'K', b' ')
letter_of empty = (b'-', b'-')

-- A square of `draw_board`.
abbrev square_ops : (r c : ℕ) → ChessPiece → List Op
square_ops r c p =
    let (c1, c2) = letter_of p.piece in
    color (if color_eq p.side light then white else light_red)
      (if (r + c) % 2 == 0 then dark_gray else black)
    ∷ draw (3 + r * 2) (6 + c * 5) b' '
    ∷ draw (3 + r * 2) (6 + c * 5 + 1) c1
    ∷ draw (3 + r * 2) (6 + c * 5 + 2) c2
    ∷ draw (3 + r * 2) (6 + c * 5 + 3) b' '
    ∷ []

-- The last `n` squares of a row.
abbrev row_ops : List ChessPiece → (r n : ℕ) → List Op
row_ops board r zero = []
row_ops board r (suc n) = square_ops r (8 - suc n) (at board r (8 - suc n)) ++ row_ops board r n

-- The last `n` rows.
abbrev rows_ops : List ChessPiece → (n : ℕ) → List Op
rows_ops board zero = []
rows_ops board (suc n) =
    color white black
    ∷ draw (3 + (8 - suc n) * 2) 2 (b'8' - (8 - suc n))
    ∷ (row_ops board (8 - suc n) 8 ++ rows_ops board n)

-- `draw_board`
unfoldable pub draw_board : List ChessPiece → List Op
draw_board board =
    color white black
    ∷ draw 1 8 b'A'
    ∷ draw 1 13 b'B'
    ∷ draw 1 18 b'C'
    ∷ draw 1 23 b'D'
    ∷ draw 1 28 b'E'
    ∷ draw 1 33 b'F'
    ∷ draw 1 38 b'G'
    ∷ draw 1 43 b'H'
    ∷ rows_ops board 8

abbrev turn_ops : ChessColor → List Op
turn_ops light = color white black ∷ draw_text 3 51 (codes "White")
turn_ops dark = color light_gray black ∷ draw_text 3 51 (codes "Black")

-- What a round of the loop draws.
unfoldable pub chess_ops : Chess → List Op
chess_ops s =
    wipe
    ∷ (draw_board s.board
        ++ (color light_cyan black
            ∷ (draw_text 3 45 (codes "TURN:")
                ++ (turn_ops s.turn
                    ++ (color white black
                        ∷ (draw_text 20 2 (codes "Your Move:")
                            ++ (draw 20 13 b' ' ∷ draw_text 20 14 s.input_buffer)))))))

abbrev chess_banner : List Op
chess_banner =
    wipe
    ∷ color white black
    ∷ line "=== CHESS ==="
    ∷ line "Two-Player mode."
    ∷ line "Move inputs are algebraic coordinates (e.g., 'e2e4' or 'b1c3')."
    ∷ line "Type 'exit' to quit back to shell."
    ∷ line "Press any key to start..."
    ∷ []

-- `start_chess`: the first scancode starts the game.
unfoldable pub start_chess : List ℕ → Vga → Vga
start_chess [] vga = Bounds.run chess_banner vga
start_chess (_ ∷ keys) vga =
    screen_loop chess_key chess_ops (wipe ∷ []) keys new_chess (Bounds.run chess_banner vga)
