-- ===== src/Game/Drawing.antt =====
-- What `start_canvas` and `start_atari` draw, and `start_canvas` as a whole. `start_atari` as a whole is
-- in Game/Atari.antt.
use alilu_os.Common.{
  Option, none, some, set, replicate, ◌/◌, ◌%◌, ℕ, zero, suc, ◌+◌, ◌-◌, ◌*◌, Bool, false, ◌&&◌,
  List, [], ◌∷◌, ◌++◌, ◌==◌, if◌then◌else◌, get_or, codes,
}
use alilu_os.Vga.{Vga, Color, white, black, red, light_red, yellow, green, cyan, light_blue}
use alilu_os.Vga.Bounds
use alilu_os.Vga.Bounds.{Op, draw, color, wipe}
use alilu_os.Vga.Loops.{screen_loop}
use alilu_os.Shell.{line}
use alilu_os.Game.{Canvas, new_canvas, canvas_key, Breakout, paddle_width}
use alilu_os.Game.Chess.{draw_text}

-- The last `n` cells of a row of the canvas.
abbrev canvas_cols : Canvas → (y n : ℕ) → List Op
canvas_cols s y zero = []
canvas_cols s y (suc n) =
    let x = 80 - suc n in
    draw y x (if x == s.cursor_x && y == s.cursor_y then b'+' else get_or s.grid (y * 80 + x) b' ')
    ∷ canvas_cols s y n

-- The last `n` rows.
abbrev canvas_rows : Canvas → (n : ℕ) → List Op
canvas_rows s zero = []
canvas_rows s (suc n) = canvas_cols s (25 - suc n) 80 ++ canvas_rows s n

-- What a round of `start_canvas` draws.
unfoldable pub canvas_ops : Canvas → List Op
canvas_ops s = canvas_rows s 25

abbrev canvas_banner : List Op
canvas_banner =
    wipe
    ∷ color white black
    ∷ line "=== DRAWING CANVAS ==="
    ∷ line "Use Arrow keys to move cursor."
    ∷ line "Space = Draw White Dot | Backspace/E = Erase | Escape = Exit"
    ∷ line "Press any key to start..."
    ∷ []

-- `start_canvas`: the first scancode starts the drawing.
unfoldable pub start_canvas : List ℕ → Vga → Vga
start_canvas [] vga = Bounds.run canvas_banner vga
start_canvas (_ ∷ keys) vga =
    screen_loop canvas_key canvas_ops (wipe ∷ []) keys new_canvas
      (Bounds.run (wipe ∷ []) (Bounds.run canvas_banner vga))

-- What `start_atari` shows before its loop.
abbrev pub atari_banner : List Op
atari_banner =
    wipe
    ∷ color white black
    ∷ line "=== ATARI BREAKOUT ==="
    ∷ line "Left/Right Arrow keys = Move Paddle"
    ∷ line "Escape = Exit"
    ∷ line "Press any key to start..."
    ∷ []

-- `for i in 0..n`, a `=` drawn from a column on.
abbrev bar : (row col n : ℕ) → List Op
bar row col zero = []
bar row col (suc n) = draw row col b'=' ∷ bar row (col + 1) n

-- The last `n` bricks of a row.
abbrev brick_cols : List Bool → (r n : ℕ) → List Op
brick_cols bricks r zero = []
brick_cols bricks r (suc n) =
    let c = 10 - suc n in
    (if get_or bricks (r * 10 + c) false then bar (2 + r) (5 + c * 7) 6 else [])
    ++ brick_cols bricks r n

abbrev brick_color : ℕ → Color
brick_color zero = red
brick_color (suc zero) = light_red
brick_color (suc (suc zero)) = yellow
brick_color (suc (suc (suc zero))) = green
brick_color _ = cyan

-- The last `n` rows of bricks.
abbrev brick_rows : List Bool → (n : ℕ) → List Op
brick_rows bricks zero = []
brick_rows bricks (suc n) =
    color (brick_color (5 - suc n)) black
    ∷ (brick_cols bricks (5 - suc n) 10 ++ brick_rows bricks n)

-- The loop of `print_num_at` that fills its array of ten digits, lowest first, from `idx` on, where
-- `room` entries are left; `none` is the panic at an index behind the array.
unfoldable pub fill_digits : (room : ℕ) → List ℕ → (idx temp : ℕ) → Option (List ℕ × ℕ)
fill_digits zero digits idx temp = if temp == 0 then some (digits, idx) else none
fill_digits (suc room) digits idx temp =
    let rest = fill_digits room (set digits idx (temp % 10)) (suc idx) (temp / 10) in
    if temp == 0 then some (digits, idx) else rest

-- The last `n` rounds of the loop that draws them.
unfoldable pub digit_ops : (row col idx : ℕ) → List ℕ → (n : ℕ) → List Op
digit_ops row col idx digits zero = []
digit_ops row col idx digits (suc n) =
    draw row (col + (idx - suc n)) (b'0' + get_or digits n 0) ∷ digit_ops row col idx digits n

-- What is drawn of the filled array.
abbrev pub digits_drawn : (row col : ℕ) → Option (List ℕ × ℕ) → Option (List Op)
digits_drawn row col (some (digits, idx)) = some (digit_ops row col idx digits idx)
digits_drawn row col none = none

unfoldable pub print_num_at : (row col val : ℕ) → Option (List Op)
print_num_at row col val =
    if val == 0
    then some (draw row col b'0' ∷ [])
    else digits_drawn row col (fill_digits 10 (replicate 10 0) 0 val)

-- A frame of `start_atari` up to the call of `print_num_at`.
unfoldable pub frame_ops : Breakout → List Op
frame_ops s =
    wipe
    ∷ (brick_rows s.bricks 5
        ++ (color light_blue black
            ∷ (bar 23 s.paddle_x paddle_width
                ++ (color white black
                    ∷ draw s.ball_y s.ball_x b'O'
                    ∷ draw_text 0 2 (codes "SCORE:")))))

-- What `start_atari` draws when the game is over.
abbrev pub over_ops : List Op
over_ops = color light_red black ∷ draw_text 12 33 (codes "GAME OVER")
