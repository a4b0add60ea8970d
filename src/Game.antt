-- ===== src/Game.antt =====
-- src/game.rs: one turn of the drawing canvas and of Breakout. What the programs draw is not part of
-- the states; the chess board with its input line is in Game/Chess.antt.
pub mod Bounds
pub mod Chess
pub mod Moves
pub mod Drawing
pub mod Numbers
pub mod Atari
pub mod Screens
pub mod Scancodes
mod Tests
use alilu_os.Common.{
  ℕ, suc, ◌+◌, ◌-◌, ◌*◌, ◌/◌, ◌^◌, Bool, true, false, not, ◌&&◌, ◌||◌, Option, none,
}
use alilu_os.Common.{some, List, ◌==◌, ltb, leb, if◌then◌else◌, get_or, set, replicate}

-- The cursor and the grid of `start_canvas`.
pub record Canvas : Type 0 where
  pub cursor_x : ℕ
  pub cursor_y : ℕ
  pub grid : List ℕ

pub new_canvas : Canvas
new_canvas = record { cursor_x = 40; cursor_y = 12; grid = replicate (80 * 25) b' ' }

-- One scancode of `start_canvas`; `none` is the end of the program.
pub canvas_key : ℕ → Canvas → Option Canvas
canvas_key scancode s =
    if scancode == 0x01
    then none
    else some (
        if scancode == 0x48
        then (if ltb 0 s.cursor_y then record s { cursor_y = s.cursor_y - 1 } else s)
        else if scancode == 0x50
        then (if ltb s.cursor_y 24 then record s { cursor_y = s.cursor_y + 1 } else s)
        else if scancode == 0x4B
        then (if ltb 0 s.cursor_x then record s { cursor_x = s.cursor_x - 1 } else s)
        else if scancode == 0x4D
        then (if ltb s.cursor_x 79 then record s { cursor_x = s.cursor_x + 1 } else s)
        else if scancode == 0x39
        then record s { grid = set s.grid (s.cursor_y * 80 + s.cursor_x) b'*' }
        else if scancode == 0x0E || scancode == 0x12
        then record s { grid = set s.grid (s.cursor_y * 80 + s.cursor_x) b' ' }
        else s)

-- What `start_atari` keeps; a direction is true for +1 and false for -1.
pub record Breakout : Type 0 where
  pub paddle_x : ℕ
  pub ball_x : ℕ
  pub ball_y : ℕ
  pub right : Bool
  pub down : Bool
  pub score : ℕ
  pub game_over : Bool
  pub bricks : List Bool

abbrev pub paddle_width : ℕ
paddle_width = 10

pub new_breakout : Breakout
new_breakout = record {
  paddle_x = 35;
  ball_x = 40;
  ball_y = 15;
  right = true;
  down = false;
  score = 0;
  game_over = false;
  bricks = replicate 50 true;
}

-- `(x as isize + d) as usize`
abbrev pub advance : ℕ → Bool → ℕ
advance x forward = if forward then x + 1 else if x == 0 then 2 ^ 64 - 1 else x - 1

-- The arrow keys; a byte of another key, or none, changes nothing.
pub move_paddle : Option ℕ → Breakout → Breakout
move_paddle none s = s
move_paddle (some code) s =
    if code == 0x4B
    then (if ltb 2 s.paddle_x then record s { paddle_x = s.paddle_x - 3 } else s)
    else if code == 0x4D
    then (if ltb (s.paddle_x + paddle_width) 78 then record s { paddle_x = s.paddle_x + 3 } else s)
    else s

-- The side walls, the ceiling and the paddle, at the cell that the ball heads for.
pub bounce : (next_x next_y : ℕ) → Breakout → Breakout
bounce next_x next_y s =
    let s' = if leb next_x 1 || leb 78 next_x then record s { right = not s.right } else s in
    if leb next_y 1
    then record s' { down = not s'.down }
    else if leb 23 next_y
    then (if leb s'.paddle_x next_x && leb next_x (s'.paddle_x + paddle_width)
        then record s' { down = not s'.down }
        else record s' { game_over = true })
    else s'

pub hit_brick : (next_x next_y : ℕ) → Breakout → Breakout
hit_brick next_x next_y s =
    let brick = (next_y - 2) * 10 + (next_x - 5) / 7 in
    if leb 2 next_y && ltb next_y 7 && leb 5 next_x && ltb next_x 75
    then (if ltb ((next_x - 5) / 7) 10 && get_or s.bricks brick false
        then record s { bricks = set s.bricks brick false; down = not s.down; score = s.score + 10 }
        else s)
    else s

pub move_ball : Breakout → Breakout
move_ball s = record s { ball_x = advance s.ball_x s.right; ball_y = advance s.ball_y s.down }

abbrev is_escape : Option ℕ → Bool
is_escape none = false
is_escape (some code) = code == 0x01

-- The ball's part of a turn.
pub step_ball : Breakout → Breakout
step_ball s =
    let next_x = advance s.ball_x s.right in
    let next_y = advance s.ball_y s.down in
    move_ball (hit_brick next_x next_y (bounce next_x next_y s))

-- One turn of `start_atari` after it drew, with the scancode that it polled; `none` is the end of
-- the program.
pub turn : Option ℕ → Breakout → Option Breakout
turn code s = if s.game_over || is_escape code then none else some (step_ball (move_paddle code s))
