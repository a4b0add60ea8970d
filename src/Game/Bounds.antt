-- ===== src/Game/Bounds.antt =====
-- Where the canvas and Breakout may draw.
use alilu_os.Common.{
  ℕ, ◌+◌, ◌*◌, ◌-◌, ◌%◌, ◌≤◌, ◌<◌, ◌≡◌, zero, suc, Bool, true, false, ◌/◌, if◌then◌else◌, get_or,
  refl, ◌∙◌, Option, none, some, List, [], ◌∷◌, arith,
}
use alilu_os.Common.{length, length-set, set}
use mathlib.Core.Path.{subst}
use alilu_os.Game.{
  Canvas, canvas_key, Breakout, advance, move_paddle, bounce, hit_brick, move_ball, step_ball, turn,
  new_breakout,
}

-- The cursor is on the screen and the grid has a byte for each cell.
pub record IsOnScreen (s : Canvas) : Type 0 where
  pub column : s.cursor_x < 80
  pub line : s.cursor_y < 25
  pub cells : length s.grid ≡ 2000

-- A key that does not end the program keeps the canvas on the screen.
pub canvas_key-IsOnScreen :
    (scancode : ℕ) (s t : Canvas) → IsOnScreen s → canvas_key scancode s ≡ some t → IsOnScreen t
unfolding canvas_key
canvas_key-IsOnScreen scancode s t v h = ground (
  arith,
  length-set s.grid (s.cursor_y * 80 + s.cursor_x) b'*',
  length-set s.grid (s.cursor_y * 80 + s.cursor_x) b' ',
)

-- How many bricks stand.
pub standing : List Bool → ℕ
standing [] = 0
standing (b ∷ bricks) = if b then suc (standing bricks) else standing bricks

standing-set :
    (bricks : List Bool) (i : ℕ)
    → get_or bricks i false ≡ true
    → suc (standing (set bricks i false)) ≡ standing bricks
unfolding standing
standing-set [] i h = ground arith
standing-set (b ∷ bricks) zero h = ground arith
standing-set (b ∷ bricks) (suc i) h = ground (arith, standing-set bricks i h)

-- The paddle and the ball are where `start_atari` may draw them; the ball is in row 1 on its way
-- up alone, and below row 22 when the game is over.
pub record InField (s : Breakout) : Type 0 where
  pub paddle_left : 2 ≤ s.paddle_x
  pub paddle_right : s.paddle_x ≤ 68
  pub paddle_step : s.paddle_x % 3 ≡ 2
  pub side : (2 ≤ s.ball_x) × (s.ball_x ≤ 77)
  pub playing : s.game_over ≡ false → (1 ≤ s.ball_y) × (s.ball_y ≤ 22)
  pub rising : s.game_over ≡ false → s.ball_y ≡ 1 → s.down ≡ false
  pub over : s.ball_y ≤ 23
  pub scored : s.score + 10 * standing s.bricks ≡ 500

move_paddle-InField : (code : Option ℕ) (s : Breakout) → InField s → InField (move_paddle code s)
unfolding move_paddle
move_paddle-InField none s v = v
move_paddle-InField (some code) s v = ground arith

ball-InField : (s : Breakout) → InField s → s.game_over ≡ false → InField (step_ball s)
unfolding step_ball move_ball hit_brick bounce
ball-InField s v on =
    let brick = (advance s.ball_y s.down - 2) * 10 + (advance s.ball_x s.right - 5) / 7 in
    record {
      paddle_left = ground arith;
      paddle_right = ground arith;
      paddle_step = ground arith;
      side = ground (arith, v.side);
      playing = λ h. ground (arith, v.playing on, v.rising on);
      rising = λ h e. ground (arith, v.playing on, v.rising on);
      over = ground (arith, v.playing on, v.rising on);
      scored = ground (arith, v.scored, standing-set s.bricks brick);
    }

game_over-move_paddle :
    (code : Option ℕ) (s : Breakout) → (move_paddle code s).game_over ≡ s.game_over
unfolding move_paddle
game_over-move_paddle none s = refl
game_over-move_paddle (some code) s = ground arith

turn-step_ball :
    (code : Option ℕ) (s t : Breakout)
    → turn code s ≡ some t
    → (s.game_over ≡ false) × (step_ball (move_paddle code s) ≡ t)
unfolding turn
turn-step_ball code s t h = ground arith

-- A turn of Breakout that does not end the game keeps the paddle and the ball in the field, the
-- ball in row 1 on its way up alone and below row 22 when the game is over, and ten points for
-- each broken brick.
pub turn-InField : (code : Option ℕ) (s t : Breakout) → InField s → turn code s ≡ some t → InField t
turn-InField code s t v h =
    let (on, next) = turn-step_ball code s t h in
    subst InField next (
      ball-InField (move_paddle code s) (move_paddle-InField code s v)
        (game_over-move_paddle code s ∙ on))

pub new_breakout-InField : InField new_breakout
unfolding new_breakout standing
new_breakout-InField = ground arith
