-- ===== src/Game/Tests.antt =====
-- Runs of the games, and their theorems at concrete states.
use alilu_os.Common.{byte_len, ℕ, refl, some, arith}
use alilu_os.Common.{◌↔◌, ◌≡◌, [], ◌∷◌, ◌++◌, none, if◌then◌else◌}
use alilu_os.Game.Chess.{
  draw_text, Chess, new_chess, at, empty_square, chess_key, chess_char, type_square,
}
use alilu_os.Game.Moves.{
  moves, owner, next_turn, square, same_square, played, after, chess_key-move, chess_key-escape,
}
use alilu_os.Game.{
  Breakout, new_breakout, move_paddle, bounce, hit_brick, move_ball, step_ball, turn,
}
use alilu_os.Game.Drawing.{print_num_at}
use alilu_os.Game.Numbers.{print_num_at-decimal}
use alilu_os.Common.{decimal}
use alilu_os.Game.Bounds.{InField, turn-InField, new_breakout-InField}

abbrev first_turn : Breakout
first_turn = record new_breakout { ball_x = 41; ball_y = 14; paddle_x = 32 }

turn-InField_example : InField first_turn
unfolding turn step_ball move_ball hit_brick bounce move_paddle new_breakout
turn-InField_example = turn-InField (some 0x4B) new_breakout first_turn new_breakout-InField refl

-- White moves the king's pawn by two.
abbrev e2e4 : Chess
e2e4 = record new_chess { input_buffer = square 4 6 ++ square 4 4 }

chess_key-move_example :
    (chess_key 0x1C e2e4 ≡ some (played 4 6 4 4 e2e4))
    × ((at (played 4 6 4 4 e2e4).board 4 4 ≡ (
          if moves e2e4.turn (owner (at e2e4.board 6 4))
          then (if same_square 4 4 6 4
              then empty_square
              else if same_square 4 4 4 4
              then at e2e4.board 6 4
              else at e2e4.board 4 4)
          else at e2e4.board 4 4))
        × ((played 4 6 4 4 e2e4).turn ≡ next_turn e2e4.turn (owner (at e2e4.board 6 4))))
chess_key-move_example =
    chess_key-move 4 6 4 4 4 4 e2e4 (omega arith) (omega arith) (omega arith) (omega arith)
      (omega arith) (omega arith) refl refl

-- The line after the keys `e` and `2`.
abbrev e2 : Chess
e2 = record new_chess { input_buffer = square 4 6 }

chess_key-escape_example : (chess_key 0x1C e2 ≡ none) ↔ (◌≡◌ {A = ℕ} 0x1C 0x01)
unfolding after chess_key type_square chess_char byte_len
chess_key-escape_example = chess_key-escape (0x12 ∷ 0x03 ∷ []) e2 0x1C refl

print_num_at-decimal_example : print_num_at 0 9 1250 ≡ some (draw_text 0 9 (decimal 1250))
print_num_at-decimal_example = print_num_at-decimal 0 9 1250 (omega arith)
