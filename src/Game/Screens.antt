-- ===== src/Game/Screens.antt =====
-- Which bytes the canvas and the chess game write.
use alilu_os.Common.{ℕ, List, [], ◌∷◌}
use alilu_os.Vga.{Vga}
use alilu_os.Vga.Bounds.{Safe, IsValid, Safe-trans, run-Safe, valid}
use alilu_os.Vga.Loops.{screen_loop-Safe}
use alilu_os.Game.Chess.{start_chess}
use alilu_os.Game.Drawing.{start_canvas}

pub start_canvas-Safe : (keys : List ℕ) {vga : Vga} → IsValid vga → Safe vga (start_canvas keys vga)
unfolding start_canvas
start_canvas-Safe [] v = run-Safe _ v
start_canvas-Safe (key ∷ keys) v =
    let banner = run-Safe _ v in
    let cleared = Safe-trans banner (run-Safe _ (valid banner)) in
    Safe-trans cleared (screen_loop-Safe _ _ _ keys _ (valid cleared))

pub start_chess-Safe : (keys : List ℕ) {vga : Vga} → IsValid vga → Safe vga (start_chess keys vga)
unfolding start_chess
start_chess-Safe [] v = run-Safe _ v
start_chess-Safe (key ∷ keys) v =
    let banner = run-Safe _ v in Safe-trans banner (screen_loop-Safe _ _ _ keys _ (valid banner))
