-- ===== src/Programs.antt =====
-- The programs that the shell starts, on the scancodes that each of them reads.
use alilu_os.Common.{ℕ, List, Option, some, Text, map}
use alilu_os.Vga.{Vga}
use alilu_os.Vga.Bounds.{Safe, IsValid}
use alilu_os.Vga.Loops.{screen_loop-Safe}
use alilu_os.Shell.Commands.{Program, canvas, atari, chess, browser}
use alilu_os.Game.Drawing.{start_canvas}
use alilu_os.Game.Chess.{start_chess}
use alilu_os.Game.Screens.{start_canvas-Safe, start_chess-Safe}
use alilu_os.Game.Atari.{start_atari, start_atari-Safe}
use alilu_os.Network.Browser.{start_browser}

module _ (from_utf8 : List ℕ → Option Text) (keys : Program → List ℕ) where
  unfoldable pub launch : Program → Vga → Vga
  launch canvas vga = start_canvas (keys canvas) vga
  launch atari vga = start_atari (map some (keys atari)) vga
  launch chess vga = start_chess (keys chess) vga
  launch (browser query) vga = start_browser from_utf8 query (keys (browser query)) vga

  -- Every program keeps to the screen, whatever is typed.
  pub launch-Safe : (p : Program) (vga : Vga) → IsValid vga → Safe vga (launch p vga)
  unfolding launch start_browser
  launch-Safe canvas vga v = start_canvas-Safe (keys canvas) v
  launch-Safe atari vga v = start_atari-Safe (map some (keys atari)) v
  launch-Safe chess vga v = start_chess-Safe (keys chess) v
  launch-Safe (browser query) vga v = screen_loop-Safe _ _ _ (keys (browser query)) _ v
