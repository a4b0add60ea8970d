-- ===== src/Game/Atari.antt =====
-- `start_atari` of src/game.rs as a whole, over the answers of `poll_scancode`.
use alilu_os.Common.{ℕ, Bool, true, false, Option, none, some, List, [], ◌∷◌}
use alilu_os.Vga.{Vga}
use alilu_os.Vga.Bounds
use alilu_os.Vga.Bounds.{Op, wipe, Safe, IsValid, Safe-trans, run-Safe, valid}
use alilu_os.Game.{Breakout, new_breakout, turn}
use alilu_os.Game.Drawing.{atari_banner, frame_ops, over_ops, print_num_at}

-- What follows the digits, unless they panic.
abbrev after_digits : Option (List Op) → (Vga → Vga) → Vga → Vga
after_digits none go vga = vga
after_digits (some ops) go vga = go (Bounds.run ops vga)

-- The call of `print_num_at` and what follows it. It takes the lock of `WRITER`: where its caller has
-- the guard, it never ends.
abbrev after_score : (guarded : Bool) → Breakout → (Vga → Vga) → Vga → Vga
after_score true s go vga = vga
after_score false s go vga = after_digits (print_num_at 0 9 s.score) go vga

-- The end of a round after its frame.
abbrev end_round : (Breakout → Vga → Vga) → Bool → Option Breakout → Vga → Vga
end_round go true after vga = Bounds.run (wipe ∷ []) (Bounds.run over_ops vga)
end_round go false (some s) vga = go s vga
end_round go false none vga = Bounds.run (wipe ∷ []) vga

-- The loop; after the last answer it waits.
unfoldable pub atari_loop : (guarded : Bool) → List (Option ℕ) → Breakout → Vga → Vga
atari_loop guarded [] s vga = after_score guarded s (λ shown. shown) (Bounds.run (frame_ops s) vga)
atari_loop guarded (poll ∷ polls) s vga =
    after_score guarded s
      (λ shown. end_round (atari_loop guarded polls) s.game_over (turn poll s) shown)
      (Bounds.run (frame_ops s) vga)

-- The scancode that starts the game, then the loop, where the guard of the frame is still alive at the
-- call of `print_num_at`.
unfoldable pub start_atari : List (Option ℕ) → Vga → Vga
start_atari [] vga = Bounds.run atari_banner vga
start_atari (none ∷ polls) vga = start_atari polls vga
start_atari (some _ ∷ polls) vga =
    atari_loop true polls new_breakout (Bounds.run (wipe ∷ []) (Bounds.run atari_banner vga))

first_frame-Safe :
    (polls : List (Option ℕ)) {vga : Vga}
    → IsValid vga
    → Safe vga (atari_loop true polls new_breakout vga)
unfolding atari_loop
first_frame-Safe [] v = run-Safe _ v
first_frame-Safe (poll ∷ polls) v = run-Safe _ v

pub start_atari-Safe :
    (polls : List (Option ℕ)) {vga : Vga} → IsValid vga → Safe vga (start_atari polls vga)
unfolding start_atari
start_atari-Safe [] v = run-Safe _ v
start_atari-Safe (none ∷ polls) v = start_atari-Safe polls v
start_atari-Safe (some _ ∷ polls) v =
    let banner = run-Safe _ v in
    let cleared = Safe-trans banner (run-Safe _ (valid banner)) in
    Safe-trans cleared (first_frame-Safe polls (valid cleared))
