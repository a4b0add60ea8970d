-- ===== src/Vga/Loops.antt =====
-- The loops of game.rs and of `start_browser`: a round draws, then reads a scancode.
use alilu_os.Common.{ℕ, List, [], ◌∷◌, Option, none, some}
use alilu_os.Vga.{Vga}
use alilu_os.Vga.Bounds
use alilu_os.Vga.Bounds.{Op, Safe, IsValid, Safe-trans, run-Safe, valid}

module _ {S : Type 0} (key : ℕ → S → Option S) (ops : S → List Op) (leave : List Op) where
  -- What follows a scancode; `none` leaves the loop.
  abbrev continue : (S → Vga → Vga) → Option S → Vga → Vga
  continue go (some s) vga = go s vga
  continue go none vga = Bounds.run leave vga

  -- The loop, over the scancodes that it reads; after the last of them it waits.
  unfoldable pub screen_loop : List ℕ → S → Vga → Vga
  screen_loop [] s vga = Bounds.run (ops s) vga
  screen_loop (code ∷ keys) s vga =
      continue (screen_loop keys) (key code s) (Bounds.run (ops s) vga)

  continue-Safe :
      (go : S → Vga → Vga)
      → ((s : S) (vga : Vga) → IsValid vga → Safe vga (go s vga))
      → (after : Option S) {vga : Vga} → IsValid vga
      → Safe vga (continue go after vga)
  continue-Safe go safe (some s) {vga} v = safe s vga v
  continue-Safe go safe none v = run-Safe leave v

  pub screen_loop-Safe :
      (keys : List ℕ) (s : S) {vga : Vga} → IsValid vga → Safe vga (screen_loop keys s vga)
  unfolding screen_loop
  screen_loop-Safe [] s v = run-Safe (ops s) v
  screen_loop-Safe (code ∷ keys) s v =
      let drawn = run-Safe (ops s) v in
      Safe-trans drawn (
        continue-Safe (screen_loop keys) (λ t vga. screen_loop-Safe keys t {vga = vga}) (key code s)
          (valid drawn))
