-- ===== src/Game/Scancodes/Tests.antt =====
-- A read of a concrete ring.
use alilu_os.Common.{refl, [], ◌∷◌, none, some, arith}
use alilu_os.Interrupts
use alilu_os.Interrupts.{State}
use alilu_os.Interrupts.Ring.{new-IsValid}
use alilu_os.Game.Scancodes.{Round, read_scancode_blocking}
use alilu_os.Game.Scancodes.Typed.{typed, Waiting, Answered, read_scancode_blocking-Answered}

abbrev empty_ring : State
empty_ring = record { scancodes = Interrupts.new; ticks = 0 }

abbrev pause : Round
pause = record { interrupt = none; status = 0x1C; scancode = 0 }

abbrev press_a : Round
press_a = record { interrupt = some 0x1E; status = 0x1C; scancode = 0x1E }

abbrev press_b : Round
press_b = record { interrupt = some 0x30; status = 0x1C; scancode = 0x30 }

empty_ring-Waiting : Waiting empty_ring []
unfolding Interrupts.new
empty_ring-Waiting = record { valid = new-IsValid; room = omega arith; has = refl }

read_scancode_blocking-Answered_example :
    Answered (read_scancode_blocking empty_ring (pause ∷ press_a ∷ press_b ∷ [])) 0x1E (0x30 ∷ [])
unfolding typed
read_scancode_blocking-Answered_example =
    read_scancode_blocking-Answered empty_ring pause (press_a ∷ press_b ∷ []) [] 0x1E (0x30 ∷ [])
      empty_ring-Waiting (refl, (refl, (refl, tt))) refl
