-- ===== src/Game/Scancodes.antt =====
-- src/game.rs: how the programs take their scancodes, out of the ring buffer that the keyboard
-- interrupt fills, or from the ports where the ring is empty.
pub mod Typed
mod Tests
use Prim.Native.Nat.{bit_and}
use alilu_os.Common.{ℕ, Bool, not, ◌==◌, if◌then◌else◌, List, [], ◌∷◌, Option, none, some}
use alilu_os.Interrupts.{State, keyboard_interrupt_inner, pop_scancode}

-- A round of a loop that polls: the byte of a keyboard interrupt before it, if one came, and the
-- bytes that ports 0x64 and 0x60 give.
pub record Round : Type 0 where
  pub interrupt : Option ℕ
  pub status : ℕ
  pub scancode : ℕ

abbrev pub interrupted : Option ℕ → State → State
interrupted none s = s
interrupted (some byte) s = (keyboard_interrupt_inner byte s).0

-- `poll_scancode` after `pop_scancode` answered.
abbrev pub poll_ports : (status scancode : ℕ) → Option ℕ → Option ℕ
poll_ports status scancode (some code) = some code
poll_ports status scancode none = if not (bit_and status 1 == 0) then some scancode else none

unfoldable pub poll_scancode : (status scancode : ℕ) → State → Option ℕ × State
poll_scancode status scancode s =
    let (code, s') = pop_scancode s in (poll_ports status scancode code, s')

-- `read_scancode_blocking` over rounds, with the state and the rounds behind it; `none` is a loop
-- that is still waiting.
unfoldable pub read_scancode_blocking : State → List Round → Option (ℕ × State × List Round)
read_scancode_blocking s [] = none
read_scancode_blocking s (r ∷ rounds) =
    let (code, s') = poll_scancode r.status r.scancode (interrupted r.interrupt s) in
    let rest = read_scancode_blocking s' rounds in
    elim code [ some c ↦ some (c, s', rounds) | none ↦ rest ]
