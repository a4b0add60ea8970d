-- ===== src/Keyboard/Tests.antt =====
-- Runs of the keyboard driver, and its theorems at concrete states.
use alilu_os.Common.{ℕ, ◌≡◌, refl, true, false, List, [], ◌∷◌, ◌++◌, arith}
use alilu_os.Common.{replicate}
use alilu_os.Interrupts
use alilu_os.Interrupts.{State, push}
use alilu_os.Interrupts.Queue
use alilu_os.Interrupts.Ring.{contents, new-IsValid, push-IsValid}
use alilu_os.Keyboard.{Keyboard, new, key_of, translate, read_key, press, character}
use alilu_os.Keyboard.Layout.{key_for, code_of, needs_shift, translate-code_of}
use alilu_os.Keyboard.Modifiers.{
  run, shift_held, ctrl_held, alt_held, run-held, run-caps_lock, event_of, or_port,
  read_key-contents,
}

-- The driver with the shift key down.
abbrev shifted : Keyboard
shifted = record new { shift = true }

translate-code_of_example : translate shifted (code_of b'Q') ≡ (press (character b'Q'), shifted)
unfolding key_for needs_shift
translate-code_of_example = translate-code_of b'Q' shifted (omega arith) (omega arith) refl refl

-- Left shift and ctrl down, right shift tapped, ctrl up.
abbrev chord : List ℕ
chord = 0x2A ∷ 0x1D ∷ 0x36 ∷ 0xB6 ∷ 0x9D ∷ []

run-held_example :
    ((run new chord).shift ≡ shift_held false chord)
    × ((run new chord).ctrl ≡ ctrl_held false chord)
    × ((run new chord).alt ≡ alt_held false chord)
run-held_example =
    run-held chord new (omega arith, (omega arith, (omega arith, (omega arith, (omega arith, tt)))))

-- The release of one shift key ends the shift although the other is down.
run-chord : (run new chord).shift ≡ false
unfolding translate key_of
run-chord = refl

run-caps_lock_example :
    run new (replicate 3 0x3A ++ (0xBA ∷ []))
    ≡ record new { caps_lock = true; caps_lock_pressed = false }
run-caps_lock_example = run-caps_lock 2 new refl

-- One byte waits.
abbrev waiting : State
waiting = record { scancodes = push Interrupts.new 0x1E; ticks = 0 }

read_key-contents_example :
    let (event, irqs, s) = read_key 1 0x30 waiting new in
    let (byte, rest) = Queue.dequeue (contents waiting.scancodes) in
    (contents irqs.scancodes ≡ rest) × ((event, s) ≡ event_of (or_port 1 0x30 byte) new)
read_key-contents_example = read_key-contents 1 0x30 waiting new (push-IsValid 0x1E new-IsValid)
