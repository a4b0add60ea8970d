-- ===== src/Vga/Tests.antt =====
-- Runs of the driver, and its theorems at concrete screens.
use alilu_os.Common.{◌+◌, ◌*◌, ◌/◌, ◌%◌, ◌^◌, ◌≡◌, refl, ◌&&◌, [], ◌∷◌, arith, List, ◌-◌}
use alilu_os.Common.{ltb, leb, ◌==◌, if◌then◌else◌, get_or}
use alilu_os.Vga.{Vga, Memory, new, color_code, scroll, write, update_cursor, red, black}
use alilu_os.Vga.Memory.{cell}
use alilu_os.Vga.Bounds.{
  IsValid, Safe, Op, print_line, erase, wipe, color, move, draw, run, run-Safe,
}
use alilu_os.Vga.Scroll.{scroll-cell, Crt, controller, update_cursor-controller}
use alilu_os.Vga.Text.{write-cell}

-- A screen whose bytes tell their offsets apart.
abbrev ramp : Memory
ramp = λ i. i

abbrev screen : Vga
screen = record (new ramp []) { row = 24; column = 3; foreground = red }

screen-IsValid : IsValid screen
unfolding new
screen-IsValid = record { row_in = omega arith; column_in = omega arith }

abbrev session : List Op
session =
    wipe
    ∷ color red black
    ∷ print_line (b'H' ∷ b'i' ∷ [])
    ∷ move 24 79
    ∷ draw 3 4 b'+'
    ∷ print_line (b'!' ∷ b'?' ∷ [])
    ∷ erase
    ∷ []

run-Safe_example : Safe screen (run session screen)
run-Safe_example = run-Safe session screen-IsValid

scroll-cell_example :
    (cell (scroll screen).memory 5 7
      ≡ (if 5 == 24 then (b' ', color_code screen) else cell screen.memory 6 7))
    × ((scroll screen).row ≡ 24)
    × ((scroll screen).column ≡ 0)
scroll-cell_example = scroll-cell screen 5 7 (omega arith) (omega arith)

abbrev crt : Crt
crt = record { index = 0; start = 0x20; high = 0; low = 0 }

update_cursor-controller_example :
    let crt' = controller crt (update_cursor screen).ports in
    (crt'.high * 2 ^ 8 + crt'.low ≡ screen.row * 80 + screen.column)
    × ((crt'.start / 2 ^ 5) % 2 ≡ 0)
unfolding new
update_cursor-controller_example = update_cursor-controller screen crt screen-IsValid refl

write-cell_example :
    let s' = write screen (b'o' ∷ b'k' ∷ []) in
    (cell s'.memory 24 4 ≡ (
      if (24 == screen.row) && (leb screen.column 4 && ltb 4 (screen.column + 2))
      then (get_or (b'o' ∷ b'k' ∷ []) (4 - screen.column) 0 % 256, color_code screen)
      else cell screen.memory 24 4))
    × (s'.row ≡ screen.row)
    × (s'.column ≡ screen.column + 2)
unfolding new
write-cell_example =
    write-cell (b'o' ∷ b'k' ∷ []) screen 24 4 screen-IsValid (omega arith) (omega arith)
      (omega arith)
