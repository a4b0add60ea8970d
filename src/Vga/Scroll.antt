-- ===== src/Vga/Scroll.antt =====
-- What scrolling, new lines and clearing leave on the screen, the attribute byte, and what the CRT
-- controller makes of the port writes.
use mathlib.Core.List.{foldl, foldl-append}
use Prim.Native.Nat.{bit_or}
use alilu_os.Common.{ℕ, suc, ◌+◌, ◌*◌, ◌/◌, ◌%◌, ◌^◌, ◌<◌, ◌≡◌, refl, ◌∙◌}
use alilu_os.Common.{Bool, true, false, List, arith, ltb, ◌==◌, if◌then◌else◌}
use alilu_os.Common.{==_iff, Bool-cases, inl, inr, holds_up_to, holds_up_to_lem}
use alilu_os.Ports.{PortWrite}
use alilu_os.Vga.{
  Vga, Color, color_value, color_code, update_cursor, clear, clear_line, scroll, newline,
  hide_cursor, copy_rows, black,
}
use alilu_os.Vga.Memory.{cell, cell-blank_cols, cell-blank_rows, cell-copy_rows}
use alilu_os.Vga.Bounds.{IsValid, memory-update_cursor, row-update_cursor, column-update_cursor}

-- Scrolling moves every row up by one and blanks the last in the current colours; the cursor goes
-- to the start of the last row.
pub scroll-cell :
    (s : Vga) (r c : ℕ)
    → r < 25
    → c < 80
    → (cell (scroll s).memory r c
        ≡ (if r == 24 then (b' ', color_code s) else cell s.memory (suc r) c))
      × ((scroll s).row ≡ 24)
      × ((scroll s).column ≡ 0)
unfolding scroll
scroll-cell s r c h h' = (
  cell-blank_cols 80 (copy_rows 24 s.memory) 24 (color_code s) r c (omega arith) h'
      ∙ ground (arith, cell-copy_rows 24 s.memory r c),
  refl,
  refl,
)

newline_above :
    (s : Vga) → s.row < 24 → newline s ≡ update_cursor (record s { row = s.row + 1; column = 0 })
unfolding newline
newline_above s h = let test : ltb s.row 24 ≡ true = ground arith in rw test

newline_last : (s : Vga) → s.row ≡ 24 → newline s ≡ update_cursor (scroll (record s { column = 0 }))
unfolding newline
newline_last s h = let test : ltb s.row 24 ≡ false = ground arith in rw test

-- A new line on the last row scrolls the screen; on any other row the screen stays as it is and
-- the cursor goes to the start of the next row.
pub newline-cell :
    (s : Vga) (r c : ℕ)
    → s.row < 25
    → r < 25
    → c < 80
    → (cell (newline s).memory r c ≡ (
        if s.row == 24
        then (if r == 24 then (b' ', color_code s) else cell s.memory (suc r) c)
        else cell s.memory r c))
      × ((newline s).row ≡ (if s.row == 24 then 24 else s.row + 1))
      × ((newline s).column ≡ 0)
unfolding color_code
newline-cell s r c v h h' = elim (Bool-cases (s.row == 24)) [
  | inl last ↦
      let home = record s { column = 0 } in
      let moved = scroll-cell home r c h h' in
      rw
        (
          newline_last s (ground arith),
          memory-update_cursor,
          row-update_cursor,
          column-update_cursor,
          last,
        )
        moved
  | inr above ↦
      rw
        (
          newline_above s (ground arith),
          memory-update_cursor,
          row-update_cursor,
          column-update_cursor,
          above,
        )
        (refl, refl, refl)
]

-- Clearing blanks every cell in the current colours and homes the cursor.
pub clear-cell :
    (s : Vga) (r c : ℕ)
    → r < 25
    → c < 80
    → (cell (clear s).memory r c ≡ (b' ', color_code s))
      × ((clear s).row ≡ 0)
      × ((clear s).column ≡ 0)
unfolding clear
clear-cell s r c h h' = (
  rw (memory-update_cursor _) (ground (arith, cell-blank_rows 25 s.memory (color_code s) r c)),
  row-update_cursor _,
  column-update_cursor _,
)

-- `clear_line` blanks the whole of the cursor's row, left of the cursor too, and no other row.
pub clear_line-cell :
    (s : Vga) (r c : ℕ)
    → c < 80
    → (cell (clear_line s).memory r c
        ≡ (if r == s.row then (b' ', color_code s) else cell s.memory r c))
      × ((clear_line s).column ≡ 0)
unfolding clear_line
clear_line-cell s r c h = (
  rw (memory-update_cursor _)
      (ground (arith, cell-blank_cols 80 s.memory s.row (color_code s) r c)),
  column-update_cursor _,
)

-- The test that the attribute byte of two colours keeps them apart.
abbrev keeps_nibbles : ℕ → ℕ → Bool
keeps_nibbles f b = bit_or ((b * 16) % 256) f == (b * 16 + f)

nibbles : (b f : ℕ) → b < 16 → f < 16 → bit_or ((b * 16) % 256) f ≡ b * 16 + f
nibbles b f hb hf =
    let rows : holds_up_to (λ f. holds_up_to (keeps_nibbles f) 16) 16 ≡ true = refl in
    let row = holds_up_to_lem (λ f. holds_up_to (keeps_nibbles f) 16) f 16 hf rows in
    (==_iff _ _).0 (holds_up_to_lem (keeps_nibbles f) b 16 hb row)

pub color_value-lt : (c : Color) → color_value c < 16
color_value-lt black = omega arith
color_value-lt _ = omega arith

-- The attribute byte holds the foreground in its low and the background in its high four bits.
pub color_code-nibbles :
    (s : Vga)
    → (color_code s % 16 ≡ color_value s.foreground)
      × (color_code s / 16 ≡ color_value s.background)
unfolding color_code
color_code-nibbles s = omega (
  arith,
  nibbles (color_value s.background) (color_value s.foreground) (color_value-lt s.background)
      (color_value-lt s.foreground),
  color_value-lt s.foreground,
)

-- The CRT controller: port 0x3D4 selects a register, port 0x3D5 writes it.
pub record Crt : Type 0 where
  pub index : ℕ
  pub start : ℕ
  pub high : ℕ
  pub low : ℕ

abbrev pub receive : Crt → PortWrite → Crt
receive crt w =
    if w.port == 0x3D4
    then record crt { index = w.value }
    else if w.port == 0x3D5
    then (if crt.index == 0x0A
        then record crt { start = w.value }
        else if crt.index == 0x0E
        then record crt { high = w.value }
        else if crt.index == 0x0F
        then record crt { low = w.value }
        else crt)
    else crt

-- The controller after a log of port writes.
abbrev pub controller : Crt → List PortWrite → Crt
controller = foldl receive

-- After a cursor update with the cursor on, the controller shows the cursor at the driver's
-- position: its location registers hold `row * 80 + column` and its disable bit is clear.
pub update_cursor-controller :
    (s : Vga) (crt : Crt)
    → IsValid s
    → s.cursor_visible ≡ true
    → let crt' = controller crt (update_cursor s).ports in
      (crt'.high * 2 ^ 8 + crt'.low ≡ s.row * 80 + s.column) × ((crt'.start / 2 ^ 5) % 2 ≡ 0)
unfolding update_cursor
update_cursor-controller s crt v on = rw (on, foldl-append) (omega arith)

-- Hiding the cursor sets the controller's disable bit, and a later update leaves it set.
pub hide_cursor-controller :
    (s : Vga) (crt : Crt)
    → let crt' = controller crt (update_cursor (hide_cursor s)).ports in
      (crt'.start / 2 ^ 5) % 2 ≡ 1
unfolding update_cursor hide_cursor
hide_cursor-controller s crt = rw foldl-append
