-- ===== src/Vga.antt =====
-- src/vga.rs: the text-mode driver. The 4000 bytes from 0xB8000 on are a function from offsets to
-- bytes, and the CRT controller's ports a log of what is written to them.
pub mod Memory
pub mod Bounds
pub mod Loops
pub mod Scroll
pub mod Text
mod Tests
use alilu_os.Common.{ℕ, zero, suc, ◌+◌, ◌-◌, ◌*◌, ◌/◌, ◌%◌, ◌^◌, Bool, true, false, List, []}
use alilu_os.Common.{◌∷◌, ◌++◌, ◌==◌, ltb, leb, if◌then◌else◌, min, ◌||◌}
use Prim.Native.Nat.{bit_or}
use alilu_os.Ports.{PortWrite, outb}

pub data Color : Type 0 where
  black blue green cyan red magenta brown light_gray : Color
  dark_gray light_blue light_green light_cyan light_red pink yellow white : Color

-- `color as u8`
abbrev pub color_value : Color → ℕ
color_value black = 0
color_value blue = 1
color_value green = 2
color_value cyan = 3
color_value red = 4
color_value magenta = 5
color_value brown = 6
color_value light_gray = 7
color_value dark_gray = 8
color_value light_blue = 9
color_value light_green = 10
color_value light_cyan = 11
color_value light_red = 12
color_value pink = 13
color_value yellow = 14
color_value white = 15

abbrev pub buffer_width : ℕ
buffer_width = 80

abbrev pub buffer_height : ℕ
buffer_height = 25

-- Bytes by their offset from `BUFFER_ADDRESS`.
abbrev pub Memory : Type 0
Memory = ℕ → ℕ

-- `write_volatile`
abbrev pub write_volatile : Memory → ℕ → ℕ → Memory
write_volatile m a v = λ i. if i == a then v else m i

-- `VGA`, with the memory and the ports that it drives.
pub record Vga : Type 0 where
  pub row : ℕ
  pub column : ℕ
  pub foreground : Color
  pub background : Color
  pub cursor_visible : Bool
  pub memory : Memory
  pub ports : List PortWrite

-- `VGA::new`, over memory and ports in any state.
pub new : Memory → List PortWrite → Vga
new m ports = record {
  row = 0;
  column = 0;
  foreground = white;
  background = black;
  cursor_visible = true;
  memory = m;
  ports = ports;
}

-- `(row * BUFFER_WIDTH + col) * 2`
abbrev pub cell_offset : ℕ → ℕ → ℕ
cell_offset row col = (row * buffer_width + col) * 2

pub store_cell : Memory → (row col byte color : ℕ) → Memory
store_cell m row col byte color =
    write_volatile (write_volatile m (cell_offset row col) byte) (cell_offset row col + 1) color

pub color_code : Vga → ℕ
color_code s = bit_or ((color_value s.background * 2 ^ 4) % 2 ^ 8) (color_value s.foreground)

pub write_cell : Vga → (row col byte color : ℕ) → Vga
write_cell s row col byte color = record s { memory = store_cell s.memory row col byte color }

pub update_cursor : Vga → Vga
update_cursor s =
    let pos = (s.row * buffer_width + s.column) % 2 ^ 16 in
    if s.cursor_visible
    then record s {
      ports =
          s.ports
          ++ (outb 0x3D4 0x0F
              ∷ outb 0x3D5 (pos % 2 ^ 8)
              ∷ outb 0x3D4 0x0E
              ∷ outb 0x3D5 ((pos / 2 ^ 8) % 2 ^ 8)
              ∷ outb 0x3D4 0x0A
              ∷ outb 0x3D5 0
              ∷ []);
    }
    else s

-- `for col in 0..n { self.write_cell(row, col, b' ', color) }`
pub blank_cols : ℕ → Memory → (row color : ℕ) → Memory
blank_cols zero m row color = m
blank_cols (suc col) m row color = store_cell (blank_cols col m row color) row col b' ' color

-- `for row in 0..n`, the outer loop of `clear`.
pub blank_rows : ℕ → Memory → (color : ℕ) → Memory
blank_rows zero m color = m
blank_rows (suc row) m color = blank_cols buffer_width (blank_rows row m color) row color

pub clear : Vga → Vga
clear s =
    update_cursor
      (record s { memory = blank_rows buffer_height s.memory (color_code s); row = 0; column = 0 })

pub init : Vga → Vga
init s = update_cursor (clear s)

pub clear_line : Vga → Vga
clear_line s =
    update_cursor
      (record s { memory = blank_cols buffer_width s.memory s.row (color_code s); column = 0 })

-- One 16-bit copy of `scroll`, from `(row, col)` to the cell above it.
pub copy_cell : Memory → (row col : ℕ) → Memory
copy_cell m row col =
    let from = cell_offset row col in
    let to = cell_offset (row - 1) col in
    write_volatile (write_volatile m to (m from)) (to + 1) (m (from + 1))

-- `for col in 0..n` of the copy.
pub copy_cols : ℕ → Memory → (row : ℕ) → Memory
copy_cols zero m row = m
copy_cols (suc col) m row = copy_cell (copy_cols col m row) row col

-- `for row in 1..n + 1` of the copy.
pub copy_rows : ℕ → Memory → Memory
copy_rows zero m = m
copy_rows (suc row) m = copy_cols buffer_width (copy_rows row m) (suc row)

pub scroll : Vga → Vga
scroll s = record s {
  memory =
      blank_cols buffer_width (copy_rows (buffer_height - 1) s.memory) (buffer_height - 1)
        (color_code s);
  row = buffer_height - 1;
  column = 0;
}

pub newline : Vga → Vga
newline s =
    let s' = record s { column = 0 } in
    update_cursor
      (if ltb s.row (buffer_height - 1) then record s' { row = s.row + 1 } else scroll s')

pub put_char_at : Vga → (row col c : ℕ) → Vga
put_char_at s row col c =
    if leb buffer_height row || leb buffer_width col
    then s
    else write_cell s row col (c % 2 ^ 8) (color_code s)

-- The tail of `put_char`: draw, advance, move the cursor.
pub put_and_advance : Vga → ℕ → Vga
put_and_advance s c =
    let s' = put_char_at s s.row s.column c in update_cursor (record s' { column = s.column + 1 })

pub put_char : Vga → ℕ → Vga
put_char s c =
    if c == b'\n'
    then newline s
    else (if leb buffer_width s.column then put_and_advance (newline s) c else put_and_advance s c)

pub write : Vga → List ℕ → Vga
write s [] = s
write s (c ∷ text) = write (put_char s c) text

pub println : Vga → List ℕ → Vga
println s text = newline (write s text)

pub backspace : Vga → Vga
backspace s = update_cursor (
    if ltb 0 s.column
    then write_cell (record s { column = s.column - 1 }) s.row (s.column - 1) b' ' (color_code s)
    else (if ltb 0 s.row
        then write_cell (record s { row = s.row - 1; column = buffer_width - 1 }) (s.row - 1)
            (buffer_width - 1) b' ' (color_code s)
        else s))

pub set_color : Vga → Color → Color → Vga
set_color s fg bg = record s { foreground = fg; background = bg }

pub get_cursor_position : Vga → ℕ × ℕ
get_cursor_position s = (s.row, s.column)

pub set_cursor_position : Vga → (row col : ℕ) → Vga
set_cursor_position s row col =
    update_cursor
      (record s { row = min row (buffer_height - 1); column = min col (buffer_width - 1) })

pub show_cursor : Vga → Vga
show_cursor s = update_cursor (record s { cursor_visible = true })

pub hide_cursor : Vga → Vga
hide_cursor s = record s {
  cursor_visible = false;
  ports = s.ports ++ (outb 0x3D4 0x0A ∷ outb 0x3D5 0x20 ∷ []);
}
