-- ===== src/Vga/Text.antt =====
-- Text on one row, and the backspace that takes a character back.
use alilu_os.Common.{ℕ, suc, ◌+◌, ◌-◌, ◌%◌, ◌^◌, ◌≤◌, ◌<◌, ◌≡◌, refl, ◌∙◌, ◌≢◌, true, false}
use alilu_os.Common.{
  ap, ◌||◌, ◌&&◌, List, [], ◌∷◌, arith, ltb, leb, ◌==◌, if◌then◌else◌, length, get_or,
}
use alilu_os.Vga.{
  Vga, color_code, write_cell, update_cursor, put_char_at, put_and_advance, put_char, write,
  backspace,
}
use alilu_os.Vga.Memory.{cell, cell-store_cell}
use alilu_os.Vga.Bounds.{
  IsValid, valid, put_char-Safe, memory-update_cursor, row-update_cursor, column-update_cursor,
}

-- A printable character goes to the cursor's cell, in the current colours, and the cursor moves on.
record Drawn (s : Vga) (c : ℕ) (s' : Vga) : Type 0 where
  row : s'.row ≡ s.row
  column : s'.column ≡ s.column + 1
  colors : color_code s' ≡ color_code s
  cells :
      (r q : ℕ)
      → q < 80
      → cell s'.memory r q
        ≡ (if (r == s.row) && (q == s.column) then (c % 256, color_code s) else cell s.memory r q)

color_code-update_cursor : (s : Vga) → color_code (update_cursor s) ≡ color_code s
unfolding update_cursor color_code
color_code-update_cursor s = ground arith

put_and_advance_within :
    (s : Vga) (c : ℕ)
    → s.row < 25
    → s.column < 80
    → put_and_advance s c
      ≡ update_cursor (record (write_cell s s.row s.column (c % 2 ^ 8) (color_code s)) {
        column = s.column + 1;
      })
unfolding put_and_advance put_char_at
put_and_advance_within s c h h' =
    let within : (leb 25 s.row || leb 80 s.column) ≡ false = ground arith in rw within

put_and_advance-Drawn :
    (s : Vga) (c : ℕ) → s.row < 25 → s.column < 80 → Drawn s c (put_and_advance s c)
unfolding write_cell color_code
put_and_advance-Drawn s c h h' = rw (put_and_advance_within s c h h') (record {
  row = row-update_cursor _;
  column = column-update_cursor _;
  colors = color_code-update_cursor _;
  cells = λ r q g.
      rw (memory-update_cursor _)
        (cell-store_cell s.memory s.row s.column (c % 256) (color_code s) r q h' g);
})

put_char-Drawn :
    (s : Vga) (c : ℕ) → IsValid s → c ≢ b'\n' → s.column < 80 → Drawn s c (put_char s c)
unfolding put_char
put_char-Drawn s c v p h =
    let plain : (c == b'\n') ≡ false = ground arith in
    let within : leb 80 s.column ≡ false = ground arith in
    rw (plain, within) (put_and_advance-Drawn s c v.row_in h)

-- No character of the text starts a new line.
abbrev pub Plain : List ℕ → Type 0
Plain [] = Unit
Plain (c ∷ text) = (c ≢ b'\n') × Plain text

get_or-tail :
    (c : ℕ) (text : List ℕ) (a b : ℕ)
    → a < b
    → get_or (c ∷ text) (b - a) 0 ≡ get_or text (b - (a + 1)) 0
get_or-tail c text a b h =
    let e : b - a ≡ suc (b - (a + 1)) = omega arith in ap (λ i. get_or (c ∷ text) i 0) e

get_or-head : (c : ℕ) (text : List ℕ) (a b : ℕ) → a ≡ b → get_or (c ∷ text) (b - a) 0 ≡ c
get_or-head c text a b h = let e : b - a ≡ 0 = omega arith in ap (λ i. get_or (c ∷ text) i 0) e

-- The first character's cell and the rest's, put together.
one_more :
    (row col c : ℕ) (text : List ℕ) (k : ℕ) (old : ℕ × ℕ) (r q : ℕ)
    → (if (r == row) && (leb (col + 1) q && ltb q (col + 1 + length text))
        then (get_or text (q - (col + 1)) 0 % 256, k)
        else (if (r == row) && (q == col) then (c % 256, k) else old))
      ≡ (if (r == row) && (leb col q && ltb q (col + length (c ∷ text)))
          then (get_or (c ∷ text) (q - col) 0 % 256, k)
          else old)
one_more row col c text k old r q =
    ground (arith, get_or-tail c text col q, get_or-head c text col q)

-- Text without a new line that fits in the cursor's row goes there character by character, in the
-- current colours; no other cell changes, and the cursor ends behind the text.
pub write-cell :
    (text : List ℕ) (s : Vga) (r q : ℕ)
    → IsValid s
    → Plain text
    → s.column + length text ≤ 80
    → q < 80
    → (cell (write s text).memory r q ≡ (
        if (r == s.row) && (leb s.column q && ltb q (s.column + length text))
        then (get_or text (q - s.column) 0 % 256, color_code s)
        else cell s.memory r q))
      × ((write s text).row ≡ s.row)
      × ((write s text).column ≡ s.column + length text)
unfolding write put_char color_code
write-cell [] s r q v p h g = (ground arith, refl, omega arith)
write-cell (c ∷ text) s r q v p h g =
    let d = put_char-Drawn s c v p.0 (omega arith) in
    let ih =
      write-cell text (put_char s c) r q (valid (put_char-Safe v c)) p.1 (omega (arith, d.column))
        g in
    (
      (rw (d.colors, d.row, d.column) at ih.0)
          ∙ (rw (d.cells r q g)
              (one_more s.row s.column c text (color_code s) (cell s.memory r q) r q)),
      ih.1 ∙ d.row,
      omega (arith, ih.2, d.column),
    )

backspace_inside :
    (s : Vga)
    → 0 < s.column
    → backspace s
      ≡ update_cursor
          (write_cell (record s { column = s.column - 1 }) s.row (s.column - 1) b' ' (color_code s))
unfolding backspace
backspace_inside s h = let test : ltb 0 s.column ≡ true = ground arith in rw test

-- A backspace right after a printable character blanks the character's cell, puts the cursor back
-- on it and changes no other cell.
pub backspace-put_char :
    (s : Vga) (c r q : ℕ)
    → IsValid s
    → c ≢ b'\n'
    → s.column < 80
    → q < 80
    → let s' = backspace (put_char s c) in
      (cell s'.memory r q
        ≡ (if (r == s.row) && (q == s.column) then (b' ', color_code s) else cell s.memory r q))
      × (s'.row ≡ s.row)
      × (s'.column ≡ s.column)
unfolding write_cell
backspace-put_char s c r q v p h g =
    let d = put_char-Drawn s c v p h in
    let back : (put_char s c).column - 1 ≡ s.column = omega (arith, d.column) in
    rw
      (
        backspace_inside (put_char s c) (omega (arith, d.column)),
        memory-update_cursor,
        row-update_cursor,
        column-update_cursor,
      )
      (
        cell-store_cell (put_char s c).memory (put_char s c).row ((put_char s c).column - 1) b' '
              (color_code (put_char s c)) r q (omega (arith, d.column)) g
            ∙ rw (d.colors, d.row, back, d.cells r q g) (ground arith),
        d.row,
        back,
      )
