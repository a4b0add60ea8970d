-- ===== src/Vga/Bounds.antt =====
-- Where the cursor may stand and which bytes a call of the driver writes.
use alilu_os.Common.{Bool, ℕ, ◌-◌, ◌≤◌, ◌<◌, ◌≡◌, refl, ◌∙◌, true, false, List, [], ◌∷◌}
use alilu_os.Common.{arith, ltb, leb, ◌==◌, ◌||◌, if◌then◌else◌}
use alilu_os.Vga.{
  Vga, Color, color_code, write_cell, update_cursor, clear, init, clear_line, scroll, newline,
  put_char_at, put_and_advance, put_char, write, println, backspace, set_color, set_cursor_position,
  show_cursor, hide_cursor, copy_rows,
}
use alilu_os.Vga.Memory.{
  SameOutside, store_cell_outside, blank_cols_outside, blank_rows_outside, copy_rows_outside,
}

-- `column` may stand just past the row: the next character wraps first.
pub record IsValid (s : Vga) : Type 0 where
  pub row_in : s.row < 25
  pub column_in : s.column ≤ 80

-- `s'` is valid, and its memory is that of `s` outside the text buffer.
pub record Safe (s s' : Vga) : Type 0 where
  pub row_in : s'.row < 25
  pub column_in : s'.column ≤ 80
  pub outside : SameOutside s.memory s'.memory

pub valid : {s s' : Vga} → Safe s s' → IsValid s'
valid p = record { row_in = p.row_in; column_in = p.column_in }

pub Safe-refl : {s : Vga} → IsValid s → Safe s s
Safe-refl v = record { row_in = v.row_in; column_in = v.column_in; outside = λ i h. refl }

pub Safe-trans : {s t u : Vga} → Safe s t → Safe t u → Safe s u
Safe-trans p q = record {
  row_in = q.row_in;
  column_in = q.column_in;
  outside = λ i h. q.outside i h ∙ p.outside i h;
}

if-Safe :
    (b : Bool) {s t u : Vga}
    → (b ≡ true → Safe s t)
    → (b ≡ false → Safe s u)
    → Safe s (if b then t else u)
if-Safe true p q = p refl
if-Safe false p q = q refl

-- Moving the hardware cursor changes only the ports.
pub row-update_cursor : (s : Vga) → (update_cursor s).row ≡ s.row
unfolding update_cursor
row-update_cursor s = ground arith

pub column-update_cursor : (s : Vga) → (update_cursor s).column ≡ s.column
unfolding update_cursor
column-update_cursor s = ground arith

pub memory-update_cursor : (s : Vga) → (update_cursor s).memory ≡ s.memory
unfolding update_cursor
memory-update_cursor s = ground arith

update_cursor-Safe : {s : Vga} (t : Vga) → Safe s t → Safe s (update_cursor t)
update_cursor-Safe t p = record {
  row_in = rw (row-update_cursor t) p.row_in;
  column_in = rw (column-update_cursor t) p.column_in;
  outside = λ i h. rw (memory-update_cursor t) (p.outside i h);
}

module _ {s : Vga} (v : IsValid s) where
  pub clear-Safe : Safe s (clear s)
  unfolding clear
  clear-Safe = update_cursor-Safe _ (record {
    row_in = omega arith;
    column_in = omega arith;
    outside = λ i h. blank_rows_outside 25 s.memory (color_code s) i (omega arith) h;
  })

  clear_line-Safe : Safe s (clear_line s)
  unfolding clear_line
  clear_line-Safe = update_cursor-Safe _ (record {
    row_in = v.row_in;
    column_in = omega arith;
    outside = λ i h. blank_cols_outside 80 s.memory s.row (color_code s) i (omega arith) v.row_in h;
  })

  scroll-Safe : Safe s (scroll s)
  unfolding scroll
  scroll-Safe = record {
    row_in = omega arith;
    column_in = omega arith;
    outside = λ i h.
        blank_cols_outside 80 (copy_rows 24 s.memory) 24 (color_code s) i (omega arith)
          (omega arith) h
        ∙ copy_rows_outside 24 s.memory i (omega arith) h;
  }

  -- A write of a cell on the screen, with the cursor anywhere on it.
  write_cell-Safe :
      (row col row' col' b k : ℕ)
      → row < 25
      → col ≤ 80
      → row' < 25
      → col' < 80
      → Safe s (write_cell (record s { row = row; column = col }) row' col' b k)
  unfolding write_cell
  write_cell-Safe row col row' col' b k h h' g g' = record {
    row_in = h;
    column_in = h';
    outside = λ i o. store_cell_outside s.memory row' col' b k i g g' o;
  }

  put_char_at-Safe : (row col c : ℕ) → Safe s (put_char_at s row col c)
  unfolding put_char_at
  put_char_at-Safe row col c =
      if-Safe (leb 25 row || leb 80 col) (λ out. Safe-refl v)
        (λ within.
          write_cell-Safe s.row s.column row col _ _ v.row_in v.column_in (ground arith)
            (ground arith))

  set_color-Safe : (fg bg : Color) → Safe s (set_color s fg bg)
  unfolding set_color
  set_color-Safe fg bg = record {
    row_in = v.row_in;
    column_in = v.column_in;
    outside = λ i h. refl;
  }

  set_cursor_position-Safe : (row col : ℕ) → Safe s (set_cursor_position s row col)
  unfolding set_cursor_position
  set_cursor_position-Safe row col =
      update_cursor-Safe _
        (record { row_in = omega arith; column_in = omega arith; outside = λ i h. refl })

  show_cursor-Safe : Safe s (show_cursor s)
  unfolding show_cursor
  show_cursor-Safe =
      update_cursor-Safe _
        (record { row_in = v.row_in; column_in = v.column_in; outside = λ i h. refl })

  hide_cursor-Safe : Safe s (hide_cursor s)
  unfolding hide_cursor
  hide_cursor-Safe = record { row_in = v.row_in; column_in = v.column_in; outside = λ i h. refl }

pub column-put_char_at : (s : Vga) (row col c : ℕ) → (put_char_at s row col c).column ≡ s.column
unfolding put_char_at write_cell
column-put_char_at s row col c = ground arith

pub row-put_char_at : (s : Vga) (row col c : ℕ) → (put_char_at s row col c).row ≡ s.row
unfolding put_char_at write_cell
row-put_char_at s row col c = ground arith

pub column-newline : (s : Vga) → (newline s).column ≡ 0
unfolding newline scroll
column-newline s = column-update_cursor _ ∙ ground arith

newline-Safe : {s : Vga} → IsValid s → Safe s (newline s)
unfolding newline
newline-Safe {s} v = update_cursor-Safe _ (
    if-Safe (ltb s.row 24)
      (λ above. record { row_in = ground arith; column_in = omega arith; outside = λ i h. refl })
      (λ last.
        let p =
          scroll-Safe {s = record s { column = 0 }}
            (record { row_in = v.row_in; column_in = omega arith }) in
        record { row_in = p.row_in; column_in = p.column_in; outside = p.outside }))

put_and_advance-Safe :
    {s : Vga} → IsValid s → (c : ℕ) → s.column < 80 → Safe s (put_and_advance s c)
unfolding put_and_advance
put_and_advance-Safe {s} v c h =
    let p = put_char_at-Safe v s.row s.column c in
    update_cursor-Safe _ (record {
      row_in = p.row_in;
      column_in = omega (arith, column-put_char_at s s.row s.column c);
      outside = p.outside;
    })

pub put_char-Safe : {s : Vga} → IsValid s → (c : ℕ) → Safe s (put_char s c)
unfolding put_char
put_char-Safe {s} v c =
    if-Safe (c == b'\n') (λ _. newline-Safe v)
      (λ _.
        if-Safe (leb 80 s.column)
          (λ _.
            let p = newline-Safe v in
            Safe-trans p (put_and_advance-Safe (valid p) c (omega (arith, column-newline s))))
          (λ h. put_and_advance-Safe v c (ground arith)))

write-Safe : (text : List ℕ) {s : Vga} → IsValid s → Safe s (write s text)
unfolding write
write-Safe [] v = Safe-refl v
write-Safe (c ∷ text) v = let p = put_char-Safe v c in Safe-trans p (write-Safe text (valid p))

println-Safe : (text : List ℕ) {s : Vga} → IsValid s → Safe s (println s text)
unfolding println
println-Safe text v = let p = write-Safe text v in Safe-trans p (newline-Safe (valid p))

backspace-Safe : {s : Vga} → IsValid s → Safe s (backspace s)
unfolding backspace
backspace-Safe {s} v = update_cursor-Safe _ (
    if-Safe (ltb 0 s.column)
      (λ inside.
        write_cell-Safe v s.row (s.column - 1) s.row (s.column - 1) _ _ v.row_in (omega arith)
          v.row_in (ground arith))
      (λ _.
        if-Safe (ltb 0 s.row)
          (λ below.
            write_cell-Safe v (s.row - 1) 79 (s.row - 1) 79 _ _ (omega arith) (omega arith)
              (omega arith) (omega arith))
          (λ _. Safe-refl v)))

-- A call of the driver.
pub data Op : Type 0 where
  print : List ℕ → Op
  print_line : List ℕ → Op
  draw : (row col c : ℕ) → Op
  erase wipe wipe_line show hide start : Op
  color : Color → Color → Op
  move : ℕ → ℕ → Op

pub apply : Op → Vga → Vga
apply (print text) s = write s text
apply (print_line text) s = println s text
apply (draw row col c) s = put_char_at s row col c
apply erase s = backspace s
apply wipe s = clear s
apply wipe_line s = clear_line s
apply show s = show_cursor s
apply hide s = hide_cursor s
apply start s = init s
apply (color fg bg) s = set_color s fg bg
apply (move row col) s = set_cursor_position s row col

apply-Safe : (op : Op) {s : Vga} → IsValid s → Safe s (apply op s)
unfolding apply init
apply-Safe (print text) v = write-Safe text v
apply-Safe (print_line text) v = println-Safe text v
apply-Safe (draw row col c) v = put_char_at-Safe v row col c
apply-Safe erase v = backspace-Safe v
apply-Safe wipe v = clear-Safe v
apply-Safe wipe_line v = clear_line-Safe v
apply-Safe show v = show_cursor-Safe v
apply-Safe hide v = hide_cursor-Safe v
apply-Safe start v = update_cursor-Safe _ (clear-Safe v)
apply-Safe (color fg bg) v = set_color-Safe v fg bg
apply-Safe (move row col) v = set_cursor_position-Safe v row col

pub run : List Op → Vga → Vga
run [] s = s
run (op ∷ ops) s = run ops (apply op s)

-- From a valid state, any sequence of calls of the driver ends in a valid state, with the cursor's
-- row below 25 and its column at most 80, and leaves every byte outside the text buffer alone.
pub run-Safe : (ops : List Op) {s : Vga} → IsValid s → Safe s (run ops s)
unfolding run
run-Safe [] v = Safe-refl v
run-Safe (op ∷ ops) v = let p = apply-Safe op v in Safe-trans p (run-Safe ops (valid p))
