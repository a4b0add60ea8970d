-- ===== src/Vga/Memory.antt =====
-- The text buffer as a grid of cells, and what the loops of the driver leave in it.
use alilu_os.Common.{ℕ, zero, suc, ◌+◌, ◌≤◌, ◌<◌, ◌≡◌, refl, ◌&&◌, ap₂, ◌∙◌, arith}
use alilu_os.Common.{ltb, ◌==◌, if◌then◌else◌}
use alilu_os.Vga.{Memory, cell_offset, store_cell, blank_cols, blank_rows, copy_cell, copy_cols}
use alilu_os.Vga.{copy_rows}

-- The character and the attribute at a position.
abbrev pub cell : Memory → ℕ → ℕ → ℕ × ℕ
cell m row col = (m (cell_offset row col), m (cell_offset row col + 1))

-- The buffer's 4000 bytes are the only ones that differ.
abbrev pub SameOutside : Memory → Memory → Type 0
SameOutside m m' = (i : ℕ) → 4000 ≤ i → m' i ≡ m i

pub cell-store_cell :
    (m : Memory) (row col b k r c : ℕ)
    → col < 80
    → c < 80
    → cell (store_cell m row col b k) r c
      ≡ (if (r == row) && (c == col) then (b, k) else cell m r c)
unfolding store_cell
cell-store_cell m row col b k r c h h' = ground arith

pub store_cell_outside :
    (m : Memory) (row col b k i : ℕ)
    → row < 25
    → col < 80
    → 4000 ≤ i
    → store_cell m row col b k i ≡ m i
unfolding store_cell
store_cell_outside m row col b k i h h' h'' = ground arith

pub cell-blank_cols :
    (n : ℕ) (m : Memory) (row color r c : ℕ)
    → n ≤ 80
    → c < 80
    → cell (blank_cols n m row color) r c
      ≡ (if (r == row) && ltb c n then (b' ', color) else cell m r c)
unfolding blank_cols
cell-blank_cols zero m row color r c h h' = ground arith
cell-blank_cols (suc n) m row color r c h h' = ground (
  arith,
  cell-store_cell (blank_cols n m row color) row n b' ' color r c,
  cell-blank_cols n m row color r c,
)

pub blank_cols_outside :
    (n : ℕ) (m : Memory) (row color i : ℕ)
    → n ≤ 80
    → row < 25
    → 4000 ≤ i
    → blank_cols n m row color i ≡ m i
unfolding blank_cols
blank_cols_outside zero m row color i h h' h'' = refl
blank_cols_outside (suc n) m row color i h h' h'' = ground (
  arith,
  store_cell_outside (blank_cols n m row color) row n b' ' color i,
  blank_cols_outside n m row color i,
)

pub cell-blank_rows :
    (n : ℕ) (m : Memory) (color r c : ℕ)
    → c < 80
    → cell (blank_rows n m color) r c ≡ (if ltb r n then (b' ', color) else cell m r c)
unfolding blank_rows
cell-blank_rows zero m color r c h = ground arith
cell-blank_rows (suc n) m color r c h =
    ground
      (arith, cell-blank_cols 80 (blank_rows n m color) n color r c, cell-blank_rows n m color r c)

pub blank_rows_outside :
    (n : ℕ) (m : Memory) (color i : ℕ) → n ≤ 25 → 4000 ≤ i → blank_rows n m color i ≡ m i
unfolding blank_rows
blank_rows_outside zero m color i h h' = refl
blank_rows_outside (suc n) m color i h h' =
    ground (
      arith,
      blank_cols_outside 80 (blank_rows n m color) n color i,
      blank_rows_outside n m color i,
    )

cell-copy_cell :
    (m : Memory) (row col r c : ℕ)
    → col < 80
    → c < 80
    → cell (copy_cell m (suc row) col) r c
      ≡ (if (r == row) && (c == col) then cell m (suc row) col else cell m r c)
unfolding copy_cell
cell-copy_cell m row col r c h h' = ground arith

copy_cell_outside :
    (m : Memory) (row col i : ℕ)
    → row < 25
    → col < 80
    → 4000 ≤ i
    → copy_cell m (suc row) col i ≡ m i
unfolding copy_cell
copy_cell_outside m row col i h h' h'' = ground arith

cell-copy_cols :
    (n : ℕ) (m : Memory) (row r c : ℕ)
    → n ≤ 80
    → c < 80
    → cell (copy_cols n m (suc row)) r c
      ≡ (if (r == row) && ltb c n then cell m (suc row) c else cell m r c)
unfolding copy_cols
cell-copy_cols zero m row r c h h' = ground arith
cell-copy_cols (suc n) m row r c h h' = ground (
  arith,
  cell-copy_cell (copy_cols n m (suc row)) row n r c,
  cell-copy_cols n m row r c,
  cell-copy_cols n m row (suc row) n,
)

copy_cols_outside :
    (n : ℕ) (m : Memory) (row i : ℕ)
    → n ≤ 80
    → row < 25
    → 4000 ≤ i
    → copy_cols n m (suc row) i ≡ m i
unfolding copy_cols
copy_cols_outside zero m row i h h' h'' = refl
copy_cols_outside (suc n) m row i h h' h'' =
    ground (arith, copy_cell_outside (copy_cols n m (suc row)) row n i, copy_cols_outside n m row i)

-- One more row of the copy, over any grid `f`.
one_row :
    (f : ℕ → ℕ × ℕ) (n r c : ℕ)
    → c < 80
    → (if (r == n) && ltb c 80
        then (if ltb (suc n) n then f (suc (suc n)) else f (suc n))
        else (if ltb r n then f (suc r) else f r))
      ≡ (if ltb r (suc n) then f (suc r) else f r)
one_row f n r c h = ground arith

-- The rows come out one higher: no source row has been overwritten before it is copied.
pub cell-copy_rows :
    (n : ℕ) (m : Memory) (r c : ℕ)
    → c < 80
    → cell (copy_rows n m) r c ≡ (if ltb r n then cell m (suc r) c else cell m r c)
unfolding copy_rows
cell-copy_rows zero m r c h = ground arith
cell-copy_rows (suc n) m r c h =
    cell-copy_cols 80 (copy_rows n m) n r c (omega arith) h
    ∙ ap₂ (λ x y. if (r == n) && ltb c 80 then x else y) (cell-copy_rows n m (suc n) c h)
        (cell-copy_rows n m r c h)
    ∙ one_row (λ row. cell m row c) n r c h

pub copy_rows_outside : (n : ℕ) (m : Memory) (i : ℕ) → n ≤ 25 → 4000 ≤ i → copy_rows n m i ≡ m i
unfolding copy_rows
copy_rows_outside zero m i h h' = refl
copy_rows_outside (suc n) m i h h' =
    ground (arith, copy_cols_outside 80 (copy_rows n m) n i, copy_rows_outside n m i)
