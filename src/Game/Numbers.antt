-- ===== src/Game/Numbers.antt =====
-- `print_num_at` of src/game.rs against the decimal digits of a number, and the rounds of its loop.
use native.Mathlib.Nat.{pow-suc}
use mathlib.Core.List.{reverse, reverse-append, append_assoc, append-nil}
use alilu_os.Common.{
  ℕ, zero, suc, ◌+◌, ◌-◌, ◌/◌, ◌%◌, ◌^◌, ◌≤◌, ◌<◌, ◌≡◌, refl, sym, ap, ◌∙◌, some, List, [], ◌∷◌,
  ◌++◌, ◌==◌, ltb, get_or, set, length, length-set, replicate, arith, Bool-cases, inl, inr, Text,
  digits, decimal, get_or-set_ne, get_or-set_self, ap₂,
}
use alilu_os.Vga.Bounds.{draw}
use alilu_os.Game.Chess.{draw_text}
use alilu_os.Game.Drawing.{fill_digits, digit_ops, print_num_at, digits_drawn}

-- The loop of the decimal digits ends: as many rounds as the number has digits are enough, and more
-- rounds change nothing.
pub digits_enough : (k fuel n : ℕ) → n < 10 ^ k → k ≤ fuel → digits fuel n ≡ digits k n
unfolding digits
digits_enough zero zero n small le = refl
digits_enough zero (suc fuel) n small le = ground arith
digits_enough (suc k) zero n small le = absurd (omega arith)
digits_enough (suc k) (suc fuel) n small le = elim (Bool-cases (n == 0)) [
  | inl none_left ↦ rw none_left refl
  | inr some_left ↦ rw some_left (
      ap (λ rest. (b'0' + n % 10) ∷ rest)
        (digits_enough k fuel (n / 10) (omega (arith, pow-suc 10 k)) (omega arith)))
]

-- The first entries of the array, as characters.
abbrev entries : (idx : ℕ) → List ℕ → Text
entries zero ds = []
entries (suc idx) ds = entries idx ds ++ ((b'0' + get_or ds idx 0) ∷ [])

entries-set : (idx i d : ℕ) (ds : List ℕ) → idx ≤ i → entries idx (set ds i d) ≡ entries idx ds
entries-set zero i d ds h = refl
entries-set (suc idx) i d ds h =
    ap₂ (λ front c. front ++ ((b'0' + c) ∷ [])) (entries-set idx i d ds (omega arith))
      (get_or-set_ne ds d 0 (omega arith))

-- The next digit goes behind the others.
entries-next :
    (idx d : ℕ) (ds : List ℕ)
    → idx < length ds
    → entries (suc idx) (set ds idx d) ≡ entries idx ds ++ ((b'0' + d) ∷ [])
entries-next idx d ds h =
    ap₂ (λ front c. front ++ ((b'0' + c) ∷ [])) (entries-set idx idx d ds (omega arith))
      (get_or-set_self ds idx d 0 h)

-- The loop puts the digits behind those that are there.
fill_digits-digits :
    (room idx temp : ℕ) (ds : List ℕ)
    → temp < 10 ^ room
    → idx + room ≤ length ds
    → (filled : List ℕ) × (last : ℕ) × (fill_digits room ds idx temp ≡ some (filled, last))
      × (entries last filled ≡ entries idx ds ++ digits room temp)
unfolding fill_digits digits
fill_digits-digits zero idx temp ds small fits = (ds, idx, ground arith, sym (append-nil _))
fill_digits-digits (suc room) idx temp ds small fits = elim (Bool-cases (temp == 0)) [
  | inl done ↦ (ds, idx, rw done refl, rw done (sym (append-nil _)))
  | inr more ↦
      let (filled, last, e, digits_are) =
        fill_digits-digits room (suc idx) (temp / 10) (set ds idx (temp % 10))
          (omega (arith, pow-suc 10 room)) (omega (arith, length-set ds idx (temp % 10))) in
      (
        filled,
        last,
        rw more e,
        rw more (
            digits_are
            ∙ ap (λ front. front ++ digits room (temp / 10))
                (entries-next idx (temp % 10) ds (omega arith))
            ∙ append_assoc (entries idx ds) ((b'0' + temp % 10) ∷ []) (digits room (temp / 10))),
      )
]

digit_ops-entries :
    (row col idx n : ℕ) (ds : List ℕ)
    → n ≤ idx
    → digit_ops row col idx ds n ≡ draw_text row (col + (idx - n)) (reverse (entries n ds))
unfolding digit_ops
digit_ops-entries row col idx zero ds h = refl
digit_ops-entries row col idx (suc n) ds h =
    let c = b'0' + get_or ds n 0 in
    let column : col + (idx - n) ≡ col + (idx - suc n) + 1 = omega arith in
    ap (λ ops. draw row (col + (idx - suc n)) c ∷ ops)
      (digit_ops-entries row col idx n ds (omega arith)
        ∙ ap (λ k. draw_text row k (reverse (entries n ds))) column)
    ∙ ap (λ text. draw_text row (col + (idx - suc n)) text)
        (sym (reverse-append (entries n ds) (c ∷ [])))

digits-decimal : (n : ℕ) → 0 < n → n < 10 ^ 10 → digits 10 n ≡ digits n n
digits-decimal n pos small = elim (Bool-cases (ltb n 10)) [
  | inl one_digit ↦
      digits_enough 1 10 n (ground arith) (omega arith)
      ∙ sym (digits_enough 1 n n (ground arith) (omega arith))
  | inr more ↦ sym (digits_enough 10 n n small (ground arith))
]

-- A number of at most ten digits is drawn, without a panic, as its decimal digits from left to right,
-- the text that `seconds_to_str` makes of it.
pub print_num_at-decimal :
    (row col val : ℕ)
    → val < 10 ^ 10
    → print_num_at row col val ≡ some (draw_text row col (decimal val))
unfolding print_num_at decimal
print_num_at-decimal row col val small = elim (Bool-cases (val == 0)) [
  | inl nought ↦ rw nought refl
  | inr other ↦
      let (filled, last, e, digits_are) =
        fill_digits-digits 10 0 val (replicate 10 0) small (omega arith) in
      let column : col + (last - last) ≡ col = omega arith in
      let text : entries last filled ≡ digits val val =
        digits_are ∙ digits-decimal val (ground arith) small in
      rw other (
        ap (digits_drawn row col) e
        ∙ ap (λ ops. some ops)
            (digit_ops-entries row col last last filled (omega arith)
              ∙ ap₂ (λ k s. draw_text row k (reverse s)) column text))
]
