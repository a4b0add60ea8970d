-- ===== src/Shell/WriteAndQuit.antt =====
-- `:wq` on a line of its own in the editor, beside Ctrl+S and Ctrl+K.
use mathlib.Core.List.{append_assoc}
use alilu_os.Common.{
  ℕ, false, some, List, [], ◌∷◌, ◌++◌, ◌≡◌, refl, sym, ◌∙◌, ap, ap₂, ◌==◌, arith, map, Bool-cases,
  inl, inr,
}
use alilu_os.Common.{
  Text, codes, is_empty, text_eq, trim, last, lines, split, split_whole, contains, drop_empty_end,
  strip_return, pop_char, byte_len, trim_start, is_whitespace,
}
use alilu_os.Vga.{Vga}
use alilu_os.Vga.Bounds.{print}
use alilu_os.Shell.{editor, Shell, Machine, say, set_shell}
use alilu_os.Shell.Commands.{Program}
use alilu_os.Shell.Keys.{
  close_editor, pop_chars, write_and_quit, editor_enter, enter_in, handle_enter,
}
use alilu_os.Shell.Editor.{
  type_text, type_text_shell, editor_target, written, closed, save_editor_lem, save_keys,
  save_keys_lem,
}

-- What is typed.
abbrev pub wq : Text
wq = codes ":wq"

-- The pieces of a text that ends with a line, where it has one in front of it.
split_last :
    (text w : Text)
    → contains w b'\n' ≡ false
    → (s : Text) × (ss : List Text) × (split b'\n' (text ++ (b'\n' ∷ w)) ≡ s ∷ (ss ++ (w ∷ [])))
unfolding split
split_last [] w h = ([], [], ground (arith, split_whole b'\n' w h))
split_last (c ∷ text) w h =
    let (s, ss, e) = split_last text w h in
    elim (Bool-cases (c == b'\n')) [
      | inl ends ↦ ([], s ∷ ss, ground arith)
      | inr goes_on ↦ (c ∷ s, ss, ground arith)
    ]

drop_empty_end_last :
    (ss : List Text) (w : Text)
    → is_empty w ≡ false
    → drop_empty_end (ss ++ (w ∷ [])) ≡ ss ++ (w ∷ [])
drop_empty_end_last [] w h = ground arith
drop_empty_end_last (s ∷ []) w h = ground arith
drop_empty_end_last (s ∷ t ∷ ss) w h = ap (λ rest. s ∷ rest) (drop_empty_end_last (t ∷ ss) w h)

last-map :
    (f : Text → Text) (ss : List Text) (w : Text) → last (map f (ss ++ (w ∷ []))) ≡ some (f w)
last-map f [] w = refl
last-map f (s ∷ []) w = refl
last-map f (s ∷ t ∷ ss) w = last-map f (t ∷ ss) w

last-lines :
    (text w : Text)
    → contains w b'\n' ≡ false
    → is_empty w ≡ false
    → last (lines (text ++ (b'\n' ∷ w))) ≡ some (strip_return w)
unfolding lines
last-lines text w h filled =
    let (s, ss, e) = split_last text w h in
    ap (λ pieces. last (map strip_return (drop_empty_end pieces))) e
    ∙ ap (λ pieces. last (map strip_return pieces)) (drop_empty_end_last (s ∷ ss) w filled)
    ∙ last-map strip_return (s ∷ ss) w

pop_char-append : (s : Text) (c : ℕ) → pop_char (s ++ (c ∷ [])) ≡ s
pop_char-append [] c = refl
pop_char-append (a ∷ []) c = refl
pop_char-append (a ∷ b ∷ s) c = ap (λ rest. a ∷ rest) (pop_char-append (b ∷ s) c)

-- Popped as often as it is long, a text is gone from the end.
pop_chars-append : (s : Text) (a b c : ℕ) → pop_chars 3 (s ++ (a ∷ b ∷ c ∷ [])) ≡ s
unfolding pop_chars
pop_chars-append s a b c =
    let apart : s ++ (a ∷ b ∷ c ∷ []) ≡ ((s ++ (a ∷ [])) ++ (b ∷ [])) ++ (c ∷ []) =
      sym (append_assoc (s ++ (a ∷ [])) (b ∷ []) (c ∷ []) ∙ append_assoc s (a ∷ []) (b ∷ c ∷ [])) in
    ap (λ k. pop_char (pop_char (pop_char k))) apart
    ∙ ap (λ k. pop_char (pop_char k)) (pop_char-append ((s ++ (a ∷ [])) ++ (b ∷ [])) c)
    ∙ ap pop_char (pop_char-append (s ++ (a ∷ [])) b)
    ∙ pop_char-append s a

-- `:wq` and Enter.
pub write_keys : (Program → Vga → Vga) → Machine → Machine
write_keys launch m = handle_enter launch (type_text wq m)

-- The editor after `:wq` was popped.
abbrev cut : Shell → Shell
cut sh = record sh { editor_buffer = pop_chars 3 sh.editor_buffer }

cut_typed : (m : Machine) → m.shell.mode ≡ editor → cut (type_text wq m).shell ≡ m.shell
cut_typed m e =
    ap cut (type_text_shell wq m e).0
    ∙ ap (λ b. record m.shell { editor_buffer = b })
        (pop_chars-append m.shell.editor_buffer b':' b'w' b'q')

write_and_quit_lem :
    (m : Machine)
    → is_empty (editor_target (cut m.shell)).1 ≡ false
    → ((write_and_quit wq m).fs ≡ (written (cut m.shell) m.fs).0)
      × ((write_and_quit wq m).shell ≡ close_editor m.shell)
unfolding write_and_quit byte_len
write_and_quit_lem m h =
    let saved = save_editor_lem "Error: Invalid filename" (set_shell (cut m.shell) m) h in
    (saved.0, ap close_editor saved.1)

-- The last line is read at the end of the buffer.
last_typed :
    (m : Machine) (text : Text)
    → m.shell.mode ≡ editor
    → m.shell.editor_buffer ≡ text ++ (b'\n' ∷ [])
    → last (lines (type_text wq m).shell.editor_buffer) ≡ some wq
unfolding contains
last_typed m text e b =
    ap (λ sh. last (lines sh.editor_buffer)) (type_text_shell wq m e).0
    ∙ ap (λ k. last (lines (k ++ wq))) b
    ∙ ap (λ k. last (lines k)) (append_assoc text (b'\n' ∷ []) wq)
    ∙ last-lines text wq refl refl
    ∙ unfold strip_return in refl

write_keys-write_and_quit :
    (launch : Program → Vga → Vga) (m : Machine) (text : Text)
    → m.shell.mode ≡ editor
    → m.shell.editor_buffer ≡ text ++ (b'\n' ∷ [])
    → (n : Machine) × (write_keys launch m ≡ write_and_quit wq n)
      × (n.shell ≡ (type_text wq m).shell)
      × (n.fs ≡ (type_text wq m).fs)
unfolding write_keys handle_enter enter_in editor_enter trim trim_start is_whitespace text_eq
write_keys-write_and_quit launch m text e b =
    let n = say (print (b'\n' ∷ []) ∷ []) (type_text wq m) in
    let mode = ap (λ sh. sh.mode) (type_text_shell wq m e).0 ∙ e in
    (
      n,
      ap (λ k. enter_in launch k n) mode ∙ ap (λ l. editor_enter l n) (last_typed m text e b),
      refl,
      refl,
    )

-- A shell without the flag of a Ctrl+S.
abbrev pub unflagged : Shell → Shell
unflagged sh = record sh { save_pending = false }

-- In the editor on a file whose name is not empty, with the cursor at the start of a line behind the
-- first: to type `:wq` and press Enter leaves the same file system as Ctrl+S and then Ctrl+K, and the
-- same shell, but that it keeps the flag of a Ctrl+S.
pub write_keys-save_keys :
    (launch : Program → Vga → Vga) (m : Machine) (text : Text)
    → m.shell.mode ≡ editor
    → m.shell.editor_buffer ≡ text ++ (b'\n' ∷ [])
    → is_empty (editor_target m.shell).1 ≡ false
    → ((write_keys launch m).fs ≡ (save_keys m).fs)
      × (unflagged (write_keys launch m).shell ≡ (save_keys m).shell)
write_keys-save_keys launch m text e b h =
    let (n, keys, shell, fs) = write_keys-write_and_quit launch m text e b in
    let left : cut n.shell ≡ m.shell = ap cut shell ∙ cut_typed m e in
    let quits = write_and_quit_lem n (ap (λ sh. is_empty (editor_target sh).1) left ∙ h) in
    let saves = save_keys_lem m e h in
    (
      ap (λ k. k.fs) keys
          ∙ quits.0
          ∙ ap₂ (λ sh f. (written sh f).0) left (fs ∙ (type_text_shell wq m e).1)
          ∙ sym saves.0,
      ap (λ k. unflagged k.shell) keys
          ∙ ap unflagged quits.1
          ∙ ap (λ sh. closed sh) left
          ∙ sym saves.1,
    )
