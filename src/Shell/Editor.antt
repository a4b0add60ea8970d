-- ===== src/Shell/Editor.antt =====
-- The text editor: what is typed, and what Ctrl+S and Ctrl+K save.
use Prim.Native.String.{String}
use mathlib.Core.List.{append-nil, append_assoc}
use alilu_os.Common.{
  ℕ, true, false, ◌&&◌, List, [], ◌∷◌, ◌++◌, ◌≡◌, refl, ◌∙◌, ap, ap₂, ◌==◌, to_ascii_lowercase,
  arith,
}
use alilu_os.Common.{if◌then◌else◌, Text, is_empty, text_eq}
use alilu_os.Fs.{resolve_path, split_parent_and_name, FileSystem, Result, ok, write_file, read_file}
use alilu_os.Fs.Graft.{path_eq}
use alilu_os.Fs.Files.{read_file-write_file}
use alilu_os.Shell.{editor, Shell, Machine, mode_eq, target, save_editor}
use alilu_os.Shell.Keys.{
  close_editor, char_in, handle_char, note_save, save_and_exit, handle_ctrl_char,
}

-- Characters typed one after the other.
pub type_text : Text → Machine → Machine
type_text [] m = m
type_text (c ∷ text) m = type_text text (handle_char c m)

handle_char_editor :
    (c : ℕ) (m : Machine) → m.shell.mode ≡ editor → handle_char c m ≡ char_in editor c m
unfolding handle_char
handle_char_editor c m e = ap (λ mode. char_in mode c m) e

-- Typing in the editor changes its text alone.
pub type_text_shell :
    (text : Text) (m : Machine)
    → m.shell.mode ≡ editor
    → ((type_text text m).shell ≡ record m.shell { editor_buffer = m.shell.editor_buffer ++ text })
      × ((type_text text m).fs ≡ m.fs)
unfolding type_text char_in
type_text_shell [] m e = (rw append-nil refl, refl)
type_text_shell (c ∷ text) m e =
    let later = type_text_shell text (char_in editor c m) e in
    let first = handle_char_editor c m e in
    (
      ap (λ n. (type_text text n).shell) first
          ∙ later.0
          ∙ ap (λ b. record m.shell { editor_buffer = b })
              (append_assoc m.shell.editor_buffer (c ∷ []) text),
      ap (λ n. (type_text text n).fs) first ∙ later.1,
    )

-- The file that a shell's editor is open on: its directory and its name.
abbrev pub editor_target : Shell → List Text × Text
editor_target sh = split_parent_and_name (resolve_path sh.cwd sh.editor_filename)

abbrev pub written : Shell → FileSystem → FileSystem × Result (Unit {0})
written sh fs = write_file fs (editor_target sh).0 (editor_target sh).1 sh.editor_buffer

pub save_editor_lem :
    (invalid : String) (m : Machine)
    → is_empty (editor_target m.shell).1 ≡ false
    → ((save_editor invalid m).fs ≡ (written m.shell m.fs).0)
      × ((save_editor invalid m).shell ≡ m.shell)
unfolding save_editor target
save_editor_lem invalid m h = rw h (refl, refl)

-- The shell after a save.
abbrev pub closed : Shell → Shell
closed sh = record (close_editor sh) { save_pending = false }

save_and_exit_lem :
    (m : Machine)
    → m.shell.save_pending ≡ true
    → is_empty (editor_target m.shell).1 ≡ false
    → ((save_and_exit m).fs ≡ (written m.shell m.fs).0) × ((save_and_exit m).shell ≡ closed m.shell)
unfolding save_and_exit
save_and_exit_lem m p h =
    let saved = save_editor_lem "\nError: Invalid filename" m h in ground (arith, saved)

-- Ctrl+S and then Ctrl+K in the editor.
pub save_keys : Machine → Machine
save_keys m = handle_ctrl_char b'k' (handle_ctrl_char b's' m)

handle_ctrl_char_editor :
    (c : ℕ) (m : Machine)
    → m.shell.mode ≡ editor
    → handle_ctrl_char c m ≡ (
        if to_ascii_lowercase c == b's'
        then note_save m
        else if to_ascii_lowercase c == b'k'
        then save_and_exit m
        else m)
unfolding handle_ctrl_char
handle_ctrl_char_editor c m e =
    ap
      (λ mode.
        if mode_eq mode editor
        then (if to_ascii_lowercase c == b's'
            then note_save m
            else if to_ascii_lowercase c == b'k'
            then save_and_exit m
            else m)
        else m)
      e

pub save_keys_lem :
    (m : Machine)
    → m.shell.mode ≡ editor
    → is_empty (editor_target m.shell).1 ≡ false
    → ((save_keys m).fs ≡ (written m.shell m.fs).0) × ((save_keys m).shell ≡ closed m.shell)
unfolding save_keys note_save
save_keys_lem m e h =
    let keys : save_keys m ≡ save_and_exit (note_save m) =
      ap (handle_ctrl_char b'k') (handle_ctrl_char_editor b's' m e)
      ∙ handle_ctrl_char_editor b'k' (note_save m) e in
    let saved = save_and_exit_lem (note_save m) refl h in
    (ap (λ n. n.fs) keys ∙ saved.0, ap (λ n. n.shell) keys ∙ saved.1)

-- In the editor on a file whose name is not empty: after a text is typed and Ctrl+S and Ctrl+K are
-- pressed, where the file system takes the write, the file reads as the editor's text with what was
-- typed behind it, every other path reads as before, and the shell is back at its commands with the
-- editor emptied.
pub save_keys-type_text :
    (m : Machine) (text : Text) (q : List Text) (k : Text)
    → m.shell.mode ≡ editor
    → is_empty (editor_target m.shell).1 ≡ false
    → (write_file m.fs
        (editor_target m.shell).0
        (editor_target m.shell).1
        (m.shell.editor_buffer ++ text)).1
      ≡ ok tt
    → (read_file (save_keys (type_text text m)).fs q k ≡ (
        if path_eq (editor_target m.shell).0 q && text_eq (editor_target m.shell).1 k
        then ok (m.shell.editor_buffer ++ text)
        else read_file m.fs q k))
      × ((save_keys (type_text text m)).shell ≡ closed m.shell)
save_keys-type_text m text q k e h taken =
    let typed = type_text_shell text m e in
    let mode = ap (λ sh. sh.mode) typed.0 ∙ e in
    let name = ap (λ sh. is_empty (editor_target sh).1) typed.0 ∙ h in
    let saved = save_keys_lem (type_text text m) mode name in
    let files : (save_keys (type_text text m)).fs
        ≡ (write_file m.fs (editor_target m.shell).0 (editor_target m.shell).1
            (m.shell.editor_buffer ++ text)).0 =
      saved.0 ∙ ap₂ (λ sh fs. (written sh fs).0) typed.0 typed.1 in
    (
      ap (λ fs. read_file fs q k) files
          ∙ read_file-write_file m.fs (editor_target m.shell).0 q (editor_target m.shell).1
              (m.shell.editor_buffer ++ text) k taken,
      saved.1 ∙ ap closed typed.0,
    )
