-- ===== src/Shell/Keys.antt =====
-- The key handlers of `Shell`, and the parts of `Kernel` that call them.
use alilu_os.Common.{ℕ, zero, suc, Bool, true, false, not, Option, none, some, [], ◌∷◌, ◌++◌}
use alilu_os.Common.{if◌then◌else◌, ◌==◌, Text, codes, is_empty, text_eq, trim, last, lines}
use alilu_os.Common.{pop_char, byte_len, to_ascii_lowercase}
use alilu_os.Vga.{Vga, white, black, yellow, light_green}
use alilu_os.Vga.Bounds.{Op, print, color, wipe, erase}
use alilu_os.Keyboard.{Key, KeyEvent, press, release}
use alilu_os.Shell.{
  ShellMode, command, editor, help_viewer, Shell, Machine, say, set_shell, line, mode_eq,
  save_editor,
}
use alilu_os.Shell.Commands.{Program, execute_command}

-- The editor is left and its texts are dropped; `save_pending` is another field.
abbrev pub close_editor : Shell → Shell
close_editor sh = record sh { mode = command; editor_buffer = []; editor_filename = [] }

abbrev prompt : Op
prompt = print (codes "> ")

unfoldable pub escape_in : ShellMode → Machine → Machine
escape_in help_viewer m =
    say
      (wipe
        ∷ color light_green black
        ∷ line "=== AliluOS Interactive Shell ==="
        ∷ color white black
        ∷ line "Type 'help' to reopen help viewer, or enter commands below.\n"
        ∷ prompt
        ∷ [])
      (set_shell (record m.shell { mode = command }) m)
escape_in command m =
    if not (is_empty m.shell.buffer)
    then say (line "^C" ∷ prompt ∷ []) (set_shell (record m.shell { buffer = [] }) m)
    else m
escape_in editor m =
    say
      (color yellow black
        ∷ line "\nExited editor without saving."
        ∷ color white black
        ∷ prompt
        ∷ [])
      (set_shell (record (close_editor m.shell) { save_pending = false }) m)

unfoldable pub handle_escape : Machine → Machine
handle_escape m = escape_in m.shell.mode m

-- Ctrl+S in the editor.
unfoldable pub note_save : Machine → Machine
note_save m =
    say
      (color yellow black
        ∷ line "\n[Ctrl+S detected! Press Ctrl+K to save and exit]"
        ∷ color white black
        ∷ [])
      (set_shell (record m.shell { save_pending = true }) m)

-- Ctrl+K in the editor.
unfoldable pub save_and_exit : Machine → Machine
save_and_exit m =
    let saved = save_editor "\nError: Invalid filename" m in
    if m.shell.save_pending
    then say (color white black ∷ prompt ∷ [])
        (set_shell (record (close_editor saved.shell) { save_pending = false }) saved)
    else say
        (color yellow black
          ∷ line "\n[Press Ctrl+S first, then Ctrl+K to save and exit]"
          ∷ color white black
          ∷ [])
        m

unfoldable pub handle_ctrl_char : ℕ → Machine → Machine
handle_ctrl_char c m =
    if mode_eq m.shell.mode editor
    then (if to_ascii_lowercase c == b's'
        then note_save m
        else if to_ascii_lowercase c == b'k'
        then save_and_exit m
        else m)
    else m

unfoldable pub char_in : ShellMode → ℕ → Machine → Machine
char_in command c m =
    say (print (c ∷ []) ∷ []) (set_shell (record m.shell { buffer = m.shell.buffer ++ (c ∷ []) }) m)
char_in editor c m =
    say (print (c ∷ []) ∷ [])
      (set_shell (record m.shell { editor_buffer = m.shell.editor_buffer ++ (c ∷ []) }) m)
char_in help_viewer c m = m

unfoldable pub handle_char : ℕ → Machine → Machine
handle_char c m = char_in m.shell.mode c m

unfoldable pub backspace_in : ShellMode → Machine → Machine
backspace_in command m =
    if not (is_empty m.shell.buffer)
    then say (erase ∷ []) (set_shell (record m.shell { buffer = pop_char m.shell.buffer }) m)
    else m
backspace_in editor m =
    if not (is_empty m.shell.editor_buffer)
    then say (erase ∷ [])
        (set_shell (record m.shell { editor_buffer = pop_char m.shell.editor_buffer }) m)
    else m
backspace_in help_viewer m = m

unfoldable pub handle_backspace : Machine → Machine
handle_backspace m = backspace_in m.shell.mode m

-- The body of `handle_space` is that of `handle_char` at a space.
unfoldable pub handle_space : Machine → Machine
handle_space m = handle_char b' ' m

-- `for _ in 0..n { editor_buffer.pop(); }`
unfoldable pub pop_chars : ℕ → Text → Text
pop_chars zero s = s
pop_chars (suc n) s = pop_chars n (pop_char s)

-- `:wq`: as many characters are popped as the last line has bytes.
unfoldable pub write_and_quit : Text → Machine → Machine
write_and_quit last_line m =
    let cut =
      set_shell
        (record m.shell { editor_buffer = pop_chars (byte_len last_line) m.shell.editor_buffer })
        m in
    let saved = save_editor "Error: Invalid filename" cut in
    say (color white black ∷ prompt ∷ []) (set_shell (close_editor saved.shell) saved)

unfoldable pub quit : Machine → Machine
quit m =
    say (color yellow black ∷ line "\nExited without saving." ∷ color white black ∷ prompt ∷ [])
      (set_shell (close_editor m.shell) m)

abbrev push_newline : Machine → Machine
push_newline m =
    set_shell (record m.shell { editor_buffer = m.shell.editor_buffer ++ (b'\n' ∷ []) }) m

-- Enter in the editor, at the last line of its buffer.
unfoldable pub editor_enter : Option Text → Machine → Machine
editor_enter none m = push_newline m
editor_enter (some last_line) m =
    if text_eq (trim last_line) (codes ":wq")
    then write_and_quit last_line m
    else if text_eq (trim last_line) (codes ":q")
    then quit m
    else push_newline m

module _ (launch : Program → Vga → Vga) where
  abbrev prompt_again : Machine → Machine
  prompt_again m = if mode_eq m.shell.mode command then say (prompt ∷ []) m else m

  -- Enter after the new line was shown.
  unfoldable pub enter_in : ShellMode → Machine → Machine
  enter_in command m =
      prompt_again
        (execute_command launch m.shell.buffer (set_shell (record m.shell { buffer = [] }) m))
  enter_in editor m = editor_enter (last (lines m.shell.editor_buffer)) m
  enter_in help_viewer m = m

  unfoldable pub handle_enter : Machine → Machine
  handle_enter m = enter_in m.shell.mode (say (print (b'\n' ∷ []) ∷ []) m)

  -- `Kernel::handle_key_press`
  unfoldable pub handle_key_press : Bool → Key → Machine → Machine
  handle_key_press is_ctrl (Key.character c) m =
      if is_ctrl then handle_ctrl_char c m else handle_char c m
  handle_key_press is_ctrl Key.space m = handle_space m
  handle_key_press is_ctrl Key.enter m = handle_enter m
  handle_key_press is_ctrl Key.backspace m = handle_backspace m
  handle_key_press is_ctrl Key.escape m = handle_escape m
  handle_key_press is_ctrl _ m = m

  -- `Kernel::handle_key_event`
  unfoldable pub handle_key_event : Bool → KeyEvent → Machine → Machine
  handle_key_event is_ctrl (press key) m = handle_key_press is_ctrl key m
  handle_key_event is_ctrl (release key) m = m
