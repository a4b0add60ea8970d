-- ===== src/Shell/Safety/Keys.antt =====
-- The key handlers on a sound machine.
use alilu_os.Common.{ℕ, Bool, false, not, Option, none, some, refl}
use alilu_os.Common.{◌==◌, Text, codes, is_empty, text_eq, last, lines, byte_len, trim}
use alilu_os.Common.{to_ascii_lowercase}
use alilu_os.Vga.{Vga}
use alilu_os.Vga.Bounds.{Safe, IsValid}
use alilu_os.Keyboard.{Key, KeyEvent, press, release}
use alilu_os.Shell.{ShellMode, command, editor, help_viewer, Machine, mode_eq}
use alilu_os.Shell.Commands.{Program}
use alilu_os.Shell.Keys.{
  escape_in, handle_escape, note_save, save_and_exit, handle_ctrl_char, char_in, handle_char,
  backspace_in, handle_backspace, handle_space, write_and_quit, quit, editor_enter, enter_in,
  handle_enter, handle_key_press, handle_key_event, pop_chars,
}
use alilu_os.Shell.Safety.{
  IsSound, if-IsSound, say-IsSound, set_shell-IsSound, save_editor-IsSound, close_editor-IsSound,
  execute_command-IsSound,
}

module _ {start : Vga} {m : Machine} (v : IsSound start m) where
  escape_in-IsSound : (mode : ShellMode) → IsSound start (escape_in mode m)
  unfolding escape_in
  escape_in-IsSound help_viewer = say-IsSound _ (set_shell-IsSound _ v.canonical refl v)
  escape_in-IsSound command =
      if-IsSound (not (is_empty m.shell.buffer))
        (say-IsSound _ (set_shell-IsSound _ v.canonical v.no_viewer v)) v
  escape_in-IsSound editor = say-IsSound _ (close_editor-IsSound v false)

  save_and_exit-IsSound : IsSound start (save_and_exit m)
  unfolding save_and_exit
  save_and_exit-IsSound =
      if-IsSound m.shell.save_pending
        (say-IsSound _
          (close_editor-IsSound (save_editor-IsSound v "\nError: Invalid filename") false))
        (say-IsSound _ v)

  handle_ctrl_char-IsSound : (c : ℕ) → IsSound start (handle_ctrl_char c m)
  unfolding handle_ctrl_char note_save
  handle_ctrl_char-IsSound c =
      if-IsSound (mode_eq m.shell.mode editor)
        (if-IsSound (to_ascii_lowercase c == b's')
          (say-IsSound _ (set_shell-IsSound _ v.canonical v.no_viewer v))
          (if-IsSound (to_ascii_lowercase c == b'k') save_and_exit-IsSound v))
        v

  char_in-IsSound : (mode : ShellMode) (c : ℕ) → IsSound start (char_in mode c m)
  unfolding char_in
  char_in-IsSound command c = say-IsSound _ (set_shell-IsSound _ v.canonical v.no_viewer v)
  char_in-IsSound editor c = say-IsSound _ (set_shell-IsSound _ v.canonical v.no_viewer v)
  char_in-IsSound help_viewer c = v

  backspace_in-IsSound : (mode : ShellMode) → IsSound start (backspace_in mode m)
  unfolding backspace_in
  backspace_in-IsSound command =
      if-IsSound (not (is_empty m.shell.buffer))
        (say-IsSound _ (set_shell-IsSound _ v.canonical v.no_viewer v)) v
  backspace_in-IsSound editor =
      if-IsSound (not (is_empty m.shell.editor_buffer))
        (say-IsSound _ (set_shell-IsSound _ v.canonical v.no_viewer v)) v
  backspace_in-IsSound help_viewer = v

  write_and_quit-IsSound : (last_line : Text) → IsSound start (write_and_quit last_line m)
  unfolding write_and_quit
  write_and_quit-IsSound last_line =
      let kept =
        save_editor-IsSound
          (set_shell-IsSound
            (record m.shell {
              editor_buffer = pop_chars (byte_len last_line) m.shell.editor_buffer;
            })
            v.canonical v.no_viewer v)
          "Error: Invalid filename" in
      say-IsSound _ (set_shell-IsSound _ kept.canonical refl kept)

  editor_enter-IsSound : (last_line : Option Text) → IsSound start (editor_enter last_line m)
  unfolding editor_enter quit
  editor_enter-IsSound none = set_shell-IsSound _ v.canonical v.no_viewer v
  editor_enter-IsSound (some last_line) =
      if-IsSound (text_eq (trim last_line) (codes ":wq")) (write_and_quit-IsSound last_line) (
        if-IsSound (text_eq (trim last_line) (codes ":q"))
          (say-IsSound _ (set_shell-IsSound _ v.canonical refl v))
          (set_shell-IsSound _ v.canonical v.no_viewer v))

module _ (launch : Program → Vga → Vga)
    (keeps : (p : Program) (s : Vga) → IsValid s → Safe s (launch p s)) {start : Vga} {m : Machine}
    (v : IsSound start m) where
  enter_in-IsSound : (mode : ShellMode) → IsSound start (enter_in launch mode m)
  unfolding enter_in
  enter_in-IsSound command =
      let done =
        execute_command-IsSound (set_shell-IsSound _ v.canonical v.no_viewer v) launch keeps
          m.shell.buffer in
      if-IsSound _ (say-IsSound _ done) done
  enter_in-IsSound editor = editor_enter-IsSound v (last (lines m.shell.editor_buffer))
  enter_in-IsSound help_viewer = v

module _ (launch : Program → Vga → Vga)
    (keeps : (p : Program) (s : Vga) → IsValid s → Safe s (launch p s)) {start : Vga} {m : Machine}
    (v : IsSound start m) where
  handle_key_press-IsSound :
      (is_ctrl : Bool) (key : Key) → IsSound start (handle_key_press launch is_ctrl key m)
  unfolding handle_key_press handle_char handle_space handle_enter handle_backspace handle_escape
  handle_key_press-IsSound is_ctrl (Key.character c) =
      if-IsSound is_ctrl (handle_ctrl_char-IsSound v c) (char_in-IsSound v m.shell.mode c)
  handle_key_press-IsSound is_ctrl Key.space = char_in-IsSound v m.shell.mode b' '
  handle_key_press-IsSound is_ctrl Key.enter =
      enter_in-IsSound launch keeps (say-IsSound _ v) m.shell.mode
  handle_key_press-IsSound is_ctrl Key.backspace = backspace_in-IsSound v m.shell.mode
  handle_key_press-IsSound is_ctrl Key.escape = escape_in-IsSound v m.shell.mode
  handle_key_press-IsSound is_ctrl _ = v

  pub handle_key_event-IsSound :
      (is_ctrl : Bool) (event : KeyEvent) → IsSound start (handle_key_event launch is_ctrl event m)
  unfolding handle_key_event
  handle_key_event-IsSound is_ctrl (press key) = handle_key_press-IsSound is_ctrl key
  handle_key_event-IsSound is_ctrl (release key) = v
