-- ===== src/Shell/Safety.antt =====
-- What every key keeps: the display on its screen, the directories in order, the working directory
-- canonical, and the help viewer closed.
pub mod Keys
use Prim.Native.String.{String}
use alilu_os.Common.{
  ℕ, zero, suc, Bool, true, false, not, ◌&&◌, ◌||◌, Option, none, some, List, [], ◌∷◌, ◌++◌,
}
use alilu_os.Common.{◌≡◌, refl, arith, if◌then◌else◌, ◌==◌, Text, codes, is_empty, text_eq}
use alilu_os.Common.{
  last, lines, byte_len, trim, to_ascii_lowercase, split_whitespace, pop_char, join_words, member,
}
use alilu_os.Vga.{Vga}
use alilu_os.Vga.Bounds.{Op, Safe, IsValid, valid, Safe-trans, run-Safe}
use alilu_os.Keyboard.{Key, KeyEvent, press, release}
use alilu_os.Fs.{
  FileSystem, Result, ok, err, resolve_path, find_directory, create_directory, create_file,
  write_file, delete_node, list_directory, read_file, DirectoryNode,
}
use alilu_os.Fs.Order.{
  DirectoryOk, apply, apply-DirectoryOk, make_directory, make_file, write, delete,
}
use alilu_os.Fs.Paths.{AreSegments, AreSegments-pop, resolve_path-AreSegments}
use alilu_os.Shell.{
  ShellMode, command, editor, help_viewer, Shell, Machine, say, set_shell, mode_eq, target,
  save_editor, normalize_and_validate_filename, saved_ops, line,
}
use alilu_os.Shell.Commands
use alilu_os.Shell.Commands.{
  Program, show_manual, show_system, show_tasks, moved_to, change_directory, enter_command,
  cd_command, back_command, folder_command, list_command, create_at, create_command, write_command,
  read_command, delete_command, ensure_file, open_editor, edit_at, edit_command,
  download_git_software, git_clone, git_command, echo_command, unknown_command, play_command,
  dispatch, execute_command, run_words, asks_help, atari, chess, canvas, browser,
}
use alilu_os.Shell.Keys.{
  close_editor, escape_in, handle_escape, note_save, save_and_exit, handle_ctrl_char, char_in,
  handle_char, backspace_in, handle_backspace, handle_space, write_and_quit, quit, editor_enter,
  enter_in, handle_enter, handle_key_press, handle_key_event,
}

-- A machine that came from the display `start` by calls that kept to the rules.
pub record IsSound (start : Vga) (m : Machine) : Type 0 where
  pub screen : Safe start m.vga
  pub ordered : DirectoryOk m.fs.root
  pub canonical : AreSegments m.shell.cwd
  pub no_viewer : mode_eq m.shell.mode help_viewer ≡ false

ensure_file-DirectoryOk :
    (fs : FileSystem) (parent : List Text) (name : Text) (ticks : ℕ)
    → DirectoryOk fs.root
    → DirectoryOk (ensure_file fs parent name ticks).root
unfolding ensure_file apply
ensure_file-DirectoryOk fs parent name ticks d =
    ground (arith, apply-DirectoryOk fs (make_file parent name ticks) d)

module _ {start : Vga} where
  pub if-IsSound :
      (b : Bool) {m n : Machine}
      → IsSound start m
      → IsSound start n
      → IsSound start (if b then m else n)
  if-IsSound true p q = p
  if-IsSound false p q = q

  pub say-IsSound : (ops : List Op) {m : Machine} → IsSound start m → IsSound start (say ops m)
  say-IsSound ops v = record {
    screen = Safe-trans v.screen (run-Safe ops (valid v.screen));
    ordered = v.ordered;
    canonical = v.canonical;
    no_viewer = v.no_viewer;
  }

  pub set_shell-IsSound :
      (sh : Shell) {m : Machine}
      → AreSegments sh.cwd
      → mode_eq sh.mode help_viewer ≡ false
      → IsSound start m
      → IsSound start (set_shell sh m)
  set_shell-IsSound sh c h v = record {
    screen = v.screen;
    ordered = v.ordered;
    canonical = c;
    no_viewer = h;
  }

  set_fs-IsSound :
      (fs : FileSystem) {m : Machine}
      → DirectoryOk fs.root
      → IsSound start m
      → IsSound start (record m { fs = fs })
  set_fs-IsSound fs d v = record {
    screen = v.screen;
    ordered = d;
    canonical = v.canonical;
    no_viewer = v.no_viewer;
  }

  module _ {m : Machine} (v : IsSound start m) where
    moved_to-IsSound :
        (message : String) (resolved : List Text) (found : Option DirectoryNode)
        → AreSegments resolved
        → IsSound start (moved_to message resolved found m)
    unfolding moved_to
    moved_to-IsSound message resolved (some _) c =
        say-IsSound _ (set_shell-IsSound _ c v.no_viewer v)
    moved_to-IsSound message resolved none c = say-IsSound _ v

    change_directory-IsSound :
        (message : String) (path : Text) → IsSound start (change_directory message path m)
    unfolding change_directory
    change_directory-IsSound message path =
        moved_to-IsSound message _ (find_directory m.fs (resolve_path m.shell.cwd path))
          (resolve_path-AreSegments m.shell.cwd path v.canonical)

    enter_command-IsSound : (args : List Text) → IsSound start (enter_command args m)
    unfolding enter_command
    enter_command-IsSound [] = say-IsSound _ v
    enter_command-IsSound (path ∷ _) = change_directory-IsSound _ path

    cd_command-IsSound : (args : List Text) → IsSound start (cd_command args m)
    unfolding cd_command
    cd_command-IsSound [] = change_directory-IsSound _ (codes "..")
    cd_command-IsSound (path ∷ _) = change_directory-IsSound _ path

    back_command-IsSound : IsSound start (back_command m)
    unfolding back_command
    back_command-IsSound =
        if-IsSound (not (is_empty m.shell.cwd))
          (say-IsSound _
            (set_shell-IsSound _ (AreSegments-pop m.shell.cwd v.canonical) v.no_viewer v))
          (say-IsSound _ v)

    folder_command-IsSound : (args : List Text) → IsSound start (folder_command args m)
    unfolding folder_command apply
    folder_command-IsSound [] = say-IsSound _ v
    folder_command-IsSound (path ∷ _) =
        let (parent, name) = target m path in
        if-IsSound (is_empty name) (say-IsSound _ v) (
          say-IsSound _ (
            set_fs-IsSound _ (apply-DirectoryOk m.fs (make_directory parent name m.ticks) v.ordered)
              v))

    create_at-IsSound : (path : Result Text) → IsSound start (create_at path m)
    unfolding create_at apply
    create_at-IsSound (err e) = say-IsSound _ v
    create_at-IsSound (ok path) =
        let (parent, name) = target m path in
        if-IsSound (is_empty name) (say-IsSound _ v) (
          say-IsSound _
            (set_fs-IsSound _ (apply-DirectoryOk m.fs (make_file parent name m.ticks) v.ordered) v))

    create_command-IsSound : (args : List Text) → IsSound start (create_command args m)
    unfolding create_command
    create_command-IsSound [] = say-IsSound _ v
    create_command-IsSound (path ∷ _) = create_at-IsSound (normalize_and_validate_filename path)

    write_command-IsSound : (args : List Text) → IsSound start (write_command args m)
    unfolding write_command apply
    write_command-IsSound [] = say-IsSound _ v
    write_command-IsSound (_ ∷ []) = say-IsSound _ v
    write_command-IsSound (path ∷ word ∷ words) =
        let (parent, name) = target m path in
        if-IsSound (is_empty name) (say-IsSound _ v) (
          say-IsSound _ (
            set_fs-IsSound _
              (apply-DirectoryOk m.fs (write parent name (join_words (word ∷ words))) v.ordered) v))

    read_command-IsSound : (args : List Text) → IsSound start (read_command args m)
    unfolding read_command
    read_command-IsSound [] = say-IsSound _ v
    read_command-IsSound (path ∷ _) =
        if-IsSound (is_empty (target m path).1) (say-IsSound _ v) (say-IsSound _ v)

    delete_command-IsSound : (args : List Text) → IsSound start (delete_command args m)
    unfolding delete_command apply
    delete_command-IsSound [] = say-IsSound _ v
    delete_command-IsSound (path ∷ _) =
        let (parent, name) = target m path in
        if-IsSound (is_empty name) (say-IsSound _ v) (
          say-IsSound _
            (set_fs-IsSound _ (apply-DirectoryOk m.fs (delete parent name) v.ordered) v))

    open_editor-IsSound : (path : Text) → IsSound start (open_editor path m)
    unfolding open_editor
    open_editor-IsSound path =
        let (parent, name) = target m path in
        if-IsSound (is_empty name) (say-IsSound _ v) (
          say-IsSound _ (
            set_shell-IsSound _ v.canonical refl
              (set_fs-IsSound _ (ensure_file-DirectoryOk m.fs parent name m.ticks v.ordered) v)))

    edit_command-IsSound : (args : List Text) → IsSound start (edit_command args m)
    unfolding edit_command edit_at
    edit_command-IsSound [] = say-IsSound _ v
    edit_command-IsSound (path ∷ _) = go (normalize_and_validate_filename path)
      where
        go : (r : Result Text) → IsSound start (edit_at r m)
        go (err e) = say-IsSound _ v
        go (ok final_path) = open_editor-IsSound final_path

    git_clone-IsSound : (url : Text) → IsSound start (git_clone url m)
    unfolding git_clone apply
    git_clone-IsSound url = say-IsSound _ (
        set_fs-IsSound _
          (apply-DirectoryOk m.fs (make_directory [] (codes "git") m.ticks) v.ordered)
          (say-IsSound _ v))

    git_command-IsSound : (args : List Text) → IsSound start (git_command args m)
    unfolding git_command download_git_software
    git_command-IsSound [] = say-IsSound _ v
    git_command-IsSound (verb ∷ []) =
        if-IsSound (text_eq verb (codes "download")) (say-IsSound _ v)
          (if-IsSound (text_eq verb (codes "clone")) (say-IsSound _ v) (say-IsSound _ v))
    git_command-IsSound (verb ∷ url ∷ _) =
        if-IsSound (text_eq verb (codes "download")) (say-IsSound _ v)
          (if-IsSound (text_eq verb (codes "clone")) (git_clone-IsSound url) (say-IsSound _ v))

    pub save_editor-IsSound : (invalid : String) → IsSound start (save_editor invalid m)
    unfolding save_editor apply
    save_editor-IsSound invalid =
        let (parent, name) = target m m.shell.editor_filename in
        if-IsSound (is_empty name) (say-IsSound _ v) (
          say-IsSound _ (
            set_fs-IsSound _
              (apply-DirectoryOk m.fs (write parent name m.shell.editor_buffer) v.ordered) v))

    -- The shell after the editor was closed.
    pub close_editor-IsSound :
        (pending : Bool)
        → IsSound start (set_shell (record (close_editor m.shell) { save_pending = pending }) m)
    close_editor-IsSound pending = set_shell-IsSound _ v.canonical refl v

    module _ (launch : Program → Vga → Vga)
        (keeps : (p : Program) (s : Vga) → IsValid s → Safe s (launch p s)) where
      start-IsSound : (p : Program) → IsSound start (Commands.start launch p m)
      start-IsSound p = record {
        screen = Safe-trans v.screen (keeps p m.vga (valid v.screen));
        ordered = v.ordered;
        canonical = v.canonical;
        no_viewer = v.no_viewer;
      }

      play_command-IsSound : (args : List Text) → IsSound start (play_command launch args m)
      unfolding play_command
      play_command-IsSound [] = say-IsSound _ v
      play_command-IsSound (game ∷ _) =
          if-IsSound (text_eq game (codes "atari")) (start-IsSound atari)
            (if-IsSound (text_eq game (codes "chess")) (start-IsSound chess) (say-IsSound _ v))

      dispatch-IsSound :
          (name : Text) (args : List Text) → IsSound start (dispatch launch name args m)
      unfolding dispatch show_system show_tasks list_command echo_command unknown_command
      dispatch-IsSound name args =
          let is = λ (s : String). text_eq name (codes s) in
          let said : (ops : List Op) → IsSound start (say ops m) = λ ops. say-IsSound ops v in
          if-IsSound (is "clear") (said _) (
            if-IsSound (is "system") (said _) (
              if-IsSound (is "tasks") (said _) (
                if-IsSound (is "directory") (said _) (
                  if-IsSound (is "enter") (enter_command-IsSound args) (
                    if-IsSound (is "back" || is "leave" || is "up") back_command-IsSound (
                      if-IsSound (is "cd") (cd_command-IsSound args) (
                        if-IsSound (is "folder") (folder_command-IsSound args) (
                          if-IsSound (is "list") (said _) (
                            if-IsSound (is "create") (create_command-IsSound args) (
                              if-IsSound (is "write") (write_command-IsSound args) (
                                if-IsSound (is "read") (read_command-IsSound args) (
                                  if-IsSound (is "delete") (delete_command-IsSound args) (
                                    if-IsSound (is "edit") (edit_command-IsSound args) (
                                      if-IsSound (is "play") (play_command-IsSound args) (
                                        if-IsSound (is "draw") (start-IsSound canvas) (
                                          if-IsSound (is "browse" || is "web")
                                            (start-IsSound (browser (join_words args)))
                                            (if-IsSound (is "git") (git_command-IsSound args) (
                                              if-IsSound (is "echo") (said _)
                                                (said _)))))))))))))))))))

      pub execute_command-IsSound : (cmd : Text) → IsSound start (execute_command launch cmd m)
      unfolding execute_command show_manual
      execute_command-IsSound cmd = go (split_whitespace (trim cmd))
        where
          go : (words : List Text) → IsSound start (run_words launch words m)
          go [] = v
          go (name ∷ args) =
              if-IsSound (asks_help name args) (say-IsSound _ v) (dispatch-IsSound name args)
