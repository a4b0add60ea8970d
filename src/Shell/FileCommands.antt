-- ===== src/Shell/FileCommands.antt =====
-- The commands of `Shell::execute_command` that work on files and directories.
use alilu_os.Common.{ℕ, ◌-◌, Bool, false, not, ◌&&◌, ◌||◌, List, [], ◌∷◌, ◌++◌, min}
use alilu_os.Common.{if◌then◌else◌, Text, codes, is_empty, text_eq, replicate}
use alilu_os.Common.{join_words, byte_len}
use alilu_os.Vga.{white, black, light_green, light_cyan, light_blue}
use alilu_os.Vga.Bounds.{Op, print, print_line, color, wipe}
use alilu_os.Fs.{
  FileSystem, Result, ok, err, create_directory, create_file, write_file, read_file, delete_node,
  list_directory,
}
use alilu_os.Shell.{
  Machine, editor, say, set_shell, line, show_error, target, normalize_and_validate_filename,
}

-- What a command shows of the answer of an operation that changes the file system.
abbrev answer_ops : Result (Unit {0}) → List Op → List Op
answer_ops (ok _) done = done
answer_ops (err e) done = show_error e

abbrev answered : FileSystem × Result (Unit {0}) → List Op → Machine → Machine
answered (fs, result) done m = say (answer_ops result done) (record m { fs = fs })

unfoldable pub folder_command : List Text → Machine → Machine
folder_command [] m = say (line "Usage: folder [name]" ∷ []) m
folder_command (path ∷ _) m =
    let (parent, name) = target m path in
    if is_empty name
    then say (line "Error: Invalid directory name" ∷ []) m
    else answered (create_directory m.fs parent name m.ticks)
        (line "Directory folder created successfully in B-Tree index." ∷ []) m

-- A row of `list`.
abbrev list_row : Text × Bool → List Op
list_row (name, is_dir) =
    print name
    ∷ print (replicate (20 - min (byte_len name) 19) b' ')
    ∷ (if is_dir
        then color light_blue black ∷ line "<DIR>" ∷ color white black ∷ []
        else line "File" ∷ [])

abbrev list_rows : List (Text × Bool) → List Op
list_rows [] = []
list_rows (item ∷ items) = list_row item ++ list_rows items

abbrev listing : List (Text × Bool) → List Op
listing [] = line "Directory is empty." ∷ []
listing (item ∷ items) =
    color light_cyan black
    ∷ line "Name                 Type"
    ∷ color white black
    ∷ list_rows (item ∷ items)

abbrev list_ops : Result (List (Text × Bool)) → List Op
list_ops (ok items) = listing items
list_ops (err e) = show_error e

unfoldable pub list_command : Machine → Machine
list_command m = say (list_ops (list_directory m.fs m.shell.cwd)) m

-- `create` after the check of the file name.
unfoldable pub create_at : Result Text → Machine → Machine
create_at (err e) m = say (show_error e) m
create_at (ok final_path) m =
    let (parent, name) = target m final_path in
    if is_empty name
    then say (line "Error: Invalid filename" ∷ []) m
    else answered (create_file m.fs parent name m.ticks)
        (color light_green black
          ∷ print (codes "File '")
          ∷ print name
          ∷ line "' created successfully in B-Tree index."
          ∷ color white black
          ∷ [])
        m

unfoldable pub create_command : List Text → Machine → Machine
create_command [] m = say (line "Usage: create [filename]" ∷ []) m
create_command (raw_path ∷ _) m = create_at (normalize_and_validate_filename raw_path) m

unfoldable pub write_command : List Text → Machine → Machine
write_command [] m = say (line "Usage: write [filename] [text]" ∷ []) m
write_command (_ ∷ []) m = say (line "Usage: write [filename] [text]" ∷ []) m
write_command (path ∷ word ∷ words) m =
    let (parent, name) = target m path in
    if is_empty name
    then say (line "Error: Invalid filename" ∷ []) m
    else answered (write_file m.fs parent name (join_words (word ∷ words)))
        (line "Text written to file in B-Tree index." ∷ []) m

abbrev content_ops : Result Text → List Op
content_ops (ok content) = line "--- Content ---" ∷ print_line content ∷ line "---------------" ∷ []
content_ops (err e) = show_error e

unfoldable pub read_command : List Text → Machine → Machine
read_command [] m = say (line "Usage: read [filename]" ∷ []) m
read_command (path ∷ _) m =
    let (parent, name) = target m path in
    if is_empty name
    then say (line "Error: Invalid filename" ∷ []) m
    else say (content_ops (read_file m.fs parent name)) m

unfoldable pub delete_command : List Text → Machine → Machine
delete_command [] m = say (line "Usage: delete [filename/folder]" ∷ []) m
delete_command (path ∷ _) m =
    let (parent, name) = target m path in
    if is_empty name
    then say (line "Error: Invalid target" ∷ []) m
    else answered (delete_node m.fs parent name)
        (line "Target deleted successfully from B-Tree index." ∷ []) m

-- `any(|(name, is_dir)| name == target_name && !is_dir)`
abbrev has_file : Text → List (Text × Bool) → Bool
has_file target_name [] = false
has_file target_name ((name, is_dir) ∷ items) =
    (text_eq name target_name && not is_dir) || has_file target_name items

abbrev items_of : Result (List (Text × Bool)) → List (Text × Bool)
items_of (ok items) = items
items_of (err _) = []

abbrev text_of : Result Text → Text
text_of (ok content) = content
text_of (err _) = []

-- The file system in which `edit` reads the file: a file that the directory does not list is created.
unfoldable pub ensure_file : FileSystem → List Text → Text → ℕ → FileSystem
ensure_file fs parent name ticks =
    if not (has_file name (items_of (list_directory fs parent)))
    then (create_file fs parent name ticks).0
    else fs

-- `edit`, at a path that is a valid file name.
unfoldable pub open_editor : Text → Machine → Machine
open_editor final_path m =
    let (parent, name) = target m final_path in
    let fs = ensure_file m.fs parent name m.ticks in
    let content = text_of (read_file fs parent name) in
    let sh = record m.shell {
      editor_filename = final_path;
      editor_buffer = content;
      mode = editor;
      save_pending = false;
    } in
    if is_empty name
    then say (line "Error: Invalid filename" ∷ []) m
    else say
        (wipe
          ∷ color light_cyan black
          ∷ print (codes "--- Editing File: ")
          ∷ print name
          ∷ line " ---"
          ∷ line "Type your text below. Save & Exit: Ctrl+S + Ctrl+K  | Exit without saving: ESC"
          ∷ line "------------------------------------------------------------------------"
          ∷ color white black
          ∷ print content
          ∷ [])
        (set_shell sh (record m { fs = fs }))

-- `edit` after the check of the file name.
unfoldable pub edit_at : Result Text → Machine → Machine
edit_at (err e) m = say (show_error e) m
edit_at (ok final_path) m = open_editor final_path m

unfoldable pub edit_command : List Text → Machine → Machine
edit_command [] m = say (line "Usage: edit [filename]" ∷ []) m
edit_command (raw_path ∷ _) m = edit_at (normalize_and_validate_filename raw_path) m
