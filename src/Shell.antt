-- ===== src/Shell.antt =====
-- src/shell.rs: the state of the shell, the parts that its commands and its key handlers share, and
-- the texts that they make. `Machine` is what a key can change: the shell, the file system behind
-- `FS` and the display behind `WRITER`; `ticks` is what `timer_ticks` returns. What the code shows is a
-- list of calls of the display.
pub mod Commands
pub mod FileCommands
pub mod Keys
pub mod Editor
pub mod WriteAndQuit
pub mod CommandLine
pub mod Names
pub mod Safety
mod Tests
use Prim.Native.String.{String}
use alilu_os.Common.{ℕ, ◌++◌, Bool, true, false, not, ◌&&◌, Option, none, some, List, [], ◌∷◌}
use alilu_os.Common.{if◌then◌else◌, Text, codes, is_empty, contains, after_last, to_lowercase}
use alilu_os.Common.{member, decimal}
use alilu_os.Vga.{Vga, Color, white, black, light_red, light_green}
use alilu_os.Vga.Bounds
use alilu_os.Vga.Bounds.{Op, print, print_line, color}
use alilu_os.Fs.{FileSystem, Result, ok, err, resolve_path, split_parent_and_name, write_file}
use alilu_os.Fs.Paths.{cwd_path}

pub data ShellMode : Type 0 where
  command editor help_viewer : ShellMode

pub record Shell : Type 0 where
  pub buffer : Text
  pub mode : ShellMode
  pub editor_filename : Text
  pub editor_buffer : Text
  pub save_pending : Bool
  pub cwd : List Text

-- `Shell::new`
abbrev pub new : Shell
new = record {
  buffer = [];
  mode = command;
  editor_filename = [];
  editor_buffer = [];
  save_pending = false;
  cwd = [];
}

pub record Machine : Type 0 where
  pub shell : Shell
  pub fs : FileSystem
  pub vga : Vga
  pub ticks : ℕ

-- Calls of the display.
abbrev pub say : List Op → Machine → Machine
say ops m = record m { vga = Bounds.run ops m.vga }

abbrev pub set_shell : Shell → Machine → Machine
set_shell sh m = record m { shell = sh }

abbrev pub line : String → Op
line s = print_line (codes s)

-- An error in red, as every command shows it.
abbrev pub show_error : String → List Op
show_error e = color light_red black ∷ line e ∷ color white black ∷ []

-- `self.mode == mode`
abbrev pub mode_eq : ShellMode → ShellMode → Bool
mode_eq command command = true
mode_eq editor editor = true
mode_eq help_viewer help_viewer = true
mode_eq _ _ = false

-- `resolve_path` from the working directory, then `split_parent_and_name`.
unfoldable pub target : Machine → Text → List Text × Text
target m path = split_parent_and_name (resolve_path m.shell.cwd path)

-- `Shell::print_cwd_path`
unfoldable pub print_cwd_path : Machine → List Op
print_cwd_path m = print_line (cwd_path m.shell.cwd) ∷ []

unfoldable pub seconds_to_str : ℕ → Text
seconds_to_str secs = decimal secs

-- What follows the last slash.
unfoldable pub file_part : Text → Text
file_part path = elim (after_last b'/' path) [ some name ↦ name | none ↦ path ]

abbrev pub allowed : List Text
allowed =
    codes "txt"
    ∷ codes "md"
    ∷ codes "doc"
    ∷ codes "rs"
    ∷ codes "c"
    ∷ codes "h"
    ∷ codes "cpp"
    ∷ codes "hpp"
    ∷ codes "py"
    ∷ codes "js"
    ∷ codes "ts"
    ∷ codes "jsx"
    ∷ codes "tsx"
    ∷ codes "html"
    ∷ codes "htm"
    ∷ codes "css"
    ∷ codes "java"
    ∷ codes "kt"
    ∷ codes "sh"
    ∷ codes "bat"
    ∷ codes "ps1"
    ∷ codes "json"
    ∷ codes "toml"
    ∷ codes "yaml"
    ∷ codes "yml"
    ∷ codes "xml"
    ∷ codes "ini"
    ∷ codes "asm"
    ∷ codes "s"
    ∷ []

-- What follows the last dot of a file name that has one.
unfoldable pub extension : Text → Text
extension name = elim (after_last b'.' name) [ some ext ↦ ext | none ↦ [] ]

abbrev unsupported : String
unsupported =
    "Error: Unsupported file type. Only text (.txt) and source code files (.rs, .c, .py, .js, .cpp, .html, .css, etc.) are allowed."

unfoldable pub normalize_and_validate_filename : Text → Result Text
normalize_and_validate_filename path =
    let filename = file_part path in
    if not (contains filename b'.')
    then ok (path ++ codes ".txt")
    else if member (to_lowercase (extension filename)) allowed
    then ok path
    else err unsupported

-- What both ways to save show after `write_file`.
abbrev pub saved_ops : Result (Unit {0}) → List Op
saved_ops (ok done) = color light_green black ∷ line "\nFile saved successfully." ∷ []
saved_ops (err e) = color light_red black ∷ line e ∷ []

-- The part of saving that `handle_ctrl_char` and `handle_enter` share, but for the words of the error.
unfoldable pub save_editor : String → Machine → Machine
save_editor invalid m =
    let (parent, name) = target m m.shell.editor_filename in
    let (fs, result) = write_file m.fs parent name m.shell.editor_buffer in
    if is_empty name
    then say (line invalid ∷ []) m
    else say (saved_ops result) (record m { fs = fs })
