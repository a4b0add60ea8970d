-- ===== src/Shell/Commands.antt =====
-- `Shell::execute_command` and its commands but those on files, which are in Shell/FileCommands.antt.
-- `play`, `draw` and `browse` start a program that keeps the machine until it ends, the section's
-- parameter: it changes the display only.
use Prim.Native.String.{String}
use alilu_os.Common.{Option, some, none, ◌/◌, Bool, not, ◌||◌, List, [], ◌∷◌}
use alilu_os.Common.{if◌then◌else◌, Text, codes, is_empty, text_eq, trim}
use alilu_os.Common.{split_whitespace, join_words, member}
use alilu_os.Vga.{Vga, white, black, light_red, light_green, light_cyan}
use alilu_os.Vga.Bounds.{Op, print, print_line, color, wipe}
use alilu_os.Fs.{resolve_path, find_directory, create_directory, pop, DirectoryNode}
use alilu_os.Shell.{Machine, say, set_shell, line, show_error, print_cwd_path, seconds_to_str}
unfoldable pub use alilu_os.Shell.FileCommands.{
  folder_command, list_command, create_at, create_command, write_command, read_command,
  delete_command, ensure_file, open_editor, edit_at, edit_command,
}

-- A program that a command starts.
pub data Program : Type 0 where
  canvas atari chess : Program
  browser : Text → Program

abbrev manual_lines : List Op
manual_lines =
    print_line (codes "  help                       - Display this command manual")
    ∷ print_line (codes "  clear                      - Clear display screen")
    ∷ print_line (codes "  system                     - Display system specs, memory & timer stats")
    ∷ print_line (codes "  tasks                      - List active kernel CPU tasks")
    ∷ print_line (codes "  list                       - List files/folders (B-Tree sorted)")
    ∷ print_line (codes "  directory                  - Print current working directory path")
    ∷ print_line (codes "  enter [path]               - Enter directory folder")
    ∷ print_line (codes "  back / leave / up / cd ..  - Return back to parent directory")
    ∷ print_line (codes "  folder [name]              - Create a new directory folder in B-Tree")
    ∷ print_line (codes "  create [file]              - Create a new file in B-Tree index")
    ∷ print_line (codes "  write [file] [text]        - Write text content to a file")
    ∷ print_line (codes "  read [file]                - View file contents from B-Tree index")
    ∷ print_line (codes "  delete [file/folder]       - Delete a file or folder from B-Tree index")
    ∷ print_line (codes "  edit [file]                - Open interactive text editor")
    ∷ print_line (codes "  play [atari / chess]       - Launch built-in text game")
    ∷ print_line (
        codes
          "  browse [query]             - Open DuckDuckGo search browser (Type & Enter to Search)")
    ∷ print_line (codes "  git clone [url]            - Clone git repository into B-Tree index")
    ∷ print_line (codes "  git download               - Download git software tool")
    ∷ print_line (codes "  echo [text]                - Print text back to screen")
    ∷ color white black
    ∷ []

-- `help`
unfoldable pub show_manual : Machine → Machine
show_manual = say (
    color light_cyan black
    ∷ line "========================================================================"
    ∷ line "                    AliluOS COMMAND MANUAL                              "
    ∷ line "========================================================================"
    ∷ color white black
    ∷ manual_lines)

-- `system`
unfoldable pub show_system : Machine → Machine
show_system m =
    say
      (color light_green black
        ∷ line "--- AliluOS System Info ---"
        ∷ color white black
        ∷ line "OS Name: AliluOS (ಅಳಿಲು)"
        ∷ line "Architecture: x86_64 Bare-Metal"
        ∷ line "Platform: Standard PC compatible"
        ∷ line "Heap Status: 5 MiB (5120 KiB) initialized"
        ∷ line "Filesystem: B-Tree Indexed Hierarchy"
        ∷ print (codes "Uptime: ")
        ∷ print (seconds_to_str (m.ticks / 100))
        ∷ line " seconds"
        ∷ [])
      m

-- `tasks`
unfoldable pub show_tasks : Machine → Machine
show_tasks = say (
    color light_green black
    ∷ line "--- Active Kernel Tasks ---"
    ∷ color white black
    ∷ line "PID   NAME         STATUS"
    ∷ line "0     idle_loop    RUNNING"
    ∷ line "1     shell_cli    RUNNING"
    ∷ [])

-- `enter` and `cd` after the directory was looked up: one that is not there changes nothing.
unfoldable pub moved_to : String → List Text → Option DirectoryNode → Machine → Machine
moved_to message resolved (some _) m =
    let moved = set_shell (record m.shell { cwd = resolved }) m in
    say (print (codes message) ∷ print_cwd_path moved) moved
moved_to message resolved none m = say (show_error "Error: Directory not found.") m

unfoldable pub change_directory : String → Text → Machine → Machine
change_directory message path m =
    let resolved = resolve_path m.shell.cwd path in
    moved_to message resolved (find_directory m.fs resolved) m

unfoldable pub enter_command : List Text → Machine → Machine
enter_command [] m = say (line "Usage: enter [path]" ∷ []) m
enter_command (path ∷ _) m = change_directory "Entered directory: " path m

unfoldable pub cd_command : List Text → Machine → Machine
cd_command [] m = change_directory "Changed directory to: " (codes "..") m
cd_command (path ∷ _) m = change_directory "Changed directory to: " path m

-- `back`, `leave` and `up`
unfoldable pub back_command : Machine → Machine
back_command m =
    let above = set_shell (record m.shell { cwd = pop m.shell.cwd }) m in
    if not (is_empty m.shell.cwd)
    then say (print (codes "Returned to: ") ∷ print_cwd_path above) above
    else say (line "Already at root directory (/)." ∷ []) m

-- `network::download_git_software`
unfoldable pub download_git_software : Machine → Machine
download_git_software = say (
    color light_cyan black
    ∷ line "Downloading 'git' software client..."
    ∷ color light_green black
    ∷ line "Git software client downloaded and registered successfully."
    ∷ color white black
    ∷ [])

-- `network::git_clone`: whatever the address, and whether or not `/git` could be made.
unfoldable pub git_clone : Text → Machine → Machine
git_clone repo_url m =
    let begun =
      say
        (color light_cyan black
          ∷ print (codes "Cloning git repository '")
          ∷ print repo_url
          ∷ line "'..."
          ∷ color white black
          ∷ [])
        m in
    say
      (color light_green black
        ∷ line "Git repository cloned successfully into B-Tree index at /git/."
        ∷ color white black
        ∷ [])
      (record begun { fs = (create_directory begun.fs [] (codes "git") begun.ticks).0 })

abbrev git_usage : List Op
git_usage = line "Usage: git clone [repo_url] | git download" ∷ []

abbrev clone_first : List Text → Machine → Machine
clone_first [] m = say git_usage m
clone_first (repo_url ∷ _) m = git_clone repo_url m

unfoldable pub git_command : List Text → Machine → Machine
git_command [] m = say git_usage m
git_command (verb ∷ args) m =
    if text_eq verb (codes "download")
    then download_git_software m
    else if text_eq verb (codes "clone")
    then clone_first args m
    else say git_usage m

unfoldable pub echo_command : List Text → Machine → Machine
echo_command args m = say (print_line (join_words args) ∷ []) m

unfoldable pub unknown_command : Text → Machine → Machine
unknown_command name m =
    say
      (color light_red black
        ∷ print (codes "Command not recognized: ")
        ∷ print_line name
        ∷ color white black
        ∷ line "Type 'help' to view all commands."
        ∷ [])
      m

-- `help` is asked for by name or by an option of any command.
abbrev pub asks_help : Text → List Text → Bool
asks_help name args =
    text_eq name (codes "help") || member (codes "--help") args || member (codes "-h") args

module _ (launch : Program → Vga → Vga) where
  abbrev pub start : Program → Machine → Machine
  start p m = record m { vga = launch p m.vga }

  unfoldable pub play_command : List Text → Machine → Machine
  play_command [] m = say (line "Usage: play [atari / chess]" ∷ []) m
  play_command (game ∷ _) m =
      if text_eq game (codes "atari")
      then start atari m
      else if text_eq game (codes "chess")
      then start chess m
      else say (line "Unknown game. Choose 'atari' or 'chess'." ∷ []) m

  -- The `match` on the command's name.
  unfoldable pub dispatch : Text → List Text → Machine → Machine
  dispatch name args m =
      let is = λ (s : String). text_eq name (codes s) in
      if is "clear"
      then say (wipe ∷ []) m
      else if is "system"
      then show_system m
      else if is "tasks"
      then show_tasks m
      else if is "directory"
      then say (print_cwd_path m) m
      else if is "enter"
      then enter_command args m
      else if is "back" || is "leave" || is "up"
      then back_command m
      else if is "cd"
      then cd_command args m
      else if is "folder"
      then folder_command args m
      else if is "list"
      then list_command m
      else if is "create"
      then create_command args m
      else if is "write"
      then write_command args m
      else if is "read"
      then read_command args m
      else if is "delete"
      then delete_command args m
      else if is "edit"
      then edit_command args m
      else if is "play"
      then play_command args m
      else if is "draw"
      then start canvas m
      else if is "browse" || is "web"
      then start (browser (join_words args)) m
      else if is "git"
      then git_command args m
      else if is "echo"
      then echo_command args m
      else unknown_command name m

  abbrev pub run_words : List Text → Machine → Machine
  run_words [] m = m
  run_words (name ∷ args) m = if asks_help name args then show_manual m else dispatch name args m

  -- A line of white space does nothing.
  unfoldable pub execute_command : Text → Machine → Machine
  execute_command cmd_line m = run_words (split_whitespace (trim cmd_line)) m
