-- ===== src/Shell/Tests.antt =====
-- Runs of the shell, and its theorems at concrete machines.
use alilu_os.Common.{◌&&◌, [], ◌∷◌, ◌++◌, ◌≡◌, refl, if◌then◌else◌}
use alilu_os.Common.{
  codes, text_eq, is_whitespace, join_words, member, split, contains, after_last, to_lowercase, ◌⊎◌,
}
use alilu_os.Vga
use alilu_os.Vga.{Vga, clear}
use alilu_os.Fs
use alilu_os.Fs.{ok, err, read_file, write_file}
use alilu_os.Fs.Graft.{path_eq}
use alilu_os.Shell.{
  editor, Machine, new, target, normalize_and_validate_filename, file_part, extension,
}
use alilu_os.Shell.Commands.{Program, execute_command}
use alilu_os.Shell.Editor.{type_text, save_keys, closed, save_keys-type_text}
use alilu_os.Shell.WriteAndQuit.{write_keys, unflagged, write_keys-save_keys}
use alilu_os.Shell.CommandLine.{execute_command-write}
use alilu_os.Shell.Names.{IsTextFile, normalize-IsTextFile}

-- What a test computes through.
steps : Unit {0}
unfolding Fs.find_directory Fs.find_directory_mut Fs.find_node Fs.find_node_mut Fs.get Fs.insert
    Fs.write_node write_file read_file Fs.resolve_path Fs.resolve_items Fs.resolve_item
    Fs.split_parent_and_name target text_eq split member is_whitespace contains
    normalize_and_validate_filename file_part extension after_last to_lowercase join_words
steps = tt

abbrev screen : Vga
screen = Vga.new (λ _. 0) []

-- An empty file system, at the prompt and in the editor.
abbrev at_prompt : Machine
at_prompt = record { shell = new; fs = Fs.new; vga = screen; ticks = 0 }

abbrev editing : Machine
editing = record at_prompt {
  shell = record new {
    mode = editor;
    editor_filename = codes "a.txt";
    editor_buffer = codes "one ";
  };
}

-- A program that leaves the screen as it is.
abbrev idle : Program → Vga → Vga
idle program vga = vga

-- The editor at the start of its second line.
abbrev second_line : Machine
second_line = record editing { shell = record editing.shell { editor_buffer = codes "one\n" } }

write_keys-save_keys_example :
    ((write_keys idle second_line).fs ≡ (save_keys second_line).fs)
    × (unflagged (write_keys idle second_line).shell ≡ (save_keys second_line).shell)
unfolding steps
write_keys-save_keys_example = write_keys-save_keys idle second_line (codes "one") refl refl refl

save_keys-type_text_example :
    (read_file (save_keys (type_text (codes "two") editing)).fs [] (codes "a.txt") ≡ (
      if path_eq [] [] && text_eq (codes "a.txt") (codes "a.txt")
      then ok (codes "one " ++ codes "two")
      else read_file Fs.new [] (codes "a.txt")))
    × ((save_keys (type_text (codes "two") editing)).shell ≡ closed editing.shell)
unfolding steps
save_keys-type_text_example =
    save_keys-type_text editing (codes "two") [] (codes "a.txt") refl refl refl

execute_command-write_example :
    read_file
      (execute_command idle
        (join_words (codes "write" ∷ codes "a.txt" ∷ codes "hi" ∷ codes "you" ∷ []))
        at_prompt).fs
      []
      (codes "a.txt")
    ≡ (if path_eq [] [] && text_eq (codes "a.txt") (codes "a.txt")
        then ok (codes "hi you")
        else read_file Fs.new [] (codes "a.txt"))
unfolding steps
execute_command-write_example =
    execute_command-write idle (codes "a.txt") (codes "hi") (codes "you" ∷ []) at_prompt []
      (codes "a.txt")
      (
        (refl, (refl, (refl, (refl, (refl, tt))))),
        ((refl, (refl, tt)), ((refl, (refl, (refl, tt))), tt)),
      )
      refl refl refl

normalize-IsTextFile_example :
    IsTextFile (codes "notes.txt")
    × ((codes "notes.txt" ≡ codes "notes") ⊎ (codes "notes.txt" ≡ codes "notes" ++ codes ".txt"))
    × (normalize_and_validate_filename (codes "notes.txt") ≡ ok (codes "notes.txt"))
unfolding steps
normalize-IsTextFile_example = normalize-IsTextFile (codes "notes") (codes "notes.txt") refl
