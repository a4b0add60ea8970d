-- ===== src/Fs/Spec.antt =====
-- What a user of the file system sees: an entry at every path, and no tree. `FileSystem` of src/fs.rs
-- is compared with it in Fs/Refinement.antt.
use Prim.Native.String.{String}
use alilu_os.Common.{Bool, true, false, List, [], ◌∷◌, ◌++◌, if◌then◌else◌, Text}
use alilu_os.Fs.{Result, ok, err}
use alilu_os.Fs.Graft.{path_eq}
use alilu_os.Fs.Order.{Op, make_directory, make_file, write, delete}
use alilu_os.Fs.Delete.{through}

pub data Entry : Type 0 where
  absent folder : Entry
  content : Text → Entry

unfoldable pub is_folder : Entry → Bool
is_folder folder = true
is_folder _ = false

-- The entry at each path.
abbrev pub Spec : Type 0
Spec = List Text → Entry

-- The path of a name in a directory.
abbrev pub child : List Text → Text → List Text
child parent name = parent ++ (name ∷ [])

unfoldable pub put : Spec → List Text → Text → Entry → Spec
put a parent name e path = if path_eq (child parent name) path then e else a path

-- The entry goes, and what is below it.
unfoldable pub cut : Spec → List Text → Text → Spec
cut a parent name path = if through parent name path then absent else a path

-- What an operation does to an entry.
pub data Edit : Type 0 where
  keep clear : Edit
  set : Entry → Edit

unfoldable pub edit : Spec → List Text → Text → Edit → Spec
edit a parent name keep = a
edit a parent name clear = cut a parent name
edit a parent name (set e) = put a parent name e

abbrev pub Act : Type 0
Act = Entry → Edit × Result (Unit {0})

unfoldable pub add : Entry → Act
add e absent = (set e, ok tt)
add e folder = (keep, err "Name already exists in this folder")
add e (content _) = (keep, err "Name already exists in this folder")

unfoldable pub overwrite : Text → Act
overwrite text absent = (set (content text), ok tt)
overwrite text folder = (keep, err "Target is a directory")
overwrite text (content _) = (set (content text), ok tt)

unfoldable pub discard : Act
discard absent = (keep, err "Target not found")
discard folder = (clear, ok tt)
discard (content _) = (clear, ok tt)

-- An act on the entry of a name, in a directory.
unfoldable pub act_at : String → Act → Spec → List Text → Text → Spec × Result (Unit {0})
act_at message act a parent name =
    if is_folder (a parent)
    then (edit a parent name (act (a (child parent name))).0, (act (a (child parent name))).1)
    else (a, err message)

unfoldable pub change : Spec → Op → Spec × Result (Unit {0})
change a (make_directory parent name ticks) =
    act_at "Parent directory not found" (add folder) a parent name
change a (make_file parent name ticks) =
    act_at "Parent directory not found" (add (content [])) a parent name
change a (write parent name text) =
    act_at "Parent directory not found" (overwrite text) a parent name
change a (delete parent name) = act_at "Directory not found" discard a parent name

-- What a path's entry holds.
unfoldable pub text_of : Entry → Result Text
text_of (content text) = ok text
text_of _ = err "File not found or is a directory"

unfoldable pub read : Spec → List Text → Text → Result Text
read a parent name =
    if is_folder (a parent) then text_of (a (child parent name)) else err "Directory not found"

pub data Call : Type 0 where
  changes : Op → Call
  reads : List Text → Text → Call

pub data Answer : Type 0 where
  done : Result (Unit {0}) → Answer
  held : Result Text → Answer

unfoldable pub answers : Spec → List Call → List Answer
answers a [] = []
answers a (changes op ∷ calls) = done (change a op).1 ∷ answers (change a op).0 calls
answers a (reads parent name ∷ calls) = held (read a parent name) ∷ answers a calls
