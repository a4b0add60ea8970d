-- ===== src/Fs.antt =====
-- src/fs.rs: the tree of files and directories. A `BTreeMap<String, Node>` is the list of its
-- entries in the order of its iterator; a `&mut` into the tree is a function that is handed the
-- place's content and returns the new content with a result.
pub mod Map
pub mod Tree
pub mod Graft
pub mod Files
pub mod Order
pub mod Delete
pub mod Paths
pub mod Spec
pub mod View
pub mod Acts
pub mod Refinement
pub mod Listing
mod Tests
use Prim.Native.String.{String}
use alilu_os.Common.{ℕ, Bool, true, false, not, ◌||◌, ◌&&◌, Option, none, some, List, [], ◌∷◌, ◌++◌}
use alilu_os.Common.{if◌then◌else◌, ◌==◌, Text, codes, text_eq, text_lt, is_empty, split}

pub record FileNode : Type 0 where
  pub name : Text
  pub content : Text
  pub created_at : ℕ

mutual
  pub data Node : Type 0 where
    file : FileNode → Node
    directory : DirectoryNode → Node

  -- name, children, created_at
  pub data DirectoryNode : Type 0 where
    dir : Text → Children → ℕ → DirectoryNode

  -- `BTreeMap<String, Node>`
  pub data Children : Type 0 where
    end : Children
    entry : Text → Node → Children → Children

abbrev pub dir_name : DirectoryNode → Text
dir_name (dir name children ticks) = name

abbrev pub children : DirectoryNode → Children
children (dir name entries ticks) = entries

-- `Node::name`
abbrev pub node_name : Node → Text
node_name (file f) = f.name
node_name (directory d) = dir_name d

-- `Node::is_directory`
abbrev pub is_directory : Node → Bool
is_directory (file f) = false
is_directory (directory d) = true

-- `BTreeMap::get`
unfoldable pub get : Text → Children → Option Node
get key end = none
get key (entry k node rest) = if text_eq k key then some node else get key rest

-- `BTreeMap::contains_key`
unfoldable pub contains_key : Text → Children → Bool
contains_key key end = false
contains_key key (entry k node rest) = text_eq k key || contains_key key rest

-- `BTreeMap::insert`: in order, in place of an entry with the key.
unfoldable pub insert : Text → Node → Children → Children
insert key node end = entry key node end
insert key node (entry k old rest) =
    let later = insert key node rest in
    if text_eq k key
    then entry k node rest
    else (if text_lt key k then entry key node (entry k old rest) else entry k old later)

-- What an assignment through `BTreeMap::get_mut` leaves.
unfoldable pub replace : Text → Node → Children → Children
replace key node end = end
replace key node (entry k old rest) =
    let later = replace key node rest in
    if text_eq k key then entry k node rest else entry k old later

-- `BTreeMap::remove`
unfoldable pub remove : Text → Children → Children
remove key end = end
remove key (entry k node rest) =
    let later = remove key rest in if text_eq k key then rest else entry k node later

-- `DirectoryNode::new`
abbrev pub new_directory : Text → ℕ → DirectoryNode
new_directory name ticks = dir name end ticks

-- `DirectoryNode::find_node`
unfoldable pub find_node : DirectoryNode → List Text → Option Node
find_node d [] = none
find_node d (segment ∷ []) = get segment (children d)
find_node d (segment ∷ next ∷ path) = elim (get segment (children d)) [
  | none ↦ none
  | some (directory sub) ↦ find_node sub (next ∷ path)
  | some (file f) ↦ none
]

abbrev pub with_child : DirectoryNode → Text → Node → DirectoryNode
with_child (dir name entries ticks) segment node = dir name (replace segment node entries) ticks

abbrev put_back :
    {R : Type 0} → DirectoryNode → Text → Option (DirectoryNode × R) → Option (DirectoryNode × R)
put_back d segment none = none
put_back d segment (some (sub, r)) = some (with_child d segment (directory sub), r)

abbrev put_node : {R : Type 0} → DirectoryNode → Text → Node × R → Option (DirectoryNode × R)
put_node d segment (node, r) = some (with_child d segment node, r)

-- `DirectoryNode::find_node_mut`, and what its caller does with the node.
unfoldable pub find_node_mut :
    {R : Type 0} → DirectoryNode → List Text → (Node → Node × R) → Option (DirectoryNode × R)
find_node_mut d [] change = none
find_node_mut d (segment ∷ []) change = elim (get segment (children d)) [
  | none ↦ none
  | some node ↦ put_node d segment (change node)
]
find_node_mut d (segment ∷ next ∷ path) change = elim (get segment (children d)) [
  | none ↦ none
  | some (directory sub) ↦ put_back d segment (find_node_mut sub (next ∷ path) change)
  | some (file f) ↦ none
]

pub record FileSystem : Type 0 where
  pub root : DirectoryNode

-- `FileSystem::new`
abbrev pub new : FileSystem
new = record { root = dir [] end 0 }

pub data Result (A : Type 0) : Type 0 where
  ok : A → Result A
  err : String → Result A

-- `segments.pop()`
abbrev pub pop : List Text → List Text
pop [] = []
pop (s ∷ []) = []
pop (s ∷ t ∷ ss) = s ∷ pop (t ∷ ss)

abbrev pub starts_with_slash : Text → Bool
starts_with_slash [] = false
starts_with_slash (c ∷ _) = c == b'/'

-- One round of the loop of `resolve_path`.
unfoldable pub resolve_item : List Text → Text → List Text
resolve_item segments item =
    if is_empty item || text_eq item (codes ".")
    then segments
    else (if text_eq item (codes "..") then pop segments else segments ++ (item ∷ []))

unfoldable pub resolve_items : List Text → List Text → List Text
resolve_items segments [] = segments
resolve_items segments (item ∷ items) = resolve_items (resolve_item segments item) items

-- `FileSystem::resolve_path`, which reads nothing of the file system.
unfoldable pub resolve_path : List Text → Text → List Text
resolve_path cwd path = resolve_items (if starts_with_slash path then [] else cwd) (split b'/' path)

-- `FileSystem::split_parent_and_name`
unfoldable pub split_parent_and_name : List Text → List Text × Text
split_parent_and_name [] = ([], [])
split_parent_and_name (s ∷ []) = ([], s)
split_parent_and_name (s ∷ t ∷ ss) =
    let (parent, name) = split_parent_and_name (t ∷ ss) in (s ∷ parent, name)

-- `FileSystem::find_directory`
unfoldable pub find_directory : FileSystem → List Text → Option DirectoryNode
find_directory fs [] = some fs.root
find_directory fs (s ∷ ss) = elim (find_node fs.root (s ∷ ss)) [
  | some (directory d) ↦ some d
  | some (file f) ↦ none
  | none ↦ none
]

-- A caller of `find_directory_mut` changes the node only if it is a directory.
abbrev on_directory : {R : Type 0} → (DirectoryNode → DirectoryNode × R) → Node → Node × Option R
on_directory change (file f) = (file f, none)
on_directory change (directory d) = let (d', r) = change d in (directory d', some r)

abbrev pub changed : {R : Type 0} → Option (DirectoryNode × Option R) → Option (FileSystem × R)
changed none = none
changed (some (root, none)) = none
changed (some (root, some r)) = some (record { root = root }, r)

-- `FileSystem::find_directory_mut`, and what its caller does with the directory.
unfoldable pub find_directory_mut :
    {R : Type 0}
    → FileSystem
    → List Text
    → (DirectoryNode → DirectoryNode × R)
    → Option (FileSystem × R)
find_directory_mut fs [] change = let (root, r) = change fs.root in some (record { root = root }, r)
find_directory_mut fs (s ∷ ss) change =
    changed (find_node_mut fs.root (s ∷ ss) (on_directory change))

unfoldable pub entries : Children → List (Text × Bool)
entries end = []
entries (entry name node rest) = (name, is_directory node) ∷ entries rest

-- `FileSystem::list_directory`
unfoldable pub list_directory : FileSystem → List Text → Result (List (Text × Bool))
list_directory fs segments = elim (find_directory fs segments) [
  | some d ↦ ok (entries (children d))
  | none ↦ err "Directory not found"
]

-- The answer of an operation that changes a directory, and the file system after it.
abbrev pub answer :
    FileSystem → String → Option (FileSystem × Result (Unit {0})) → FileSystem × Result (Unit {0})
answer fs message none = (fs, err message)
answer fs message (some done) = done

abbrev pub with_entry : DirectoryNode → Text → Node → DirectoryNode
with_entry (dir name entries ticks) key node = dir name (insert key node entries) ticks

-- The body of `create_directory` and of `create_file`, at the parent.
unfoldable pub add_node : Text → Node → DirectoryNode → DirectoryNode × Result (Unit {0})
add_node name node parent =
    if contains_key name (children parent)
    then (parent, err "Name already exists in this folder")
    else (with_entry parent name node, ok tt)

-- `FileSystem::create_directory`
unfoldable pub create_directory : FileSystem → List Text → Text → ℕ → FileSystem × Result (Unit {0})
create_directory fs parent name ticks =
    answer fs "Parent directory not found"
      (find_directory_mut fs parent (add_node name (directory (new_directory name ticks))))

abbrev pub new_file : Text → Text → ℕ → FileNode
new_file name content ticks = record { name = name; content = content; created_at = ticks }

-- `FileSystem::create_file`
unfoldable pub create_file : FileSystem → List Text → Text → ℕ → FileSystem × Result (Unit {0})
create_file fs parent name ticks =
    answer fs "Parent directory not found"
      (find_directory_mut fs parent (add_node name (file (new_file name [] ticks))))

-- The body of `write_file`, at the parent.
unfoldable pub write_node : Text → Text → DirectoryNode → DirectoryNode × Result (Unit {0})
write_node name content parent = elim (get name (children parent)) [
  | some (file f) ↦ (with_child parent name (file (record f { content = content })), ok tt)
  | some (directory d) ↦ (parent, err "Target is a directory")
  | none ↦ (with_entry parent name (file (new_file name content 0)), ok tt)
]

-- `FileSystem::write_file`
unfoldable pub write_file : FileSystem → List Text → Text → Text → FileSystem × Result (Unit {0})
write_file fs parent name content =
    answer fs "Parent directory not found" (find_directory_mut fs parent (write_node name content))

-- `FileSystem::read_file`
unfoldable pub read_file : FileSystem → List Text → Text → Result Text
read_file fs parent name = elim (find_directory fs parent) [
  | none ↦ err "Directory not found"
  | some d ↦ elim (get name (children d)) [
    | some (file f) ↦ ok f.content
    | some (directory sub) ↦ err "File not found or is a directory"
    | none ↦ err "File not found or is a directory"
  ]
]

abbrev without : DirectoryNode → Text → DirectoryNode
without (dir name entries ticks) key = dir name (remove key entries) ticks

-- The body of `delete_node`, at the parent.
unfoldable pub remove_node : Text → DirectoryNode → DirectoryNode × Result (Unit {0})
remove_node name parent = elim (get name (children parent)) [
  | some node ↦ (without parent name, ok tt)
  | none ↦ (parent, err "Target not found")
]

-- `FileSystem::delete_node`
unfoldable pub delete_node : FileSystem → List Text → Text → FileSystem × Result (Unit {0})
delete_node fs parent name =
    answer fs "Directory not found" (find_directory_mut fs parent (remove_node name))
