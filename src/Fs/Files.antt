-- ===== src/Fs/Files.antt =====
-- Reading, writing, creating and deleting at a path.
use Prim.Native.String.{String}
use alilu_os.Common.{ℕ, ◌≡◌, ◌&&◌, List, [], arith}
use alilu_os.Common.{if◌then◌else◌, Text, text_eq, text_eq_iff, Option-cases, inl, inr}
use alilu_os.Fs.{
  Node, file, DirectoryNode, dir, children, get, Result, ok, err, FileSystem, find_directory_mut,
  answer, add_node, write_node, remove_node, create_directory, create_file, write_file, read_file,
  delete_node, new_file,
}
use alilu_os.Fs.Map.{get-insert, get-replace, contains_key-get}
use alilu_os.Fs.Tree.{sub, at, Found, missing, a_file, a_directory, found, find_directory_mut-graft}
use alilu_os.Fs.Graft.{graft_self, here, read_file-at, path_eq, Rewritten, read-graft}

-- A change of the directory at a path, and its answer.
abbrev change_at :
    FileSystem
    → String
    → List Text
    → (DirectoryNode → DirectoryNode × Result (Unit {0}))
    → FileSystem × Result (Unit {0})
change_at fs message p change = answer fs message (find_directory_mut fs p change)

-- A change that keeps the directory when it fails.
abbrev Careful : (DirectoryNode → DirectoryNode × Result (Unit {0})) → Type 0
Careful change = (x : DirectoryNode) (e : String) → (change x).1 ≡ err e → (change x).0 ≡ x

change_at-err :
    (fs : FileSystem) (message : String) (p : List Text)
    (change : DirectoryNode → DirectoryNode × Result (Unit {0})) (e : String)
    → Careful change
    → (change_at fs message p change).1 ≡ err e
    → (change_at fs message p change).0 ≡ fs
change_at-err fs message p change e careful h = elim (Option-cases (at fs.root p)) [
  | inl absent ↦ ground (arith, find_directory_mut-graft fs p change)
  | inr (x, g) ↦
      ground (arith, find_directory_mut-graft fs p change, careful x e, graft_self p fs.root x g)
]

write_node-Careful : (name content : Text) → Careful (write_node name content)
unfolding write_node
write_node-Careful name content x e h = go (found (get name (children x)))
  where
    go : Found (get name (children x)) → (write_node name content x).0 ≡ x
    go (missing g) = ground arith
    go (a_file f g) = ground arith
    go (a_directory y g) = ground arith

add_node-Careful : (name : Text) (node : Node) → Careful (add_node name node)
unfolding add_node
add_node-Careful name node x e h = ground arith

remove_node-Careful : (name : Text) → Careful (remove_node name)
unfolding remove_node
remove_node-Careful name x e h = go (found (get name (children x)))
  where
    go : Found (get name (children x)) → (remove_node name x).0 ≡ x
    go (missing g) = ground arith
    go (a_file f g) = ground arith
    go (a_directory y g) = ground arith

-- An operation that answers with an error leaves the whole file system as it was.
pub errors_change_nothing :
    (fs : FileSystem) (parent : List Text) (name content : Text) (ticks : ℕ) (e : String)
    → ((create_directory fs parent name ticks).1 ≡ err e
        → (create_directory fs parent name ticks).0 ≡ fs)
      × ((create_file fs parent name ticks).1 ≡ err e → (create_file fs parent name ticks).0 ≡ fs)
      × ((write_file fs parent name content).1 ≡ err e → (write_file fs parent name content).0 ≡ fs)
      × ((delete_node fs parent name).1 ≡ err e → (delete_node fs parent name).0 ≡ fs)
unfolding create_directory create_file write_file delete_node
errors_change_nothing fs parent name content ticks e = (
  change_at-err fs _ parent _ e (add_node-Careful name _),
  change_at-err fs _ parent _ e (add_node-Careful name _),
  change_at-err fs _ parent _ e (write_node-Careful name content),
  change_at-err fs _ parent _ e (remove_node-Careful name),
)

write_node-Rewritten :
    (x : DirectoryNode) (name content : Text)
    → (write_node name content x).1 ≡ ok tt
    → Rewritten x name content (write_node name content x).0
unfolding write_node sub here
write_node-Rewritten (dir label m ticks) name content h = go (found (get name m))
  where
    x : DirectoryNode
    x = dir label m ticks

    go : Found (get name m) → Rewritten x name content (write_node name content x).0
    go (missing g) = record {
      subs = λ s.
          ground (arith, get-insert name s (file (new_file name content 0)) m, text_eq_iff name s);
      reads = λ k. ground (arith, get-insert name k (file (new_file name content 0)) m);
    }
    go (a_file f g) = record {
      subs = λ s. ground (
        arith,
        get-replace name s (file (record f { content = content })) (file f) m g,
        text_eq_iff name s,
      );
      reads = λ k.
          ground (arith, get-replace name k (file (record f { content = content })) (file f) m g);
    }
    go (a_directory y g) = ground arith

add_node-Rewritten :
    (x : DirectoryNode) (name : Text) (ticks : ℕ)
    → (add_node name (file (new_file name [] ticks)) x).1 ≡ ok tt
    → Rewritten x name [] (add_node name (file (new_file name [] ticks)) x).0
unfolding add_node sub here
add_node-Rewritten (dir label m created) name ticks h = record {
  subs = λ s. ground (
    arith,
    get-insert name s (file (new_file name [] ticks)) m,
    text_eq_iff name s,
    contains_key-get name m,
  );
  reads = λ k. ground (arith, get-insert name k (file (new_file name [] ticks)) m);
}

-- What is read after a change that succeeded and rewrote one file.
change_at-ok :
    (fs : FileSystem) (message : String) (p q : List Text) (name content k : Text)
    (change : DirectoryNode → DirectoryNode × Result (Unit {0}))
    → ((x : DirectoryNode) → (change x).1 ≡ ok tt → Rewritten x name content (change x).0)
    → (change_at fs message p change).1 ≡ ok tt
    → read_file (change_at fs message p change).0 q k
      ≡ (if path_eq p q && text_eq name k then ok content else read_file fs q k)
change_at-ok fs message p q name content k change rewrites h = elim (Option-cases (at fs.root p)) [
  | inl absent ↦ ground (arith, find_directory_mut-graft fs p change)
  | inr (x, g) ↦
      let done : (change x).1 ≡ ok tt = ground (arith, find_directory_mut-graft fs p change) in
      let w = rewrites x done in
      rw (read_file-at, read_file-at, find_directory_mut-graft, g)
        (read-graft p q fs.root x (change x).0 name content k g w)
]

-- After a write that succeeded the file reads back as what was written, and every other path reads
-- as before.
pub read_file-write_file :
    (fs : FileSystem) (parent q : List Text) (name content m : Text)
    → (write_file fs parent name content).1 ≡ ok tt
    → read_file (write_file fs parent name content).0 q m
      ≡ (if path_eq parent q && text_eq name m then ok content else read_file fs q m)
unfolding write_file
read_file-write_file fs parent q name content m h =
    change_at-ok fs _ parent q name content m (write_node name content)
      (λ x. write_node-Rewritten x name content) h

-- After a file is created it reads as empty, and every other path reads as before.
pub read_file-create_file :
    (fs : FileSystem) (parent q : List Text) (name m : Text) (ticks : ℕ)
    → (create_file fs parent name ticks).1 ≡ ok tt
    → read_file (create_file fs parent name ticks).0 q m
      ≡ (if path_eq parent q && text_eq name m then ok [] else read_file fs q m)
unfolding create_file
read_file-create_file fs parent q name m ticks h =
    change_at-ok fs _ parent q name [] m (add_node name (file (new_file name [] ticks)))
      (λ x. add_node-Rewritten x name ticks) h
