-- ===== src/Fs/Delete.antt =====
-- Deleting: what is gone, and what is left.
use alilu_os.Common.{◌≡◌, false, ◌&&◌, none, some, List, [], ◌∷◌, arith, Bool}
use alilu_os.Common.{
  if◌then◌else◌, Text, text_eq, text_eq_iff, text_eq_refl, Option-cases, inl, inr,
}
use alilu_os.Fs.{DirectoryNode, dir, get, ok, err, FileSystem, remove_node, delete_node, read_file}
use alilu_os.Fs.Map.{get-remove}
use alilu_os.Fs.Tree.{
  sub, at, graft, Found, missing, a_file, a_directory, found, find_directory_mut-graft,
}
use alilu_os.Fs.Graft.{
  at-graft, here, read_in, read_file-at, path_eq, sub-with_child, here-with_child,
}
use alilu_os.Fs.Order.{DirectoryOk, at-DirectoryOk, children-Sorted}

-- Whether a path leads through the entry `name` of the directory at `p`.
unfoldable pub through : List Text → Text → List Text → Bool
through [] name [] = false
through [] name (t ∷ q) = text_eq name t
through (s ∷ p) name [] = false
through (s ∷ p) name (t ∷ q) = text_eq s t && through p name q

-- A directory with one entry fewer.
record Removed (x : DirectoryNode) (name : Text) (y : DirectoryNode) : Type 0 where
  subs : (s : Text) → sub y s ≡ (if text_eq name s then none else sub x s)
  reads :
      (m : Text)
      → here y m ≡ (if text_eq name m then err "File not found or is a directory" else here x m)

remove_node-Removed :
    (x : DirectoryNode) (name : Text)
    → DirectoryOk x
    → (remove_node name x).1 ≡ ok tt
    → Removed x name (remove_node name x).0
unfolding remove_node sub here
remove_node-Removed (dir label m ticks) name v h = go (found (get name m))
  where
    x : DirectoryNode
    x = dir label m ticks

    go : Found (get name m) → Removed x name (remove_node name x).0
    go (missing g) = ground arith
    go (a_file f g) = record {
      subs = λ s. ground (arith, get-remove name s m (children-Sorted x v));
      reads = λ k. ground (arith, get-remove name k m (children-Sorted x v));
    }
    go (a_directory y g) = record {
      subs = λ s. ground (arith, get-remove name s m (children-Sorted x v));
      reads = λ k. ground (arith, get-remove name k m (children-Sorted x v));
    }

read-graft-Removed :
    (p q : List Text) (d x y : DirectoryNode) (name m : Text)
    → at d p ≡ some x
    → Removed x name y
    → read_in (at (graft d p y) q) m ≡ (
        if through p name q
        then err "Directory not found"
        else (if path_eq p q && text_eq name m
            then err "File not found or is a directory"
            else read_in (at d q) m))
unfolding at graft path_eq through
read-graft-Removed [] [] d x y name m e w = ground (arith, w.reads m)
read-graft-Removed [] (t ∷ q) d x y name m e w = ground (arith, w.subs t)
read-graft-Removed (s ∷ p) [] d x y name m e w = elim (Option-cases (sub d s)) [
  | inl absent ↦ ground arith
  | inr (z, g) ↦ ground (arith, here-with_child d z (graft z p y) s m g)
]
read-graft-Removed (s ∷ p) (t ∷ q) d x y name m e w = elim (Option-cases (sub d s)) [
  | inl absent ↦ ground arith
  | inr (z, g) ↦ ground (
    arith,
    sub-with_child d z (graft z p y) s t g,
    text_eq_iff s t,
    read-graft-Removed p q z x y name m,
  )
]

-- In an ordered file system, after a delete that succeeded, no path through the deleted entry leads
-- anywhere, the entry itself is not a file, and every other path reads as before.
pub read_file-delete_node :
    (fs : FileSystem) (parent q : List Text) (name m : Text)
    → DirectoryOk fs.root
    → (delete_node fs parent name).1 ≡ ok tt
    → read_file (delete_node fs parent name).0 q m ≡ (
        if through parent name q
        then err "Directory not found"
        else (if path_eq parent q && text_eq name m
            then err "File not found or is a directory"
            else read_file fs q m))
unfolding delete_node
read_file-delete_node fs parent q name m v h = elim (Option-cases (at fs.root parent)) [
  | inl absent ↦ ground (arith, find_directory_mut-graft fs parent (remove_node name))
  | inr (x, g) ↦
      let done : (remove_node name x).1 ≡ ok tt =
        ground (arith, find_directory_mut-graft fs parent (remove_node name)) in
      let w = remove_node-Removed x name (at-DirectoryOk parent fs.root x v g) done in
      rw (read_file-at, read_file-at, find_directory_mut-graft, g)
        (read-graft-Removed parent q fs.root x (remove_node name x).0 name m g w)
]

remove_node-again :
    (x : DirectoryNode) (name : Text)
    → DirectoryOk x
    → (remove_node name x).1 ≡ ok tt
    → (remove_node name (remove_node name x).0).1 ≡ err "Target not found"
unfolding remove_node
remove_node-again (dir label m ticks) name v h = go (found (get name m))
  where
    x : DirectoryNode
    x = dir label m ticks

    go : Found (get name m) → (remove_node name (remove_node name x).0).1 ≡ err "Target not found"
    go (missing g) = ground arith
    go (a_file f g) =
        ground (arith, get-remove name name m (children-Sorted x v), text_eq_refl name)
    go (a_directory y g) =
        ground (arith, get-remove name name m (children-Sorted x v), text_eq_refl name)

-- What was deleted from an ordered file system cannot be deleted again.
pub delete_node_twice :
    (fs : FileSystem) (parent : List Text) (name : Text)
    → DirectoryOk fs.root
    → (delete_node fs parent name).1 ≡ ok tt
    → (delete_node (delete_node fs parent name).0 parent name).1 ≡ err "Target not found"
unfolding delete_node
delete_node_twice fs parent name v h = elim (Option-cases (at fs.root parent)) [
  | inl absent ↦ ground (arith, find_directory_mut-graft fs parent (remove_node name))
  | inr (x, g) ↦
      let done : (remove_node name x).1 ≡ ok tt =
        ground (arith, find_directory_mut-graft fs parent (remove_node name)) in
      let again = remove_node-again x name (at-DirectoryOk parent fs.root x v g) done in
      rw
        (
          find_directory_mut-graft,
          g,
          find_directory_mut-graft,
          at-graft parent fs.root x (remove_node name x).0 g,
        )
        again
]
