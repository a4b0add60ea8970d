-- ===== src/Fs/Tree.antt =====
-- Paths into the tree: the code's lookups walk down one directory for each segment, and a change
-- of a directory at a path is a graft there.
use alilu_os.Common.{◌≡◌, refl, ◌∙◌, ap, Option, none, some, List, [], ◌∷◌, arith}
use alilu_os.Common.{Text}
use alilu_os.Fs.{
  Node, FileNode, file, directory, put_back, DirectoryNode, children, get, with_child, find_node,
  find_node_mut, FileSystem, find_directory, find_directory_mut, changed, on_directory,
}

abbrev pub as_directory : Option Node → Option DirectoryNode
as_directory none = none
as_directory (some (file f)) = none
as_directory (some (directory d)) = some d

-- The directory of a name in a directory.
unfoldable pub sub : DirectoryNode → Text → Option DirectoryNode
sub d s = as_directory (get s (children d))

-- The directory at a path.
unfoldable pub at : DirectoryNode → List Text → Option DirectoryNode
at d [] = some d
at d (s ∷ p) = elim (sub d s) [ none ↦ none | some x ↦ at x p ]

-- The tree with another directory at a path that leads to one.
unfoldable pub graft : DirectoryNode → List Text → DirectoryNode → DirectoryNode
graft d [] x = x
graft d (s ∷ p) x = elim (sub d s) [ none ↦ d | some y ↦ with_child d s (directory (graft y p x)) ]

-- What a name may lead to.
pub data Found (o : Option Node) : Type 0 where
  missing : o ≡ none → Found o
  a_file : (f : FileNode) → o ≡ some (file f) → Found o
  a_directory : (x : DirectoryNode) → o ≡ some (directory x) → Found o

pub found : (o : Option Node) → Found o
found none = missing refl
found (some (file f)) = a_file f refl
found (some (directory x)) = a_directory x refl

find_node-at :
    (p : List Text) (d : DirectoryNode) (s : Text)
    → as_directory (find_node d (s ∷ p)) ≡ at d (s ∷ p)
unfolding find_node at sub
find_node-at [] d s = go (found (get s (children d)))
  where
    go : Found (get s (children d)) → as_directory (find_node d (s ∷ [])) ≡ at d (s ∷ [])
    go (missing e) = ground arith
    go (a_file f e) = ground arith
    go (a_directory x e) = ground arith
find_node-at (t ∷ p) d s = go (found (get s (children d))) (λ x. find_node-at p x t)
  where
    go :
        Found (get s (children d))
        → ((x : DirectoryNode) → as_directory (find_node x (t ∷ p)) ≡ at x (t ∷ p))
        → as_directory (find_node d (s ∷ t ∷ p)) ≡ at d (s ∷ t ∷ p)
    go (missing e) ih = ground arith
    go (a_file f e) ih = ground arith
    go (a_directory x e) ih = ground (arith, ih x)

as_directory-elim :
    (o : Option Node)
    → (elim o [ some (directory d) ↦ some d | some (file f) ↦ none | none ↦ none ]) ≡ as_directory o
as_directory-elim none = refl
as_directory-elim (some (file f)) = refl
as_directory-elim (some (directory d)) = refl

pub find_directory-at : (fs : FileSystem) (p : List Text) → find_directory fs p ≡ at fs.root p
unfolding find_directory
find_directory-at fs [] = unfold at in refl
find_directory-at fs (s ∷ p) =
    as_directory-elim (find_node fs.root (s ∷ p)) ∙ find_node-at p fs.root s

-- What a change of the directory at a path gives.
abbrev pub graft_by :
    {R : Type 0}
    → DirectoryNode
    → List Text
    → (DirectoryNode → DirectoryNode × R)
    → Option DirectoryNode
    → Option (DirectoryNode × R)
graft_by d p change none = none
graft_by d p change (some x) = some (graft d p (change x).0, (change x).1)

abbrev settle : {R : Type 0} → Option (DirectoryNode × Option R) → Option (DirectoryNode × R)
settle none = none
settle (some (d, none)) = none
settle (some (d, some r)) = some (d, r)

abbrev pub with_root : {R : Type 0} → Option (DirectoryNode × R) → Option (FileSystem × R)
with_root none = none
with_root (some (d, r)) = some (record { root = d }, r)

changed-settle :
    {R : Type 0} (o : Option (DirectoryNode × Option R)) → changed o ≡ with_root (settle o)
changed-settle none = refl
changed-settle (some (d, none)) = refl
changed-settle (some (d, some r)) = refl

settle-put_back :
    {R : Type 0} (d x : DirectoryNode) (s : Text) (o : Option (DirectoryNode × Option R))
    → settle (put_back d s o) ≡ put_back d s (settle o)
settle-put_back d x s none = refl
settle-put_back d x s (some (y, none)) = refl
settle-put_back d x s (some (y, some r)) = refl

module _ {R : Type 0} (change : DirectoryNode → DirectoryNode × R) where
  put_back-graft_by :
      (d x : DirectoryNode) (s : Text) (p : List Text) (o : Option DirectoryNode)
      → sub d s ≡ some x
      → put_back d s (graft_by x p change o) ≡ graft_by d (s ∷ p) change o
  unfolding graft
  put_back-graft_by d x s p none e = refl
  put_back-graft_by d x s p (some y) e = ground arith

  find_node_mut-graft :
      (p : List Text) (d : DirectoryNode) (s : Text)
      → settle (find_node_mut d (s ∷ p) (on_directory change))
        ≡ graft_by d (s ∷ p) change (at d (s ∷ p))
  unfolding find_node_mut at sub graft
  find_node_mut-graft [] d s = go (found (get s (children d)))
    where
      go :
          Found (get s (children d))
          → settle (find_node_mut d (s ∷ []) (on_directory change))
            ≡ graft_by d (s ∷ []) change (at d (s ∷ []))
      go (missing e) = ground arith
      go (a_file f e) = ground arith
      go (a_directory x e) = ground arith
  find_node_mut-graft (t ∷ p) d s = go (found (get s (children d))) (λ x. find_node_mut-graft p x t)
    where
      go :
          Found (get s (children d))
          → ((x : DirectoryNode)
              → settle (find_node_mut x (t ∷ p) (on_directory change))
                ≡ graft_by x (t ∷ p) change (at x (t ∷ p)))
          → settle (find_node_mut d (s ∷ t ∷ p) (on_directory change))
            ≡ graft_by d (s ∷ t ∷ p) change (at d (s ∷ t ∷ p))
      go (missing e) ih = ground arith
      go (a_file f e) ih = ground arith
      go (a_directory x e) ih = ground (
        arith,
        ih x,
        put_back-graft_by d x s (t ∷ p) (at x (t ∷ p)),
        settle-put_back d x s (find_node_mut x (t ∷ p) (on_directory change)),
      )

-- A change through `find_directory_mut` grafts the changed directory at its path.
pub find_directory_mut-graft :
    {R : Type 0} (fs : FileSystem) (p : List Text) (change : DirectoryNode → DirectoryNode × R)
    → find_directory_mut fs p change ≡ with_root (graft_by fs.root p change (at fs.root p))
unfolding find_directory_mut
find_directory_mut-graft fs [] change = unfold at graft in refl
find_directory_mut-graft fs (s ∷ p) change =
    changed-settle (find_node_mut fs.root (s ∷ p) (on_directory change))
    ∙ ap with_root (find_node_mut-graft change p fs.root s)
