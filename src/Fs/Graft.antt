-- ===== src/Fs/Graft.antt =====
-- What a graft changes of the tree, and what it leaves alone.
use alilu_os.Common.{
  ◌≡◌, refl, ap, Bool, true, false, ◌&&◌, Option, none, some, List, [], ◌∷◌, arith,
}
use alilu_os.Common.{
  if◌then◌else◌, Text, text_eq, text_eq_iff, text_eq_refl, Option-cases, inl, inr,
}
use alilu_os.Fs.{
  Node, file, directory, DirectoryNode, dir, children, get, with_child, Result, ok, err, FileSystem,
  read_file,
}
use alilu_os.Fs.Map.{get-replace, replace-get}
use alilu_os.Fs.Tree.{sub, at, graft, Found, missing, a_file, a_directory, found, find_directory-at}

pub get-sub :
    (d x : DirectoryNode) (s : Text) → sub d s ≡ some x → get s (children d) ≡ some (directory x)
unfolding sub
get-sub d x s e = go (found (get s (children d)))
  where
    go : Found (get s (children d)) → get s (children d) ≡ some (directory x)
    go (missing g) = ground arith
    go (a_file f g) = ground arith
    go (a_directory y g) = ground arith

pub get-with_child :
    (d old : DirectoryNode) (node : Node) (s t : Text)
    → sub d s ≡ some old
    → get t (children (with_child d s node))
      ≡ (if text_eq s t then some node else get t (children d))
get-with_child (dir name m ticks) old node s t e =
    get-replace s t node (directory old) m (get-sub (dir name m ticks) old s e)

pub sub-with_child :
    (d old new : DirectoryNode) (s t : Text)
    → sub d s ≡ some old
    → sub (with_child d s (directory new)) t ≡ (if text_eq s t then some new else sub d t)
unfolding sub
sub-with_child d old new s t e = ground (arith, get-with_child d old (directory new) s t)

with_child_self :
    (d x : DirectoryNode) (s : Text) → sub d s ≡ some x → with_child d s (directory x) ≡ d
with_child_self (dir name m ticks) x s e =
    ap (λ entries. dir name entries ticks)
      (replace-get s (directory x) m (get-sub (dir name m ticks) x s e))

-- Grafting what is there changes nothing.
pub graft_self : (p : List Text) (d x : DirectoryNode) → at d p ≡ some x → graft d p x ≡ d
unfolding at graft
graft_self [] d x e = ground arith
graft_self (s ∷ p) d x e = elim (Option-cases (sub d s)) [
  | inl absent ↦ ground arith
  | inr (y, g) ↦ ground (arith, graft_self p y x, with_child_self d y s g)
]

-- The grafted directory stands at its path.
pub at-graft :
    (p : List Text) (d x new : DirectoryNode) → at d p ≡ some x → at (graft d p new) p ≡ some new
unfolding at graft
at-graft [] d x new e = refl
at-graft (s ∷ p) d x new e = elim (Option-cases (sub d s)) [
  | inl absent ↦ ground arith
  | inr (y, g) ↦
      ground (arith, at-graft p y x new, sub-with_child d y (graft y p new) s s g, text_eq_refl s)
]

-- What `read_file` finds in a directory under a name.
unfoldable pub here : DirectoryNode → Text → Result Text
here d m = elim (get m (children d)) [
  | some (file f) ↦ ok f.content
  | some (directory sub) ↦ err "File not found or is a directory"
  | none ↦ err "File not found or is a directory"
]

abbrev pub read_in : Option DirectoryNode → Text → Result Text
read_in none m = err "Directory not found"
read_in (some d) m = here d m

pub read_file-at :
    (fs : FileSystem) (p : List Text) (m : Text) → read_file fs p m ≡ read_in (at fs.root p) m
unfolding read_file here
read_file-at fs p m = ground (arith, find_directory-at fs p)

unfoldable pub path_eq : List Text → List Text → Bool
path_eq [] [] = true
path_eq (s ∷ p) (t ∷ q) = text_eq s t && path_eq p q
path_eq _ _ = false

-- A directory is read as another, but for one file, and leads to the same directories.
pub record Rewritten (x : DirectoryNode) (name content : Text) (new : DirectoryNode) : Type 0 where
  pub subs : (s : Text) → sub new s ≡ sub x s
  pub reads : (m : Text) → here new m ≡ (if text_eq name m then ok content else here x m)

pub here-with_child :
    (d old new : DirectoryNode) (s m : Text)
    → sub d s ≡ some old
    → here (with_child d s (directory new)) m ≡ here d m
unfolding here
here-with_child d old new s m e =
    ground (arith, get-with_child d old (directory new) s m, text_eq_iff s m, get-sub d old s e)

-- After a graft of a rewritten directory every read is as before, but for the one file.
pub read-graft :
    (p q : List Text) (d x new : DirectoryNode) (name content m : Text)
    → at d p ≡ some x
    → Rewritten x name content new
    → read_in (at (graft d p new) q) m
      ≡ (if path_eq p q && text_eq name m then ok content else read_in (at d q) m)
unfolding at graft path_eq
read-graft [] [] d x new name content m e w = ground (arith, w.reads m)
read-graft [] (t ∷ q) d x new name content m e w = ground (arith, w.subs t)
read-graft (s ∷ p) [] d x new name content m e w = elim (Option-cases (sub d s)) [
  | inl absent ↦ ground arith
  | inr (y, g) ↦ ground (arith, here-with_child d y (graft y p new) s m g)
]
read-graft (s ∷ p) (t ∷ q) d x new name content m e w = elim (Option-cases (sub d s)) [
  | inl absent ↦ ground arith
  | inr (y, g) ↦ ground (
    arith,
    sub-with_child d y (graft y p new) s t g,
    text_eq_iff s t,
    read-graft p q y x new name content m,
  )
]
