-- ===== src/Fs/Listing.antt =====
-- The listing of a directory of src/fs.rs against the entries at the paths.
use alilu_os.Common.{
  ◌≡◌, refl, ◌∙◌, ap, sym, Bool, true, false, Option, none, some, List, [], ◌∷◌, arith,
  if◌then◌else◌, Text, text_eq, Option-cases, inl, inr,
}
use alilu_os.Fs.{
  Node, Children, end, entry, file, directory, children, get, entries, is_directory, ok, FileSystem,
  list_directory,
}
use alilu_os.Fs.{new}
use alilu_os.Fs.Map.{Sorted}
use alilu_os.Fs.Order.{NodeOk, Op, run, run-DirectoryOk, at-DirectoryOk, children-Sorted}
use mathlib.Core.Path.{subst}
use alilu_os.Common.{text_lt}
use alilu_os.Fs.Tree.{at, find_directory-at}
use alilu_os.Fs.Spec.{Entry, absent, folder, content, child}
use alilu_os.Fs.View.{view, view-append, seen, view-seen}

-- Whether a listing has a name, and as a directory.
abbrev pub listed : Text → List (Text × Bool) → Option Bool
listed name [] = none
listed name ((other, is_folder) ∷ rest) =
    if text_eq other name then some is_folder else listed name rest

abbrev pub kind : Entry → Option Bool
kind absent = none
kind folder = some true
kind (content _) = some false

kind-seen : (node : Node) → some (is_directory node) ≡ kind (seen (some node) [])
unfolding view
kind-seen (file f) = refl
kind-seen (directory d) = refl

listed-entries :
    (name : Text) (m : Children) → listed name (entries m) ≡ kind (seen (get name m) [])
unfolding entries get
listed-entries name end = refl
listed-entries name (entry k node rest) = ground (arith, kind-seen node, listed-entries name rest)

-- A directory is listed with the names that there is something at, each as a directory or a file as it
-- is, and with no other name.
pub list_directory-listed :
    (fs : FileSystem) (path : List Text) (names : List (Text × Bool)) (name : Text)
    → list_directory fs path ≡ ok names
    → listed name names ≡ kind (view fs.root (child path name))
unfolding list_directory
list_directory-listed fs path names name e = elim (Option-cases (at fs.root path)) [
  | inl nothing ↦ ground (arith, find_directory-at fs path)
  | inr (x, g) ↦
      let same : entries (children x) ≡ names = ground (arith, find_directory-at fs path) in
      ap (listed name) (sym same)
      ∙ listed-entries name (children x)
      ∙ ap kind (sym (view-append path (name ∷ []) fs.root x g ∙ view-seen x name []))
]

-- The names of a listing, in strictly rising order.
abbrev pub Rising : List (Text × Bool) → Type 0
Rising [] = Unit
Rising ((name, _) ∷ []) = Unit
Rising ((a, _) ∷ (b, x) ∷ rest) = (text_lt a b ≡ true) × Rising ((b, x) ∷ rest)

entries-Rising : (m : Children) → Sorted m → Rising (entries m)
unfolding entries
entries-Rising end v = tt
entries-Rising (entry a node end) v = tt
entries-Rising (entry a node (entry b other m)) v = (v.0.0, entries-Rising (entry b other m) v.1)

-- A directory is listed in strictly rising order of the names, after any sequence of calls on a file
-- system that starts empty.
pub list_directory-Rising :
    (ops : List Op) (p : List Text) (items : List (Text × Bool))
    → list_directory (run new ops) p ≡ ok items
    → Rising items
unfolding list_directory
list_directory-Rising ops p items h = elim (Option-cases (at (run new ops).root p)) [
  | inl nothing ↦ ground (arith, find_directory-at (run new ops) p)
  | inr (x, g) ↦
      let v =
        at-DirectoryOk p (run new ops).root x (run-DirectoryOk ops new (unfold NodeOk in tt)) g in
      let same : entries (children x) ≡ items = ground (arith, find_directory-at (run new ops) p) in
      subst Rising same (entries-Rising (children x) (children-Sorted x v))
]
