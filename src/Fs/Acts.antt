-- ===== src/Fs/Acts.antt =====
-- The bodies of the operations of src/fs.rs, as acts on an entry of a directory.
use mathlib.Core.Path.{subst}
use alilu_os.Common.{ℕ, ◌≡◌, refl, sym, ap, ◌∙◌, some, List, [], ◌∷◌, arith}
use alilu_os.Common.{if◌then◌else◌, Text}
use alilu_os.Fs.{
  Children, insert, replace, remove, Node, FileNode, file, directory, DirectoryNode, dir, get,
  Result, add_node, write_node, remove_node, new_file, new_directory,
}
use alilu_os.Fs.Map.{
  get-insert, get-replace, get-remove, contains_key-none, contains_key-some, Sorted,
}
use alilu_os.Fs.Tree.{Found, missing, a_file, a_directory, found}
use alilu_os.Fs.Graft.{path_eq}
use alilu_os.Fs.Order.{DirectoryOk, children-Sorted}
use alilu_os.Fs.Spec.{
  Entry, absent, folder, content, Edit, keep, clear, set, Act, add, overwrite, discard,
}
use alilu_os.Fs.View.{view, Put, Cut, seen, view-seen, view-Put}

-- The directory after an edit of an entry.
abbrev pub Edited : DirectoryNode → Text → Edit → DirectoryNode → Type 0
Edited x name keep y = y ≡ x
Edited x name clear y = Cut x name y
Edited x name (set e) y = Put x name e y

-- A body of an operation does what an act does, in a directory.
pub record Does (change : DirectoryNode → DirectoryNode × Result (Unit {0})) (act : Act)
    (name : Text) (x : DirectoryNode) : Type 0 where
  pub answers : (change x).1 ≡ (act (view x (name ∷ []))).1
  pub edits : Edited x name (act (view x (name ∷ []))).0 (change x).0

does :
    {change : DirectoryNode → DirectoryNode × Result (Unit {0})} {act : Act} {name : Text}
    {x : DirectoryNode} {seen_as : Entry} {y : DirectoryNode} {to : Edit} {r : Result (Unit {0})}
    → view x (name ∷ []) ≡ seen_as
    → change x ≡ (y, r)
    → act seen_as ≡ (to, r)
    → Edited x name to y
    → Does change act name x
does {change} {act} {name} {x} {to = to} e c a w =
    let acts = ap act e ∙ a in
    record {
      answers = ap (λ k. k.1) c ∙ sym (ap (λ k. k.1) acts);
      edits =
          subst (λ k. Edited x name k (change x).0) (sym (ap (λ k. k.0) acts))
            (subst (λ k. Edited x name to k.0) (sym c) w);
    }

pub add_node-Does :
    (x : DirectoryNode) (name : Text) (node : Node) (e : Entry)
    → ((q : List Text) → seen (some node) q ≡ (if path_eq [] q then e else absent))
    → Does (add_node name node) (add e) name x
unfolding add_node add
add_node-Does (dir label m ticks) name node e shows = go (found (get name m))
  where
    x : DirectoryNode
    x = dir label m ticks

    go : Found (get name m) → Does (add_node name node) (add e) name x
    go (missing g) =
        does {seen_as = absent} (view-seen x name [] ∙ ground arith)
          (ground (arith, contains_key-none name m)) refl
          (view-Put x (dir label (insert name node m) ticks) name node e
            (λ s. get-insert name s node m) shows (λ t q. ground arith))
    go (a_file f g) =
        does {seen_as = content f.content} (view-seen x name [] ∙ ground arith)
          (ground (arith, contains_key-some name (file f) m)) refl refl
    go (a_directory y g) =
        does {seen_as = folder} (view-seen x name [] ∙ ap (λ o. seen o []) g ∙ unfold view in refl)
          (ground (arith, contains_key-some name (directory y) m)) refl refl

pub file_shows :
    (f : FileNode) (q : List Text)
    → seen (some (file f)) q ≡ (if path_eq [] q then content f.content else absent)
unfolding path_eq
file_shows f [] = refl
file_shows f (_ ∷ _) = refl

pub directory_shows :
    (name : Text) (ticks : ℕ) (q : List Text)
    → seen (some (directory (new_directory name ticks))) q
      ≡ (if path_eq [] q then folder else absent)
unfolding path_eq view get
directory_shows name ticks [] = refl
directory_shows name ticks (_ ∷ _) = refl

pub write_node-Does :
    (x : DirectoryNode) (name text : Text) → Does (write_node name text) (overwrite text) name x
unfolding write_node overwrite
write_node-Does (dir label m ticks) name text = go (found (get name m))
  where
    x : DirectoryNode
    x = dir label m ticks

    go : Found (get name m) → Does (write_node name text) (overwrite text) name x
    go (missing g) =
        let node = file (new_file name text 0) in
        does {seen_as = absent} (view-seen x name [] ∙ ground arith) (ground arith) refl (
          view-Put x (dir label (insert name node m) ticks) name node (content text)
            (λ s. get-insert name s node m) (file_shows (new_file name text 0))
            (λ t q. ground arith))
    go (a_file f g) =
        let node = file (record f { content = text }) in
        does {seen_as = content f.content} (view-seen x name [] ∙ ground arith) (ground arith) refl
          (view-Put x (dir label (replace name node m) ticks) name node (content text)
            (λ s. get-replace name s node (file f) m g) (file_shows (record f { content = text }))
            (λ t q. ground arith))
    go (a_directory y g) =
        does {seen_as = folder} (view-seen x name [] ∙ ap (λ o. seen o []) g ∙ unfold view in refl)
          (ground arith) refl refl

-- Without the entry.
remove-Cut :
    (x : DirectoryNode) (label name : Text) (m : Children) (ticks : ℕ)
    → Sorted m
    → Cut (dir label m ticks) name (dir label (remove name m) ticks)
remove-Cut x label name m ticks sorted s q =
    let y = dir label (remove name m) ticks in
    view-seen y s q
    ∙ ap (λ o. seen o q) (get-remove name s m sorted)
    ∙ ground (arith, view-seen (dir label m ticks) s q)

pub remove_node-Does :
    (x : DirectoryNode) (name : Text) → DirectoryOk x → Does (remove_node name) discard name x
unfolding remove_node discard
remove_node-Does (dir label m ticks) name v = go (found (get name m))
  where
    x : DirectoryNode
    x = dir label m ticks

    gone : Cut x name (dir label (remove name m) ticks)
    gone = remove-Cut x label name m ticks (children-Sorted x v)

    go : Found (get name m) → Does (remove_node name) discard name x
    go (missing g) =
        does {seen_as = absent} (view-seen x name [] ∙ ground arith) (ground arith) refl refl
    go (a_file f g) =
        does {seen_as = content f.content} (view-seen x name [] ∙ ground arith) (ground arith) refl
          gone
    go (a_directory y g) =
        does {seen_as = folder} (view-seen x name [] ∙ ap (λ o. seen o []) g ∙ unfold view in refl)
          (ground arith) refl gone
