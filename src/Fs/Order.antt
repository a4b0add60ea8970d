-- ===== src/Fs/Order.antt =====
-- The invariant of the tree: in every directory the entries stand in strictly rising order, and
-- each is stored under its own name.
use Prim.Native.String.{String}
use alilu_os.Common.{
  ℕ, ap, ◌∙◌, ◌≡◌, refl, sym, Bool-cases, some, List, [], ◌∷◌, arith, Option-cases, inl,
}
use alilu_os.Common.{inr, Text, text_lt, text_eq, text_eq_iff, text_lt_total}
use alilu_os.Fs.{
  Node, file, directory, DirectoryNode, dir, dir_name, children, Children, end, entry, get, insert,
  replace, remove, with_child, FileSystem, Result, answer, find_directory_mut, add_node, write_node,
  remove_node, create_directory, create_file, write_file, delete_node, entries, new_file,
  new_directory,
}
use mathlib.Core.Path.{subst, subst₂}
use alilu_os.Fs.Map.{Above, Above-trans, Sorted, Above-insert, Above-replace, Above-remove}
use alilu_os.Fs.Tree.{
  sub, at, graft, Found, missing, a_file, a_directory, found, find_directory_mut-graft,
}

unfoldable mutual
  pub NodeOk : Text → Node → Type 0
  NodeOk key (file f) = f.name ≡ key
  NodeOk key (directory d) = (dir_name d ≡ key) × DirectoryOk d

  pub DirectoryOk : DirectoryNode → Type 0
  DirectoryOk (dir name entries ticks) = ChildrenOk entries

  pub ChildrenOk : Children → Type 0
  ChildrenOk end = Unit
  ChildrenOk (entry key node rest) = NodeOk key node × Above key rest × ChildrenOk rest

pub ChildrenOk-Sorted : (m : Children) → ChildrenOk m → Sorted m
unfolding NodeOk
ChildrenOk-Sorted end v = tt
ChildrenOk-Sorted (entry k node m) v = (v.1, ChildrenOk-Sorted m v.2)

get-NodeOk :
    (k : Text) (node : Node) (m : Children) → ChildrenOk m → get k m ≡ some node → NodeOk k node
unfolding NodeOk get
get-NodeOk k node end v e = cc
get-NodeOk k node (entry j other m) v e = elim (Bool-cases (text_eq j k)) [
  | inl same ↦
      let keys : j ≡ k = (text_eq_iff j k).0 same in
      let nodes : other ≡ node = ground arith in subst₂ NodeOk keys nodes v.0
  | inr other_key ↦ get-NodeOk k node m v.2 (ground arith)
]

insert-ChildrenOk :
    (k : Text) (node : Node) (m : Children)
    → NodeOk k node
    → ChildrenOk m
    → ChildrenOk (insert k node m)
unfolding NodeOk insert
insert-ChildrenOk k node end o v = (o, tt, tt)
insert-ChildrenOk k node (entry j old m) o v = elim (Bool-cases (text_eq j k)) [
  | inl same ↦
      let keys : k ≡ j = sym ((text_eq_iff j k).0 same) in
      rw same (subst (λ key. NodeOk key node) keys o, v.1, v.2)
  | inr other ↦ elim (Bool-cases (text_lt k j)) [
    | inl first ↦ rw (other, first) (o, (first, Above-trans k j m first v.1), v)
    | inr later ↦
        rw (other, later)
          (
            v.0,
            Above-insert j k node m
                (text_lt_total k j (ground (arith, text_eq_iff k j, text_eq_iff j k)) later) v.1,
            insert-ChildrenOk k node m o v.2,
          )
  ]
]

replace-ChildrenOk :
    (k : Text) (node : Node) (m : Children)
    → NodeOk k node
    → ChildrenOk m
    → ChildrenOk (replace k node m)
unfolding NodeOk replace
replace-ChildrenOk k node end o v = tt
replace-ChildrenOk k node (entry j old m) o v = elim (Bool-cases (text_eq j k)) [
  | inl same ↦
      let keys : k ≡ j = sym ((text_eq_iff j k).0 same) in
      rw same (subst (λ key. NodeOk key node) keys o, v.1, v.2)
  | inr other ↦ rw other (v.0, Above-replace j k node m v.1, replace-ChildrenOk k node m o v.2)
]

remove-ChildrenOk : (k : Text) (m : Children) → ChildrenOk m → ChildrenOk (remove k m)
unfolding NodeOk remove
remove-ChildrenOk k end v = tt
remove-ChildrenOk k (entry j old m) v =
    ground (arith, remove-ChildrenOk k m v.2, Above-remove j k m v.1)

-- What a change of a directory keeps.
abbrev Keeps : {R : Type 0} → (DirectoryNode → DirectoryNode × R) → Type 0
Keeps change =
    (x : DirectoryNode)
    → DirectoryOk x
    → (dir_name (change x).0 ≡ dir_name x) × DirectoryOk (change x).0

sub-NodeOk :
    (d x : DirectoryNode) (s : Text)
    → DirectoryOk d
    → sub d s ≡ some x
    → (dir_name x ≡ s) × DirectoryOk x
unfolding sub NodeOk
sub-NodeOk (dir name m ticks) x s v e = go (found (get s m))
  where
    go : Found (get s m) → (dir_name x ≡ s) × DirectoryOk x
    go (missing g) = ground arith
    go (a_file f g) = ground arith
    go (a_directory y g) =
        let same : y ≡ x = ground arith in
        subst (λ z. (dir_name z ≡ s) × DirectoryOk z) same (get-NodeOk s (directory y) m v g)

with_child-DirectoryOk :
    (d : DirectoryNode) (s : Text) (node : Node)
    → DirectoryOk d
    → NodeOk s node
    → (dir_name (with_child d s node) ≡ dir_name d) × DirectoryOk (with_child d s node)
unfolding NodeOk
with_child-DirectoryOk (dir name m ticks) s node v o = (refl, replace-ChildrenOk s node m o v)

NodeOk-directory :
    (s : Text) (d : DirectoryNode) → dir_name d ≡ s → DirectoryOk d → NodeOk s (directory d)
unfolding NodeOk
NodeOk-directory s d e v = (e, v)

abbrev Kept : DirectoryNode → DirectoryNode → Type 0
Kept x new_x = (dir_name new_x ≡ dir_name x) × DirectoryOk new_x

graft-DirectoryOk :
    (p : List Text) (d x new_x : DirectoryNode)
    → DirectoryOk d
    → at d p ≡ some x
    → (DirectoryOk x → Kept x new_x)
    → Kept d (graft d p new_x)
unfolding at graft
graft-DirectoryOk [] d x new_x v e keep =
    let same : d ≡ x = ground arith in
    let kept = keep (subst DirectoryOk same v) in (kept.0 ∙ ap dir_name (sym same), kept.1)
graft-DirectoryOk (s ∷ p) d x new_x v e keep = elim (Option-cases (sub d s)) [
  | inl absent ↦ ground arith
  | inr (y, g) ↦
      let below = sub-NodeOk d y s v g in
      let grafted = graft-DirectoryOk p y x new_x below.1 (ground arith) keep in
      let next = with_child d s (directory (graft y p new_x)) in
      let there : next ≡ graft d (s ∷ p) new_x = ground arith in
      subst (Kept d) there (
        with_child-DirectoryOk d s (directory (graft y p new_x)) v
          (NodeOk-directory s (graft y p new_x) (grafted.0 ∙ below.0) grafted.1))
]

change_at-DirectoryOk :
    (fs : FileSystem) (message : String) (p : List Text)
    (change : DirectoryNode → DirectoryNode × Result (Unit {0}))
    → Keeps change
    → DirectoryOk fs.root
    → DirectoryOk (answer fs message (find_directory_mut fs p change)).0.root
change_at-DirectoryOk fs message p change keeps v = elim (Option-cases (at fs.root p)) [
  | inl absent ↦ rw (find_directory_mut-graft fs p change, absent) v
  | inr (x, g) ↦
      rw (find_directory_mut-graft fs p change, g)
        (graft-DirectoryOk p fs.root x (change x).0 v g (keeps x)).1
]

add_node-Keeps : (name : Text) (node : Node) → NodeOk name node → Keeps (add_node name node)
unfolding add_node NodeOk
add_node-Keeps name node o (dir label m ticks) v = ground (arith, insert-ChildrenOk name node m o v)

write_node-Keeps : (name content : Text) → Keeps (write_node name content)
unfolding write_node NodeOk
write_node-Keeps name content (dir label m ticks) v = go (found (get name m))
  where
    x : DirectoryNode
    x = dir label m ticks

    go : Found (get name m) → Kept x (write_node name content x).0
    go (missing g) =
        ground (arith, insert-ChildrenOk name (file (new_file name content 0)) m refl v)
    go (a_file f g) = ground (
      arith,
      replace-ChildrenOk name (file (record f { content = content })) m
          (get-NodeOk name (file f) m v g) v,
    )
    go (a_directory y g) = ground arith

remove_node-Keeps : (name : Text) → Keeps (remove_node name)
unfolding remove_node NodeOk
remove_node-Keeps name (dir label m ticks) v = go (found (get name m))
  where
    x : DirectoryNode
    x = dir label m ticks

    go : Found (get name m) → Kept x (remove_node name x).0
    go (missing g) = ground arith
    go (a_file f g) = ground (arith, remove-ChildrenOk name m v)
    go (a_directory y g) = ground (arith, remove-ChildrenOk name m v)

-- A call that changes the file system.
pub data Op : Type 0 where
  make_directory make_file : List Text → Text → ℕ → Op
  write : List Text → Text → Text → Op
  delete : List Text → Text → Op

unfoldable pub apply : FileSystem → Op → FileSystem
apply fs (make_directory parent name ticks) = (create_directory fs parent name ticks).0
apply fs (make_file parent name ticks) = (create_file fs parent name ticks).0
apply fs (write parent name content) = (write_file fs parent name content).0
apply fs (delete parent name) = (delete_node fs parent name).0

unfoldable pub run : FileSystem → List Op → FileSystem
run fs [] = fs
run fs (op ∷ ops) = run (apply fs op) ops

pub apply-DirectoryOk :
    (fs : FileSystem) (op : Op) → DirectoryOk fs.root → DirectoryOk (apply fs op).root
unfolding apply create_directory create_file write_file delete_node
apply-DirectoryOk fs (make_directory parent name ticks) v =
    change_at-DirectoryOk fs _ parent _
      (add_node-Keeps name (directory (new_directory name ticks))
        (NodeOk-directory name (new_directory name ticks) refl (unfold NodeOk in tt)))
      v
apply-DirectoryOk fs (make_file parent name ticks) v =
    change_at-DirectoryOk fs _ parent _
      (add_node-Keeps name (file (new_file name [] ticks)) (unfold NodeOk in refl)) v
apply-DirectoryOk fs (write parent name content) v =
    change_at-DirectoryOk fs _ parent _ (write_node-Keeps name content) v
apply-DirectoryOk fs (delete parent name) v =
    change_at-DirectoryOk fs _ parent _ (remove_node-Keeps name) v

-- Any sequence of calls keeps every directory in strictly rising order with each entry stored under
-- its own name.
pub run-DirectoryOk :
    (ops : List Op) (fs : FileSystem) → DirectoryOk fs.root → DirectoryOk (run fs ops).root
unfolding run
run-DirectoryOk [] fs v = v
run-DirectoryOk (op ∷ ops) fs v = run-DirectoryOk ops (apply fs op) (apply-DirectoryOk fs op v)

pub at-DirectoryOk :
    (p : List Text) (d x : DirectoryNode) → DirectoryOk d → at d p ≡ some x → DirectoryOk x
unfolding at
at-DirectoryOk [] d x v e = let same : d ≡ x = ground arith in subst DirectoryOk same v
at-DirectoryOk (s ∷ p) d x v e = elim (Option-cases (sub d s)) [
  | inl absent ↦ ground arith
  | inr (y, g) ↦ at-DirectoryOk p y x (sub-NodeOk d y s v g).1 (ground arith)
]

pub children-Sorted : (d : DirectoryNode) → DirectoryOk d → Sorted (children d)
unfolding NodeOk
children-Sorted (dir name m ticks) v = ChildrenOk-Sorted m v
