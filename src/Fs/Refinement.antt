-- ===== src/Fs/Refinement.antt =====
-- `FileSystem` of src/fs.rs against the entries at its paths.
use Prim.Native.String.{String}
use alilu_os.Common.{◌≡◌, refl, sym, ap, ap₂, ◌∙◌, some, List, [], ◌∷◌, arith}
use alilu_os.Common.{Text, Option-cases, inl, inr}
use alilu_os.Fs.{
  file, directory, DirectoryNode, children, get, Result, FileSystem, find_directory_mut, answer,
  create_directory, create_file, write_file, read_file, delete_node, new_file, new_directory,
}
use alilu_os.Fs.Map.{}
use alilu_os.Fs.Tree.{
  at, graft, Found, missing, a_file, a_directory, found, find_directory_mut-graft, with_root,
  graft_by,
}
use alilu_os.Fs.Graft.{graft_self, here, read_file-at}
use alilu_os.Fs.Order.{
  Op, make_directory, make_file, write, delete, apply, apply-DirectoryOk, DirectoryOk,
  at-DirectoryOk,
}
use alilu_os.Fs.Spec
use alilu_os.Fs.Spec.{
  Entry, absent, folder, content, Edit, keep, clear, set, edit, Act, add, overwrite, discard,
  act_at, is_folder, text_of, child, put, cut, Call, changes, reads, Answer, done, held,
}
use alilu_os.Fs.View.{view, view-append, view-at, view-graft-Put, view-graft-Cut}
use alilu_os.Fs.Acts.{
  Edited, Does, add_node-Does, file_shows, directory_shows, write_node-Does, remove_node-Does,
}

edit-graft :
    (p q : List Text) (d x y : DirectoryNode) (name : Text) (to : Edit)
    → at d p ≡ some x
    → Edited x name to y
    → view (graft d p y) q ≡ edit (view d) p name to q
unfolding edit
edit-graft p q d x y name keep h w =
    ap (λ k. view (graft d p k) q) w ∙ ap (λ k. view k q) (graft_self p d x h)
edit-graft p q d x y name clear h w = view-graft-Cut p q d x y name h w
edit-graft p q d x y name (set e) h w = view-graft-Put p q d x y name e h w

-- An operation at a path does what its act does there.
change_at-act_at :
    (fs : FileSystem) (message : String) (p : List Text) (name : Text)
    (change : DirectoryNode → DirectoryNode × Result (Unit {0})) (act : Act)
    → ((x : DirectoryNode) → at fs.root p ≡ some x → Does change act name x)
    → let (fs', r) = answer fs message (find_directory_mut fs p change) in
      let (a, r') = act_at message act (view fs.root) p name in
      (r ≡ r') × ((q : List Text) → view fs'.root q ≡ a q)
unfolding act_at
change_at-act_at fs message p name change act body = elim (Option-cases (at fs.root p)) [
  | inl nothing ↦ (
    ground (arith, find_directory_mut-graft fs p change, view-at p fs.root),
    λ q. ground (arith, find_directory_mut-graft fs p change, view-at p fs.root),
  )
  | inr (x, g) ↦
      let w = body x g in
      let root = fs.root in
      let code : answer fs message (find_directory_mut fs p change)
          ≡ (record { root = graft root p (change x).0 }, (change x).1) =
        ap (answer fs message) (
          find_directory_mut-graft fs p change
          ∙ ap (λ o. with_root (graft_by root p change o)) g) in
      let spec : act_at message act (view root) p name
          ≡ (edit (view root) p name (act (view x (name ∷ []))).0, (act (view x (name ∷ []))).1) =
        ground (arith, view-at p root, view-append p (name ∷ []) root x g) in
      (
        ap (λ k. k.1) code ∙ w.answers ∙ sym (ap (λ k. k.1) spec),
        λ q.
            ap (λ k. view k.0.root q) code
            ∙ edit-graft p q root x (change x).0 name (act (view x (name ∷ []))).0 g w.edits
            ∙ sym (ap (λ k. k.0 q) spec),
      )
]

-- An operation and its answer.
unfoldable pub perform : FileSystem → Op → FileSystem × Result (Unit {0})
perform fs (make_directory parent name ticks) = create_directory fs parent name ticks
perform fs (make_file parent name ticks) = create_file fs parent name ticks
perform fs (write parent name text) = write_file fs parent name text
perform fs (delete parent name) = delete_node fs parent name

perform-DirectoryOk :
    (fs : FileSystem) (op : Op) → DirectoryOk fs.root → DirectoryOk (perform fs op).0.root
unfolding perform apply
perform-DirectoryOk fs (make_directory parent name ticks) v =
    apply-DirectoryOk fs (make_directory parent name ticks) v
perform-DirectoryOk fs (make_file parent name ticks) v =
    apply-DirectoryOk fs (make_file parent name ticks) v
perform-DirectoryOk fs (write parent name text) v = apply-DirectoryOk fs (write parent name text) v
perform-DirectoryOk fs (delete parent name) v = apply-DirectoryOk fs (delete parent name) v

perform-change :
    (fs : FileSystem) (op : Op)
    → DirectoryOk fs.root
    → ((perform fs op).1 ≡ (Spec.change (view fs.root) op).1)
      × ((q : List Text) → view (perform fs op).0.root q ≡ (Spec.change (view fs.root) op).0 q)
unfolding perform create_directory create_file write_file delete_node Spec.change
perform-change fs (make_directory parent name ticks) v =
    change_at-act_at fs _ parent name _ (add folder) (λ x g.
      add_node-Does x name (directory (new_directory name ticks)) folder
        (directory_shows name ticks))
perform-change fs (make_file parent name ticks) v =
    change_at-act_at fs _ parent name _ (add (content [])) (λ x g.
      add_node-Does x name (file (new_file name [] ticks)) (content [])
        (file_shows (new_file name [] ticks)))
perform-change fs (write parent name text) v =
    change_at-act_at fs _ parent name _ (overwrite text) (λ x g. write_node-Does x name text)
perform-change fs (delete parent name) v =
    change_at-act_at fs _ parent name _ discard
      (λ x g. remove_node-Does x name (at-DirectoryOk parent fs.root x v g))

here-text_of : (x : DirectoryNode) (name : Text) → here x name ≡ text_of (view x (name ∷ []))
unfolding here text_of view
here-text_of x name = go (found (get name (children x)))
  where
    go : Found (get name (children x)) → here x name ≡ text_of (view x (name ∷ []))
    go (missing g) = ground arith
    go (a_file f g) = ground arith
    go (a_directory y g) = ground arith

read_file-read :
    (fs : FileSystem) (p : List Text) (name : Text)
    → read_file fs p name ≡ Spec.read (view fs.root) p name
unfolding Spec.read
read_file-read fs p name = elim (Option-cases (at fs.root p)) [
  | inl nothing ↦ ground (arith, read_file-at fs p name, view-at p fs.root)
  | inr (x, g) ↦ ground (
    arith,
    read_file-at fs p name,
    view-at p fs.root,
    view-append p (name ∷ []) fs.root x g,
    here-text_of x name,
  )
]

-- What the calls answer.
unfoldable pub answers : FileSystem → List Call → List Answer
answers fs [] = []
answers fs (changes op ∷ calls) = done (perform fs op).1 ∷ answers (perform fs op).0 calls
answers fs (reads parent name ∷ calls) = held (read_file fs parent name) ∷ answers fs calls

-- However calls that create, write, delete and read follow each other on an ordered file system, it
-- answers each of them, errors included, as the entries at its paths do that the calls before changed.
pub answers-view :
    (calls : List Call) (fs : FileSystem)
    → DirectoryOk fs.root
    → answers fs calls ≡ Spec.answers (view fs.root) calls
unfolding answers Spec.answers
answers-view [] fs v = refl
answers-view (changes op ∷ calls) fs v =
    let (same, views) = perform-change fs op v in
    let viewed : view (perform fs op).0.root ≡ (Spec.change (view fs.root) op).0 =
      λ i q. views q i in
    ap₂ (λ r rest. done r ∷ rest) same
      (answers-view calls (perform fs op).0 (perform-DirectoryOk fs op v)
        ∙ ap (λ a. Spec.answers a calls) viewed)
answers-view (reads parent name ∷ calls) fs v =
    ap₂ (λ r rest. held r ∷ rest) (read_file-read fs parent name) (answers-view calls fs v)
