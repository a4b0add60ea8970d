-- ===== src/Fs/Tests.antt =====
-- Runs on a small file system, and the theorems at it.
use Prim.Native.String.{String}
use alilu_os.Common.{
  false, ◌≡◌, refl, ◌&&◌, [], ◌∷◌, List, if◌then◌else◌, Text, codes, text_eq, text_lt, contains,
}
use alilu_os.Fs.{
  FileSystem, new, ok, err, create_directory, create_file, write_file, read_file, delete_node,
  resolve_path, list_directory, dir, entry, end, file, directory, new_file, find_directory,
  find_directory_mut, find_node, find_node_mut, get, insert, replace, remove, contains_key,
  add_node, write_node, remove_node, entries,
}
use alilu_os.Fs.Graft.{path_eq}
use alilu_os.Fs.Files.{errors_change_nothing, read_file-write_file}
use alilu_os.Fs.Order.{
  NodeOk, DirectoryOk, Op, make_directory, make_file, write, delete, run, run-DirectoryOk,
}
use alilu_os.Fs.Spec
use alilu_os.Fs.Listing.{listed, kind, list_directory-listed}
use alilu_os.Fs.Spec.{child, Call, changes, reads, done, held}
use alilu_os.Fs.View.{view}
use alilu_os.Fs.Refinement.{answers, perform, answers-view}
use alilu_os.Fs.Paths.{AreSegments, resolve_path-AreSegments, cwd_path, resolve_path-cwd_path}

abbrev docs : List Text
docs = codes "docs" ∷ []

abbrev script : List Op
script =
    make_directory [] (codes "docs") 7
    ∷ make_file docs (codes "b.txt") 8
    ∷ write docs (codes "a.txt") (codes "hi")
    ∷ []

-- `/docs/a.txt` holds "hi", `/docs/b.txt` is empty.
abbrev disk : FileSystem
disk = record {
  root =
      dir []
        (entry (codes "docs")
          (directory (
            dir (codes "docs")
              (entry (codes "a.txt") (file (new_file (codes "a.txt") (codes "hi") 0))
                (entry (codes "b.txt") (file (new_file (codes "b.txt") [] 8)) end))
              7))
          end)
        0;
}

-- What a test computes through.
steps : Unit {0}
unfolding find_directory find_directory_mut find_node find_node_mut get insert replace remove
    contains_key add_node write_node remove_node create_directory create_file write_file read_file
    delete_node list_directory entries text_eq text_lt
steps = tt

script_builds_disk :
    let s1 = (create_directory new [] (codes "docs") 7).0 in
    let s2 = (create_file s1 docs (codes "b.txt") 8).0 in
    (write_file s2 docs (codes "a.txt") (codes "hi")).0 ≡ disk
unfolding steps
script_builds_disk = refl

disk-DirectoryOk : DirectoryOk disk.root
unfolding NodeOk text_lt
disk-DirectoryOk = ((refl, (refl, (refl, tt), (refl, tt, tt))), tt, tt)

errors_change_nothing_example :
    let e : String = "Parent directory not found" in
    let p = codes "none" ∷ [] in
    ((create_directory disk p (codes "x") 1).1 ≡ err e
      → (create_directory disk p (codes "x") 1).0 ≡ disk)
    × ((create_file disk p (codes "x") 1).1 ≡ err e → (create_file disk p (codes "x") 1).0 ≡ disk)
    × ((write_file disk p (codes "x") (codes "y")).1 ≡ err e
        → (write_file disk p (codes "x") (codes "y")).0 ≡ disk)
    × ((delete_node disk p (codes "x")).1 ≡ err e → (delete_node disk p (codes "x")).0 ≡ disk)
errors_change_nothing_example =
    errors_change_nothing disk (codes "none" ∷ []) (codes "x") (codes "y") 1
      "Parent directory not found"

read_file-write_file_example :
    read_file (write_file disk docs (codes "b.txt") (codes "new")).0 docs (codes "a.txt") ≡ (
      if path_eq docs docs && text_eq (codes "b.txt") (codes "a.txt")
      then ok (codes "new")
      else read_file disk docs (codes "a.txt"))
unfolding steps
read_file-write_file_example =
    read_file-write_file disk docs docs (codes "b.txt") (codes "new") (codes "a.txt") refl

run-DirectoryOk_example : DirectoryOk (run disk script).root
run-DirectoryOk_example = run-DirectoryOk script disk disk-DirectoryOk

list_directory-listed_example :
    listed (codes "b.txt") ((codes "a.txt", false) ∷ (codes "b.txt", false) ∷ [])
    ≡ kind (view disk.root (child docs (codes "b.txt")))
unfolding steps
list_directory-listed_example =
    list_directory-listed disk docs ((codes "a.txt", false) ∷ (codes "b.txt", false) ∷ [])
      (codes "b.txt") refl

docs-AreSegments : AreSegments docs
unfolding text_eq contains
docs-AreSegments = (record { filled = refl; not_here = refl; not_up = refl; no_slash = refl }, tt)

resolve_path-AreSegments_example : AreSegments (resolve_path docs (codes ".././x//y"))
resolve_path-AreSegments_example =
    resolve_path-AreSegments docs (codes ".././x//y") docs-AreSegments

resolve_path-cwd_path_example : resolve_path (codes "x" ∷ []) (cwd_path docs) ≡ docs
resolve_path-cwd_path_example = resolve_path-cwd_path (codes "x" ∷ []) docs docs-AreSegments

-- A file is written, its directory deleted, and both are asked for.
abbrev session : List Call
session =
    changes (write docs (codes "c.txt") (codes "ok"))
    ∷ reads docs (codes "c.txt")
    ∷ changes (delete [] (codes "docs"))
    ∷ reads docs (codes "c.txt")
    ∷ []

answers-view_example : answers disk session ≡ Spec.answers (view disk.root) session
answers-view_example = answers-view session disk disk-DirectoryOk

answers-session :
    answers disk session
    ≡ done (ok tt) ∷ held (ok (codes "ok")) ∷ done (ok tt) ∷ held (err "Directory not found") ∷ []
unfolding steps answers perform
answers-session = refl
