-- ===== src/Fs/View.antt =====
-- The entries at the paths of a tree of src/fs.rs, and what a graft changes of them.
use alilu_os.Common.{◌≡◌, refl, ◌∙◌, false, true, none, some, Option, List, [], ◌∷◌, ◌++◌, arith}
use alilu_os.Common.{if◌then◌else◌, Text, text_eq, text_eq_iff, Option-cases, inl, inr}
use alilu_os.Fs.{Node, file, directory, DirectoryNode, children, get, with_child}
use alilu_os.Fs.Tree.{sub, at, graft, Found, missing, a_file, a_directory, found}
use alilu_os.Fs.Graft.{path_eq, get-sub, get-with_child}
use alilu_os.Fs.Delete.{through}
use alilu_os.Fs.Spec.{Entry, absent, folder, content, is_folder, put, cut}

-- The entry at a path of a tree.
unfoldable pub view : DirectoryNode → List Text → Entry
view d [] = folder
view d (s ∷ p) = elim (get s (children d)) [
  | none ↦ absent
  | some (directory x) ↦ view x p
  | some (file f) ↦ elim p [ [] ↦ content f.content | _ ∷ _ ↦ absent ]
]

view-directory :
    (d x : DirectoryNode) (s : Text) (p : List Text)
    → get s (children d) ≡ some (directory x)
    → view d (s ∷ p) ≡ view x p
unfolding view
view-directory d x s p e = ground arith

-- A directory's own entries are seen below its path.
pub view-append :
    (p q : List Text) (d x : DirectoryNode) → at d p ≡ some x → view d (p ++ q) ≡ view x q
unfolding at
view-append [] q d x e = ground arith
view-append (s ∷ p) q d x e = elim (Option-cases (sub d s)) [
  | inl nothing ↦ ground arith
  | inr (y, g) ↦
      view-directory d y s (p ++ q) (get-sub d y s g) ∙ view-append p q y x (ground arith)
]

pub view-at :
    (p : List Text) (d : DirectoryNode)
    → is_folder (view d p) ≡ (elim (at d p) [ none ↦ false | some _ ↦ true ])
unfolding at sub view is_folder
view-at [] d = refl
view-at (s ∷ p) d = go (found (get s (children d))) (view-at p)
  where
    go :
        Found (get s (children d))
        → ((x : DirectoryNode)
            → is_folder (view x p) ≡ (elim (at x p) [ none ↦ false | some _ ↦ true ]))
        → is_folder (view d (s ∷ p)) ≡ (elim (at d (s ∷ p)) [ none ↦ false | some _ ↦ true ])
    go (missing e) ih = ground arith
    go (a_file f e) ih = elim p [ [] ↦ ground arith | _ ∷ _ ↦ ground arith ]
    go (a_directory x e) ih = ground (arith, ih x)

-- A directory with another entry under a name, and nothing below it, where nothing was.
abbrev pub Put : DirectoryNode → Text → Entry → DirectoryNode → Type 0
Put x name e y =
    (s : Text) (q : List Text)
    → view y (s ∷ q) ≡ (if path_eq (name ∷ []) (s ∷ q) then e else view x (s ∷ q))

-- A directory without an entry.
abbrev pub Cut : DirectoryNode → Text → DirectoryNode → Type 0
Cut x name y =
    (s : Text) (q : List Text)
    → view y (s ∷ q) ≡ (if text_eq name s then absent else view x (s ∷ q))

-- Beside the way to the graft nothing changes.
view-with_child :
    (d z new : DirectoryNode) (s t : Text) (q : List Text)
    → sub d s ≡ some z
    → view (with_child d s (directory new)) (t ∷ q)
      ≡ (if text_eq s t then view new q else view d (t ∷ q))
unfolding view
view-with_child d z new s t q g = ground (arith, get-with_child d z (directory new) s t g)

pub view-graft-Put :
    (p q : List Text) (d x y : DirectoryNode) (name : Text) (e : Entry)
    → at d p ≡ some x
    → Put x name e y
    → view (graft d p y) q ≡ put (view d) p name e q
unfolding at graft path_eq put
view-graft-Put [] [] d x y name e h w = unfold view in refl
view-graft-Put [] (t ∷ q) d x y name e h w = ground (arith, w t q)
view-graft-Put (s ∷ p) [] d x y name e h w = unfold view in refl
view-graft-Put (s ∷ p) (t ∷ q) d x y name e h w = elim (Option-cases (sub d s)) [
  | inl nothing ↦ ground arith
  | inr (z, g) ↦ ground (
    arith,
    view-with_child d z (graft z p y) s t q g,
    text_eq_iff s t,
    view-directory d z s q (get-sub d z s g),
    view-graft-Put p q z x y name e,
  )
]

pub view-graft-Cut :
    (p q : List Text) (d x y : DirectoryNode) (name : Text)
    → at d p ≡ some x
    → Cut x name y
    → view (graft d p y) q ≡ cut (view d) p name q
unfolding at graft through cut
view-graft-Cut [] [] d x y name h w = unfold view in refl
view-graft-Cut [] (t ∷ q) d x y name h w = ground (arith, w t q)
view-graft-Cut (s ∷ p) [] d x y name h w = unfold view in refl
view-graft-Cut (s ∷ p) (t ∷ q) d x y name h w = elim (Option-cases (sub d s)) [
  | inl nothing ↦ ground arith
  | inr (z, g) ↦ ground (
    arith,
    view-with_child d z (graft z p y) s t q g,
    text_eq_iff s t,
    view-directory d z s q (get-sub d z s g),
    view-graft-Cut p q z x y name,
  )
]

-- What a path finds below an entry.
abbrev pub seen : Option Node → List Text → Entry
seen none q = absent
seen (some (directory x)) q = view x q
seen (some (file f)) [] = content f.content
seen (some (file f)) (_ ∷ _) = absent

pub view-seen :
    (d : DirectoryNode) (s : Text) (q : List Text) → view d (s ∷ q) ≡ seen (get s (children d)) q
unfolding view
view-seen d s q = go (found (get s (children d)))
  where
    go : Found (get s (children d)) → view d (s ∷ q) ≡ seen (get s (children d)) q
    go (missing g) = ground arith
    go (a_file f g) = elim q [ [] ↦ ground arith | _ ∷ _ ↦ ground arith ]
    go (a_directory x g) = ground arith

-- A node in the place of an entry that has nothing below it.
pub view-Put :
    (x y : DirectoryNode) (name : Text) (node : Node) (e : Entry)
    → ((s : Text) → get s (children y) ≡ (if text_eq name s then some node else get s (children x)))
    → ((q : List Text) → seen (some node) q ≡ (if path_eq [] q then e else absent))
    → ((t : Text) (q : List Text) → seen (get name (children x)) (t ∷ q) ≡ absent)
    → Put x name e y
unfolding path_eq
view-Put x y name node e placed shows bare s [] =
    ground (arith, view-seen x s [], view-seen y s [], placed s, shows [])
view-Put x y name node e placed shows bare s (t ∷ q) = ground (
  arith,
  view-seen x s (t ∷ q),
  view-seen y s (t ∷ q),
  placed s,
  shows (t ∷ q),
  bare t q,
  text_eq_iff name s,
)
