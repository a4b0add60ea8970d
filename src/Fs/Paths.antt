-- ===== src/Fs/Paths.antt =====
-- Resolving paths, and the printed working directory.
use mathlib.Core.List.{append-nil, append_assoc}
use alilu_os.Common.{
  ◌≡◌, refl, ◌∙◌, ap, true, false, ◌||◌, List, [], ◌∷◌, ◌++◌, arith, Bool, Bool-cases,
}
use alilu_os.Common.{
  if◌then◌else◌, Text, text_eq, codes, is_empty, split, contains, split-append, inl,
}
use alilu_os.Common.{split_whole, ◌==◌, ℕ, inr, cons_head}
use alilu_os.Fs.{
  pop, starts_with_slash, resolve_item, resolve_items, resolve_path, split_parent_and_name,
}

-- A name that a directory can hold and that a path can lead through.
pub record IsSegment (s : Text) : Type 0 where
  pub filled : is_empty s ≡ false
  pub not_here : text_eq s (codes ".") ≡ false
  pub not_up : text_eq s (codes "..") ≡ false
  pub no_slash : contains s b'/' ≡ false

abbrev pub AreSegments : List Text → Type 0
AreSegments [] = Unit
AreSegments (s ∷ ss) = IsSegment s × AreSegments ss

abbrev NoSlashes : List Text → Type 0
NoSlashes [] = Unit
NoSlashes (s ∷ ss) = (contains s b'/' ≡ false) × NoSlashes ss

pub AreSegments-pop : (ss : List Text) → AreSegments ss → AreSegments (pop ss)
AreSegments-pop [] v = tt
AreSegments-pop (s ∷ []) v = tt
AreSegments-pop (s ∷ t ∷ ss) v = (v.0, AreSegments-pop (t ∷ ss) v.1)

AreSegments-append : (ss ts : List Text) → AreSegments ss → AreSegments ts → AreSegments (ss ++ ts)
AreSegments-append [] ts v w = w
AreSegments-append (s ∷ ss) ts v w = (v.0, AreSegments-append ss ts v.1 w)

cons_head-NoSlashes :
    (x : ℕ) (ss : List Text) → (x == b'/') ≡ false → NoSlashes ss → NoSlashes (cons_head x ss)
unfolding contains
cons_head-NoSlashes x [] h v = (ground arith, tt)
cons_head-NoSlashes x (s ∷ ss) h v = (ground arith, v.1)

split-NoSlashes : (path : Text) → NoSlashes (split b'/' path)
unfolding split contains
split-NoSlashes [] = (refl, tt)
split-NoSlashes (x ∷ path) = elim (Bool-cases (x == b'/')) [
  | inl slash ↦ rw slash (refl, split-NoSlashes path)
  | inr other ↦ rw other (cons_head-NoSlashes x (split b'/' path) other (split-NoSlashes path))
]

resolve_item-AreSegments :
    (ss : List Text) (item : Text)
    → contains item b'/' ≡ false
    → AreSegments ss
    → AreSegments (resolve_item ss item)
unfolding resolve_item
resolve_item-AreSegments ss item h v =
    elim (Bool-cases (is_empty item || text_eq item (codes "."))) [
      | inl skip ↦ rw skip v
      | inr keep ↦ elim (Bool-cases (text_eq item (codes ".."))) [
        | inl up ↦ rw (keep, up) (AreSegments-pop ss v)
        | inr name ↦
            rw (keep, name)
              (AreSegments-append ss (item ∷ []) v (
                record {
                  filled = ground arith;
                  not_here = ground arith;
                  not_up = name;
                  no_slash = h;
                },
                tt,
              ))
      ]
    ]

resolve_items-AreSegments :
    (items ss : List Text) → NoSlashes items → AreSegments ss → AreSegments (resolve_items ss items)
unfolding resolve_items
resolve_items-AreSegments [] ss h v = v
resolve_items-AreSegments (item ∷ items) ss h v =
    resolve_items-AreSegments items (resolve_item ss item) h.1
      (resolve_item-AreSegments ss item h.0 v)

start-AreSegments :
    (b : Bool) (cwd : List Text) → AreSegments cwd → AreSegments (if b then [] else cwd)
start-AreSegments true cwd v = tt
start-AreSegments false cwd v = v

-- From a canonical working directory every path resolves to a canonical one: no segment is empty,
-- `.` or `..`, or holds a slash.
pub resolve_path-AreSegments :
    (cwd : List Text) (path : Text) → AreSegments cwd → AreSegments (resolve_path cwd path)
unfolding resolve_path
resolve_path-AreSegments cwd path v =
    resolve_items-AreSegments (split b'/' path) _ (split-NoSlashes path)
      (start-AreSegments (starts_with_slash path) cwd v)

abbrev slashes : List Text → Text
slashes [] = []
slashes (s ∷ ss) = b'/' ∷ (s ++ slashes ss)

-- What `print_cwd_path` of shell.rs prints for a working directory, before the new line.
pub cwd_path : List Text → Text
cwd_path [] = b'/' ∷ []
cwd_path (s ∷ ss) = slashes (s ∷ ss)

resolve_item-segment :
    (ss : List Text) (s : Text) → IsSegment s → resolve_item ss s ≡ ss ++ (s ∷ [])
unfolding resolve_item
resolve_item-segment ss s v = rw (v.filled, v.not_here, v.not_up)

resolve_items-append :
    (items ss : List Text) → AreSegments items → resolve_items ss items ≡ ss ++ items
unfolding resolve_items
resolve_items-append [] ss v = sym_nil ss
  where
    sym_nil : (xs : List Text) → xs ≡ xs ++ []
    sym_nil xs = rw append-nil
resolve_items-append (s ∷ items) ss v =
    rw (resolve_item-segment ss s v.0, resolve_items-append items (ss ++ (s ∷ [])) v.1)
      (append_assoc ss (s ∷ []) items)

split-slashes :
    (s : Text) (ss : List Text)
    → IsSegment s
    → AreSegments ss
    → split b'/' (s ++ slashes ss) ≡ s ∷ ss
split-slashes s [] v w = rw append-nil (split_whole b'/' s v.no_slash)
split-slashes s (t ∷ ss) v w =
    split-append b'/' s (t ++ slashes ss) v.no_slash
    ∙ ap (λ pieces. s ∷ pieces) (split-slashes t ss w.0 w.1)

-- A printed working directory resolves to itself, wherever one stands.
pub resolve_path-cwd_path :
    (cwd ss : List Text) → AreSegments ss → resolve_path cwd (cwd_path ss) ≡ ss
unfolding resolve_path cwd_path split resolve_items resolve_item
resolve_path-cwd_path cwd [] v = refl
resolve_path-cwd_path cwd (s ∷ ss) v =
    ap (resolve_items []) (split-slashes s ss v.0 v.1) ∙ resolve_items-append (s ∷ ss) [] v

-- A path that is not the root splits into the directory above it and its name.
pub split_parent_and_name-append :
    (s : Text) (ss : List Text)
    → let (parent, name) = split_parent_and_name (s ∷ ss) in
      (parent ++ (name ∷ []) ≡ s ∷ ss) × (parent ≡ pop (s ∷ ss))
unfolding split_parent_and_name
split_parent_and_name-append s [] = (refl, refl)
split_parent_and_name-append s (t ∷ ss) =
    let ih = split_parent_and_name-append t ss in
    (ap (λ rest. s ∷ rest) ih.0, ap (λ rest. s ∷ rest) ih.1)
