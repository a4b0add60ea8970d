-- ===== src/Allocator/Service.antt =====
-- When the heap serves a request, and what it serves it with.
use alilu_os.Common.{
  ℕ, zero, suc, ◌+◌, ◌^◌, ◌≤◌, ◌<◌, ◌≡◌, refl, ap, ◌∙◌, List, [], ◌∷◌, arith, get_or, set, length,
  some, none, Option-cases, inl, inr, ◌⊎◌,
}
use alilu_os.Allocator.{
  ListNode, Heap, block_sizes, list_index, alloc_block, alloc, dealloc, fallback_alloc, find_region,
  take_region, alloc_from_region, align_up, end_address,
}
use alilu_os.Allocator.Align.{align_up-least}
use alilu_os.Allocator.Blocks.{Below, find_region_here, find_region_later}
use alilu_os.Allocator.Regions.{align_up-8}
use mathlib.Core.Path.{subst}
use alilu_os.Allocator.Heaps.{list_index-le, block_size_bounds}

set-set_back {ℓ} :
    {A : Type ℓ} (xs : List A) (i : ℕ) (v d : A) → set (set xs i v) i (get_or xs i d) ≡ xs
set-set_back [] i v d = refl
set-set_back (x ∷ xs) zero v d = refl
set-set_back (x ∷ xs) (suc i) v d = ap (λ ys. x ∷ ys) (set-set_back xs i v d)

get_or-set_here {ℓ} :
    {A : Type ℓ} (xs : List A) (i : ℕ) (v d : A) → i < length xs → get_or (set xs i v) i d ≡ v
get_or-set_here [] i v d h = absurd (omega arith)
get_or-set_here (x ∷ xs) zero v d h = refl
get_or-set_here (x ∷ xs) (suc i) v d h = get_or-set_here xs i v d (omega arith)

dealloc-class :
    (h : Heap) (p size align i : ℕ)
    → list_index size align ≡ some i
    → dealloc h p size align
      ≡ record h { list_heads = set h.list_heads i (p ∷ get_or h.list_heads i []) }
unfolding dealloc
dealloc-class h p size align i e = rw (e, dealloc) refl

alloc-class :
    (h : Heap) (size align i : ℕ)
    → list_index size align ≡ some i
    → alloc h size align ≡ alloc_block h i (get_or h.list_heads i [])
unfolding alloc alloc_block
alloc-class h size align i e = rw (e, alloc) refl

-- In a heap that has the pool of a size class, a block of the class that is given back is the next one
-- to be handed out for a layout of that class, and then the heap is as it was before.
pub alloc-dealloc :
    (h : Heap) (p size align size' align' i : ℕ)
    → i < length h.list_heads
    → list_index size align ≡ some i
    → list_index size' align' ≡ some i
    → alloc (dealloc h p size align) size' align' ≡ (some p, h)
unfolding alloc_block
alloc-dealloc h p size align size' align' i pools e e' =
    let blocks = get_or h.list_heads i [] in
    let heads = set h.list_heads i (p ∷ blocks) in
    let pool : get_or heads i [] ≡ p ∷ blocks =
      get_or-set_here h.list_heads i (p ∷ blocks) [] pools in
    ap (λ k. alloc k size' align') (dealloc-class h p size align i e)
    ∙ alloc-class (record h { list_heads = heads }) size' align' i e'
    ∙ ap (alloc_block (record h { list_heads = heads }) i) pool
    ∙ λ j. (some p, record h { list_heads = set-set_back h.list_heads i (p ∷ blocks) [] j })

-- A list with a region of at least so many bytes.
abbrev pub HasRoom : ℕ → List ListNode → Type 0
HasRoom need [] = ⊥
HasRoom need (n ∷ nodes) = (need ≤ n.size) ⊎ HasRoom need nodes

alloc_from_region_serves :
    (n : ListNode) (size align : ℕ)
    → 0 < align
    → end_address n ≤ 2 ^ 62
    → size + align + 24 ≤ n.size
    → alloc_from_region n size align ≡ some (align_up n.start_address align)
unfolding alloc_from_region
alloc_from_region_serves n size align pos limit room = ground (
  arith,
  align_up-least n.start_address align pos,
  align_up-8 (align_up n.start_address align + size),
)

find_region_serves :
    (nodes : List ListNode) (size align : ℕ)
    → 0 < align
    → Below (2 ^ 62) nodes
    → HasRoom (size + align + 24) nodes
    → (found : ListNode × ℕ) × ((find_region nodes size align).0 ≡ some found)
unfolding find_region
find_region_serves [] size align pos below room = elim room [ ]
find_region_serves (n ∷ nodes) size align pos (limit, below) room =
    elim (Option-cases (alloc_from_region n size align)) [
      | inr (start, serves) ↦
          ((n, start), ap (λ r. r.0) (find_region_here n nodes size align start serves))
      | inl refused ↦ elim room [
        | inl big ↦ absurd (ground (arith, alloc_from_region_serves n size align pos limit big))
        | inr later ↦
            let (found, e) = find_region_serves nodes size align pos below later in
            (found, ap (λ r. r.0) (find_region_later n nodes size align refused) ∙ e)
      ]
    ]

fallback_alloc-served :
    (nodes : List ListNode) (size align : ℕ)
    → 0 < align
    → Below (2 ^ 62) nodes
    → HasRoom (size + align + 24) nodes
    → (p : ℕ) × ((fallback_alloc nodes size align).0 ≡ some p)
unfolding fallback_alloc take_region
fallback_alloc-served nodes size align pos below room =
    let (found, e) = find_region_serves nodes size align pos below room in
    (found.1, ap (λ f. (take_region f (find_region nodes size align).1 size).0) e)

-- The bytes that a request takes from the free list: those of its class, where it has one.
abbrev pub taken_size : (size align : ℕ) → ℕ
taken_size size align = elim (list_index size align) [
  | some index ↦ get_or block_sizes index 0 + get_or block_sizes index 0
  | none ↦ size + align
]

taken_whole : (size align : ℕ) → list_index size align ≡ none → taken_size size align ≡ size + align
taken_whole size align h = rw (h, taken_size) refl

taken_class :
    (size align i : ℕ)
    → list_index size align ≡ some i
    → taken_size size align ≡ get_or block_sizes i 0 + get_or block_sizes i 0
taken_class size align i h = rw (h, taken_size) refl

alloc_block-served :
    (h : Heap) (i : ℕ)
    → i < 8
    → Below (2 ^ 62) h.fallback
    → HasRoom (get_or block_sizes i 0 + get_or block_sizes i 0 + 24) h.fallback
    → (pool : List ℕ) → (p : ℕ) × ((alloc_block h i pool).0 ≡ some p)
unfolding alloc_block
alloc_block-served h i small below room (p ∷ blocks) = (p, refl)
alloc_block-served h i small below room [] =
    fallback_alloc-served h.fallback (get_or block_sizes i 0) (get_or block_sizes i 0)
      (block_size_bounds i small).1 below room

-- A request whose alignment is not 0 is served where the free list is below 2 ^ 62 and one of its
-- regions has the bytes and the alignment of the block, those of its size class where it has one,
-- and 24 bytes more.
pub alloc-served :
    (h : Heap) (size align : ℕ)
    → 0 < align
    → Below (2 ^ 62) h.fallback
    → HasRoom (taken_size size align + 24) h.fallback
    → (p : ℕ) × ((alloc h size align).0 ≡ some p)
unfolding alloc
alloc-served h size align pos below room = elim (Option-cases (list_index size align)) [
  | inl large ↦
      let enough : HasRoom (size + align + 24) h.fallback =
        subst (λ k. HasRoom (k + 24) h.fallback) (taken_whole size align large) room in
      rw (large, alloc) (fallback_alloc-served h.fallback size align pos below enough)
  | inr (i, e) ↦
      let enough : HasRoom (get_or block_sizes i 0 + get_or block_sizes i 0 + 24) h.fallback =
        subst (λ k. HasRoom (k + 24) h.fallback) (taken_class size align i e) room in
      rw (e, alloc)
        (alloc_block-served h i (list_index-le size align i e).0 below enough
          (get_or h.list_heads i []))
]
