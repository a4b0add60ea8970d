-- ===== src/Allocator/Heaps.antt =====
-- What `alloc` does to the bytes of the heap: those on the free list, in the pools, and handed out.
use mathlib.Core.Path.{subst}
use alilu_os.Common.{
  ℕ, zero, suc, ◌+◌, ◌%◌, ◌^◌, ◌≤◌, ◌<◌, ◌≡◌, refl, ap, ◌∙◌, List, [], ◌∷◌, arith, ltb, get_or, set,
  length, length-set, Option, some, none, if◌then◌else◌, Option-cases, inl, inr,
}
use alilu_os.Allocator.{ListNode, Heap, block_sizes, list_index, alloc_block, alloc, fallback_alloc}
use alilu_os.Allocator.Regions.{inside, free, IsFreeList}
use alilu_os.Allocator.Blocks.{Below, Allocated, AllocatedIf, fallback_alloc-AllocatedIf}
use alilu_os.Allocator.Powers.{IsPowerOfTwo, aligned_more, block_size-IsPowerOfTwo}
use alilu_os.Allocator.Owners.{
  one, block_at, class_owners, pool_owners, pool_owners-set, AllAligned, PoolsAligned,
  PoolsAligned-get, PoolsAligned-set, position-le, Allocated-owners,
}

-- The bytes that a block holds: those of its class, where its layout has one.
abbrev pub held_size : (size align : ℕ) → ℕ
held_size size align = elim (list_index size align) [
  | some index ↦ get_or block_sizes index 0
  | none ↦ size
]

-- The multiple at which a block stands.
abbrev pub held_multiple : (size align : ℕ) → ℕ
held_multiple size align = elim (list_index size align) [
  | some index ↦ get_or block_sizes index 0
  | none ↦ 1
]

-- How often the heap has a byte, in its pools and on its free list.
abbrev pub heap_owners : Heap → ℕ → ℕ
heap_owners h x = pool_owners block_sizes h.list_heads x + one (free h.fallback x)

pub record IsHeap (h : Heap) : Type 0 where
  pub ordered : IsFreeList h.fallback
  pub pools : length h.list_heads ≡ 8
  pub pools_aligned : PoolsAligned block_sizes h.list_heads

-- A layout as the callers of `alloc` may give it.
pub record IsLayout (size align : ℕ) : Type 0 where
  pub filled : 0 < size
  pub size_in : size ≤ 2 ^ 62
  pub align_in : align ≤ 2 ^ 62
  pub align_positive : 0 < align
  pub power : IsPowerOfTwo align

-- What an allocation did: the block is aligned, and its bytes left the heap.
pub record Granted (h : Heap) (size align p : ℕ) (h' : Heap) : Type 0 where
  pub aligned : p % align ≡ 0
  pub placed : p % held_multiple size align ≡ 0
  pub valid : IsHeap h'
  pub moved :
      (x : ℕ)
      → one (inside (block_at (held_size size align) p) x) + heap_owners h' x ≤ heap_owners h x

unfoldable pub GrantedIf : Heap → (size align : ℕ) → Option ℕ × Heap → Type 0
GrantedIf h size align (none, h') = h' ≡ h
GrantedIf h size align (some p, h') = Granted h size align p h'

pub list_index-le :
    (size align i : ℕ)
    → list_index size align ≡ some i
    → (i < 8) × (size ≤ get_or block_sizes i 0) × (align ≤ get_or block_sizes i 0)
unfolding list_index
list_index-le size align i h =
    ground (arith, position-le block_sizes (if ltb size align then align else size) i h)

-- A class size is from 16 to 2048.
pub block_size_bounds :
    (i : ℕ) → i < 8 → (get_or block_sizes i 0 ≤ 2 ^ 62) × (0 < get_or block_sizes i 0)
block_size_bounds zero h = omega arith
block_size_bounds (suc zero) h = omega arith
block_size_bounds (suc (suc zero)) h = omega arith
block_size_bounds (suc (suc (suc zero))) h = omega arith
block_size_bounds (suc (suc (suc (suc zero)))) h = omega arith
block_size_bounds (suc (suc (suc (suc (suc zero))))) h = omega arith
block_size_bounds (suc (suc (suc (suc (suc (suc zero)))))) h = omega arith
block_size_bounds (suc (suc (suc (suc (suc (suc (suc zero))))))) h = omega arith
block_size_bounds (suc (suc (suc (suc (suc (suc (suc (suc i)))))))) h = absurd (omega arith)

pub held_class :
    (size align i : ℕ)
    → list_index size align ≡ some i
    → held_size size align ≡ get_or block_sizes i 0
held_class size align i h = rw (h, held_size) refl

pub held_whole : (size align : ℕ) → list_index size align ≡ none → held_size size align ≡ size
held_whole size align h = rw (h, held_size) refl

-- A block has at least the bytes that were asked for.
pub size-le-held_size : (size align : ℕ) → size ≤ held_size size align
size-le-held_size size align = elim (Option-cases (list_index size align)) [
  | inl large ↦ rw (held_whole size align large) (omega arith)
  | inr (i, e) ↦ rw (held_class size align i e) (list_index-le size align i e).1
]

pub multiple_class :
    (size align i : ℕ)
    → list_index size align ≡ some i
    → held_multiple size align ≡ get_or block_sizes i 0
multiple_class size align i h = rw (h, held_multiple) refl

pub multiple_whole : (size align : ℕ) → list_index size align ≡ none → held_multiple size align ≡ 1
multiple_whole size align h = rw (h, held_multiple) refl

-- A block of the fallback allocator, of `held` bytes at a multiple of `multiple`.
from_fallback :
    (h : Heap) (size align held multiple p : ℕ) (nodes : List ListNode)
    → IsHeap h
    → held_size size align ≡ held
    → (p % multiple ≡ 0 → (p % align ≡ 0) × (p % held_multiple size align ≡ 0))
    → Allocated h.fallback held multiple p nodes
    → Granted h size align p (record h { fallback = nodes })
from_fallback h size align held multiple p nodes v e finer a = record {
  aligned = (finer a.aligned).0;
  placed = (finer a.aligned).1;
  valid = record { ordered = a.ordered; pools = v.pools; pools_aligned = v.pools_aligned };
  moved = λ x. rw e (omega (arith, Allocated-owners x a));
}

-- What `fallback_alloc` answered, put into the heap.
fallback-GrantedIf :
    (h : Heap) (size align held multiple : ℕ)
    → IsHeap h
    → held_size size align ≡ held
    → ((p : ℕ) → p % multiple ≡ 0 → (p % align ≡ 0) × (p % held_multiple size align ≡ 0))
    → (answer : Option ℕ × List ListNode) → AllocatedIf h.fallback held multiple answer
    → GrantedIf h size align (answer.0, record h { fallback = answer.1 })
unfolding GrantedIf AllocatedIf
fallback-GrantedIf h size align held multiple v e finer (none, nodes) a =
    λ i. record h { fallback = a i }
fallback-GrantedIf h size align held multiple v e finer (some p, nodes) a =
    from_fallback h size align held multiple p nodes v e (finer p) a

-- The head of a pool.
from_pool :
    (h : Heap) (size align i p : ℕ) (blocks : List ℕ)
    → IsHeap h
    → IsLayout size align
    → list_index size align ≡ some i
    → get_or h.list_heads i [] ≡ p ∷ blocks
    → Granted h size align p (record h { list_heads = set h.list_heads i blocks })
unfolding class_owners
from_pool h size align i p blocks v l e head =
    let (small, fits, finer) = list_index-le size align i e in
    let pool : AllAligned (get_or block_sizes i 0) (p ∷ blocks) =
      subst (AllAligned (get_or block_sizes i 0)) head
        (PoolsAligned-get block_sizes h.list_heads i small v.pools_aligned) in
    record {
      aligned = aligned_more p l.power (block_size-IsPowerOfTwo i small) finer pool.0;
      placed = rw (multiple_class size align i e) pool.0;
      valid = record {
        ordered = v.ordered;
        pools = length-set h.list_heads i blocks ∙ v.pools;
        pools_aligned = PoolsAligned-set block_sizes h.list_heads i blocks pool.1 v.pools_aligned;
      };
      moved = λ x. rw (held_class size align i e) (
          omega (
            arith,
            pool_owners-set block_sizes h.list_heads i blocks x small (omega (arith, v.pools)),
            ap (λ ps. class_owners (get_or block_sizes i 0) ps x) head,
          ));
    }

alloc_block-GrantedIf :
    (h : Heap) (size align i : ℕ)
    → IsHeap h
    → Below (2 ^ 62) h.fallback
    → IsLayout size align
    → list_index size align ≡ some i
    → (pool : List ℕ) → get_or h.list_heads i [] ≡ pool
    → GrantedIf h size align (alloc_block h i pool)
unfolding alloc_block GrantedIf
alloc_block-GrantedIf h size align i v below l e (p ∷ blocks) head =
    from_pool h size align i p blocks v l e head
alloc_block-GrantedIf h size align i v below l e [] head =
    let (small, fits, finer) = list_index-le size align i e in
    let block = get_or block_sizes i 0 in
    let (bounded, positive) = block_size_bounds i small in
    fallback-GrantedIf h size align block block v (held_class size align i e)
      (λ p a. (
        aligned_more p l.power (block_size-IsPowerOfTwo i small) finer a,
        rw (multiple_class size align i e) a,
      ))
      (fallback_alloc h.fallback block block)
      (fallback_alloc-AllocatedIf h.fallback block block positive bounded bounded v.ordered below)

-- An allocation takes its block out of the heap, or leaves the heap.
pub alloc-GrantedIf :
    (h : Heap) (size align : ℕ)
    → IsHeap h
    → Below (2 ^ 62) h.fallback
    → IsLayout size align
    → GrantedIf h size align (alloc h size align)
unfolding alloc
alloc-GrantedIf h size align v below l = elim (Option-cases (list_index size align)) [
  | inl large ↦
      rw (large, alloc)
        (fallback-GrantedIf h size align size align v (held_whole size align large)
          (λ p a. (a, rw (multiple_whole size align large) (omega arith)))
          (fallback_alloc h.fallback size align)
          (fallback_alloc-AllocatedIf h.fallback size align l.align_positive l.align_in l.size_in
            v.ordered below))
  | inr (i, e) ↦ rw (e, alloc) (alloc_block-GrantedIf h size align i v below l e _ refl)
]
