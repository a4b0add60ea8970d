-- ===== src/Allocator/Returns.antt =====
-- What `dealloc` does to the bytes of the heap.
use alilu_os.Common.{
  ℕ, ◌+◌, ◌%◌, ◌^◌, ◌≤◌, ◌≡◌, ◌∙◌, Bool, true, false, [], ◌∷◌, arith, get_or, set, length-set, some,
  none, Option-cases, inl, inr,
}
use alilu_os.Allocator.{Heap, block_sizes, list_index, dealloc, add_free_region}
use alilu_os.Allocator.Regions.{
  inside, free, align_up-8, free-add_free_region, add_free_region-IsFreeList,
}
use alilu_os.Allocator.Owners.{
  one, block_at, class_owners, pool_owners-set, PoolsAligned-get, PoolsAligned-set,
}
use alilu_os.Allocator.Heaps.{
  held_size, held_multiple, heap_owners, IsHeap, held_class, held_whole, multiple_class,
  list_index-le,
}

-- Whether a byte is one of a block's.
abbrev pub held_by : (size align p : ℕ) → ℕ → Bool
held_by size align p x = inside (block_at (held_size size align) p) x

-- What giving a block back did: its bytes are in the heap again, or lost.
pub record Returned (h : Heap) (size align p : ℕ) (h' : Heap) : Type 0 where
  pub valid : IsHeap h'
  pub moved : (x : ℕ) → heap_owners h' x ≤ one (held_by size align p x) + heap_owners h x

to_pool :
    (h : Heap) (size align i p : ℕ)
    → IsHeap h
    → list_index size align ≡ some i
    → p % get_or block_sizes i 0 ≡ 0
    → Returned h size align p
        (record h { list_heads = set h.list_heads i (p ∷ get_or h.list_heads i []) })
unfolding class_owners
to_pool h size align i p v e aligned =
    let (small, _, _) = list_index-le size align i e in
    let blocks = get_or h.list_heads i [] in
    record {
      valid = record {
        ordered = v.ordered;
        pools = length-set h.list_heads i (p ∷ blocks) ∙ v.pools;
        pools_aligned =
            PoolsAligned-set block_sizes h.list_heads i (p ∷ blocks)
              (aligned, PoolsAligned-get block_sizes h.list_heads i small v.pools_aligned)
              v.pools_aligned;
      };
      moved = λ x. rw (held_class size align i e) (
          omega (
            arith,
            pool_owners-set block_sizes h.list_heads i (p ∷ blocks) x small
                (omega (arith, v.pools)),
          ));
    }

to_fallback :
    (h : Heap) (size align p : ℕ)
    → IsHeap h
    → p + 8 ≤ 2 ^ 64
    → list_index size align ≡ none
    → ((x : ℕ) → held_by size align p x ≡ true → free h.fallback x ≡ false)
    → Returned h size align p (record h { fallback = add_free_region h.fallback p size })
to_fallback h size align p v fits large apart = record {
  valid = record {
    ordered =
        add_free_region-IsFreeList h.fallback p size fits
          (λ x lo hi. apart x (rw (held_whole size align large) (ground arith))) v.ordered;
    pools = v.pools;
    pools_aligned = v.pools_aligned;
  };
  moved = λ x.
      rw (held_whole size align large)
        (ground (arith, free-add_free_region h.fallback p size x fits, align_up-8 p fits));
}

-- A block is given back to where its layout comes from.
pub dealloc-Returned :
    (h : Heap) (p size align : ℕ)
    → IsHeap h
    → p + 8 ≤ 2 ^ 64
    → ((x : ℕ) → held_by size align p x ≡ true → free h.fallback x ≡ false)
    → p % held_multiple size align ≡ 0
    → Returned h size align p (dealloc h p size align)
unfolding dealloc
dealloc-Returned h p size align v fits apart aligned = elim (Option-cases (list_index size align)) [
  | inl large ↦ rw (large, dealloc) (to_fallback h size align p v fits large apart)
  | inr (i, e) ↦
      rw (e, dealloc) (to_pool h size align i p v e (rw (multiple_class size align i e) at aligned))
]
