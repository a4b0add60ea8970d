-- ===== src/Allocator/Tests.antt =====
-- Runs of the allocator, and its theorems at concrete heaps.
use alilu_os.Common.{◌+◌, ◌%◌, ◌<◌, ◌≤◌, ◌≡◌, refl, List, [], ◌∷◌, some, ◌||◌, arith}
use alilu_os.Allocator.{
  ListNode, new, init, alloc, align_up, add_free_region, fallback_alloc, insert, coalesce,
  coalesce_at, alloc_block, find_region, take_region, alloc_from_region, list_index, position,
}
use alilu_os.Common.{ℕ, inl}
use alilu_os.Allocator.{Heap, dealloc}
use alilu_os.Allocator.Owners.{one}
use alilu_os.Allocator.Clients.{
  Request, allocate, release, run, step, start, asked_owners, in_heap, AlignedBlocks, AllAsked,
}
use alilu_os.Allocator.Safety.{run-apart}
use alilu_os.Allocator.Service.{alloc-dealloc, alloc-served}
use alilu_os.Allocator.Align.{align_up-least}
use alilu_os.Allocator.Regions.{free, usable, IsFreeList, free-add_free_region}

align_up-least_example :
    (align_up 0x1003 16 % 16 ≡ 0)
    × (0x1003 ≤ align_up 0x1003 16)
    × (align_up 0x1003 16 < 0x1003 + 16)
align_up-least_example = align_up-least 0x1003 16 (omega arith) (omega arith)

-- Two regions with a gap of 32 bytes.
abbrev two_regions : List ListNode
two_regions =
    record { start_address = 0x1000; size = 64 }
    ∷ record { start_address = 0x1060; size = 0x2000 }
    ∷ []

two_regions-IsFreeList : IsFreeList two_regions
unfolding IsFreeList
two_regions-IsFreeList = (omega arith, refl, omega arith, (omega arith, refl, omega arith, tt))

free-add_free_region_example :
    free (add_free_region two_regions 0x1040 32) 0x1050
    ≡ (usable 0x1040 32 0x1050 || free two_regions 0x1050)
free-add_free_region_example = free-add_free_region two_regions 0x1040 32 0x1050 (omega arith)

-- The three regions are one now.
add_free_region-joins :
    add_free_region two_regions 0x1040 32 ≡ record { start_address = 0x1000; size = 0x2060 } ∷ []
unfolding add_free_region align_up insert coalesce coalesce_at
add_free_region-joins = refl

-- The first block of a size class in a heap at address 0x10010 is aligned to its own size; the 48
-- bytes in front of it are on no list.
alloc-first : alloc (init new 0x10010) 40 8 ≡ (
  some 0x10040,
  record {
    list_heads = new.list_heads;
    fallback = record { start_address = 0x10080; size = 0x4FFF90 } ∷ [];
  },
)
unfolding alloc init new alloc_block fallback_alloc find_region take_region alloc_from_region
    list_index position add_free_region align_up insert coalesce coalesce_at
alloc-first = refl

-- A small block, a large one, the small one given back and its class asked for again.
abbrev requests : List Request
requests = allocate 40 8 ∷ allocate 5000 16 ∷ release 1 ∷ allocate 64 64 ∷ []

requests-AllAsked : AllAsked requests
requests-AllAsked = (
  record {
    filled = omega arith;
    size_in = omega arith;
    align_in = omega arith;
    align_positive = omega arith;
    power = (3, refl);
  },
  (
    record {
      filled = omega arith;
      size_in = omega arith;
      align_in = omega arith;
      align_positive = omega arith;
      power = (4, refl);
    },
    (
      tt,
      (
        record {
          filled = omega arith;
          size_in = omega arith;
          align_in = omega arith;
          align_positive = omega arith;
          power = (6, refl);
        },
        tt,
      ),
    ),
  ),
)

run-apart_example :
    (asked_owners (run (start 0x10010) requests).live 0x10040 ≤ one (in_heap 0x10010 0x10040))
    × AlignedBlocks (run (start 0x10010) requests).live
run-apart_example = run-apart 0x10010 requests (omega arith) requests-AllAsked 0x10040

-- What these requests leave: two blocks are out.
requests-live :
    (run (start 0x10010) requests).live
    ≡ record { ptr = 0x10040; size = 64; align = 64 }
      ∷ record { ptr = 0x10080; size = 5000; align = 16 }
      ∷ []
unfolding run step alloc init new alloc_block fallback_alloc find_region take_region
    alloc_from_region list_index position add_free_region align_up insert coalesce coalesce_at
    dealloc
requests-live = refl

-- A heap after `init`.
abbrev fresh : Heap
fresh = init new 0x10010

alloc-dealloc_example : alloc (dealloc fresh 0x10040 40 8) 64 64 ≡ (some 0x10040, fresh)
unfolding list_index position init new
alloc-dealloc_example = alloc-dealloc fresh 0x10040 40 8 64 64 2 (omega arith) refl refl

abbrev one_region : Heap
one_region = record new { fallback = record { start_address = 0x10010; size = 0x500000 } ∷ [] }

alloc-served_example : (p : ℕ) × ((alloc one_region 4096 4096).0 ≡ some p)
unfolding list_index position
alloc-served_example =
    alloc-served one_region 4096 4096 (omega arith) (omega arith, tt) (inl (omega arith))
