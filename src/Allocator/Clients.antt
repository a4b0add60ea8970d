-- ===== src/Allocator/Clients.antt =====
-- The heap and its callers together: requests in any order, each block given back at most once.
use alilu_os.Common.{ℕ, zero, suc, ◌+◌, ◌%◌, ◌≡◌, Bool, List, [], ◌∷◌, Option, some, none}
use alilu_os.Allocator.{Heap, new, init, heap_size, alloc, dealloc}
use alilu_os.Allocator.Regions.{inside}
use alilu_os.Allocator.Owners.{one, block_at}
use alilu_os.Allocator.Heaps.{IsLayout}

-- A block that was handed out and not given back, with the layout it was asked for.
pub record Block : Type 0 where
  pub ptr : ℕ
  pub size : ℕ
  pub align : ℕ

pub record Client : Type 0 where
  pub heap : Heap
  pub live : List Block

-- A request: a block of a layout, or the block at a place of the list given back.
pub data Request : Type 0 where
  allocate : (size align : ℕ) → Request
  release : ℕ → Request

-- The block at a place, and the list without it.
abbrev pub taken_out : ℕ → List Block → Option (Block × List Block)
taken_out i [] = none
taken_out zero (b ∷ live) = some (b, live)
taken_out (suc i) (b ∷ live) = elim (taken_out i live) [
  | some (c, rest) ↦ some (c, b ∷ rest)
  | none ↦ none
]

abbrev pub granted : (size align : ℕ) → Option ℕ × Heap → List Block → Client
granted size align (some p, h) live = record {
  heap = h;
  live = record { ptr = p; size = size; align = align } ∷ live;
}
granted size align (none, h) live = record { heap = h; live = live }

abbrev pub released : Option (Block × List Block) → Client → Client
released (some (b, rest)) c = record { heap = dealloc c.heap b.ptr b.size b.align; live = rest }
released none c = c

unfoldable pub step : Client → Request → Client
step c (allocate size align) = granted size align (alloc c.heap size align) c.live
step c (release i) = released (taken_out i c.live) c

unfoldable pub run : Client → List Request → Client
run c [] = c
run c (request ∷ requests) = run (step c request) requests

-- The heap at an address after `init`.
abbrev pub start : ℕ → Client
start heap_start = record { heap = init new heap_start; live = [] }

-- How many of the blocks that were handed out have a byte, each with the bytes that it was asked for.
unfoldable pub asked_owners : List Block → ℕ → ℕ
asked_owners [] x = 0
asked_owners (b ∷ live) x = one (inside (block_at b.size b.ptr) x) + asked_owners live x

abbrev pub AlignedBlocks : List Block → Type 0
AlignedBlocks [] = Unit
AlignedBlocks (b ∷ live) = (b.ptr % b.align ≡ 0) × AlignedBlocks live

-- A request may ask for a layout.
abbrev pub IsAsked : Request → Type 0
IsAsked (allocate size align) = IsLayout size align
IsAsked (release i) = Unit

abbrev pub AllAsked : List Request → Type 0
AllAsked [] = Unit
AllAsked (request ∷ requests) = IsAsked request × AllAsked requests

-- A byte of the heap.
abbrev pub in_heap : (heap_start x : ℕ) → Bool
in_heap heap_start x = inside (block_at heap_size heap_start) x
