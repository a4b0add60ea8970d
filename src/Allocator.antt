-- ===== src/Allocator.antt =====
-- src/allocator.rs: the free list of the fallback allocator and the pools of the size classes.
-- The nodes that the code writes into the free memory are lists here: a region is its address and
-- its size, a pool the addresses of its blocks, first the head. Allocator/Nodes.antt has them in
-- memory. A `usize` is a number below 2 ^ 64.
pub mod Align
pub mod Regions
pub mod Blocks
pub mod Owners
pub mod Powers
pub mod Heaps
pub mod Returns
pub mod Clients
pub mod Safety
pub mod Service
pub mod Nodes
mod Tests
use alilu_os.Common.{ℕ, zero, suc, ◌+◌, ◌-◌, ◌*◌, ◌%◌, ◌^◌, Bool, true, false, ◌&&◌, Option, none}
use alilu_os.Common.{some, List, [], ◌∷◌, ◌==◌, ltb, leb, if◌then◌else◌, get_or, set, replicate}

abbrev pub heap_size : ℕ
heap_size = 5 * 1024 * 1024

-- `size_of::<ListNode>()` and `align_of::<ListNode>()`: two words of 8 bytes.
abbrev pub node_size : ℕ
node_size = 16

abbrev pub node_align : ℕ
node_align = 8

-- `ListNode`, with its `start_address`.
pub record ListNode : Type 0 where
  pub start_address : ℕ
  pub size : ℕ

-- `ListNode::end_address`
abbrev pub end_address : ListNode → ℕ
end_address n = n.start_address + n.size

pub align_up : ℕ → ℕ → ℕ
align_up addr align =
    let remainder = addr % align in
    if remainder == 0 then addr else (addr - remainder + align) % 2 ^ 64

-- The loop that inserts in address order.
pub insert : ListNode → List ListNode → List ListNode
insert node [] = node ∷ []
insert node (next ∷ nodes) =
    let rest = insert node nodes in
    if ltb node.start_address next.start_address then node ∷ next ∷ nodes else next ∷ rest

-- The loop that joins adjacent regions, at the node that `iter.next` points to.
pub coalesce_at : ListNode → List ListNode → List ListNode
coalesce_at curr [] = curr ∷ []
coalesce_at curr (next ∷ nodes) = elim (end_address curr == next.start_address) [
  | true ↦ coalesce_at (record curr { size = curr.size + next.size }) nodes
  | false ↦ curr ∷ coalesce_at next nodes
]

pub coalesce : List ListNode → List ListNode
coalesce [] = []
coalesce (node ∷ nodes) = coalesce_at node nodes

-- `FallbackAllocator::add_free_region`
pub add_free_region : List ListNode → (addr size : ℕ) → List ListNode
add_free_region nodes addr size =
    let aligned_addr = align_up addr node_align in
    let padding = aligned_addr - addr in
    if leb size padding
    then nodes
    else if ltb (size - padding) node_size
    then nodes
    else coalesce (insert (record { start_address = aligned_addr; size = size - padding }) nodes)

-- `FallbackAllocator::alloc_from_region`
pub alloc_from_region : ListNode → (size align : ℕ) → Option ℕ
alloc_from_region region size align =
    let alloc_start = align_up region.start_address align in
    let alloc_end = align_up (alloc_start + size) node_align in
    if leb (2 ^ 64) (alloc_start + size)
    then none
    else if ltb (end_address region) alloc_end
    then none
    else if ltb 0 (end_address region - alloc_end) && ltb (end_address region - alloc_end) node_size
    then none
    else some alloc_start

-- `FallbackAllocator::find_region`: the first region that serves is taken out of the list.
unfoldable pub find_region :
    List ListNode → (size align : ℕ) → Option (ListNode × ℕ) × List ListNode
find_region [] size align = (none, [])
find_region (node ∷ nodes) size align =
    let (found, rest) = find_region nodes size align in
    elim (alloc_from_region node size align) [
      | some alloc_start ↦ (some (node, alloc_start), nodes)
      | none ↦ (found, node ∷ rest)
    ]

-- `FixedSizeBlockAllocator::fallback_alloc` after `find_region`: what lies behind the block goes
-- back.
unfoldable pub take_region : Option (ListNode × ℕ) → List ListNode → ℕ → Option ℕ × List ListNode
take_region none nodes size = (none, nodes)
take_region (some (node, alloc_start)) nodes size =
    let alloc_end = align_up (alloc_start + size) node_align in
    let excess_size = end_address node - alloc_end in
    (
      some alloc_start,
      if leb node_size excess_size then add_free_region nodes alloc_end excess_size else nodes,
    )

unfoldable pub fallback_alloc : List ListNode → (size align : ℕ) → Option ℕ × List ListNode
fallback_alloc nodes size align =
    let (found, rest) = find_region nodes size align in take_region found rest size

abbrev pub block_sizes : List ℕ
block_sizes = 16 ∷ 32 ∷ 64 ∷ 128 ∷ 256 ∷ 512 ∷ 1024 ∷ 2048 ∷ []

-- `iter().position(|&s| s >= n)`
pub position : List ℕ → ℕ → Option ℕ
position [] n = none
position (s ∷ sizes) n =
    let rest = position sizes n in
    if leb n s then some 0 else elim rest [ some i ↦ some (suc i) | none ↦ none ]

pub list_index : (size align : ℕ) → Option ℕ
list_index size align = position block_sizes (if ltb size align then align else size)

-- `FixedSizeBlockAllocator`
pub record Heap : Type 0 where
  pub list_heads : List (List ℕ)
  pub fallback : List ListNode

-- `FixedSizeBlockAllocator::new`
pub new : Heap
new = record { list_heads = replicate 8 []; fallback = [] }

-- `FixedSizeBlockAllocator::init`, as `init_heap` calls it with the address of `HEAP_SPACE`.
pub init : Heap → (heap_start : ℕ) → Heap
init h heap_start = record h { fallback = add_free_region h.fallback heap_start heap_size }

-- `alloc` at a layout of a size class: the head of the pool, or a new block.
pub alloc_block : Heap → ℕ → List ℕ → Option ℕ × Heap
alloc_block h index (head ∷ blocks) =
    (some head, record h { list_heads = set h.list_heads index blocks })
alloc_block h index [] =
    let block_size = get_or block_sizes index 0 in
    let (block, nodes) = fallback_alloc h.fallback block_size block_size in
    (block, record h { fallback = nodes })

-- `alloc`; `none` is the null pointer.
pub alloc : Heap → (size align : ℕ) → Option ℕ × Heap
alloc h size align = elim (list_index size align) [
  | some index ↦ alloc_block h index (get_or h.list_heads index [])
  | none ↦
      let (block, nodes) = fallback_alloc h.fallback size align in
      (block, record h { fallback = nodes })
]

pub dealloc : Heap → (ptr size align : ℕ) → Heap
dealloc h ptr size align = elim (list_index size align) [
  | some index ↦ record h {
    list_heads = set h.list_heads index (ptr ∷ get_or h.list_heads index []);
  }
  | none ↦ record h { fallback = add_free_region h.fallback ptr size }
]
