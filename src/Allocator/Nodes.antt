-- ===== src/Allocator/Nodes.antt =====
-- src/allocator.rs with its nodes where the code keeps them: in the free memory itself. A memory gives
-- the 8 bytes from each multiple of 8 on, the word number n those from 8 * n, so that two words never
-- overlap; `load` and `store` are the accesses through a pointer to a word. A `ListNode` has two words,
-- whose order the compiler chooses, and stands at a multiple of 8. A pointer is an address, the null
-- pointer 0, and `head` the address of the list's own node in the static. Each loop runs on fuel;
-- `none` means that it ran out.
pub mod Chain
pub mod Insert
pub mod Join
pub mod Find
pub mod Release
pub mod Take
pub mod Pools
pub mod Ready
pub mod Alloc
pub mod Dealloc
pub mod Programs
pub mod Simulation
pub mod Runs
mod Tests
use alilu_os.Common.{List, get_or, set, replicate}
use alilu_os.Common.{
  ℕ, zero, suc, ◌+◌, ◌-◌, ◌/◌, Bool, not, ◌&&◌, ◌||◌, Option, none, some, ◌==◌, ltb, leb,
  if◌then◌else◌,
}
use alilu_os.Allocator.{
  ListNode, node_size, node_align, align_up, alloc_from_region, heap_size, block_sizes, list_index,
}

abbrev pub Memory : Type 0
Memory = ℕ → ℕ

abbrev pub store : Memory → ℕ → ℕ → Memory
store m at value x = if at / 8 == x then value else m x

-- The word at a multiple of 8.
abbrev pub load : Memory → ℕ → ℕ
load m at = m (at / 8)

-- A block, once the memory is there.
abbrev pub answer : ℕ → Option Memory → Option (Option ℕ × Memory)
answer block none = none
answer block (some m) = some (some block, m)

-- `FixedSizeBlockAllocator`, but for the node at `head`, and the memory.
pub record HeapInMemory : Type 0 where
  pub list_heads : List ℕ
  pub memory : Memory

-- The heap after a change of the free regions.
abbrev pub served : List ℕ → Option (Option ℕ × Memory) → Option (Option ℕ × HeapInMemory)
served heads none = none
served heads (some (block, m)) = some (block, record { list_heads = heads; memory = m })

abbrev pub settled : List ℕ → Option Memory → Option HeapInMemory
settled heads none = none
settled heads (some m) = some (record { list_heads = heads; memory = m })

module _ (next_first : Bool) where
  abbrev pub next_at : ℕ → ℕ
  next_at p = if next_first then p else p + 8

  abbrev pub size_at : ℕ → ℕ
  size_at p = if next_first then p + 8 else p

  -- `node_ptr.write(..)`
  abbrev pub write_node : Memory → (p size next : ℕ) → Memory
  write_node m p size next = store (store m (size_at p) size) (next_at p) next

  -- The loop of `add_free_region` that looks for the node behind which the new one goes.
  unfoldable pub find_place : ℕ → Memory → (current aligned_addr : ℕ) → Option ℕ
  find_place zero m current aligned_addr = none
  find_place (suc fuel) m current aligned_addr =
      let next_node = load m (next_at current) in
      let rest = find_place fuel m next_node aligned_addr in
      if next_node == 0 || ltb aligned_addr next_node then some current else rest

  -- The two assignments behind the loop.
  abbrev pub link_node : Memory → (current node_ptr : ℕ) → Memory
  link_node m current node_ptr =
      let m' = store m (next_at node_ptr) (load m (next_at current)) in
      store m' (next_at current) node_ptr

  -- The node `next_node` becomes a part of `curr_node`.
  abbrev pub join_nodes : Memory → (curr_node next_node : ℕ) → Memory
  join_nodes m curr_node next_node =
      let m' =
        store m (size_at curr_node) (load m (size_at curr_node) + load m (size_at next_node)) in
      store m' (next_at curr_node) (load m' (next_at next_node))

  -- The loop that joins adjacent nodes; a node that was joined stays the current one.
  unfoldable pub join_loop : ℕ → Memory → (iter : ℕ) → Option Memory
  join_loop zero m iter = none
  join_loop (suc fuel) m iter =
      let curr_node = load m (next_at iter) in
      let next_node = load m (next_at curr_node) in
      let touch = not (next_node == 0) && curr_node + load m (size_at curr_node) == next_node in
      let rest =
        join_loop fuel (if touch then join_nodes m curr_node next_node else m)
          (if touch then iter else curr_node) in
      if curr_node == 0 then some m else rest

  -- What `insert` and `coalesce` of the list are in memory.
  abbrev pub place_node : ℕ → Memory → (head node_ptr : ℕ) → Option ℕ → Option Memory
  place_node fuel m head node_ptr none = none
  place_node fuel m head node_ptr (some current) =
      join_loop fuel (link_node m current node_ptr) head

  -- `FallbackAllocator::add_free_region`
  unfoldable pub add_free_region : ℕ → Memory → (head addr size : ℕ) → Option Memory
  add_free_region fuel m head addr size =
      let aligned_addr = align_up addr node_align in
      let padding = aligned_addr - addr in
      let written = write_node m aligned_addr (size - padding) 0 in
      if leb size padding
      then some m
      else if ltb (size - padding) node_size
      then some m
      else place_node fuel written head aligned_addr (find_place fuel written head aligned_addr)

  -- The node at an address.
  abbrev pub node_at : Memory → ℕ → ListNode
  node_at m p = record { start_address = p; size = load m (size_at p) }

  -- `FallbackAllocator::find_region`
  unfoldable pub find_region :
      ℕ → Memory → (current size align : ℕ) → Option (Option (ℕ × ℕ) × Memory)
  find_region zero m current size align = none
  find_region (suc fuel) m current size align =
      let next_node = load m (next_at current) in
      let rest = find_region fuel m next_node size align in
      if next_node == 0
      then some (none, m)
      else elim (alloc_from_region (node_at m next_node) size align) [
        | some alloc_start ↦
            some (
              some (next_node, alloc_start),
              store m (next_at current) (load m (next_at next_node)),
            )
        | none ↦ rest
      ]

  -- `fallback_alloc` after `find_region`: the size is read where the region was.
  unfoldable pub take_region :
      ℕ → (head size : ℕ) → Option (Option (ℕ × ℕ) × Memory) → Option (Option ℕ × Memory)
  take_region fuel head size none = none
  take_region fuel head size (some (none, m)) = some (none, m)
  take_region fuel head size (some (some (node_ptr, alloc_start), m)) =
      let alloc_end = align_up (alloc_start + size) node_align in
      let excess_size = node_ptr + load m (size_at node_ptr) - alloc_end in
      if leb node_size excess_size
      then answer alloc_start (add_free_region fuel m head alloc_end excess_size)
      else some (some alloc_start, m)

  -- `FixedSizeBlockAllocator::fallback_alloc`
  unfoldable pub fallback_alloc : ℕ → Memory → (head size align : ℕ) → Option (Option ℕ × Memory)
  fallback_alloc fuel m head size align =
      take_region fuel head size (find_region fuel m head size align)

  -- `FixedSizeBlockAllocator::new`, the static at `head` included.
  unfoldable pub new : Memory → (head : ℕ) → HeapInMemory
  new m head = record { list_heads = replicate 8 0; memory = write_node m head 0 0 }

  -- `init`
  unfoldable pub init : ℕ → HeapInMemory → (head heap_start : ℕ) → Option HeapInMemory
  init fuel h head heap_start =
      settled h.list_heads (add_free_region fuel h.memory head heap_start heap_size)

  -- `alloc`; the inner `none` is the null pointer.
  unfoldable pub alloc : ℕ → HeapInMemory → (head size align : ℕ) → Option (Option ℕ × HeapInMemory)
  alloc fuel h head size align = elim (list_index size align) [
    | some index ↦
        let first = get_or h.list_heads index 0 in
        let block_size = get_or block_sizes index 0 in
        if first == 0
        then served h.list_heads (fallback_alloc fuel h.memory head block_size block_size)
        else some (
          some first,
          record h { list_heads = set h.list_heads index (load h.memory (next_at first)) },
        )
    | none ↦ served h.list_heads (fallback_alloc fuel h.memory head size align)
  ]

  unfoldable pub dealloc : ℕ → HeapInMemory → (head ptr size align : ℕ) → Option HeapInMemory
  dealloc fuel h head ptr size align = elim (list_index size align) [
    | some index ↦ some record {
      list_heads = set h.list_heads index ptr;
      memory = write_node h.memory ptr (get_or block_sizes index 0) (get_or h.list_heads index 0);
    }
    | none ↦ settled h.list_heads (add_free_region fuel h.memory head ptr size)
  ]
