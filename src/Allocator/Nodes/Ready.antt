-- ===== src/Allocator/Nodes/Ready.antt =====
-- A heap in memory that its operations can run on, and what a step of it may write.
use alilu_os.Common.{
  refl, Bool-cases, inl, inr, ◌/◌, ℕ, ◌+◌, ◌≤◌, ◌<◌, ◌≡◌, ◌≢◌, Bool, false, List, arith, length,
}
use alilu_os.Allocator
use alilu_os.Allocator.{Heap, block_sizes, list_index}
use alilu_os.Allocator.Regions.{free}
use alilu_os.Allocator.Owners.{pool_owners}
use alilu_os.Allocator.Heaps.{heap_owners, IsHeap}
use alilu_os.Allocator.Nodes
use alilu_os.Allocator.Nodes.{load, HeapInMemory, next_at, served, settled, write_node}
use alilu_os.Allocator.Nodes.Release.{Holds}
use alilu_os.Allocator.Nodes.Pools.{block_sizes-AllLarge, Pools-kept, Stored}

module _ (next_first : Bool) (head : ℕ) where
  -- A step of the heap in memory, from the lists `h` to the lists `h'`: apart from the word at
  -- `head`, only words that the heap has were written.
  pub record Changed (h h' : Heap) (a a' : HeapInMemory) : Type 0 where
    pub stored : Stored next_first head h' a'
    pub same :
        (x : ℕ)
        → x / 8 ≢ next_at next_first head / 8
        → heap_owners h x ≡ 0
        → heap_owners h' x ≡ 0
        → load a'.memory x ≡ load a.memory x

  -- A heap in memory, with room for its loops: no byte of it is in the list's own pointer, and no
  -- byte is in it twice.
  pub record Ready (fuel : ℕ) (h : Heap) (a : HeapInMemory) : Type 0 where
    pub stored : Stored next_first head h a
    pub valid : IsHeap h
    pub once : (x : ℕ) → heap_owners h x ≤ 1
    pub apart : (x : ℕ) → 0 < heap_owners h x → x / 8 ≢ next_at next_first head / 8
    pub enough : length h.fallback + 1 < fuel

  module _ (fuel : ℕ) (h : Heap) (a : HeapInMemory) (r : Ready fuel h a) where
    pub Ready-head : free h.fallback (next_at next_first head) ≡ false
    Ready-head = elim (Bool-cases (free h.fallback (next_at next_first head))) [
      | inl inside_heap ↦ absurd (r.apart (next_at next_first head) (ground arith) refl)
      | inr outside ↦ outside
    ]

    -- New free regions in memory leave the pools.
    pub Holds-Changed :
        (nodes : List Allocator.ListNode) (m' : Nodes.Memory)
        → ((x : ℕ) → 0 < pool_owners block_sizes h.list_heads x → free nodes x ≡ false)
        → Holds next_first a.memory head h.fallback nodes m'
        → Changed h (record h { fallback = nodes }) a (record a { memory = m' })
    Holds-Changed nodes m' clear held = record {
      stored = record {
        regions = held.chain;
        pools =
            Pools-kept next_first a.memory m' block_sizes a.list_heads h.list_heads
              (omega (arith, r.valid.pools)) block_sizes-AllLarge
              (λ x e.
                held.same x (r.apart x (omega (arith, e x refl)))
                  (ground (arith, r.once x, e x refl)) (clear x (e x refl)))
              r.valid.pools_aligned r.stored.pools;
      };
      same = λ x ne e e'. held.same x ne (ground arith) (ground arith);
    }
