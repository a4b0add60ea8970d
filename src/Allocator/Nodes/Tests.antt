-- ===== src/Allocator/Nodes/Tests.antt =====
-- Runs of the heap in memory, and its theorems at concrete ones.
use alilu_os.Common.{
  true, ◌/◌, ◌≢◌, ℕ, ◌+◌, ◌<◌, ◌≡◌, refl, false, List, [], ◌∷◌, Option, some, none, arith,
}
use alilu_os.Allocator
use alilu_os.Allocator.Heaps.{IsHeap, IsLayout}
use alilu_os.Allocator.Clients
use alilu_os.Allocator.Clients.{in_heap, Block, Request, allocate, release, start, asked_owners}
use alilu_os.Allocator.Nodes
use alilu_os.Allocator.Nodes.{load, HeapInMemory, Memory}
use alilu_os.Allocator.Nodes.Pools.{Stored}
use alilu_os.Allocator.Nodes.Programs
use alilu_os.Allocator.Nodes.Programs.{
  ClientInMemory, Event, ask, write, requests, AllAllowed, step, run, program,
}
use alilu_os.Allocator.Nodes.Runs.{program-lists, step_unharmed}

-- A memory with other contents in every word.
abbrev contents : Memory
contents = λ x. x + 1

-- Two blocks, the last byte of the second written, and both given back.
abbrev events : List Event
events =
    ask (allocate 40 8)
    ∷ ask (allocate 5000 16)
    ∷ write 0x11407 7
    ∷ ask (release 1)
    ∷ ask (allocate 64 64)
    ∷ ask (release 1)
    ∷ []

small-IsLayout : IsLayout 40 8
small-IsLayout = record {
  filled = omega arith;
  size_in = omega arith;
  align_in = omega arith;
  align_positive = omega arith;
  power = (3, refl);
}

large-IsLayout : IsLayout 5000 16
large-IsLayout = record {
  filled = omega arith;
  size_in = omega arith;
  align_in = omega arith;
  align_positive = omega arith;
  power = (4, refl);
}

other-IsLayout : IsLayout 64 64
other-IsLayout = record {
  filled = omega arith;
  size_in = omega arith;
  align_in = omega arith;
  align_positive = omega arith;
  power = (6, refl);
}

events-AllAllowed : AllAllowed 0x10010 0x1008 (start 0x10010) events
unfolding Clients.step Allocator.alloc Allocator.init Allocator.new Allocator.alloc_block
    Allocator.fallback_alloc Allocator.find_region Allocator.take_region Allocator.alloc_from_region
    Allocator.list_index Allocator.position Allocator.add_free_region Allocator.align_up
    Allocator.insert Allocator.coalesce Allocator.coalesce_at asked_owners
events-AllAllowed = (small-IsLayout, (large-IsLayout, (refl, (tt, (other-IsLayout, (tt, tt))))))

-- The blocks that are out.
abbrev blocks_of : Option ClientInMemory → List Block
blocks_of none = []
blocks_of (some a) = a.live

-- With 8 rounds for each loop: the block of 64 bytes is out.
program-blocks :
    blocks_of (program false 8 0x1000 contents 0x10010 events)
    ≡ record { ptr = 0x10040; size = 64; align = 64 } ∷ []
unfolding program run step Programs.released Nodes.alloc Nodes.dealloc Nodes.init Nodes.new
    Nodes.fallback_alloc Nodes.find_region Nodes.take_region Nodes.add_free_region Nodes.find_place
    Nodes.join_loop Allocator.alloc_from_region Allocator.list_index Allocator.position
    Allocator.align_up
program-blocks = refl

head_outside : (x : ℕ) → in_heap 0x10010 x ≡ true → x / 8 ≢ 0x1008 / 8
head_outside x within e = ground arith

program-lists_example :
    let listed = Clients.run (start 0x10010) (requests events) in
    (h : HeapInMemory) × (program false 400000 0x1000 contents 0x10010 events
      ≡ some (record { heap = h; live = listed.live }))
    × Stored false 0x1000 listed.heap h
    × IsHeap listed.heap
program-lists_example =
    program-lists false 400000 0x1000 0x10010 (omega arith) (omega arith) head_outside (omega arith)
      contents events events-AllAllowed

step_unharmed_example :
    (a a' : ClientInMemory) × (program false 400000 0x1000 contents 0x10010 events ≡ some a)
    × (step false 400000 0x1000 a (ask (allocate 5000 16)) ≡ some a')
    × ((x : ℕ)
        → 0 < asked_owners a.live x
        → 0 < asked_owners a'.live x
        → load a'.heap.memory x ≡ load a.heap.memory x)
step_unharmed_example =
    step_unharmed false 400000 0x1000 0x10010 (omega arith) (omega arith) head_outside (omega arith)
      contents events (allocate 5000 16) events-AllAllowed large-IsLayout
