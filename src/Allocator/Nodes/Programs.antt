-- ===== src/Allocator/Nodes/Programs.antt =====
-- The heap in memory and its callers: requests in any order, and between them the callers' writes
-- into the memory. Each block is given back at most once. `none` means that a loop's fuel ran out.
use alilu_os.Common.{
  ◌/◌, ℕ, ◌≡◌, Bool, true, not, ◌&&◌, ◌||◌, List, [], ◌∷◌, Option, some, none, ◌==◌, ltb,
}
use alilu_os.Allocator.Clients
use alilu_os.Allocator.Clients.{
  Block, Client, Request, allocate, release, taken_out, asked_owners, IsAsked, in_heap,
}
use alilu_os.Allocator.Nodes.{Memory, HeapInMemory, store, new, init, alloc, dealloc}

pub record ClientInMemory : Type 0 where
  pub heap : HeapInMemory
  pub live : List Block

-- A request, or a caller's write to the byte at an address: `value` is what the word with that byte is
-- then. A write of more bytes is several of these.
pub data Event : Type 0 where
  ask : Request → Event
  write : (at value : ℕ) → Event

abbrev pub granted :
    (size align : ℕ) → Option (Option ℕ × HeapInMemory) → List Block → Option ClientInMemory
granted size align none live = none
granted size align (some (none, h)) live = some (record { heap = h; live = live })
granted size align (some (some p, h)) live =
    some record { heap = h; live = record { ptr = p; size = size; align = align } ∷ live }

abbrev pub left_with : List Block → Option HeapInMemory → Option ClientInMemory
left_with live none = none
left_with live (some h) = some (record { heap = h; live = live })

-- The requests among the events.
unfoldable pub requests : List Event → List Request
requests [] = []
requests (ask request ∷ events) = request ∷ requests events
requests (write at value ∷ events) = requests events

-- A caller may write a byte of a block of its, and any byte outside the heap that is not in the
-- word at `front`.
abbrev pub may_write : (heap_start front : ℕ) → List Block → ℕ → Bool
may_write heap_start front live at =
    ltb 0 (asked_owners live at) || (not (in_heap heap_start at) && not (at / 8 == front / 8))

-- The layouts that are asked for are some, and the writes are allowed at their time.
abbrev pub AllAllowed : (heap_start front : ℕ) → Client → List Event → Type 0
AllAllowed heap_start front c [] = Unit
AllAllowed heap_start front c (ask request ∷ events) =
    IsAsked request × AllAllowed heap_start front (Clients.step c request) events
AllAllowed heap_start front c (write at value ∷ events) =
    (may_write heap_start front c.live at ≡ true) × AllAllowed heap_start front c events

module _ (next_first : Bool) (fuel head : ℕ) where
  unfoldable pub released : Option (Block × List Block) → ClientInMemory → Option ClientInMemory
  released none c = some c
  released (some (b, rest)) c =
      left_with rest (dealloc next_first fuel c.heap head b.ptr b.size b.align)

  unfoldable pub step : ClientInMemory → Event → Option ClientInMemory
  step c (ask (allocate size align)) =
      granted size align (alloc next_first fuel c.heap head size align) c.live
  step c (ask (release i)) = released (taken_out i c.live) c
  step c (write at value) =
      some (record c { heap = record c.heap { memory = store c.heap.memory at value } })

  unfoldable pub run : ClientInMemory → List Event → Option ClientInMemory
  run c [] = some c
  run c (event ∷ events) = elim (step c event) [ some c' ↦ run c' events | none ↦ none ]

  -- The heap at an address after `new` and `init`, in a memory of any contents.
  unfoldable pub program : Memory → (heap_start : ℕ) → List Event → Option ClientInMemory
  program m heap_start events =
      elim (left_with [] (init next_first fuel (new next_first m head) head heap_start)) [
        | some c ↦ run c events
        | none ↦ none
      ]
