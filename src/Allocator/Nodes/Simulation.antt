-- ===== src/Allocator/Nodes/Simulation.antt =====
-- Runs of the heap in memory beside runs of the heap of lists.
use alilu_os.Common.{
  Bool-cases, inl, inr, ◌≢◌, ◌/◌, ℕ, ◌+◌, ◌*◌, ◌^◌, ◌≤◌, ◌<◌, ◌≡◌, refl, ap, ◌∙◌, Bool, true, false,
  List, [], ◌∷◌, arith, Option, some, none, length,
}
use alilu_os.Allocator
use alilu_os.Allocator.{Heap, ListNode, end_address, heap_size}
use alilu_os.Allocator.Regions.{free, Regions, IsFreeList}
use alilu_os.Allocator.Blocks.{Below}
use alilu_os.Allocator.Owners.{free-Below}
use alilu_os.Allocator.Heaps.{size-le-held_size}
use alilu_os.Allocator.Returns.{held_by}
use alilu_os.Allocator.Clients
use alilu_os.Allocator.Clients.{
  Block, Client, Request, allocate, release, taken_out, asked_owners, IsAsked, in_heap,
}
use alilu_os.Allocator.Safety.{
  TakenOut, taken_out-TakenOut, IsSound, IsSound-Below, step-IsSound, asked-le-live,
}
use alilu_os.Allocator.Nodes.{load, HeapInMemory, next_at}
use alilu_os.Allocator.Nodes.Pools.{Stored}
use alilu_os.Allocator.Nodes.Ready.{Changed, Ready}
use alilu_os.Allocator.Nodes.Alloc.{alloc-Changed}
use alilu_os.Allocator.Nodes.Dealloc.{dealloc-Changed}
use alilu_os.Allocator.Nodes.Programs
use alilu_os.Allocator.Nodes.Programs.{
  ClientInMemory, Event, ask, write, left_with, requests, may_write, AllAllowed,
}

-- Regions from `low` on, below `limit`, are not many.
pub length-Regions :
    (nodes : List ListNode) (low limit : ℕ)
    → low ≤ limit + 1
    → Regions 1 low nodes
    → Below limit nodes
    → low + 16 * length nodes ≤ limit + 1
length-Regions [] low limit h v l = omega arith
length-Regions (n ∷ nodes) low limit h (a, b, c, v) (e, l) =
    omega (arith, length-Regions nodes (end_address n + 1) limit (omega arith) v l)

free-Regions :
    (nodes : List ListNode) (low bound : ℕ)
    → ((x : ℕ) → free nodes x ≡ true → bound ≤ x)
    → Regions 1 low nodes
    → Regions 1 bound nodes
unfolding free
free-Regions [] low bound h v = tt
free-Regions (n ∷ nodes) low bound h (a, b, c, v) = (ground (arith, h n.start_address), b, c, v)

module _ (next_first : Bool) (fuel head heap_start : ℕ) (pos : 0 < heap_start)
    (fits : heap_start + heap_size ≤ 2 ^ 62)
    (apart : (x : ℕ) → in_heap heap_start x ≡ true → x / 8 ≢ next_at next_first head / 8)
    (enough : heap_size + 17 < 16 * fuel) where
  pub head-in_heap : in_heap heap_start (next_at next_first head) ≡ false
  head-in_heap = elim (Bool-cases (in_heap heap_start (next_at next_first head))) [
    | inl within ↦ absurd (apart (next_at next_first head) within refl)
    | inr outside ↦ outside
  ]

  -- The memory has the lists, and the callers have the same blocks.
  pub record InMemory (c : Client) (a : ClientInMemory) : Type 0 where
    pub stored : Stored next_first head c.heap a.heap
    pub live : a.live ≡ c.live

  IsSound-Ready :
      (c : Client) (h : HeapInMemory)
      → IsSound heap_start c
      → Stored next_first head c.heap h
      → Ready next_first head fuel c.heap h
  unfolding IsFreeList
  IsSound-Ready c h v s =
      let below =
        free-Below c.heap.fallback (heap_start + heap_size) 0 (λ x e. ground (arith, v.once x))
          v.heap.ordered in
      let above =
        free-Regions c.heap.fallback 0 heap_start (λ x e. ground (arith, v.once x))
          v.heap.ordered in
      record {
        stored = s;
        valid = v.heap;
        once = λ x. ground (arith, v.once x);
        apart = λ x owned. apart x (ground (arith, v.once x));
        enough = omega (
          arith,
          length-Regions c.heap.fallback heap_start (heap_start + heap_size) (omega arith) above
              below,
        );
      }

  -- What a request did to the memory of the blocks that stay out.
  abbrev pub Unharmed : (c c' : Client) → (a a' : ClientInMemory) → Type 0
  Unharmed c c' a a' =
      (x : ℕ)
      → 0 < asked_owners c.live x
      → 0 < asked_owners c'.live x
      → load a'.heap.memory x ≡ load a.heap.memory x

  Changed-Unharmed :
      (c c' : Client) (a a' : ClientInMemory)
      → IsSound heap_start c
      → IsSound heap_start c'
      → Changed next_first head c.heap c'.heap a.heap a'.heap
      → Unharmed c c' a a'
  Changed-Unharmed c c' a a' v v' d x before after =
      d.same x (apart x (ground (arith, v.once x, asked-le-live c.live x)))
        (ground (arith, v.once x, asked-le-live c.live x))
        (ground (arith, v'.once x, asked-le-live c'.live x))

  abbrev pub Stepped : (c c' : Client) → (a : ClientInMemory) → Option ClientInMemory → Type 0
  Stepped c c' a answer =
      (a' : ClientInMemory) × (answer ≡ some a') × InMemory c' a' × Unharmed c c' a a'

  granted-Stepped :
      (c : Client) (h : HeapInMemory) (size align : ℕ) (listed : Option ℕ × Heap)
      → IsSound heap_start c
      → IsSound heap_start (Clients.granted size align listed c.live)
      → (h' : HeapInMemory) → Changed next_first head c.heap listed.1 h h'
      → Stepped c
          (Clients.granted size align listed c.live)
          (record { heap = h; live = c.live })
          (Programs.granted size align (some (listed.0, h')) c.live)
  granted-Stepped c h size align (none, after) v v' h' d =
      let a : ClientInMemory = record { heap = h; live = c.live } in
      let a' : ClientInMemory = record { heap = h'; live = c.live } in
      let c' : Client = record { heap = after; live = c.live } in
      (a', refl, record { stored = d.stored; live = refl }, Changed-Unharmed c c' a a' v v' d)
  granted-Stepped c h size align (some p, after) v v' h' d =
      let live : List Block = record { ptr = p; size = size; align = align } ∷ c.live in
      let a : ClientInMemory = record { heap = h; live = c.live } in
      let a' : ClientInMemory = record { heap = h'; live = live } in
      let c' : Client = record { heap = after; live = live } in
      (a', refl, record { stored = d.stored; live = refl }, Changed-Unharmed c c' a a' v v' d)

  released-Stepped :
      (c : Client) (h : HeapInMemory) (taken : Option (Block × List Block))
      → TakenOut c.live taken
      → IsSound heap_start c
      → IsSound heap_start (Clients.released taken c)
      → Stored next_first head c.heap h
      → Stepped c
          (Clients.released taken c)
          (record { heap = h; live = c.live })
          (Programs.released next_first fuel head taken (record { heap = h; live = c.live }))
  unfolding TakenOut Programs.released
  released-Stepped c h none t v v' s = (_, refl, record { stored = s; live = refl }, λ x e e'. refl)
  released-Stepped c h (some (b, rest)) (counted, ok) v v' s =
      let ((aligned, placed, filled, _), _) = ok v.live in
      let first : held_by b.size b.align b.ptr b.ptr ≡ true =
        ground (arith, size-le-held_size b.size b.align) in
      let front = next_at next_first head in
      let (h', ran, d) =
        dealloc-Changed next_first head fuel c.heap h (IsSound-Ready c h v s) b.ptr b.size b.align
          (ground (arith, v.once b.ptr, counted b.ptr))
          (ground (arith, v.once b.ptr, counted b.ptr)) placed
          (λ x e. ground (arith, v.once x, counted x))
          (ground (arith, head-in_heap, v.once front, counted front)) in
      let a : ClientInMemory = record { heap = h; live = c.live } in
      let a' : ClientInMemory = record { heap = h'; live = rest } in
      let c' : Client = record {
        heap = Allocator.dealloc c.heap b.ptr b.size b.align;
        live = rest;
      } in
      (
        a',
        ap (left_with rest) ran,
        record { stored = d.stored; live = refl },
        Changed-Unharmed c c' a a' v v' d,
      )

  -- A request, beside the same request of the lists.
  pub request-Stepped :
      (c : Client) (h : HeapInMemory) (request : Request)
      → IsAsked request
      → IsSound heap_start c
      → Stored next_first head c.heap h
      → let a : ClientInMemory = record { heap = h; live = c.live } in
        Stepped c (Clients.step c request) a (Programs.step next_first fuel head a (ask request))
  unfolding Clients.step Programs.step
  request-Stepped c h (allocate size align) l v s =
      let v' = step-IsSound heap_start fits c (allocate size align) l v in
      let listed = Allocator.alloc c.heap size align in
      let (h', ran, d) =
        alloc-Changed next_first head fuel c.heap h (IsSound-Ready c h v s) size align
          (IsSound-Below heap_start fits c v) l in
      let (a', answered, same, unharmed) = granted-Stepped c h size align listed v v' h' d in
      (a', ap (λ k. Programs.granted size align k c.live) ran ∙ answered, same, unharmed)
  request-Stepped c h (release i) l v s =
      released-Stepped c h (taken_out i c.live) (taken_out-TakenOut i c.live) v
        (step-IsSound heap_start fits c (release i) l v) s
