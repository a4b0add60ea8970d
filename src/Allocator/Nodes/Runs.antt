-- ===== src/Allocator/Nodes/Runs.antt =====
-- Whole runs of the heap in memory, from `init` on, with the callers' writes.
use alilu_os.Common.{
  ◌≢◌, ◌/◌, ℕ, ◌+◌, ◌*◌, ◌^◌, ◌≤◌, ◌<◌, ◌≡◌, refl, ap, ◌∙◌, Bool, true, List, [], ◌∷◌, arith,
  Option, some,
}
use alilu_os.Allocator
use alilu_os.Allocator.{Heap, heap_size}
use alilu_os.Allocator.Regions.{IsFreeList, free}
use alilu_os.Allocator.Heaps.{IsHeap}
use alilu_os.Allocator.Clients
use alilu_os.Allocator.Clients.{Block, Client, Request, start, asked_owners, IsAsked, in_heap}
use alilu_os.Allocator.Safety.{IsSound, step-IsSound, start-IsSound, asked-le-live}
use alilu_os.Allocator.Nodes
use alilu_os.Allocator.Nodes.{load, HeapInMemory, Memory, next_at, store, settled}
use alilu_os.Allocator.Nodes.Release.{add_free_region-Holds}
use alilu_os.Allocator.Nodes.Pools.{Stored, Stored-kept}
use alilu_os.Allocator.Nodes.Programs.{
  ClientInMemory, Event, ask, write, requests, may_write, AllAllowed, step, run, program,
}
use alilu_os.Allocator.Nodes.Simulation.{head-in_heap, request-Stepped}

module _ (next_first : Bool) (fuel head heap_start : ℕ) (pos : 0 < heap_start)
    (fits : heap_start + heap_size ≤ 2 ^ 62)
    (apart : (x : ℕ) → in_heap heap_start x ≡ true → x / 8 ≢ next_at next_first head / 8)
    (enough : heap_size + 17 < 16 * fuel) where
  -- An allowed write leaves the lists.
  write-Stored :
      (c : Client) (h : HeapInMemory) (at value : ℕ)
      → may_write heap_start (next_at next_first head) c.live at ≡ true
      → IsSound heap_start c
      → Stored next_first head c.heap h
      → Stored next_first head c.heap (record h { memory = store h.memory at value })
  write-Stored c h at value allowed v s =
      Stored-kept next_first (store h.memory at value) head c.heap h v.heap
        (λ x owned. ground (arith, owned at, v.once at, asked-le-live c.live at))
        (ground (arith, apart at, v.once at, asked-le-live c.live at)) s

  run_on :
      (a a' : ClientInMemory) (event : Event) (events : List Event)
      → step next_first fuel head a event ≡ some a'
      → run next_first fuel head a (event ∷ events) ≡ run next_first fuel head a' events
  unfolding run
  run_on a a' event events e = rw (e, run) refl

  abbrev pub Reached : Client → Option ClientInMemory → Type 0
  Reached c answer =
      (h : HeapInMemory) × (answer ≡ some (record { heap = h; live = c.live }))
      × Stored next_first head c.heap h
      × IsSound heap_start c

  run-Reached :
      (c : Client) (h : HeapInMemory) (events : List Event)
      → IsSound heap_start c
      → Stored next_first head c.heap h
      → AllAllowed heap_start (next_at next_first head) c events
      → Reached
          (Clients.run c (requests events))
          (run next_first fuel head (record { heap = h; live = c.live }) events)
  unfolding requests run Clients.run step
  run-Reached c h [] v s allowed = (h, refl, s, v)
  run-Reached c h (write at value ∷ events) v s (may, later) =
      run-Reached c (record h { memory = store h.memory at value }) events v
        (write-Stored c h at value may v s) later
  run-Reached c h (ask request ∷ events) v s (asked, later) =
      let a : ClientInMemory = record { heap = h; live = c.live } in
      let c' = Clients.step c request in
      let (a', ran, same, _) =
        request-Stepped next_first fuel head heap_start pos fits apart enough c h request asked v
          s in
      let b : ClientInMemory = record { heap = a'.heap; live = c'.live } in
      let renamed : a' ≡ b = λ i. record a' { live = same.live i } in
      let (h', ran_on, s', v') =
        run-Reached c' a'.heap events (step-IsSound heap_start fits c request asked v) same.stored
          later in
      (h', run_on a b (ask request) events (ran ∙ ap (λ k. some k) renamed) ∙ ran_on, s', v')

  -- The heap after `new` and `init`.
  init-Stored :
      (m : Memory)
      → (h : HeapInMemory) × (Nodes.init next_first fuel
            (Nodes.new next_first m head)
            head
            heap_start
          ≡ some h)
        × Stored next_first head (start heap_start).heap h
  unfolding Nodes.init Nodes.new Allocator.init Allocator.new IsFreeList free
  init-Stored m =
      let made = Nodes.new next_first m head in
      let (m', ran, held) =
        add_free_region-Holds next_first fuel made.memory head heap_start heap_size []
          (ground arith) tt pos (omega arith) (λ x lo hi. refl) refl
          (head-in_heap next_first fuel head heap_start pos fits apart enough) (omega arith) in
      (
        record made { memory = m' },
        ap (settled made.list_heads) ran,
        record {
          regions = held.chain;
          pools = (refl, (refl, (refl, (refl, (refl, (refl, (refl, (refl, tt))))))));
        },
      )

  program-Reached :
      (m : Memory) (events : List Event)
      → AllAllowed heap_start (next_at next_first head) (start heap_start) events
      → Reached
          (Clients.run (start heap_start) (requests events))
          (program next_first fuel head m heap_start events)
  unfolding program
  program-Reached m events allowed =
      let (h, ran, s) = init-Stored m in
      rw (ran, program)
        (run-Reached (start heap_start) h events (start-IsSound heap_start fits) s allowed)

  -- Whatever is asked for, given back and written in between, in any order: the heap that keeps its
  -- nodes in the free memory runs to the end, hands out the very blocks that the heap of lists hands
  -- out, and its memory has the chains of those lists, which are in order, with every node at a
  -- multiple of 8 and every block of a pool at a multiple of its size. The heap starts above address 0
  -- and ends at 2 ^ 62 at most, no byte of it is in the word of the pointer to its first node, 16
  -- times the fuel is more than its bytes and 17, each layout that is asked for is one, and the
  -- callers write only to bytes of their blocks, or outside the heap and that word.
  pub program-lists :
      (m : Memory) (events : List Event)
      → AllAllowed heap_start (next_at next_first head) (start heap_start) events
      → let listed = Clients.run (start heap_start) (requests events) in
        (h : HeapInMemory) × (program next_first fuel head m heap_start events
          ≡ some (record { heap = h; live = listed.live }))
        × Stored next_first head listed.heap h
        × IsHeap listed.heap
  program-lists m events allowed =
      let (h, ran, s, v) = program-Reached m events allowed in (h, ran, s, v.heap)

  -- After any run of the heap in memory, under the conditions of `program-lists`, a further `alloc`
  -- of a layout or `dealloc` answers, and no word with a byte of a block that was out and stays out
  -- is another one after it.
  pub step_unharmed :
      (m : Memory) (events : List Event) (request : Request)
      → AllAllowed heap_start (next_at next_first head) (start heap_start) events
      → IsAsked request
      → (a a' : ClientInMemory) × (program next_first fuel head m heap_start events ≡ some a)
        × (step next_first fuel head a (ask request) ≡ some a')
        × ((x : ℕ)
            → 0 < asked_owners a.live x
            → 0 < asked_owners a'.live x
            → load a'.heap.memory x ≡ load a.heap.memory x)
  step_unharmed m events request allowed asked =
      let listed = Clients.run (start heap_start) (requests events) in
      let (h, ran, s, v) = program-Reached m events allowed in
      let (a', stepped, same, unharmed) =
        request-Stepped next_first fuel head heap_start pos fits apart enough listed h request asked
          v s in
      (
        record { heap = h; live = listed.live },
        a',
        ran,
        stepped,
        λ x before after.
            unharmed x before (omega (arith, ap (λ live. asked_owners live x) same.live)),
      )
