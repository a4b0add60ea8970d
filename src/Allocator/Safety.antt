-- ===== src/Allocator/Safety.antt =====
-- The blocks that the heap has handed out, byte by byte.
use mathlib.Core.Path.{subst}
use alilu_os.Common.{
  ℕ, zero, suc, ◌+◌, ◌%◌, ◌^◌, ◌≤◌, ◌<◌, ◌≡◌, refl, sym, true, List, [], ◌∷◌, arith, Option, some,
  none,
}
use alilu_os.Allocator.{Heap, new, init, heap_size, alloc}
use alilu_os.Allocator.Regions.{
  free, IsFreeList, free-add_free_region, add_free_region-IsFreeList, align_up-8,
}
use alilu_os.Allocator.Blocks.{Below}
use alilu_os.Allocator.Owners.{one, pool_owners, class_owners, free-Below}
use alilu_os.Allocator.Heaps.{
  held_multiple, heap_owners, IsHeap, IsLayout, GrantedIf, alloc-GrantedIf, size-le-held_size,
}
use alilu_os.Allocator.Returns.{held_by, dealloc-Returned}
use alilu_os.Allocator.Clients.{
  Block, Client, Request, allocate, release, taken_out, granted, released, step, run, start,
  asked_owners, AlignedBlocks, IsAsked, AllAsked, in_heap,
}

-- How many blocks that were handed out have a byte.
unfoldable pub live_owners : List Block → ℕ → ℕ
live_owners [] x = 0
live_owners (b ∷ live) x = one (held_by b.size b.align b.ptr x) + live_owners live x

abbrev pub LiveOk : List Block → Type 0
LiveOk [] = Unit
LiveOk (b ∷ live) =
    (b.ptr % b.align ≡ 0) × (b.ptr % held_multiple b.size b.align ≡ 0) × (0 < b.size) × LiveOk live

-- A block out of those that were handed out.
unfoldable pub TakenOut : List Block → Option (Block × List Block) → Type 0
TakenOut live none = Unit
TakenOut live (some (b, rest)) =
    ((x : ℕ) → live_owners live x ≡ one (held_by b.size b.align b.ptr x) + live_owners rest x)
    × (LiveOk live → LiveOk (b ∷ []) × LiveOk rest)

kept_in_front :
    (b : Block) (live : List Block) (taken : Option (Block × List Block))
    → TakenOut live taken
    → TakenOut (b ∷ live) (elim taken [ some (c, rest) ↦ some (c, b ∷ rest) | none ↦ none ])
unfolding TakenOut live_owners
kept_in_front b live none t = tt
kept_in_front b live (some (c, rest)) (counted, ok) =
    ((λ x. omega (arith, counted x)), λ (p, q, r, v). ((ok v).0, (p, q, r, (ok v).1)))

pub taken_out-TakenOut : (i : ℕ) (live : List Block) → TakenOut live (taken_out i live)
unfolding TakenOut live_owners
taken_out-TakenOut i [] = tt
taken_out-TakenOut zero (b ∷ live) = ((λ x. refl), λ (p, q, r, v). ((p, q, r, tt), v))
taken_out-TakenOut (suc i) (b ∷ live) =
    kept_in_front b live (taken_out i live) (taken_out-TakenOut i live)

pub record IsSound (heap_start : ℕ) (c : Client) : Type 0 where
  pub heap : IsHeap c.heap
  pub live : LiveOk c.live
  pub once : (x : ℕ) → live_owners c.live x + heap_owners c.heap x ≤ one (in_heap heap_start x)

module _ (heap_start : ℕ) (fits : heap_start + heap_size ≤ 2 ^ 62) where
  pub IsSound-Below : (c : Client) → IsSound heap_start c → Below (2 ^ 62) c.heap.fallback
  unfolding IsFreeList
  IsSound-Below c v =
      free-Below c.heap.fallback (2 ^ 62) 0 (λ x e. ground (arith, v.once x)) v.heap.ordered

  granted-IsSound :
      (c : Client) (size align : ℕ)
      → IsLayout size align
      → IsSound heap_start c
      → (answer : Option ℕ × Heap) → GrantedIf c.heap size align answer
      → IsSound heap_start (granted size align answer c.live)
  unfolding GrantedIf live_owners
  granted-IsSound c size align l v (none, h) g =
      subst (λ k. IsSound heap_start (record { heap = k; live = c.live })) (sym g)
        (record { heap = v.heap; live = v.live; once = v.once })
  granted-IsSound c size align l v (some p, h) g = record {
    heap = g.valid;
    live = (g.aligned, g.placed, l.filled, v.live);
    once = λ x. omega (arith, g.moved x, v.once x);
  }

  released-IsSound :
      (c : Client) (taken : Option (Block × List Block))
      → TakenOut c.live taken
      → IsSound heap_start c
      → IsSound heap_start (released taken c)
  unfolding TakenOut
  released-IsSound c none t v = v
  released-IsSound c (some (b, rest)) (counted, ok) v =
      let ((aligned, placed, filled, _), rest_ok) = ok v.live in
      let first : held_by b.size b.align b.ptr b.ptr ≡ true =
        ground (arith, size-le-held_size b.size b.align) in
      let back =
        dealloc-Returned c.heap b.ptr b.size b.align v.heap
          (ground (arith, v.once b.ptr, counted b.ptr)) (λ x e. ground (arith, v.once x, counted x))
          placed in
      record {
        heap = back.valid;
        live = rest_ok;
        once = λ x. omega (arith, back.moved x, counted x, v.once x);
      }

  pub step-IsSound :
      (c : Client) (request : Request)
      → IsAsked request
      → IsSound heap_start c
      → IsSound heap_start (step c request)
  unfolding step
  step-IsSound c (allocate size align) l v =
      granted-IsSound c size align l v (alloc c.heap size align)
        (alloc-GrantedIf c.heap size align v.heap (IsSound-Below c v) l)
  step-IsSound c (release i) l v =
      released-IsSound c (taken_out i c.live) (taken_out-TakenOut i c.live) v

  run-IsSound :
      (c : Client) (requests : List Request)
      → AllAsked requests
      → IsSound heap_start c
      → IsSound heap_start (run c requests)
  unfolding run
  run-IsSound c [] a v = v
  run-IsSound c (request ∷ requests) (a, later) v =
      run-IsSound (step c request) requests later (step-IsSound c request a v)

  pub start-IsSound : IsSound heap_start (start heap_start)
  unfolding init new pool_owners class_owners live_owners free IsFreeList
  start-IsSound = record {
    heap = record {
      ordered =
          add_free_region-IsFreeList [] heap_start heap_size (omega arith) (λ x lo hi. refl) tt;
      pools = refl;
      pools_aligned = (tt, (tt, (tt, (tt, (tt, (tt, (tt, (tt, tt))))))));
    };
    live = tt;
    once =
        λ x. ground (arith, free-add_free_region [] heap_start heap_size x, align_up-8 heap_start);
  }

-- The heap after `init`.
pub init-IsHeap :
    (heap_start : ℕ)
    → heap_start + heap_size ≤ 2 ^ 62
    → IsHeap (init new heap_start)
      × ((x : ℕ) → heap_owners (init new heap_start) x ≤ one (in_heap heap_start x))
unfolding live_owners
init-IsHeap heap_start fits =
    let v = start-IsSound heap_start fits in (v.heap, λ x. omega (arith, v.once x))

pub asked-le-live : (live : List Block) (x : ℕ) → asked_owners live x ≤ live_owners live x
unfolding asked_owners live_owners
asked-le-live [] x = omega arith
asked-le-live (b ∷ live) x = ground (arith, asked-le-live live x, size-le-held_size b.size b.align)

LiveOk-AlignedBlocks : (live : List Block) → LiveOk live → AlignedBlocks live
LiveOk-AlignedBlocks [] v = tt
LiveOk-AlignedBlocks (b ∷ live) (aligned, _, _, v) = (aligned, LiveOk-AlignedBlocks live v)

-- Whatever is asked for and given back, in any order: no byte is in two of the blocks that are
-- handed out, each of their bytes is one of the heap's, and each block stands at a multiple of its
-- alignment. The heap lies below 2 ^ 62; a layout has at least one byte, a size and an alignment of
-- at most 2 ^ 62, and an alignment that is a power of two; no block is given back twice.
pub run-apart :
    (heap_start : ℕ) (requests : List Request)
    → heap_start + heap_size ≤ 2 ^ 62
    → AllAsked requests
    → (x : ℕ)
    → (asked_owners (run (start heap_start) requests).live x ≤ one (in_heap heap_start x))
      × AlignedBlocks (run (start heap_start) requests).live
run-apart heap_start requests fits asked x =
    let v =
      run-IsSound heap_start fits (start heap_start) requests asked
        (start-IsSound heap_start fits) in
    let live = (run (start heap_start) requests).live in
    (omega (arith, v.once x, asked-le-live live x), LiveOk-AlignedBlocks live v.live)
