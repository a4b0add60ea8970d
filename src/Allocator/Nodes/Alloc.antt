-- ===== src/Allocator/Nodes/Alloc.antt =====
-- `alloc` with its nodes in memory.
use mathlib.Core.Path.{subst}
use alilu_os.Common.{
  ℕ, ◌^◌, ◌≤◌, ◌<◌, ◌≡◌, refl, sym, ap, ◌∙◌, Bool, false, List, [], ◌∷◌, arith, Option, some, none,
  get_or, set, Option-cases, inl, inr,
}
use alilu_os.Allocator
use alilu_os.Allocator.{Heap, block_sizes, list_index}
use alilu_os.Allocator.Regions.{free}
use alilu_os.Allocator.Blocks.{Below, AllocatedIf, fallback_alloc-AllocatedIf}
use alilu_os.Allocator.Heaps.{IsLayout, list_index-le, block_size_bounds}
use alilu_os.Allocator.Nodes
use alilu_os.Allocator.Nodes.{load, HeapInMemory, next_at, served, settled, write_node}
use alilu_os.Allocator.Nodes.Take.{fallback_alloc-Holds}
use alilu_os.Allocator.Nodes.Pools.{Pool, Pools-get, Pools-set}
use alilu_os.Allocator.Nodes.Ready.{Ready-head, Changed, Ready, Holds-Changed}

-- An allocation makes no byte free.
free-AllocatedIf :
    (nodes : List Allocator.ListNode) (size align : ℕ) (answer : Option ℕ × List Allocator.ListNode)
    → AllocatedIf nodes size align answer
    → (x : ℕ) → free nodes x ≡ false
    → free answer.1 x ≡ false
unfolding AllocatedIf
free-AllocatedIf nodes size align (none, nodes') a x e = ap (λ k. free k x) a ∙ e
free-AllocatedIf nodes size align (some p, nodes') a x e = ground (arith, a.nothing_else x)

module _ (next_first : Bool) (head fuel : ℕ) (h : Heap) (a : HeapInMemory)
    (r : Ready next_first head fuel h a) where
  -- A block of the fallback allocator.
  served-Changed :
      (size align : ℕ)
      → Below (2 ^ 62) h.fallback
      → 0 < align
      → align ≤ 2 ^ 62
      → size ≤ 2 ^ 62
      → let listed = Allocator.fallback_alloc h.fallback size align in
        (a' : HeapInMemory) × (served a.list_heads
            (Nodes.fallback_alloc next_first fuel a.memory head size align)
          ≡ some (listed.0, a'))
        × Changed next_first head h (record h { fallback = listed.1 }) a a'
  served-Changed size align l pos small_align small_size =
      let listed = Allocator.fallback_alloc h.fallback size align in
      let done =
        fallback_alloc-AllocatedIf h.fallback size align pos small_align small_size r.valid.ordered
          l in
      let (m', ran, held) =
        fallback_alloc-Holds next_first fuel a.memory head size align h.fallback r.stored.regions
          r.valid.ordered l pos small_align small_size (Ready-head next_first head fuel h a r)
          r.enough in
      (
        record a { memory = m' },
        ap (served a.list_heads) ran,
        Holds-Changed next_first head fuel h a r listed.1 m'
            (λ x e. free-AllocatedIf h.fallback size align listed done x (ground (arith, r.once x)))
            held,
      )

  -- The head of a pool is taken.
  popped-Changed :
      (i p : ℕ) (blocks : List ℕ)
      → get_or h.list_heads i [] ≡ p ∷ blocks
      → let first = get_or a.list_heads i 0 in
        (first ≡ p)
        × (0 < first)
        × Changed next_first head h
            (record h { list_heads = set h.list_heads i blocks })
            a
            (record a {
              list_heads = set a.list_heads i (load a.memory (next_at next_first first));
            })
  popped-Changed i p blocks e =
      let first = get_or a.list_heads i 0 in
      let pool : Pool next_first a.memory first (p ∷ blocks) =
        subst (Pool next_first a.memory first) e
          (Pools-get next_first a.memory a.list_heads h.list_heads i r.stored.pools) in
      (
        pool.0,
        pool.1,
        record {
          stored = record {
            regions = r.stored.regions;
            pools =
                Pools-set next_first a.memory a.list_heads h.list_heads i
                  (load a.memory (next_at next_first first)) blocks
                  (subst
                    (λ k. Pool next_first a.memory (load a.memory (next_at next_first k)) blocks)
                    (sym pool.0) pool.2)
                  r.stored.pools;
          };
          same = λ x ne e e'. refl;
        },
      )

  abbrev pub AllocChanged : (size align : ℕ) → Option ℕ × Heap → Type 0
  AllocChanged size align listed =
      (a' : HeapInMemory) × (Nodes.alloc next_first fuel a head size align ≡ some (listed.0, a'))
      × Changed next_first head h listed.1 a a'

  alloc_block-Changed :
      (size align i : ℕ)
      → Below (2 ^ 62) h.fallback
      → list_index size align ≡ some i
      → (pool : List ℕ) → get_or h.list_heads i [] ≡ pool
      → AllocChanged size align (Allocator.alloc_block h i pool)
  unfolding Nodes.alloc Allocator.alloc_block
  alloc_block-Changed size align i l e (p ∷ blocks) pool =
      let (at, pos, changed) = popped-Changed i p blocks pool in
      (_, rw (e, Nodes.alloc) (ground arith), changed)
  alloc_block-Changed size align i l e [] pool =
      let (small, _, _) = list_index-le size align i e in
      let (bounded, positive) = block_size_bounds i small in
      let block = get_or block_sizes i 0 in
      let (a', ran, changed) = served-Changed block block l positive bounded bounded in
      let empty : get_or a.list_heads i 0 ≡ 0 =
        subst (Pool next_first a.memory (get_or a.list_heads i 0)) pool
          (Pools-get next_first a.memory a.list_heads h.list_heads i r.stored.pools) in
      (a', rw (e, Nodes.alloc) (rw empty ran), changed)

  pub alloc-Changed :
      (size align : ℕ)
      → Below (2 ^ 62) h.fallback
      → IsLayout size align
      → AllocChanged size align (Allocator.alloc h size align)
  unfolding Allocator.alloc Nodes.alloc
  alloc-Changed size align below l = elim (Option-cases (list_index size align)) [
    | inl large ↦
        rw (large, Allocator.alloc, Nodes.alloc)
          (served-Changed size align below l.align_positive l.align_in l.size_in)
    | inr (i, e) ↦ rw (e, Allocator.alloc) (alloc_block-Changed size align i below e _ refl)
  ]
