-- ===== src/Allocator/Nodes/Dealloc.antt =====
-- `dealloc` with its nodes in memory.
use mathlib.Core.Path.{subst}
use alilu_os.Common.{
  Bool-cases, ◌%◌, ℕ, ◌+◌, ◌^◌, ◌≤◌, ◌<◌, ◌≡◌, refl, ap, Bool, true, false, [], ◌∷◌, arith, some,
  get_or, set, Option-cases, inl, inr,
}
use alilu_os.Allocator
use alilu_os.Allocator.{Heap, block_sizes, list_index}
use alilu_os.Allocator.Regions.{inside, align_up-8, free-add_free_region}
use alilu_os.Allocator.Owners.{block_at, class_owners, pool_owners-set}
use alilu_os.Allocator.Heaps.{
  held_multiple, multiple_class, held_whole, held_class, heap_owners, list_index-le,
}
use alilu_os.Allocator.Returns.{held_by}
use alilu_os.Allocator.Nodes
use alilu_os.Allocator.Nodes.{load, HeapInMemory, next_at, served, settled, write_node}
use alilu_os.Allocator.Nodes.Release.{add_free_region-Holds}
use alilu_os.Allocator.Nodes.Pools.{
  block_sizes-AllLarge, AllLarge-get, Pool, Pools-get, Pools-set, Stored-kept,
}
use alilu_os.Allocator.Nodes.Ready.{Ready-head, Changed, Ready, Holds-Changed}

-- The node written at a multiple of 8 is the first 16 bytes of the block there.
write_node-outside :
    (next_first : Bool) (m : Nodes.Memory) (p block size next x : ℕ)
    → p % 8 ≡ 0
    → 16 ≤ block
    → inside (block_at block p) x ≡ false
    → load (write_node next_first m p size next) x ≡ load m x
write_node-outside next_first m p block size next x aligned large outside = ground arith

module _ (next_first : Bool) (head fuel : ℕ) (h : Heap) (a : HeapInMemory)
    (r : Ready next_first head fuel h a) where
  -- A block goes to the front of a pool.
  pushed-Changed :
      (i p : ℕ)
      → i < 8
      → 0 < p
      → p % 8 ≡ 0
      → ((x : ℕ) → inside (block_at (get_or block_sizes i 0) p) x ≡ true → heap_owners h x ≡ 0)
      → inside (block_at (get_or block_sizes i 0) p) (next_at next_first head) ≡ false
      → let old = get_or a.list_heads i 0 in
        Changed next_first head h
          (record h { list_heads = set h.list_heads i (p ∷ get_or h.list_heads i []) })
          a
          (record {
            list_heads = set a.list_heads i p;
            memory = write_node next_first a.memory p (get_or block_sizes i 0) old;
          })
  unfolding class_owners
  pushed-Changed i p small pos aligned clear outside =
      let large = (AllLarge-get block_sizes i small block_sizes-AllLarge).0 in
      let old = get_or a.list_heads i 0 in
      let blocks = get_or h.list_heads i [] in
      let m' = write_node next_first a.memory p (get_or block_sizes i 0) old in
      let block = get_or block_sizes i 0 in
      let same =
        λ (x : ℕ). write_node-outside next_first a.memory p block block old x aligned large in
      let kept =
        Stored-kept next_first m' head h a r.valid
          (λ x owned. same x (elim (Bool-cases (inside (block_at block p) x)) [
            | inl held ↦ absurd (omega (arith, clear x held, owned x refl))
            | inr free_of_it ↦ free_of_it
          ]))
          (same (next_at next_first head) outside) r.stored in
      let linked : old ≡ load m' (next_at next_first p) = ground arith in
      record {
        stored = record {
          regions = kept.regions;
          pools =
              Pools-set next_first m' a.list_heads h.list_heads i p (p ∷ blocks)
                (
                  refl,
                  pos,
                  subst (λ k. Pool next_first m' k blocks) linked
                      (Pools-get next_first m' a.list_heads h.list_heads i kept.pools),
                )
                kept.pools;
        };
        same = λ x ne e e'.
            let counted =
              pool_owners-set block_sizes h.list_heads i (p ∷ blocks) x small
                (omega (arith, r.valid.pools)) in
            same x (elim (Bool-cases (inside (block_at block p) x)) [
              | inl held ↦ absurd (ground (arith, counted))
              | inr free_of_it ↦ free_of_it
            ]);
      }

  -- A range goes back to the free regions.
  settled-Changed :
      (p size : ℕ)
      → 0 < p
      → p + 8 ≤ 2 ^ 64
      → ((x : ℕ) → inside (block_at size p) x ≡ true → heap_owners h x ≡ 0)
      → inside (block_at size p) (next_at next_first head) ≡ false
      → let listed = Allocator.add_free_region h.fallback p size in
        (a' : HeapInMemory) × (settled a.list_heads
            (Nodes.add_free_region next_first fuel a.memory head p size)
          ≡ some a')
        × Changed next_first head h (record h { fallback = listed }) a a'
  settled-Changed p size pos fits clear outside =
      let (m', ran, held) =
        add_free_region-Holds next_first fuel a.memory head p size h.fallback r.stored.regions
          r.valid.ordered pos fits (λ x lo hi. ground (arith, clear x))
          (Ready-head next_first head fuel h a r) outside r.enough in
      (
        record a { memory = m' },
        ap (settled a.list_heads) ran,
        Holds-Changed next_first head fuel h a r (Allocator.add_free_region h.fallback p size) m'
            (λ x e. ground (
              arith,
              free-add_free_region h.fallback p size x fits,
              align_up-8 p fits,
              r.once x,
              clear x,
            ))
            held,
      )

  pub dealloc-Changed :
      (p size align : ℕ)
      → 0 < p
      → p + 8 ≤ 2 ^ 64
      → p % held_multiple size align ≡ 0
      → ((x : ℕ) → held_by size align p x ≡ true → heap_owners h x ≡ 0)
      → held_by size align p (next_at next_first head) ≡ false
      → (a' : HeapInMemory) × (Nodes.dealloc next_first fuel a head p size align ≡ some a')
        × Changed next_first head h (Allocator.dealloc h p size align) a a'
  unfolding Allocator.dealloc Nodes.dealloc
  dealloc-Changed p size align pos fits placed clear outside =
      elim (Option-cases (list_index size align)) [
        | inl large ↦
            rw (large, Allocator.dealloc, Nodes.dealloc)
              (settled-Changed p size pos fits (λ x i. clear x (rw (held_whole size align large) i))
                (rw (held_whole size align large) at outside))
        | inr (i, e) ↦
            let (small, _, _) = list_index-le size align i e in
            let eight : p % 8 ≡ 0 =
              (AllLarge-get block_sizes i small block_sizes-AllLarge).1 p
                (rw (multiple_class size align i e) at placed) in
            rw (e, Allocator.dealloc, Nodes.dealloc)
              (
                _,
                refl,
                pushed-Changed i p small pos eight
                    (λ x b. clear x (rw (held_class size align i e) b))
                    (rw (held_class size align i e) at outside),
              )
      ]
