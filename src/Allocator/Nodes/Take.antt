-- ===== src/Allocator/Nodes/Take.antt =====
-- A block taken from the free regions, in memory and in the list.
use alilu_os.Common.{
  ℕ, ◌+◌, ◌-◌, ◌^◌, ◌≤◌, ◌<◌, ◌≡◌, refl, ap, ◌∙◌, Bool, false, Option, some, none, List, [], ◌∷◌,
  arith, leb, length, Bool-cases, inl, inr,
}
use alilu_os.Allocator
use alilu_os.Allocator.{ListNode, end_address, align_up, alloc_from_region}
use alilu_os.Allocator.Regions.{free, IsFreeList}
use alilu_os.Allocator.Blocks.{
  Below, Taken, TakenIf, find_region-TakenIf, Fits, alloc_from_region-Fits,
}
use alilu_os.Allocator.Nodes
use alilu_os.Allocator.Nodes.{load, Memory, next_at, size_at, answer}
use alilu_os.Allocator.Nodes.Chain.{Chain}
use alilu_os.Allocator.Nodes.Find.{address_of, FoundIn, find_region-FoundIn}
use alilu_os.Allocator.Nodes.Release.{Regions-Spaced, free-Clear, Holds, add_free_region-Holds}

-- A search makes no list longer.
length-find_region :
    (nodes : List ListNode) (size align : ℕ)
    → length (Allocator.find_region nodes size align).1 ≤ length nodes
unfolding Allocator.find_region
length-find_region [] size align = ground arith
length-find_region (n ∷ nodes) size align = ground (arith, length-find_region nodes size align)

module _ (next_first : Bool) where
  -- No node is at the null pointer.
  Chain-null_not_free :
      (m : Memory) (p : ℕ) (nodes : List ListNode)
      → Chain next_first m p nodes
      → free nodes 0 ≡ false
  unfolding free
  Chain-null_not_free m p [] c = refl
  Chain-null_not_free m p (n ∷ nodes) c =
      ground (arith, Chain-null_not_free m (load m (next_at next_first n.start_address)) nodes c.3)

  module _ (fuel : ℕ) (m m1 : Memory) (head size align : ℕ) (nodes : List ListNode)
      (chain : Chain next_first m (load m (next_at next_first head)) nodes) (v : IsFreeList nodes)
      (outside : free nodes (next_at next_first head) ≡ false)
      (enough : length nodes + 1 < fuel) where
    -- After the search, with nothing found or nothing left to give back.
    found-Holds :
        (found : Option (ListNode × ℕ)) (rest : List ListNode)
        → FoundIn next_first m head nodes (found, rest) m1
        → Holds next_first m head nodes rest m1
    unfolding IsFreeList
    found-Holds found rest f = record {
      chain = f.chain;
      same = λ x ne e _. f.still x ne (free-Clear 1 0 x nodes e v);
    }

    -- What lies behind the block is given back.
    split-Holds :
        (node : ListNode) (start : ℕ) (rest : List ListNode)
        → Taken nodes 0 size align node start rest
        → Fits node size align start
        → FoundIn next_first m head nodes (some (node, start), rest) m1
        → length rest ≤ length nodes
        → let alloc_end = align_up (start + size) 8 in
          let excess_size = end_address node - alloc_end in
          16 ≤ excess_size
          → (m' : Memory) × (Nodes.add_free_region next_first fuel m1 head alloc_end excess_size
              ≡ some m')
            × Holds next_first m head nodes
                (Allocator.add_free_region rest alloc_end excess_size)
                m'
    unfolding IsFreeList
    split-Holds node start rest t fits f shorter left =
        let alloc_end = align_up (start + size) 8 in
        let excess_size = end_address node - alloc_end in
        let front = next_at next_first head in
        let (m', ran, h) =
          add_free_region-Holds next_first fuel m1 head alloc_end excess_size rest f.chain t.ordered
            (ground (
              arith,
              Chain-null_not_free m _ nodes chain,
              t.bytes 0,
              fits.begins,
              fits.ends,
              fits.rounded,
            ))
            (omega (arith, fits.ends, t.limited))
            (λ x lo hi. ground (arith, t.apart x, fits.begins, fits.ends, fits.rounded))
            (ground (arith, t.bytes front))
            (ground (arith, t.bytes front, fits.begins, fits.ends, fits.rounded)) (omega arith) in
        (
          m',
          ran,
          record {
            chain = h.chain;
            same = λ x ne e e'.
                h.same x ne (ground (arith, t.bytes x)) e'
                ∙ f.still x ne (free-Clear 1 0 x nodes e v);
          },
        )

    taken-Holds :
        0 < align
        → align ≤ 2 ^ 62
        → size ≤ 2 ^ 62
        → (found : Option (ListNode × ℕ)) (rest : List ListNode)
        → TakenIf nodes 0 size align (found, rest)
        → FoundIn next_first m head nodes (found, rest) m1
        → length rest ≤ length nodes
        → let listed = Allocator.take_region found rest size in
          (m' : Memory) × (Nodes.take_region next_first fuel head size (some (address_of found, m1))
            ≡ some (listed.0, m'))
          × Holds next_first m head nodes listed.1 m'
    unfolding Nodes.take_region Allocator.take_region TakenIf
    taken-Holds pos small_align small_size none rest t f shorter =
        (m1, refl, found-Holds none rest f)
    taken-Holds pos small_align small_size (some (node, start)) rest t f shorter =
        let fits =
          alloc_from_region-Fits node size align start pos small_align small_size t.limited
            t.serves in
        let alloc_end = align_up (start + size) 8 in
        elim (Bool-cases (leb 16 (end_address node - alloc_end))) [
          | inl split ↦
              let (m', ran, h) = split-Holds node start rest t fits f shorter (ground arith) in
              rw (f.sized, split) (m', ap (answer start) ran, h)
          | inr whole ↦ rw (f.sized, whole) (m1, refl, found-Holds (some (node, start)) rest f)
        ]

  pub fallback_alloc-Holds :
      (fuel : ℕ) (m : Memory) (head size align : ℕ) (nodes : List ListNode)
      → Chain next_first m (load m (next_at next_first head)) nodes
      → IsFreeList nodes
      → Below (2 ^ 62) nodes
      → 0 < align
      → align ≤ 2 ^ 62
      → size ≤ 2 ^ 62
      → free nodes (next_at next_first head) ≡ false
      → length nodes + 1 < fuel
      → let listed = Allocator.fallback_alloc nodes size align in
        (m' : Memory) × (Nodes.fallback_alloc next_first fuel m head size align
          ≡ some (listed.0, m'))
        × Holds next_first m head nodes listed.1 m'
  unfolding Nodes.fallback_alloc Allocator.fallback_alloc IsFreeList
  fallback_alloc-Holds fuel m head size align nodes chain v l pos small_align small_size outside
        enough =
      let (m1, found, f) =
        find_region-FoundIn next_first size align fuel m head nodes chain
          (free-Clear 1 0 (next_at next_first head) nodes outside v) (Regions-Spaced 1 0 nodes v)
          (omega arith) in
      let (m', ran, h) =
        taken-Holds fuel m m1 head size align nodes chain v outside enough pos small_align
          small_size (Allocator.find_region nodes size align).0
          (Allocator.find_region nodes size align).1 (find_region-TakenIf nodes 0 size align v l) f
          (length-find_region nodes size align) in
      (m', ap (Nodes.take_region next_first fuel head size) found ∙ ran, h)
