-- ===== src/Allocator/Nodes/Pools.antt =====
-- The pools as chains of nodes in memory, beside the free regions.
use alilu_os.Common.{
  ◌/◌, ◌%◌, ℕ, zero, suc, ◌+◌, ◌≤◌, ◌<◌, ◌≡◌, refl, sym, ◌∙◌, Bool, true, List, [], ◌∷◌, arith,
  length, get_or, set,
}
use alilu_os.Allocator.{ListNode, Heap, end_address, block_sizes}
use alilu_os.Allocator.Regions.{free, Regions, IsFreeList}
use alilu_os.Allocator.Owners.{AllAligned, PoolsAligned, class_owners, pool_owners}
use alilu_os.Allocator.Heaps.{heap_owners, IsHeap}
use alilu_os.Allocator.Nodes.{load, Memory, HeapInMemory, next_at, size_at}
use alilu_os.Allocator.Nodes.Chain.{Chain}

-- Sizes with place for a node, whose multiples are multiples of 8.
abbrev pub AllLarge : List ℕ → Type 0
AllLarge [] = Unit
AllLarge (size ∷ sizes) = (16 ≤ size) × ((p : ℕ) → p % size ≡ 0 → p % 8 ≡ 0) × AllLarge sizes

pub block_sizes-AllLarge : AllLarge block_sizes
block_sizes-AllLarge = (
  omega arith,
  (λ p h. omega arith),
  (
    omega arith,
    (λ p h. omega arith),
    (
      omega arith,
      (λ p h. omega arith),
      (
        omega arith,
        (λ p h. omega arith),
        (
          omega arith,
          (λ p h. omega arith),
          (
            omega arith,
            (λ p h. omega arith),
            (omega arith, (λ p h. omega arith), (omega arith, (λ p h. omega arith), tt)),
          ),
        ),
      ),
    ),
  ),
)

pub AllLarge-get :
    (sizes : List ℕ) (i : ℕ)
    → i < length sizes
    → AllLarge sizes
    → (16 ≤ get_or sizes i 0) × ((p : ℕ) → p % get_or sizes i 0 ≡ 0 → p % 8 ≡ 0)
AllLarge-get [] i h v = absurd (omega arith)
AllLarge-get (size ∷ sizes) zero h v = (v.0, v.1)
AllLarge-get (size ∷ sizes) (suc i) h v = AllLarge-get sizes i (omega arith) v.2

-- A word with all its bytes counted.
abbrev pub AllOwned : (ℕ → ℕ) → ℕ → Type 0
AllOwned owners x = (y : ℕ) → y / 8 ≡ x / 8 → 0 < owners y

module _ (next_first : Bool) where
  -- From a pointer on, the memory has the blocks of a pool.
  abbrev pub Pool : Memory → ℕ → List ℕ → Type 0
  Pool m p [] = ◌≡◌ {A = ℕ} p 0
  Pool m p (b ∷ blocks) = (p ≡ b) × (0 < p) × Pool m (load m (next_at next_first b)) blocks

  abbrev pub Pools : Memory → List ℕ → List (List ℕ) → Type 0
  Pools m [] [] = Unit
  Pools m (p ∷ heads) (blocks ∷ pools) = Pool m p blocks × Pools m heads pools
  Pools m _ _ = ⊥

  pub Pools-get :
      (m : Memory) (heads : List ℕ) (pools : List (List ℕ)) (i : ℕ)
      → Pools m heads pools
      → Pool m (get_or heads i 0) (get_or pools i [])
  Pools-get m [] [] i v = refl
  Pools-get m [] (blocks ∷ pools) i v = absurd v
  Pools-get m (p ∷ heads) [] i v = absurd v
  Pools-get m (p ∷ heads) (blocks ∷ pools) zero v = v.0
  Pools-get m (p ∷ heads) (blocks ∷ pools) (suc i) v = Pools-get m heads pools i v.1

  pub Pools-set :
      (m : Memory) (heads : List ℕ) (pools : List (List ℕ)) (i p : ℕ) (blocks : List ℕ)
      → Pool m p blocks
      → Pools m heads pools
      → Pools m (set heads i p) (set pools i blocks)
  Pools-set m [] [] i p blocks new v = tt
  Pools-set m [] (old ∷ pools) i p blocks new v = absurd v
  Pools-set m (q ∷ heads) [] i p blocks new v = absurd v
  Pools-set m (q ∷ heads) (old ∷ pools) zero p blocks new v = (new, v.1)
  Pools-set m (q ∷ heads) (old ∷ pools) (suc i) p blocks new v =
      (v.0, Pools-set m heads pools i p blocks new v.1)

  Pool-kept :
      (m m' : Memory) (size p q : ℕ) (blocks : List ℕ)
      → p ≡ q
      → 16 ≤ size
      → ((x : ℕ) → AllOwned (class_owners size blocks) x → load m' x ≡ load m x)
      → AllAligned size blocks
      → ((p : ℕ) → p % size ≡ 0 → p % 8 ≡ 0)
      → Pool m p blocks
      → Pool m' q blocks
  unfolding class_owners
  Pool-kept m m' size p q [] e large same al eights v = ground arith
  Pool-kept m m' size p q (b ∷ blocks) e large same al eights v = (
    ground arith,
    ground arith,
    Pool-kept m m' size (load m (next_at next_first b)) (load m' (next_at next_first b)) blocks
        (sym (same (next_at next_first b) (λ y h. ground (arith, eights b al.0)))) large
        (λ x h. same x (λ y f. omega (arith, h y f))) al.1 eights v.2,
  )

  -- A memory with the same words in the blocks has the same pools.
  pub Pools-kept :
      (m m' : Memory) (sizes heads : List ℕ) (pools : List (List ℕ))
      → length pools ≤ length sizes
      → AllLarge sizes
      → ((x : ℕ) → AllOwned (pool_owners sizes pools) x → load m' x ≡ load m x)
      → PoolsAligned sizes pools
      → Pools m heads pools
      → Pools m' heads pools
  unfolding pool_owners
  Pools-kept m m' sizes [] [] short large same al v = tt
  Pools-kept m m' sizes [] (blocks ∷ pools) short large same al v = absurd v
  Pools-kept m m' sizes (p ∷ heads) [] short large same al v = absurd v
  Pools-kept m m' [] (p ∷ heads) (blocks ∷ pools) short large same al v = absurd (omega arith)
  Pools-kept m m' (size ∷ sizes) (p ∷ heads) (blocks ∷ pools) short large same al v = (
    Pool-kept m m' size p p blocks refl large.0 (λ x h. same x (λ y f. omega (arith, h y f))) al.0
        large.1 v.0,
    Pools-kept m m' sizes heads pools (omega arith) large.2
        (λ x h. same x (λ y f. omega (arith, h y f))) al.1 v.1,
  )

  -- A memory with the same words in the free regions has the same chain of them.
  pub Chain-kept :
      (m m' : Memory) (low p q : ℕ) (nodes : List ListNode)
      → p ≡ q
      → ((x : ℕ) → ((y : ℕ) → y / 8 ≡ x / 8 → free nodes y ≡ true) → load m' x ≡ load m x)
      → Regions 1 low nodes
      → Chain next_first m p nodes
      → Chain next_first m' q nodes
  unfolding free
  Chain-kept m m' low p q [] e same v c = ground arith
  Chain-kept m m' low p q (n ∷ nodes) e same v c =
      let next = next_at next_first n.start_address in
      (
        ground arith,
        ground arith,
        same (size_at next_first n.start_address) (λ y f. ground arith) ∙ c.2,
        Chain-kept m m' (end_address n + 1) (load m next) (load m' next) nodes
            (sym (same next (λ y f. ground arith))) (λ x h. same x (λ y f. ground (arith, h y f)))
            v.3 c.3,
      )

  -- The lists of a heap as the memory has them, with the list's own node at `head`.
  pub record Stored (head : ℕ) (h : Heap) (a : HeapInMemory) : Type 0 where
    pub regions : Chain next_first a.memory (load a.memory (next_at next_first head)) h.fallback
    pub pools : Pools a.memory a.list_heads h.list_heads

  -- A word that is not in the heap as a whole may be written.
  pub Stored-kept :
      (m' : Memory) (head : ℕ) (h : Heap) (a : HeapInMemory)
      → IsHeap h
      → ((x : ℕ) → AllOwned (heap_owners h) x → load m' x ≡ load a.memory x)
      → load m' (next_at next_first head) ≡ load a.memory (next_at next_first head)
      → Stored head h a
      → Stored head h (record a { memory = m' })
  unfolding IsFreeList
  Stored-kept m' head h a v same front s = record {
    regions =
        Chain-kept a.memory m' 0 (load a.memory (next_at next_first head))
          (load m' (next_at next_first head)) h.fallback (sym front)
          (λ x e. same x (λ y f. ground (arith, e y f))) v.ordered s.regions;
    pools =
        Pools-kept a.memory m' block_sizes a.list_heads h.list_heads (omega (arith, v.pools))
          block_sizes-AllLarge (λ x e. same x (λ y f. omega (arith, e y f))) v.pools_aligned
          s.pools;
  }
