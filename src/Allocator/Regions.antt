-- ===== src/Allocator/Regions.antt =====
-- The free list of the fallback allocator: which bytes it holds, and its order.
use alilu_os.Common.{ℕ, ◌+◌, ◌-◌, ◌%◌, ◌^◌, ◌≤◌, ◌<◌, ◌≡◌, refl, sym, Bool, true, false, ◌&&◌, ◌||◌}
use alilu_os.Common.{List, [], ◌∷◌, arith, ◌==◌, ltb, leb, Bool-cases, inl, inr}
use mathlib.Core.Path.{subst}
use alilu_os.Allocator.{
  ListNode, end_address, node_size, node_align, align_up, insert, coalesce_at, coalesce,
  add_free_region,
}

-- Whether a byte lies in a region, and in a region of the list.
abbrev pub inside : ListNode → ℕ → Bool
inside n x = leb n.start_address x && ltb x (end_address n)

unfoldable pub free : List ListNode → ℕ → Bool
free [] x = false
free (n ∷ nodes) x = inside n x || free nodes x

pub free-insert :
    (n : ListNode) (nodes : List ListNode) (x : ℕ)
    → free (insert n nodes) x ≡ (inside n x || free nodes x)
unfolding insert free
free-insert n [] x = refl
free-insert n (m ∷ nodes) x = ground (arith, free-insert n nodes x)

free-coalesce_at :
    (n : ListNode) (nodes : List ListNode) (x : ℕ)
    → free (coalesce_at n nodes) x ≡ (inside n x || free nodes x)
unfolding coalesce_at free
free-coalesce_at n [] x = refl
free-coalesce_at n (m ∷ nodes) x = ground (
  arith,
  free-coalesce_at m nodes x,
  free-coalesce_at (record n { size = n.size + m.size }) nodes x,
)

pub free-coalesce : (nodes : List ListNode) (x : ℕ) → free (coalesce nodes) x ≡ free nodes x
unfolding coalesce free
free-coalesce [] x = refl
free-coalesce (n ∷ nodes) x = free-coalesce_at n nodes x

-- The bytes of a range that the list can take: from the next multiple of 8, where 16 are left.
abbrev pub usable : (addr size x : ℕ) → Bool
usable addr size x =
    let start = align_up addr node_align in
    leb (start + node_size) (addr + size) && leb start x && ltb x (addr + size)

pub align_up-8 :
    (addr : ℕ)
    → addr + 8 ≤ 2 ^ 64
    → (addr ≤ align_up addr 8) × (align_up addr 8 < addr + 8) × (align_up addr 8 % 8 ≡ 0)
unfolding align_up
align_up-8 addr h = ground arith

-- A range given back adds the bytes from its next multiple of 8 on to the free ones, where it has
-- at least 16 of them, and no other byte.
pub free-add_free_region :
    (nodes : List ListNode) (addr size x : ℕ)
    → addr + 8 ≤ 2 ^ 64
    → free (add_free_region nodes addr size) x ≡ (usable addr size x || free nodes x)
unfolding add_free_region free
free-add_free_region nodes addr size x h =
    let start = align_up addr 8 in
    let node : ListNode = record { start_address = start; size = size - (start - addr) } in
    ground (arith, align_up-8 addr h, free-coalesce (insert node nodes) x, free-insert node nodes x)

-- The regions from `low` on: in order, at least `gap` apart, each aligned and of at least 16 bytes.
abbrev pub Regions : (gap low : ℕ) → List ListNode → Type 0
Regions gap low [] = Unit
Regions gap low (n ∷ nodes) =
    (low ≤ n.start_address)
    × (n.start_address % 8 ≡ 0)
    × (16 ≤ n.size)
    × Regions gap (end_address n + gap) nodes

-- No two regions touch.
unfoldable pub IsFreeList : List ListNode → Type 0
IsFreeList = Regions 1 0

pub Regions-closer :
    (nodes : List ListNode) {low : ℕ} (low' : ℕ)
    → low' ≤ low
    → Regions 1 low nodes
    → Regions 0 low' nodes
Regions-closer [] low' h v = tt
Regions-closer (n ∷ nodes) low' h (a, b, c, v) =
    (omega arith, b, c, Regions-closer nodes (end_address n + 0) (omega arith) v)

-- A region apart from those of a list.
abbrev pub Apart : ListNode → List ListNode → Type 0
Apart n nodes = (x : ℕ) → inside n x ≡ true → free nodes x ≡ false

pub insert-Regions :
    (n : ListNode) (nodes : List ListNode) (low : ℕ)
    → low ≤ n.start_address
    → n.start_address % 8 ≡ 0
    → 16 ≤ n.size
    → Apart n nodes
    → Regions 0 low nodes
    → Regions 0 low (insert n nodes)
unfolding insert free
insert-Regions n [] low h1 h2 h3 apart v = (h1, h2, h3, tt)
insert-Regions n (m ∷ nodes) low h1 h2 h3 apart (a, b, c, v) =
    elim (Bool-cases (ltb n.start_address m.start_address)) [
      | inl before ↦ rw before (h1, h2, h3, (ground (arith, apart m.start_address), b, c, v))
      | inr after ↦ rw after (
        a,
        b,
        c,
        insert-Regions n nodes (end_address m + 0) (ground (arith, apart n.start_address)) h2 h3
            (λ x i. ground (arith, apart x)) v,
      )
    ]

coalesce_at_joined :
    (n m : ListNode) (nodes : List ListNode)
    → (end_address n == m.start_address) ≡ true
    → coalesce_at n (m ∷ nodes) ≡ coalesce_at (record n { size = n.size + m.size }) nodes
unfolding coalesce_at
coalesce_at_joined n m nodes h = ground arith

coalesce_at_apart :
    (n m : ListNode) (nodes : List ListNode)
    → (end_address n == m.start_address) ≡ false
    → coalesce_at n (m ∷ nodes) ≡ n ∷ coalesce_at m nodes
unfolding coalesce_at
coalesce_at_apart n m nodes h = ground arith

coalesce_at-Regions :
    (n : ListNode) (nodes : List ListNode) (low : ℕ)
    → Regions 0 low (n ∷ nodes)
    → Regions 1 low (coalesce_at n nodes)
unfolding coalesce_at
coalesce_at-Regions n [] low (a, b, c, v) = (a, b, c, tt)
coalesce_at-Regions n (m ∷ nodes) low (a, b, c, (d, e, f, v)) =
    let together = coalesce_at-Regions (record n { size = n.size + m.size }) nodes low in
    let later = coalesce_at-Regions m nodes (end_address n + 1) in
    elim (Bool-cases (end_address n == m.start_address)) [
      | inl t ↦
          let tail_at : end_address m + 0 ≡ n.start_address + (n.size + m.size) + 0 =
            ground arith in
          subst (Regions 1 low) (sym (coalesce_at_joined n m nodes t))
            (together (a, b, omega arith, subst (λ k. Regions 0 k nodes) tail_at v))
      | inr t ↦
          subst (Regions 1 low) (sym (coalesce_at_apart n m nodes t))
            (a, b, c, later (ground arith, e, f, v))
    ]

coalesce-IsFreeList : (nodes : List ListNode) → Regions 0 0 nodes → IsFreeList (coalesce nodes)
unfolding coalesce IsFreeList
coalesce-IsFreeList [] v = tt
coalesce-IsFreeList (n ∷ nodes) v = coalesce_at-Regions n nodes 0 v

-- A range given back that has no free byte yet leaves the list in order, with no two regions
-- touching.
pub add_free_region-IsFreeList :
    (nodes : List ListNode) (addr size : ℕ)
    → addr + 8 ≤ 2 ^ 64
    → ((x : ℕ) → addr ≤ x → x < addr + size → free nodes x ≡ false)
    → IsFreeList nodes
    → IsFreeList (add_free_region nodes addr size)
unfolding add_free_region IsFreeList
add_free_region-IsFreeList nodes addr size h apart v =
    let start = align_up addr 8 in
    let node : ListNode = record { start_address = start; size = size - (start - addr) } in
    let (ge, lt, aligned) = align_up-8 addr h in
    elim (Bool-cases (leb size (start - addr))) [
      | inl small ↦ rw small v
      | inr some_left ↦ elim (Bool-cases (ltb (size - (start - addr)) 16)) [
        | inl small ↦ rw (some_left, small) v
        | inr enough ↦
            rw (some_left, enough)
              (coalesce-IsFreeList (insert node nodes) (
                insert-Regions node nodes 0 (omega arith) aligned (ground arith)
                  (λ x i. ground (arith, apart x)) (Regions-closer nodes 0 (omega arith) v)))
      ]
    ]
