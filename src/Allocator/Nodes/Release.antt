-- ===== src/Allocator/Nodes/Release.antt =====
-- A range of memory given back, in memory and in the list.
use alilu_os.Common.{
  ◌/◌, ℕ, suc, ◌+◌, ◌-◌, ◌%◌, ◌^◌, ◌≤◌, ◌<◌, ◌≡◌, ◌≢◌, refl, sym, ap, ◌∙◌, Bool, false, ◌||◌, some,
  List, [], ◌∷◌, arith, ltb, leb, length, Bool-cases, inl, inr,
}
use alilu_os.Allocator
use alilu_os.Allocator.{ListNode, end_address, insert, coalesce, align_up}
use alilu_os.Allocator.Regions.{
  inside, free, Regions, IsFreeList, Regions-closer, Apart, insert-Regions, free-insert,
  free-coalesce, align_up-8,
}
use alilu_os.Allocator.Nodes
use alilu_os.Allocator.Nodes.{
  load, Memory, store, next_at, size_at, write_node, link_node, place_node, find_place, join_loop,
}
use alilu_os.Allocator.Nodes.Chain.{off, Clear, Spaced, Spaced-mono, Chain, Chain-store}
use alilu_os.Allocator.Nodes.Insert.{Beside, Beside-Clear, find_place-Placed}
use alilu_os.Allocator.Nodes.Join.{join_loop-Joined}

pub Regions-Spaced :
    (gap low : ℕ) (nodes : List ListNode) → Regions gap low nodes → Spaced low nodes
Regions-Spaced gap low [] v = tt
Regions-Spaced gap low (n ∷ nodes) (a, b, c, v) = (
  a,
  Spaced-mono (n.start_address + n.size + gap) _ nodes (omega arith)
      (Regions-Spaced gap (end_address n + gap) nodes v),
)

-- A byte that is not free is in no node.
pub free-Clear :
    (gap low x : ℕ) (nodes : List ListNode)
    → free nodes x ≡ false
    → Regions gap low nodes
    → Clear x nodes
unfolding free
free-Clear gap low x [] h v = tt
free-Clear gap low x (n ∷ nodes) h (a, b, c, v) =
    (ground arith, free-Clear gap (end_address n + gap) x nodes (ground arith) v)

-- 16 bytes that are not free are beside every node.
free-Beside :
    (gap low p : ℕ) (nodes : List ListNode)
    → p % 8 ≡ 0
    → ((x : ℕ) → off p x ≡ false → free nodes x ≡ false)
    → Regions gap low nodes
    → Beside p nodes
unfolding free
free-Beside gap low p [] al h v = tt
free-Beside gap low p (n ∷ nodes) al h (a, b, c, v) = (
  ground (arith, h p, h n.start_address),
  free-Beside gap (end_address n + gap) p nodes al (λ x e. ground (arith, h x)) v,
)

length-insert :
    (new : ListNode) (nodes : List ListNode) → length (insert new nodes) ≡ suc (length nodes)
unfolding insert
length-insert new [] = refl
length-insert new (n ∷ nodes) = ground (arith, length-insert new nodes)

module _ (next_first : Bool) where
  -- The list in memory behind `head` after a change of `before`: no word that was in use and is, but
  -- the head's, was written.
  pub record Holds (m : Memory) (head : ℕ) (before after : List ListNode) (m' : Memory)
      : Type 0 where
    pub chain : Chain next_first m' (load m' (next_at next_first head)) after
    pub same :
        (x : ℕ)
        → x / 8 ≢ next_at next_first head / 8
        → free before x ≡ false
        → free after x ≡ false
        → load m' x ≡ load m x

  -- A node of free memory put into the list.
  placed-Holds :
      (fuel : ℕ) (m : Memory) (head : ℕ) (new : ListNode) (nodes : List ListNode)
      → let p = new.start_address in
        let written = write_node next_first m p new.size 0 in
        Chain next_first m (load m (next_at next_first head)) nodes
        → IsFreeList nodes
        → 0 < p
        → p % 8 ≡ 0
        → 16 ≤ new.size
        → Apart new nodes
        → free (new ∷ nodes) (next_at next_first head) ≡ false
        → length nodes + 1 < fuel
        → (m' : Memory) × (place_node next_first fuel written head p
              (find_place next_first fuel written head p)
            ≡ some m')
          × Holds m head nodes (coalesce (insert new nodes)) m'
  unfolding free IsFreeList
  placed-Holds fuel m head new nodes chain v pos aligned size apart outside enough =
      let p = new.start_address in
      let front = next_at next_first head in
      let m1 = store m (size_at next_first p) new.size in
      let written = write_node next_first m p new.size 0 in
      let beside = free-Beside 1 0 p nodes aligned (λ x e. apart x (ground arith)) v in
      let kept : load written front ≡ load m front = ground arith in
      let chain1 : Chain next_first written (load written front) nodes =
        Chain-store next_first m1 (next_at next_first p) 0 nodes _ _ (sym kept)
          (Beside-Clear p _ nodes beside (ground arith))
          (Chain-store next_first m (size_at next_first p) new.size nodes _ _ refl
            (Beside-Clear p _ nodes beside (ground arith)) chain) in
      let (c, found, placed) =
        find_place-Placed next_first new fuel 0 written head nodes chain1 pos (ground arith)
          (ground arith) (free-Clear 1 0 front nodes (ground arith) v) (Regions-Spaced 1 0 nodes v)
          beside (omega arith) in
      let ordered =
        insert-Regions new nodes 0 (omega arith) aligned size apart
          (Regions-closer nodes 0 (omega arith) v) in
      let linked = link_node next_first written c p in
      let (m', ran, joined) =
        join_loop-Joined next_first fuel linked head (insert new nodes) placed.chain
          (free-Clear 0 0 front _ (free-insert new nodes front ∙ outside) ordered)
          (Regions-Spaced 0 0 _ ordered) (omega (arith, length-insert new nodes)) in
      (
        m',
        ap (place_node next_first fuel written head p) found ∙ ran,
        record {
          chain = joined.chain;
          same = λ x ne _ e.
              let inserted : free (insert new nodes) x ≡ false =
                sym (free-coalesce (insert new nodes) x) ∙ e in
              let apart_too : (inside new x || free nodes x) ≡ false =
                sym (free-insert new nodes x) ∙ inserted in
              joined.still x ne (free-Clear 0 0 x _ inserted ordered)
              ∙ placed.kept x ne (free-Clear 1 0 x nodes (ground arith) v) (ground arith)
              ∙ ground arith;
        },
      )

  -- In memory a range is given back as it is in the list, and only free words are written.
  pub add_free_region-Holds :
      (fuel : ℕ) (m : Memory) (head addr size : ℕ) (nodes : List ListNode)
      → Chain next_first m (load m (next_at next_first head)) nodes
      → IsFreeList nodes
      → 0 < addr
      → addr + 8 ≤ 2 ^ 64
      → ((x : ℕ) → addr ≤ x → x < addr + size → free nodes x ≡ false)
      → free nodes (next_at next_first head) ≡ false
      → inside (record { start_address = addr; size = size }) (next_at next_first head) ≡ false
      → length nodes + 1 < fuel
      → (m' : Memory) × (Nodes.add_free_region next_first fuel m head addr size ≡ some m')
        × Holds m head nodes (Allocator.add_free_region nodes addr size) m'
  unfolding Allocator.add_free_region Nodes.add_free_region free
  add_free_region-Holds fuel m head addr size nodes chain v pos fits apart outside beyond enough =
      let start = align_up addr 8 in
      let new : ListNode = record { start_address = start; size = size - (start - addr) } in
      let (ge, lt, aligned) = align_up-8 addr fits in
      let unchanged : Holds m head nodes nodes m = record {
        chain = chain;
        same = λ x a b c. refl;
      } in
      elim (Bool-cases (leb size (start - addr))) [
        | inl small ↦ rw small (m, refl, unchanged)
        | inr some_left ↦ elim (Bool-cases (ltb (size - (start - addr)) 16)) [
          | inl small ↦ rw (some_left, small) (m, refl, unchanged)
          | inr large ↦
              rw (some_left, large)
                (placed-Holds fuel m head new nodes chain v (omega arith) aligned (ground arith)
                  (λ x i. ground (arith, apart x)) (ground arith) enough)
        ]
      ]
