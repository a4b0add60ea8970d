-- ===== src/Allocator/Blocks.antt =====
-- What the fallback allocator hands out: bytes that were free and are free no longer.
use mathlib.Core.Path.{subst}
use alilu_os.Common.{ℕ, ◌+◌, ◌-◌, ◌%◌, ◌^◌, ◌≤◌, ◌<◌, ◌≡◌, refl, sym, ap, true, false, ◌||◌}
use alilu_os.Common.{
  List, [], ◌∷◌, Option, none, some, arith, leb, Bool-cases, Option-cases, inl, inr,
}
use alilu_os.Allocator.{
  ListNode, end_address, align_up, alloc_from_region, find_region, take_region, fallback_alloc,
  add_free_region,
}
use alilu_os.Allocator.Align.{align_up-least}
use alilu_os.Allocator.Regions.{
  inside, free, Regions, IsFreeList, align_up-8, free-add_free_region, add_free_region-IsFreeList,
}

-- The list lies below `limit`.
abbrev pub Below : ℕ → List ListNode → Type 0
Below limit [] = Unit
Below limit (n ∷ nodes) = (end_address n ≤ limit) × Below limit nodes

not_free :
    (nodes : List ListNode) (low x : ℕ) → x < low → Regions 1 low nodes → free nodes x ≡ false
unfolding free
not_free [] low x h v = refl
not_free (n ∷ nodes) low x h (a, b, c, v) =
    ground (arith, not_free nodes (end_address n + 1) x (omega arith) v)

Regions-lower :
    (nodes : List ListNode) {low : ℕ} (low' : ℕ)
    → low' ≤ low
    → Regions 1 low nodes
    → Regions 1 low' nodes
Regions-lower [] low' h v = tt
Regions-lower (n ∷ nodes) low' h (a, b, c, v) = (omega arith, b, c, v)

-- What `find_region` took: a region that serves, and the list without it.
pub record Taken (nodes : List ListNode) (low size align : ℕ) (node : ListNode) (start : ℕ)
    (rest : List ListNode) : Type 0 where
  pub serves : alloc_from_region node size align ≡ some start
  pub bytes : (x : ℕ) → free nodes x ≡ (inside node x || free rest x)
  pub apart : (x : ℕ) → inside node x ≡ true → free rest x ≡ false
  pub ordered : Regions 1 low rest
  pub limited : end_address node ≤ 2 ^ 62

pub find_region_here :
    (n : ListNode) (nodes : List ListNode) (size align start : ℕ)
    → alloc_from_region n size align ≡ some start
    → find_region (n ∷ nodes) size align ≡ (some (n, start), nodes)
unfolding find_region
find_region_here n nodes size align start h = ground arith

pub find_region_later :
    (n : ListNode) (nodes : List ListNode) (size align : ℕ)
    → alloc_from_region n size align ≡ none
    → find_region (n ∷ nodes) size align
      ≡ ((find_region nodes size align).0, n ∷ (find_region nodes size align).1)
unfolding find_region
find_region_later n nodes size align h = ground arith

-- `find_region` answers with a region that serves, taken out of the list, or leaves the list.
unfoldable pub TakenIf :
    List ListNode → (low size align : ℕ) → Option (ListNode × ℕ) × List ListNode → Type 0
TakenIf nodes low size align (none, rest) = rest ≡ nodes
TakenIf nodes low size align (some (node, start), rest) = Taken nodes low size align node start rest

taken_later :
    (n : ListNode) (nodes : List ListNode) (low size align : ℕ)
    → Regions 1 low (n ∷ nodes)
    → (found : Option (ListNode × ℕ) × List ListNode)
    → TakenIf nodes (end_address n + 1) size align found
    → TakenIf (n ∷ nodes) low size align (found.0, n ∷ found.1)
unfolding TakenIf free
taken_later n nodes low size align v (none, rest) t = ap (λ r. n ∷ r) t
taken_later n nodes low size align (a, b, c, v) (some (node, start), rest) t = record {
  serves = t.serves;
  bytes = λ x. ground (arith, t.bytes x);
  apart = λ x i. ground (arith, t.bytes x, t.apart x, not_free nodes (end_address n + 1) x);
  ordered = (a, b, c, t.ordered);
  limited = t.limited;
}

pub find_region-TakenIf :
    (nodes : List ListNode) (low size align : ℕ)
    → Regions 1 low nodes
    → Below (2 ^ 62) nodes
    → TakenIf nodes low size align (find_region nodes size align)
unfolding find_region TakenIf free
find_region-TakenIf [] low size align v l = refl
find_region-TakenIf (n ∷ nodes) low size align (a, b, c, v) (l, ls) =
    elim (Option-cases (alloc_from_region n size align)) [
      | inl refused ↦
          subst (TakenIf (n ∷ nodes) low size align)
            (sym (find_region_later n nodes size align refused))
            (taken_later n nodes low size align (a, b, c, v) _
              (find_region-TakenIf nodes (end_address n + 1) size align v ls))
      | inr (start, serves) ↦
          subst (TakenIf (n ∷ nodes) low size align)
            (sym (find_region_here n nodes size align start serves))
            record {
              serves = serves;
              bytes = λ x. refl;
              apart = λ x i. not_free nodes (end_address n + 1) x (ground arith) v;
              ordered = Regions-lower nodes low (omega arith) v;
              limited = l;
            }
    ]

-- What a block of `size` bytes at `start` takes from a list: bytes that were free and are free no
-- longer, at a multiple of the alignment, and the list stays in order.
pub record Allocated (nodes : List ListNode) (size align start : ℕ) (nodes' : List ListNode)
    : Type 0 where
  pub aligned : start % align ≡ 0
  pub was_free : (x : ℕ) → start ≤ x → x < start + size → free nodes x ≡ true
  pub not_free_now : (x : ℕ) → start ≤ x → x < start + size → free nodes' x ≡ false
  pub nothing_else : (x : ℕ) → free nodes' x ≡ true → free nodes x ≡ true
  pub ordered : IsFreeList nodes'

unfoldable pub AllocatedIf : List ListNode → (size align : ℕ) → Option ℕ × List ListNode → Type 0
AllocatedIf nodes size align (none, nodes') = nodes' ≡ nodes
AllocatedIf nodes size align (some start, nodes') = Allocated nodes size align start nodes'

-- What `alloc_from_region` checked of the block's bounds.
pub record Fits (node : ListNode) (size align start : ℕ) : Type 0 where
  pub aligned : start % align ≡ 0
  pub begins : node.start_address ≤ start
  pub ends : align_up (start + size) 8 ≤ end_address node
  pub rounded : start + size ≤ align_up (start + size) 8

pub alloc_from_region-Fits :
    (node : ListNode) (size align start : ℕ)
    → 0 < align
    → align ≤ 2 ^ 62
    → size ≤ 2 ^ 62
    → end_address node ≤ 2 ^ 62
    → alloc_from_region node size align ≡ some start
    → Fits node size align start
unfolding alloc_from_region
alloc_from_region-Fits node size align start pos small_align small_size limit h = record {
  aligned = ground (arith, align_up-least node.start_address align pos);
  begins = ground (arith, align_up-least node.start_address align pos);
  ends = ground arith;
  rounded = ground (
    arith,
    align_up-least node.start_address align pos,
    align_up-8 (align_up node.start_address align + size),
  );
}

module _ (nodes rest : List ListNode) (node : ListNode) (size align start : ℕ)
    (t : Taken nodes 0 size align node start rest) (f : Fits node size align start) where
  -- Nothing was left to give back.
  whole_region : Allocated nodes size align start rest
  unfolding IsFreeList
  whole_region = record {
    aligned = f.aligned;
    was_free = λ x lo hi. ground (arith, t.bytes x, f.begins, f.ends, f.rounded);
    not_free_now = λ x lo hi. ground (arith, t.apart x, f.begins, f.ends, f.rounded);
    nothing_else = λ x h. ground (arith, t.bytes x);
    ordered = t.ordered;
  }

  -- What lies behind the block was given back.
  split_region : Allocated nodes size align start (
      add_free_region rest
        (align_up (start + size) 8)
        (end_address node - align_up (start + size) 8))
  unfolding IsFreeList
  split_region =
      let alloc_end = align_up (start + size) 8 in
      let given_back = λ (x : ℕ).
        free-add_free_region rest alloc_end (end_address node - alloc_end) x
          (omega (arith, t.limited, f.ends)) in
      record {
        aligned = f.aligned;
        was_free = λ x lo hi. ground (arith, t.bytes x, f.begins, f.ends, f.rounded);
        not_free_now = λ x lo hi. ground (
          arith,
          given_back x,
          t.apart x,
          f.begins,
          f.ends,
          f.rounded,
          t.limited,
          align_up-8 alloc_end,
        );
        nothing_else = λ x h. ground (
          arith,
          given_back x,
          t.bytes x,
          f.begins,
          f.ends,
          f.rounded,
          t.limited,
          align_up-8 alloc_end,
        );
        ordered =
            add_free_region-IsFreeList rest alloc_end (end_address node - alloc_end)
              (omega (arith, t.limited, f.ends))
              (λ x lo hi. ground (arith, t.apart x, f.begins, f.ends, f.rounded)) t.ordered;
      }

-- For an alignment that is not 0, sizes and alignments up to 2 ^ 62 and a list in order below that
-- address: an allocation hands out bytes that were free and are free no longer, at a multiple of
-- the alignment, frees no byte and keeps the list in order; a refused one leaves the list.
pub fallback_alloc-AllocatedIf :
    (nodes : List ListNode) (size align : ℕ)
    → 0 < align
    → align ≤ 2 ^ 62
    → size ≤ 2 ^ 62
    → IsFreeList nodes
    → Below (2 ^ 62) nodes
    → AllocatedIf nodes size align (fallback_alloc nodes size align)
unfolding fallback_alloc IsFreeList TakenIf AllocatedIf take_region
fallback_alloc-AllocatedIf nodes size align pos small_align small_size v l =
    go (find_region nodes size align) (find_region-TakenIf nodes 0 size align v l)
  where
    go :
        (found : Option (ListNode × ℕ) × List ListNode)
        → TakenIf nodes 0 size align found
        → AllocatedIf nodes size align (take_region found.0 found.1 size)
    go (none, rest) t = t
    go (some (node, start), rest) t =
        let f =
          alloc_from_region-Fits node size align start pos small_align small_size t.limited
            t.serves in
        elim (Bool-cases (leb 16 (end_address node - align_up (start + size) 8))) [
          | inl split ↦ rw split (split_region nodes rest node size align start t f)
          | inr whole ↦ rw whole (whole_region nodes rest node size align start t f)
        ]
