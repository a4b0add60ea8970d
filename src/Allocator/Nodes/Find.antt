-- ===== src/Allocator/Nodes/Find.antt =====
-- The loop that looks for a region and takes it out.
use mathlib.Core.Path.{subst}
use alilu_os.Common.{
  ℕ, zero, suc, ◌+◌, ◌<◌, ◌≡◌, refl, sym, ap, ap₂, ◌∙◌, Bool, Option, some, none, List, [], ◌∷◌,
  arith, length, Option-cases, inl, inr,
}
use alilu_os.Allocator
use alilu_os.Allocator.{ListNode, alloc_from_region}
use alilu_os.Allocator.Blocks.{find_region_here, find_region_later}
use alilu_os.Allocator.Nodes.{load, Memory, store, next_at, size_at, node_at, find_region}
use alilu_os.Allocator.Nodes.Chain.{
  Clear, Spaced, Spaced-Clear, Spaced-mono, Chain, Chain-store, Still,
}

-- A region that was found, by its address.
abbrev pub address_of : Option (ListNode × ℕ) → Option (ℕ × ℕ)
address_of none = none
address_of (some (n, start)) = some (n.start_address, start)

module _ (next_first : Bool) where
  -- The region that was taken out still has its size in memory.
  abbrev pub HasSize : Memory → Option (ListNode × ℕ) → Type 0
  HasSize m none = Unit
  HasSize m (some (n, _)) = load m (size_at next_first n.start_address) ≡ n.size

  pub record FoundIn (m : Memory) (current : ℕ) (nodes : List ListNode)
      (answer : Option (ListNode × ℕ) × List ListNode) (m' : Memory) : Type 0 where
    pub chain : Chain next_first m' (load m' (next_at next_first current)) answer.1
    pub still : Still next_first m m' current nodes
    pub sized : HasSize m' answer.0

  find_here :
      (fuel : ℕ) (m : Memory) (current size align start : ℕ)
      → let next = load m (next_at next_first current) in
        0 < next
        → alloc_from_region (node_at next_first m next) size align ≡ some start
        → find_region next_first (suc fuel) m current size align
          ≡ some (
            some (next, start),
            store m (next_at next_first current) (load m (next_at next_first next)),
          )
  unfolding find_region
  find_here fuel m current size align start pos serves = ground arith

  find_later :
      (fuel : ℕ) (m : Memory) (current size align : ℕ)
      → let next = load m (next_at next_first current) in
        0 < next
        → alloc_from_region (node_at next_first m next) size align ≡ none
        → find_region next_first (suc fuel) m current size align
          ≡ find_region next_first fuel m next size align
  unfolding find_region
  find_later fuel m current size align pos serves = ground arith

  -- The first region serves.
  unlinked :
      (m : Memory) (current size align start : ℕ) (n : ListNode) (nodes : List ListNode)
      → Chain next_first m (load m (next_at next_first current)) (n ∷ nodes)
      → Clear (next_at next_first current) (n ∷ nodes)
      → FoundIn m current
          (n ∷ nodes)
          (some (n, start), nodes)
          (store m (next_at next_first current) (load m (next_at next_first n.start_address)))
  unlinked m current size align start n nodes chain clear = record {
    chain =
        Chain-store next_first m (next_at next_first current) _ nodes _ _ (ground arith) clear.1
          chain.3;
    still = λ x a b. ground arith;
    sized = ground arith;
  }

  -- A later one serves, or none.
  passed :
      (m m' : Memory) (current : ℕ) (n : ListNode) (nodes : List ListNode)
      (answer : Option (ListNode × ℕ) × List ListNode)
      → Chain next_first m (load m (next_at next_first current)) (n ∷ nodes)
      → Clear (next_at next_first current) (n ∷ nodes)
      → Spaced 0 (n ∷ nodes)
      → FoundIn m n.start_address nodes answer m'
      → FoundIn m current (n ∷ nodes) (answer.0, n ∷ answer.1) m'
  passed m m' current n nodes answer chain clear spaced f =
      let same : load m' (next_at next_first current) ≡ n.start_address =
        f.still (next_at next_first current) (ground arith) clear.1 ∙ chain.0 in
      let size_same : load m' (size_at next_first n.start_address) ≡ n.size =
        f.still (size_at next_first n.start_address) (ground arith)
          (Spaced-Clear (n.start_address + 16) _ nodes (ground arith) spaced.1)
        ∙ chain.2 in
      record {
        chain = (same, ground arith, size_same, f.chain);
        still = λ x a b. f.still x (ground arith) b.1;
        sized = f.sized;
      }

  -- In memory the loop finds what it finds in the list.
  pub find_region-FoundIn :
      (size align fuel : ℕ) (m : Memory) (current : ℕ) (nodes : List ListNode)
      → Chain next_first m (load m (next_at next_first current)) nodes
      → Clear (next_at next_first current) nodes
      → Spaced 0 nodes
      → length nodes < fuel
      → (m' : Memory) × (find_region next_first fuel m current size align
          ≡ some (address_of (Allocator.find_region nodes size align).0, m'))
        × FoundIn m current nodes (Allocator.find_region nodes size align) m'
  find_region-FoundIn size align zero m current nodes chain clear spaced enough =
      absurd (omega arith)
  find_region-FoundIn size align (suc fuel) m current [] chain clear spaced enough =
      unfold find_region in
      unfold Allocator.find_region in
      (m, ground arith, record { chain = chain; still = λ x a b. refl; sized = tt })
  find_region-FoundIn size align (suc fuel) m current (n ∷ nodes) chain clear spaced enough =
      let at : load m (next_at next_first current) ≡ n.start_address = chain.0 in
      let node : node_at next_first m (load m (next_at next_first current)) ≡ n =
        ap₂ (λ p s. record { start_address = p; size = s }) at
          (ap (λ k. load m (size_at next_first k)) at ∙ chain.2) in
      elim (Option-cases (alloc_from_region n size align)) [
        | inl refused ↦
            let (m', ran, f) =
              find_region-FoundIn size align fuel m n.start_address nodes chain.3
                (Spaced-Clear (n.start_address + 16) _ nodes (ground arith) spaced.1)
                (Spaced-mono (n.start_address + 16) 0 nodes (omega arith) spaced.1) (omega arith) in
            let listed = find_region_later n nodes size align refused in
            (
              m',
              find_later fuel m current size align chain.1
                    (ap (λ k. alloc_from_region k size align) node ∙ refused)
                  ∙ ap (λ k. find_region next_first fuel m k size align) at
                  ∙ ran
                  ∙ ap (λ a. some (address_of a.0, m')) (sym listed),
              subst (λ a. FoundIn m current (n ∷ nodes) a m') (sym listed)
                  (passed m m' current n nodes (Allocator.find_region nodes size align) chain clear
                    spaced f),
            )
        | inr (start, serves) ↦
            let m' =
              store m (next_at next_first current) (load m (next_at next_first n.start_address)) in
            let listed = find_region_here n nodes size align start serves in
            (
              m',
              find_here fuel m current size align start chain.1
                    (ap (λ k. alloc_from_region k size align) node ∙ serves)
                  ∙ ap
                      (λ k. some (
                        some (k, start),
                        store m (next_at next_first current) (load m (next_at next_first k)),
                      ))
                      at
                  ∙ ap (λ a. some (address_of a.0, m')) (sym listed),
              subst (λ a. FoundIn m current (n ∷ nodes) a m') (sym listed)
                  (unlinked m current size align start n nodes chain clear),
            )
      ]
