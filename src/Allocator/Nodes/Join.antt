-- ===== src/Allocator/Nodes/Join.antt =====
-- The loop that joins adjacent nodes.
use mathlib.Core.Path.{subst}
use alilu_os.Common.{
  ℕ, zero, suc, ◌+◌, ◌<◌, ◌≡◌, refl, ap, ap₂, ◌∙◌, not, ◌&&◌, Bool, true, false, some, List, [],
  ◌∷◌, arith, ◌==◌, length, Bool-cases, inl, inr,
}
use alilu_os.Allocator.{ListNode, end_address, coalesce, coalesce_at}
use alilu_os.Allocator.Nodes.{load, Memory, store, next_at, size_at, join_nodes, join_loop}
use alilu_os.Allocator.Nodes.Chain.{
  Clear, Spaced, Spaced-Clear, Spaced-mono, Chain, Chain-store, Still,
}

abbrev joined : ListNode → ListNode → ListNode
joined n n' = record n { size = n.size + n'.size }

coalesce_touching :
    (n n' : ListNode) (nodes : List ListNode)
    → (end_address n == n'.start_address) ≡ true
    → coalesce (n ∷ n' ∷ nodes) ≡ coalesce (joined n n' ∷ nodes)
unfolding coalesce coalesce_at
coalesce_touching n n' nodes h = ground arith

coalesce_apart :
    (n n' : ListNode) (nodes : List ListNode)
    → (end_address n == n'.start_address) ≡ false
    → coalesce (n ∷ n' ∷ nodes) ≡ n ∷ coalesce (n' ∷ nodes)
unfolding coalesce coalesce_at
coalesce_apart n n' nodes h = ground arith

module _ (next_first : Bool) where
  pub record Joined (m : Memory) (iter : ℕ) (nodes : List ListNode) (m' : Memory) : Type 0 where
    pub chain : Chain next_first m' (load m' (next_at next_first iter)) (coalesce nodes)
    pub still : Still next_first m m' iter nodes

  join_nodes-Chain :
      (m : Memory) (p : ℕ) (n n' : ListNode) (nodes : List ListNode)
      → Chain next_first m p (n ∷ n' ∷ nodes)
      → Spaced 0 (n ∷ n' ∷ nodes)
      → Chain next_first
          (join_nodes next_first m n.start_address n'.start_address)
          p
          (joined n n' ∷ nodes)
  join_nodes-Chain m p n n' nodes chain spaced =
      let at = n.start_address in
      let m1 =
        store m (size_at next_first at)
          (load m (size_at next_first at) + load m (size_at next_first n'.start_address)) in
      (
        chain.0,
        chain.1,
        ground arith,
        Chain-store next_first m1 (next_at next_first at) _ nodes _ _ (ground arith)
            (Spaced-Clear (n'.start_address + 16) _ nodes (ground arith) spaced.1.1)
            (Chain-store next_first m (size_at next_first at) _ nodes _ _ refl
              (Spaced-Clear (n'.start_address + 16) _ nodes (ground arith) spaced.1.1) chain.3.3),
      )

  -- One round, by what it reads.
  join_touching :
      (fuel : ℕ) (m : Memory) (iter : ℕ)
      → let curr = load m (next_at next_first iter) in
        let next = load m (next_at next_first curr) in
        0 < curr
        → 0 < next
        → curr + load m (size_at next_first curr) ≡ next
        → join_loop next_first (suc fuel) m iter
          ≡ join_loop next_first fuel (join_nodes next_first m curr next) iter
  unfolding join_loop
  join_touching fuel m iter curr_is next_is touch = ground arith

  join_apart :
      (fuel : ℕ) (m : Memory) (iter : ℕ)
      → let curr = load m (next_at next_first iter) in
        let next = load m (next_at next_first curr) in
        0 < curr
        → (not (next == 0) && curr + load m (size_at next_first curr) == next) ≡ false
        → join_loop next_first (suc fuel) m iter ≡ join_loop next_first fuel m curr
  unfolding join_loop
  join_apart fuel m iter curr_is apart = ground arith

  -- What follows a node that is not joined.
  step_over :
      (m m' : Memory) (iter : ℕ) (n : ListNode) (nodes : List ListNode)
      → Chain next_first m (load m (next_at next_first iter)) (n ∷ nodes)
      → Clear (next_at next_first iter) (n ∷ nodes)
      → Spaced 0 (n ∷ nodes)
      → coalesce (n ∷ nodes) ≡ n ∷ coalesce nodes
      → Joined m n.start_address nodes m'
      → Joined m iter (n ∷ nodes) m'
  step_over m m' iter n nodes chain clear spaced split j =
      let same : load m' (next_at next_first iter) ≡ n.start_address =
        j.still (next_at next_first iter) (ground arith) clear.1 ∙ chain.0 in
      let size_same : load m' (size_at next_first n.start_address) ≡ n.size =
        j.still (size_at next_first n.start_address) (ground arith)
          (Spaced-Clear (n.start_address + 16) _ nodes (ground arith) spaced.1)
        ∙ chain.2 in
      record {
        chain = rw split (same, ground arith, size_same, j.chain);
        still = λ x a b. j.still x (ground arith) b.1;
      }

  pub join_loop-Joined :
      (fuel : ℕ) (m : Memory) (iter : ℕ) (nodes : List ListNode)
      → Chain next_first m (load m (next_at next_first iter)) nodes
      → Clear (next_at next_first iter) nodes
      → Spaced 0 nodes
      → length nodes < fuel
      → (m' : Memory) × (join_loop next_first fuel m iter ≡ some m') × Joined m iter nodes m'
  unfolding join_loop coalesce coalesce_at
  join_loop-Joined zero m iter nodes chain clear spaced enough = absurd (omega arith)
  join_loop-Joined (suc fuel) m iter [] chain clear spaced enough =
      (m, ground arith, record { chain = chain; still = λ x a b. refl })
  join_loop-Joined (suc fuel) m iter (n ∷ []) chain clear spaced enough =
      let at : load m (next_at next_first iter) ≡ n.start_address = chain.0 in
      let (m', ran, j) = join_loop-Joined fuel m n.start_address [] chain.3 tt tt (omega arith) in
      (
        m',
        join_apart fuel m iter chain.1 (ground (arith, ap (λ k. load m (next_at next_first k)) at))
            ∙ ap (λ k. join_loop next_first fuel m k) at
            ∙ ran,
        step_over m m' iter n [] chain clear spaced refl j,
      )
  join_loop-Joined (suc fuel) m iter (n ∷ n' ∷ nodes) chain clear spaced enough =
      let at : load m (next_at next_first iter) ≡ n.start_address = chain.0 in
      let next : load m (next_at next_first (load m (next_at next_first iter))) ≡ n'.start_address =
        ap (λ k. load m (next_at next_first k)) at ∙ chain.3.0 in
      let size : load m (size_at next_first (load m (next_at next_first iter))) ≡ n.size =
        ap (λ k. load m (size_at next_first k)) at ∙ chain.2 in
      elim (Bool-cases (end_address n == n'.start_address)) [
        | inl touch ↦
            let m1 = join_nodes next_first m n.start_address n'.start_address in
            let front : load m (next_at next_first iter) ≡ load m1 (next_at next_first iter) =
              ground arith in
            let (m', ran, j) =
              join_loop-Joined fuel m1 iter (joined n n' ∷ nodes)
                (subst (λ k. Chain next_first m1 k (joined n n' ∷ nodes)) front
                  (join_nodes-Chain m _ n n' nodes chain spaced))
                (clear.0, clear.1.1)
                (omega arith, Spaced-mono (n'.start_address + 16) _ nodes (omega arith) spaced.1.1)
                (omega arith) in
            (
              m',
              join_touching fuel m iter chain.1 (ground arith) (ground arith)
                  ∙ ap₂ (λ k l. join_loop next_first fuel (join_nodes next_first m k l) iter) at
                      next
                  ∙ ran,
              record {
                chain = rw (coalesce_touching n n' nodes touch) j.chain;
                still = λ x a b. j.still x a (b.0, b.1.1) ∙ ground arith;
              },
            )
        | inr apart ↦
            let (m', ran, j) =
              join_loop-Joined fuel m n.start_address (n' ∷ nodes) chain.3
                (Spaced-Clear (n.start_address + 16) _ (n' ∷ nodes) (ground arith) spaced.1)
                (omega arith, spaced.1.1) (omega arith) in
            (
              m',
              join_apart fuel m iter chain.1 (ground arith)
                  ∙ ap (λ k. join_loop next_first fuel m k) at
                  ∙ ran,
              step_over m m' iter n (n' ∷ nodes) chain clear spaced
                  (coalesce_apart n n' nodes apart) j,
            )
      ]
