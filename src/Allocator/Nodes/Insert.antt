-- ===== src/Allocator/Nodes/Insert.antt =====
-- The loop that looks for a new node's place, and the node put there.
use alilu_os.Common.{
  ap, ◌==◌, if◌then◌else◌, ℕ, zero, suc, ◌+◌, ◌<◌, ◌≡◌, refl, ◌∙◌, Bool, true, false, ◌||◌, some,
  List, [], ◌∷◌, arith, ltb, leb, length, Bool-cases, inl, inr,
}
use alilu_os.Allocator.{ListNode, insert}
use alilu_os.Allocator.Nodes.{load, Memory, store, next_at, size_at, find_place, link_node}
use alilu_os.Allocator.Nodes.Chain.{off, Clear, Spaced, Spaced-Clear, Chain, Chain-store, Kept}

-- A node whose 16 bytes overlap none of a list's.
abbrev pub Beside : ℕ → List ListNode → Type 0
Beside p [] = Unit
Beside p (n ∷ nodes) =
    ((leb (p + 16) n.start_address || leb (n.start_address + 16) p) ≡ true) × Beside p nodes

pub Beside-Clear :
    (p x : ℕ) (nodes : List ListNode) → Beside p nodes → off p x ≡ false → Clear x nodes
Beside-Clear p x [] b h = tt
Beside-Clear p x (n ∷ nodes) b h = (ground arith, Beside-Clear p x nodes b.1 h)

module _ (next_first : Bool) (new : ListNode) where
  -- The place `c` for a new node.
  pub record Placed (m : Memory) (current : ℕ) (nodes : List ListNode) (c : ℕ) : Type 0 where
    pub chain :
        Chain next_first
          (link_node next_first m c new.start_address)
          (load (link_node next_first m c new.start_address) (next_at next_first current))
          (insert new nodes)
    pub kept :
        Kept next_first m
          (link_node next_first m c new.start_address)
          current
          new.start_address
          nodes

  insert_here :
      (nodes : List ListNode) (n : ListNode)
      → ltb new.start_address n.start_address ≡ true
      → insert new (n ∷ nodes) ≡ new ∷ n ∷ nodes
  unfolding insert
  insert_here nodes n h = ground arith

  insert_later :
      (nodes : List ListNode) (n : ListNode)
      → ltb new.start_address n.start_address ≡ false
      → insert new (n ∷ nodes) ≡ n ∷ insert new nodes
  unfolding insert
  insert_later nodes n h = ground arith

  place_front :
      (m : Memory) (current : ℕ) (nodes : List ListNode)
      → Chain next_first m (load m (next_at next_first current)) nodes
      → 0 < new.start_address
      → load m (size_at next_first new.start_address) ≡ new.size
      → off new.start_address (next_at next_first current) ≡ true
      → Clear (next_at next_first current) nodes
      → Beside new.start_address nodes
      → Chain next_first
          (link_node next_first m current new.start_address)
          (load (link_node next_first m current new.start_address) (next_at next_first current))
          (new ∷ nodes)
  place_front m current nodes chain pos size apart clear beside =
      let p = new.start_address in
      let m1 = store m (next_at next_first p) (load m (next_at next_first current)) in
      (
        ground arith,
        ground arith,
        ground arith,
        Chain-store next_first m1 (next_at next_first current) p nodes _ _ (ground arith) clear (
            Chain-store next_first m (next_at next_first p) _ nodes _ _ refl
              (Beside-Clear p (next_at next_first p) nodes beside (ground arith)) chain),
      )

  -- The search goes on behind a node in front of the new one.
  find_place_later :
      (fuel : ℕ) (m : Memory) (current : ℕ) (n : ListNode)
      → load m (next_at next_first current) ≡ n.start_address
      → 0 < n.start_address
      → ltb new.start_address n.start_address ≡ false
      → find_place next_first (suc fuel) m current new.start_address
        ≡ find_place next_first fuel m n.start_address new.start_address
  unfolding find_place
  find_place_later fuel m current n at some_node behind =
      let next = load m (next_at next_first current) in
      let goes_on : (next == 0 || ltb new.start_address next) ≡ false = ground arith in
      ap (λ b. if b then some current else find_place next_first fuel m next new.start_address)
        goes_on
      ∙ ap (λ k. find_place next_first fuel m k new.start_address) at

  pub find_place-Placed :
      (fuel low : ℕ) (m : Memory) (current : ℕ) (nodes : List ListNode)
      → Chain next_first m (load m (next_at next_first current)) nodes
      → 0 < new.start_address
      → load m (size_at next_first new.start_address) ≡ new.size
      → off new.start_address (next_at next_first current) ≡ true
      → Clear (next_at next_first current) nodes
      → Spaced low nodes
      → Beside new.start_address nodes
      → length nodes < fuel
      → (c : ℕ) × (find_place next_first fuel m current new.start_address ≡ some c)
        × Placed m current nodes c
  unfolding find_place insert
  find_place-Placed zero low m current nodes chain pos size apart clear spaced beside enough =
      absurd (omega arith)
  find_place-Placed (suc fuel) low m current [] chain pos size apart clear spaced beside enough =
      (current, ground arith, record { chain = ground arith; kept = λ x a b c. ground arith })
  find_place-Placed (suc fuel) low m current (n ∷ nodes) chain pos size apart clear spaced beside
        enough =
      elim (Bool-cases (ltb new.start_address n.start_address)) [
        | inl before ↦ (
          current,
          ground arith,
          record {
            chain =
                rw (insert_here nodes n before)
                  (place_front m current (n ∷ nodes) chain pos size apart clear beside);
            kept = λ x a b c. ground arith;
          },
        )
        | inr behind ↦
            let (c, found, p) =
              find_place-Placed fuel (n.start_address + 16) m n.start_address nodes chain.3 pos size
                (ground arith) (Spaced-Clear (n.start_address + 16) _ nodes (ground arith) spaced.1)
                spaced.1 beside.1 (omega arith) in
            let m' = link_node next_first m c new.start_address in
            let same : load m' (next_at next_first current) ≡ n.start_address =
              p.kept (next_at next_first current) (ground arith) clear.1 apart ∙ chain.0 in
            let size_same : load m' (size_at next_first n.start_address) ≡ n.size =
              p.kept (size_at next_first n.start_address) (ground arith)
                (Spaced-Clear (n.start_address + 16) _ nodes (ground arith) spaced.1) (ground arith)
              ∙ chain.2 in
            (
              c,
              find_place_later fuel m current n chain.0 (ground arith) behind ∙ found,
              record {
                chain = rw (insert_later nodes n behind) (same, ground arith, size_same, p.chain);
                kept = λ x a b o. p.kept x (ground arith) b.1 o;
              },
            )
      ]
