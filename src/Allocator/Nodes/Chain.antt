-- ===== src/Allocator/Nodes/Chain.antt =====
-- A list of regions as a chain of nodes in memory.
use alilu_os.Common.{
  ◌/◌, ℕ, ◌+◌, ◌≤◌, ◌<◌, ◌≡◌, ◌≢◌, Bool, true, ◌||◌, List, [], ◌∷◌, arith, ltb, leb,
}
use alilu_os.Allocator.{ListNode}
use alilu_os.Allocator.Nodes.{load, Memory, store, next_at, size_at}

-- An address whose word is none of the two at `p`.
abbrev pub off : ℕ → ℕ → Bool
off p x = ltb (x / 8) (p / 8) || leb (p / 8 + 2) (x / 8)

-- An address whose word is in no node of a list.
abbrev pub Clear : ℕ → List ListNode → Type 0
Clear x [] = Unit
Clear x (n ∷ nodes) = (off n.start_address x ≡ true) × Clear x nodes

-- Nodes from `low` on, in order, whose 16 bytes do not overlap.
abbrev pub Spaced : ℕ → List ListNode → Type 0
Spaced low [] = Unit
Spaced low (n ∷ nodes) = (low ≤ n.start_address) × Spaced (n.start_address + 16) nodes

pub Spaced-Clear :
    (low x : ℕ) (nodes : List ListNode) → x + 8 ≤ low → Spaced low nodes → Clear x nodes
Spaced-Clear low x [] h v = tt
Spaced-Clear low x (n ∷ nodes) h v =
    (ground arith, Spaced-Clear (n.start_address + 16) x nodes (omega arith) v.1)

pub Spaced-mono :
    (low low' : ℕ) (nodes : List ListNode) → low' ≤ low → Spaced low nodes → Spaced low' nodes
Spaced-mono low low' [] h v = tt
Spaced-mono low low' (n ∷ nodes) h v = (omega arith, v.1)

module _ (next_first : Bool) where
  -- From a pointer on, the memory has the nodes of a list.
  abbrev pub Chain : Memory → ℕ → List ListNode → Type 0
  Chain m p [] = ◌≡◌ {A = ℕ} p 0
  Chain m p (n ∷ nodes) =
      (p ≡ n.start_address)
      × (0 < p)
      × (load m (size_at next_first n.start_address) ≡ n.size)
      × Chain m (load m (next_at next_first n.start_address)) nodes

  pub Chain-store :
      (m : Memory) (at value : ℕ) (nodes : List ListNode) (p q : ℕ)
      → p ≡ q
      → Clear at nodes
      → Chain m p nodes
      → Chain (store m at value) q nodes
  Chain-store m at value [] p q h c v = ground arith
  Chain-store m at value (n ∷ nodes) p q h c (e, pos, s, v) = (
    ground arith,
    ground arith,
    ground arith,
    Chain-store m at value nodes _ _ (ground arith) c.1 v,
  )

  -- What a loop that starts at `current` leaves alone, where it may write the node at `p`.
  abbrev pub Kept : Memory → Memory → (current p : ℕ) → List ListNode → Type 0
  Kept m m' current p nodes =
      (x : ℕ)
      → x / 8 ≢ next_at next_first current / 8
      → Clear x nodes
      → off p x ≡ true
      → load m' x ≡ load m x

  -- What a loop over the nodes of the list alone leaves alone.
  abbrev pub Still : Memory → Memory → (current : ℕ) → List ListNode → Type 0
  Still m m' current nodes =
      (x : ℕ) → x / 8 ≢ next_at next_first current / 8 → Clear x nodes → load m' x ≡ load m x
