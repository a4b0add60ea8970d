-- ===== src/Allocator/Owners.antt =====
-- How many blocks hold a byte: those of a list, and those of the pools.
use alilu_os.Common.{
  ℕ, zero, suc, ◌+◌, ◌-◌, ◌%◌, ◌≤◌, ◌<◌, ◌≡◌, Bool, true, false, List, [], ◌∷◌, arith, leb, get_or,
  set, length, some, Option-cases, Bool-cases, inl, inr,
}
use mathlib.Core.Path.{subst}
use alilu_os.Allocator.{ListNode, end_address, position}
use alilu_os.Allocator.Regions.{inside, free, Regions}
use alilu_os.Allocator.Blocks.{Below, Allocated}

abbrev pub one : Bool → ℕ
one true = 1
one false = 0

-- The blocks of a list that hold a byte.
unfoldable pub owners : List ListNode → ℕ → ℕ
owners [] x = 0
owners (b ∷ blocks) x = one (inside b x) + owners blocks x

abbrev pub block_at : (size start : ℕ) → ListNode
block_at size start = record { start_address = start; size = size }

-- The blocks of a pool, and of all pools, that hold a byte.
unfoldable pub class_owners : (size : ℕ) → List ℕ → ℕ → ℕ
class_owners size [] x = 0
class_owners size (p ∷ blocks) x = one (inside (block_at size p) x) + class_owners size blocks x

unfoldable pub pool_owners : List ℕ → List (List ℕ) → ℕ → ℕ
pool_owners (size ∷ sizes) (blocks ∷ heads) x =
    class_owners size blocks x + pool_owners sizes heads x
pool_owners _ _ x = 0

-- A pool that is replaced counts for the new one.
pub pool_owners-set :
    (sizes : List ℕ) (heads : List (List ℕ)) (i : ℕ) (blocks : List ℕ) (x : ℕ)
    → i < length sizes
    → i < length heads
    → pool_owners sizes (set heads i blocks) x
        + class_owners (get_or sizes i 0) (get_or heads i []) x
      ≡ pool_owners sizes heads x + class_owners (get_or sizes i 0) blocks x
unfolding pool_owners
pool_owners-set [] heads i blocks x h g = absurd (omega arith)
pool_owners-set (size ∷ sizes) [] i blocks x h g = absurd (omega arith)
pool_owners-set (size ∷ sizes) (old ∷ heads) zero blocks x h g = omega arith
pool_owners-set (size ∷ sizes) (old ∷ heads) (suc i) blocks x h g =
    omega (arith, pool_owners-set sizes heads i blocks x (omega arith) (omega arith))

-- Every pool's blocks stand at multiples of its size.
abbrev pub AllAligned : (size : ℕ) → List ℕ → Type 0
AllAligned size [] = Unit
AllAligned size (p ∷ blocks) = (p % size ≡ 0) × AllAligned size blocks

abbrev pub PoolsAligned : List ℕ → List (List ℕ) → Type 0
PoolsAligned (size ∷ sizes) (blocks ∷ heads) = AllAligned size blocks × PoolsAligned sizes heads
PoolsAligned _ _ = Unit

pub PoolsAligned-get :
    (sizes : List ℕ) (heads : List (List ℕ)) (i : ℕ)
    → i < length sizes
    → PoolsAligned sizes heads
    → AllAligned (get_or sizes i 0) (get_or heads i [])
PoolsAligned-get [] heads i h v = absurd (omega arith)
PoolsAligned-get (size ∷ sizes) [] i h v = tt
PoolsAligned-get (size ∷ sizes) (blocks ∷ heads) zero h v = v.0
PoolsAligned-get (size ∷ sizes) (blocks ∷ heads) (suc i) h v =
    PoolsAligned-get sizes heads i (omega arith) v.1

pub PoolsAligned-set :
    (sizes : List ℕ) (heads : List (List ℕ)) (i : ℕ) (blocks : List ℕ)
    → AllAligned (get_or sizes i 0) blocks
    → PoolsAligned sizes heads
    → PoolsAligned sizes (set heads i blocks)
PoolsAligned-set [] heads i blocks a v = tt
PoolsAligned-set (size ∷ sizes) [] i blocks a v = v
PoolsAligned-set (size ∷ sizes) (old ∷ heads) zero blocks a v = (a, v.1)
PoolsAligned-set (size ∷ sizes) (old ∷ heads) (suc i) blocks a v =
    (v.0, PoolsAligned-set sizes heads i blocks a v.1)

-- The class of a size: one of them, and not smaller.
pub position-le :
    (sizes : List ℕ) (n i : ℕ)
    → position sizes n ≡ some i
    → (i < length sizes) × (n ≤ get_or sizes i 0)
unfolding position
position-le [] n i h = absurd (ground arith)
position-le (size ∷ sizes) n i h = elim (Bool-cases (leb n size)) [
  | inl fits ↦ ground arith
  | inr large ↦ elim (Option-cases (position sizes n)) [
    | inl none_left ↦ absurd (ground arith)
    | inr (j, later) ↦
        let i_is : suc j ≡ i = ground arith in
        subst (λ k. (k < suc (length sizes)) × (n ≤ get_or (size ∷ sizes) k 0)) i_is
          (ground (arith, position-le sizes n j later))
  ]
]

-- A list whose bytes lie below a limit lies below it.
pub free-Below :
    (nodes : List ListNode) (limit low : ℕ)
    → ((x : ℕ) → free nodes x ≡ true → x < limit)
    → Regions 1 low nodes
    → Below limit nodes
unfolding free
free-Below [] limit low h v = tt
free-Below (n ∷ nodes) limit low h (a, b, c, v) = (
  ground (arith, h (n.start_address + (n.size - 1))),
  free-Below nodes limit (end_address n + 1) (λ x e. h x (ground arith)) v,
)

-- What an allocation of the fallback takes was nobody else's.
pub Allocated-owners :
    {nodes nodes' : List ListNode} {size align start : ℕ} (x : ℕ)
    → Allocated nodes size align start nodes'
    → one (inside (block_at size start) x) + one (free nodes' x) ≤ one (free nodes x)
Allocated-owners x a = ground (arith, a.was_free x, a.not_free_now x, a.nothing_else x)
