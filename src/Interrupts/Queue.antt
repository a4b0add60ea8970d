-- ===== src/Interrupts/Queue.antt =====
-- What the scancode buffer promises: a first-in first-out queue of at most 255 bytes that drops
-- what it has no room for, and the calls that its two users make in any order.
use alilu_os.Common.{ℕ, Option, none, some, List, [], ◌∷◌, ◌++◌, ltb, if◌then◌else◌, length}

-- `irq` is a keyboard interrupt with its byte, `poll` a call of `pop_scancode`.
pub data Call : Type 0 where
  irq : ℕ → Call
  poll : Call

-- One byte of the 256 stays free.
abbrev pub capacity : ℕ
capacity = 255

unfoldable pub enqueue : List ℕ → ℕ → List ℕ
enqueue q x = if ltb (length q) capacity then q ++ (x ∷ []) else q

unfoldable pub dequeue : List ℕ → Option ℕ × List ℕ
dequeue [] = (none, [])
dequeue (x ∷ q) = (some x, q)

-- The answers to the polls, in order.
unfoldable pub run : List ℕ → List Call → List (Option ℕ)
run q [] = []
run q (irq x ∷ calls) = run (enqueue q x) calls
run q (poll ∷ calls) = let (out, q') = dequeue q in out ∷ run q' calls
