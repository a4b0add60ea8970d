-- ===== src/Interrupts/Ring.antt =====
-- The ring buffer of scancodes against the bounded queue of the bytes that it holds.
use alilu_os.Common.{ℕ, zero, suc, ◌+◌, ◌-◌, ◌%◌, ◌<◌, ◌≡◌, refl, ap, ap₂, ◌≢◌}
use alilu_os.Common.{Option, List, [], ◌∷◌, ◌++◌, arith, Bool-cases, inl, inr, false, ◌==◌}
use alilu_os.Common.{length, get_or, set, length-set, get_or-set_self, get_or-set_ne}
use alilu_os.Interrupts.{ScancodeBuffer, new, push, pop}
use alilu_os.Interrupts.Queue
use alilu_os.Interrupts.Queue.{Call, irq, poll}

pub record IsValid (b : ScancodeBuffer) : Type 0 where
  pub storage : length b.buffer ≡ 256
  pub head_in : b.head < 256
  pub tail_in : b.tail < 256

-- How many bytes wait.
abbrev pub pending : ScancodeBuffer → ℕ
pending b = (b.head + 256 - b.tail) % 256

module _ (buf : List ℕ) where
  -- The `n` bytes from index `t` on, going round at 256.
  abbrev pub window : ℕ → ℕ → List ℕ
  window t zero = []
  window t (suc n) = get_or buf t 0 ∷ window ((t + 1) % 256) n

  length-window : (t n : ℕ) → length (window t n) ≡ n
  length-window t zero = refl
  length-window t (suc n) = ap suc (length-window ((t + 1) % 256) n)

  window_of_ne_zero :
      (t n : ℕ) → n ≢ 0 → window t n ≡ get_or buf t 0 ∷ window ((t + 1) % 256) (n - 1)
  window_of_ne_zero t zero p = absurd (p refl)
  window_of_ne_zero t (suc n) p = ap (λ k. window t (suc k)) (omega arith)

-- The waiting bytes, oldest first.
abbrev pub contents : ScancodeBuffer → List ℕ
contents b = window b.buffer b.tail (pending b)

pub length-contents : (b : ScancodeBuffer) → length (contents b) ≡ pending b
length-contents b = length-window b.buffer b.tail (pending b)

window-set :
    (buf : List ℕ) (x n t i : ℕ)
    → length buf ≡ 256
    → t < 256
    → n < 256
    → i ≡ (t + n) % 256
    → window (set buf i x) t (suc n) ≡ window buf t n ++ (x ∷ [])
window-set buf x zero t i hs ht hn e =
    let same : i ≡ t = omega arith in rw (same, get_or-set_self buf t x 0 (omega arith))
window-set buf x (suc n) t i hs ht hn e =
    ap₂ ◌∷◌ (get_or-set_ne buf x 0 (omega arith))
      (window-set buf x n ((t + 1) % 256) i hs (omega arith) (omega arith) (omega arith))

pub new-IsValid : IsValid new
unfolding new
new-IsValid = record { storage = refl; head_in = omega arith; tail_in = omega arith }

pub push-IsValid : {b : ScancodeBuffer} (x : ℕ) → IsValid b → IsValid (push b x)
unfolding push
push-IsValid {b} x v = ground (arith, length-set b.buffer b.head x)

pub pop-IsValid : {b : ScancodeBuffer} → IsValid b → IsValid (pop b).1
unfolding pop
pop-IsValid v = ground arith

module _ {b : ScancodeBuffer} (v : IsValid b)
    (room : (((b.head + 1) % 256) == b.tail) ≡ false) where
  pending-push : ((b.head + 1) % 256 + 256 - b.tail) % 256 ≡ suc (pending b)
  pending-push = ground arith

  pending-lt_capacity : pending b < 255
  pending-lt_capacity = ground arith

  contents-push : (x : ℕ) → contents (push b x) ≡ contents b ++ (x ∷ [])
  unfolding push
  contents-push x =
      rw (room, pending-push)
        (window-set b.buffer x (pending b) b.tail b.head v.storage v.tail_in (omega arith)
          (omega arith))

-- A push appends its byte to the waiting bytes while fewer than 255 wait, and is dropped otherwise.
pub push-enqueue :
    {b : ScancodeBuffer} (x : ℕ) → IsValid b → contents (push b x) ≡ Queue.enqueue (contents b) x
unfolding push Queue.enqueue
push-enqueue {b} x v = elim (Bool-cases (((b.head + 1) % 256) == b.tail)) [
  | inl full ↦ rw full (ground (arith, length-contents b))
  | inr room ↦
      rw (contents-push v room x) (ground (arith, length-contents b, pending-lt_capacity v room))
]

-- A pop returns the oldest waiting byte and leaves the others, or answers `none` when none waits.
pub pop-dequeue :
    {b : ScancodeBuffer}
    → IsValid b
    → let (out, b') = pop b in (out, contents b') ≡ Queue.dequeue (contents b)
unfolding pop Queue.dequeue
pop-dequeue {b} v = ground (arith, window_of_ne_zero b.buffer b.tail (pending b))

-- The answers of a buffer to the calls of its two users.
unfoldable pub run : ScancodeBuffer → List Call → List (Option ℕ)
run b [] = []
run b (irq x ∷ calls) = run (push b x) calls
run b (poll ∷ calls) = let (out, b') = pop b in out ∷ run b' calls

-- However interrupts and polls interleave, a valid buffer answers every poll as the bounded queue
-- of its waiting bytes does.
pub run_refines :
    (calls : List Call) {b : ScancodeBuffer}
    → IsValid b
    → run b calls ≡ Queue.run (contents b) calls
unfolding run Queue.run
run_refines [] v = refl
run_refines (irq x ∷ calls) v = rw (run_refines calls (push-IsValid x v), push-enqueue x v)
run_refines (poll ∷ calls) v = rw (run_refines calls (pop-IsValid v), ← pop-dequeue v)
