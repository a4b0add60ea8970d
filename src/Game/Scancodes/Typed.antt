-- ===== src/Game/Scancodes/Typed.antt =====
-- The scancodes that a program reads beside those that the keyboard interrupt delivered.
use Prim.Native.Nat.{bit_and}
use mathlib.Core.Path.{subst}
use mathlib.Core.List.{append-nil, append_assoc}
use alilu_os.Common.{
  ℕ, ◌+◌, ◌<◌, ◌≡◌, refl, sym, ap, ◌∙◌, List, [], ◌∷◌, ◌++◌, Option, none, some, arith, length,
}
use alilu_os.Interrupts.{State, pop_scancode, keyboard_interrupt_inner}
use alilu_os.Interrupts.Queue.{enqueue, dequeue}
use alilu_os.Interrupts.Ring.{
  IsValid, contents, push-IsValid, pop-IsValid, push-enqueue, pop-dequeue,
}
use alilu_os.Game.Scancodes.{Round, interrupted, poll_ports, poll_scancode, read_scancode_blocking}

-- The bytes of the interrupts, in order.
abbrev pub before : Option ℕ → List ℕ → List ℕ
before none bytes = bytes
before (some byte) bytes = byte ∷ bytes

unfoldable pub typed : List Round → List ℕ
typed [] = []
typed (r ∷ rounds) = before r.interrupt (typed rounds)

-- Port 0x64 shows no byte in any round: the interrupts took them.
abbrev pub Quiet : List Round → Type 0
Quiet [] = Unit
Quiet (r ∷ rounds) = (bit_and r.status 1 ≡ 0) × Quiet rounds

-- A ring with room for a byte, and the bytes that wait in it.
pub record Waiting (s : State) (bytes : List ℕ) : Type 0 where
  pub valid : IsValid s.scancodes
  pub room : length bytes < 255
  pub has : contents s.scancodes ≡ bytes

-- After the interrupt of a round.
record Arrived (s : State) (bytes : List ℕ) : Type 0 where
  valid : IsValid s.scancodes
  room : length bytes < 256
  has : contents s.scancodes ≡ bytes

length-++-one : (bytes : List ℕ) (b : ℕ) → length (bytes ++ (b ∷ [])) ≡ length bytes + 1
length-++-one [] b = refl
length-++-one (x ∷ bytes) b = ground (arith, length-++-one bytes b)

interrupted-Arrived :
    (i : Option ℕ) (s : State) (bytes : List ℕ)
    → Waiting s bytes
    → Arrived (interrupted i s) (bytes ++ before i [])
unfolding keyboard_interrupt_inner enqueue
interrupted-Arrived none s bytes w =
    subst (Arrived s) (sym (append-nil bytes))
      (record { valid = w.valid; room = omega (arith, w.room); has = w.has })
interrupted-Arrived (some b) s bytes w = record {
  valid = push-IsValid b w.valid;
  room = omega (arith, w.room, length-++-one bytes b);
  has = push-enqueue b w.valid ∙ ap (λ q. enqueue q b) w.has ∙ ground (arith, w.room);
}

-- A poll of a ring in which no byte waits.
poll-none :
    (status scancode : ℕ) (s : State)
    → bit_and status 1 ≡ 0
    → Arrived s []
    → ((poll_scancode status scancode s).0 ≡ none) × Waiting (poll_scancode status scancode s).1 []
unfolding poll_scancode pop_scancode dequeue
poll-none status scancode s quiet a =
    let popped = pop-dequeue a.valid ∙ ap dequeue a.has in
    (
      ap (λ p. poll_ports status scancode p.0) popped ∙ ground arith,
      record { valid = pop-IsValid a.valid; room = omega arith; has = ap (λ p. p.1) popped },
    )

poll-some :
    (status scancode : ℕ) (s : State) (b : ℕ) (bytes : List ℕ)
    → Arrived s (b ∷ bytes)
    → ((poll_scancode status scancode s).0 ≡ some b)
      × Waiting (poll_scancode status scancode s).1 bytes
unfolding poll_scancode pop_scancode dequeue
poll-some status scancode s b bytes a =
    let popped = pop-dequeue a.valid ∙ ap dequeue a.has in
    (
      ap (λ p. poll_ports status scancode p.0) popped,
      record {
        valid = pop-IsValid a.valid;
        room = omega (arith, a.room);
        has = ap (λ p. p.1) popped;
      },
    )

-- What a blocking read answers: the first byte, with the others still to be read in their order.
abbrev pub Answered : Option (ℕ × State × List Round) → (c : ℕ) (rest : List ℕ) → Type 0
Answered answer c rest =
    (s' : State) × (rounds' : List Round) × (waiting : List ℕ) × (answer ≡ some (c, s', rounds'))
    × Waiting s' waiting
    × (waiting ++ typed rounds' ≡ rest)

read-some :
    (s : State) (r : Round) (rounds : List Round) (c : ℕ)
    → let polled = poll_scancode r.status r.scancode (interrupted r.interrupt s) in
      polled.0 ≡ some c → read_scancode_blocking s (r ∷ rounds) ≡ some (c, polled.1, rounds)
unfolding read_scancode_blocking
read-some s r rounds c e = rw (e, read_scancode_blocking) refl

read-none :
    (s : State) (r : Round) (rounds : List Round)
    → let polled = poll_scancode r.status r.scancode (interrupted r.interrupt s) in
      polled.0 ≡ none
      → read_scancode_blocking s (r ∷ rounds) ≡ read_scancode_blocking polled.1 rounds
unfolding read_scancode_blocking
read-none s r rounds e = rw (e, read_scancode_blocking) refl

before-typed : (i : Option ℕ) (bytes : List ℕ) → before i [] ++ bytes ≡ before i bytes
before-typed none bytes = refl
before-typed (some b) bytes = refl

Arrived-Answered :
    (rounds : List Round) (r : Round) (s : State) (bytes : List ℕ) (c : ℕ) (rest : List ℕ)
    → Quiet (r ∷ rounds)
    → Arrived (interrupted r.interrupt s) bytes
    → bytes ++ typed rounds ≡ c ∷ rest
    → Answered (read_scancode_blocking s (r ∷ rounds)) c rest
unfolding typed
Arrived-Answered rounds r s (b ∷ bytes) c rest quiet a e =
    let (polled, w) = poll-some r.status r.scancode (interrupted r.interrupt s) b bytes a in
    let s' = (poll_scancode r.status r.scancode (interrupted r.interrupt s)).1 in
    let first : b ≡ c = ground arith in
    (s', rounds, bytes, read-some s r rounds c (polled ∙ ap (λ k. some k) first), w, ground arith)
Arrived-Answered [] r s [] c rest quiet a e = absurd (ground arith)
Arrived-Answered (next ∷ rounds) r s [] c rest (quiet, later) a e =
    let (polled, w) = poll-none r.status r.scancode (interrupted r.interrupt s) quiet a in
    let s' = (poll_scancode r.status r.scancode (interrupted r.interrupt s)).1 in
    let (s'', rounds', waiting, ran, w', left) =
      Arrived-Answered rounds next s' (before next.interrupt []) c rest later
        (interrupted-Arrived next.interrupt s' [] w)
        (before-typed next.interrupt (typed rounds) ∙ e) in
    (s'', rounds', waiting, read-none s r (next ∷ rounds) polled ∙ ran, w', left)

-- Of a ring with room for a byte, while port 0x64 shows no byte in a round: the read ends as soon as
-- a byte waits or is typed, with the first of them, and those behind it, the ones that wait and then
-- the ones that are still typed, are the ones behind it before, in their order.
pub read_scancode_blocking-Answered :
    (s : State) (r : Round) (rounds : List Round) (waiting : List ℕ) (c : ℕ) (rest : List ℕ)
    → Waiting s waiting
    → Quiet (r ∷ rounds)
    → waiting ++ typed (r ∷ rounds) ≡ c ∷ rest
    → Answered (read_scancode_blocking s (r ∷ rounds)) c rest
unfolding typed
read_scancode_blocking-Answered s r rounds waiting c rest w quiet e =
    Arrived-Answered rounds r s (waiting ++ before r.interrupt []) c rest quiet
      (interrupted-Arrived r.interrupt s waiting w)
      (append_assoc waiting (before r.interrupt []) (typed rounds)
        ∙ ap (λ bytes. waiting ++ bytes) (before-typed r.interrupt (typed rounds))
        ∙ e)
