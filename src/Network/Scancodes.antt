-- ===== src/Network/Scancodes.antt =====
-- src/network.rs: how the browser takes its scancodes, beside the copy of that loop in src/game.rs.
use Prim.Native.Nat.{bit_and}
use alilu_os.Common.{
  ℕ, not, ◌==◌, ◌≡◌, refl, if◌then◌else◌, List, [], ◌∷◌, Option, none, some, Option-cases,
  Bool-cases, inl, inr,
}
use alilu_os.Interrupts.{State, pop_scancode}
use alilu_os.Game.Scancodes
use alilu_os.Game.Scancodes.{Round, interrupted, poll_scancode}

-- `read_scancode_blocking`
unfoldable pub read_scancode_blocking : State → List Round → Option (ℕ × State × List Round)
read_scancode_blocking s [] = none
read_scancode_blocking s (r ∷ rounds) =
    let (code, s') = pop_scancode (interrupted r.interrupt s) in
    let rest = read_scancode_blocking s' rounds in
    elim code [
      | some c ↦ some (c, s', rounds)
      | none ↦ if not (bit_and r.status 1 == 0) then some (r.scancode, s', rounds) else rest
    ]

-- Both loops answer alike.
pub read_scancode_blocking_same :
    (rounds : List Round) (s : State)
    → read_scancode_blocking s rounds ≡ Scancodes.read_scancode_blocking s rounds
unfolding read_scancode_blocking Scancodes.read_scancode_blocking poll_scancode
read_scancode_blocking_same [] s = refl
read_scancode_blocking_same (r ∷ rounds) s =
    let s' = interrupted r.interrupt s in
    let later = read_scancode_blocking_same rounds (pop_scancode s').1 in
    elim (Option-cases (pop_scancode s').0) [
      | inr (c, e) ↦
          rw (e, read_scancode_blocking, Scancodes.read_scancode_blocking, poll_scancode) refl
      | inl e ↦ elim (Bool-cases (not (bit_and r.status 1 == 0))) [
        | inl ready ↦
            rw (e, read_scancode_blocking, Scancodes.read_scancode_blocking, poll_scancode)
              (rw ready refl)
        | inr idle ↦
            rw (e, read_scancode_blocking, Scancodes.read_scancode_blocking, poll_scancode)
              (rw idle later)
      ]
    ]
