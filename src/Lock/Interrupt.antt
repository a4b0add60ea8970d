-- ===== src/Lock/Interrupt.antt =====
-- One CPU, where an interrupt handler that takes the lock runs over the main loop that takes it too: the
-- keyboard handler of src/interrupts.rs and `pop_scancode`, with interrupts enabled.
use mathlib.Core.Path.{subst}
use alilu_os.Common.{Bool, true, false, Option, none, some, ◌≡◌, refl, sym, ap}
use alilu_os.Lock.{
  Mutex, Pc, outside, spinning, holding, after_round, Move, call, round, change, leave,
}
use alilu_os.Lock.Exclusion.{cew_busy, cew_free}

-- The main loop stands still while the handler runs.
pub record Cpu (T : Type 0) : Type 0 where
  pub mutex : Mutex T
  pub main : Pc
  pub handler : Option Pc

pub data Step {T : Type 0} (c : Cpu T) : Cpu T → Type 0 where
  go_on :
      {m : Mutex T} {p : Pc}
      → c.handler ≡ none
      → Move c.mutex c.main m p
      → Step c (record { mutex = m; main = p; handler = none })
  interrupt : c.handler ≡ none → Step c (record c { handler = some spinning })
  handle :
      {q : Pc} {m : Mutex T} {p : Pc}
      → c.handler ≡ some q
      → Move c.mutex q m p
      → Step c (record { mutex = m; main = c.main; handler = some p })
  iret : c.handler ≡ some outside → Step c (record c { handler = none })

pub data Reach {T : Type 0} (c : Cpu T) : Cpu T → Type 0 where
  here : Reach c c
  next : {d e : Cpu T} → Reach c d → Step d e → Reach c e

-- The handler waits for the main loop, which waits for the handler.
pub record IsStuck {T : Type 0} (value : T) (c : Cpu T) : Type 0 where
  pub main_holds : c.main ≡ holding
  pub taken : c.mutex.locked ≡ true
  pub unchanged : c.mutex.value ≡ value
  pub waits : c.handler ≡ some spinning

spin_on :
    {T : Type 0} {value : T} {m m' : Mutex T} {q p : Pc}
    → q ≡ spinning
    → m.locked ≡ true
    → m.value ≡ value
    → Move m q m' p
    → (m'.locked ≡ true) × (m'.value ≡ value) × (p ≡ spinning)
spin_on e taken v call = cc
spin_on {T} {value} {m = m} e taken v (round spurious) =
    subst
      (λ (r : Bool × Mutex T).
        (r.1.locked ≡ true) × (r.1.value ≡ value) × (after_round r.0 ≡ spinning))
      (sym (cew_busy spurious m taken)) (taken, v, refl)
spin_on e taken v (change f) = cc
spin_on e taken v leave = cc

Step-IsStuck : {T : Type 0} {value : T} {c d : Cpu T} → Step c d → IsStuck value c → IsStuck value d
Step-IsStuck (go_on e move) v = cc
Step-IsStuck (interrupt e) v = cc
Step-IsStuck (handle {q = q} e move) v =
    let spins : q ≡ spinning = cc in
    let (taken, unchanged, waits) = spin_on spins v.taken v.unchanged move in
    record {
      main_holds = v.main_holds;
      taken = taken;
      unchanged = unchanged;
      waits = ap (λ p. some p) waits;
    }
Step-IsStuck (iret e) v = cc

Reach-IsStuck :
    {T : Type 0} {value : T} {c d : Cpu T} → IsStuck value c → Reach c d → IsStuck value d
Reach-IsStuck v here = v
Reach-IsStuck v (next r step) = Step-IsStuck step (Reach-IsStuck v r)

-- An interrupt that comes while the main loop has the guard never ends: whatever the CPU does from
-- there, the handler is still in the loop of `lock`, the main loop still has the guard, and the value
-- is what it was.
pub interrupt-IsStuck :
    {T : Type 0} (c d : Cpu T)
    → c.handler ≡ none
    → c.main ≡ holding
    → c.mutex.locked ≡ true
    → Reach (record c { handler = some spinning }) d
    → IsStuck c.mutex.value d
interrupt-IsStuck c d free holds taken r =
    Reach-IsStuck (record { main_holds = holds; taken = taken; unchanged = refl; waits = refl }) r

-- The handler after an attempt to take the lock.
abbrev attempted : {T : Type 0} → Cpu T → Bool × Mutex T → Cpu T
attempted c r = record { mutex = r.1; main = c.main; handler = some (after_round r.0) }

-- An interrupt that comes while the lock is free can end, with its change made and the lock free.
pub interrupt-returns :
    {T : Type 0} (c : Cpu T) (f : T → T)
    → c.handler ≡ none
    → c.mutex.locked ≡ false
    → Reach c (record {
      mutex = record { locked = false; value = f c.mutex.value };
      main = c.main;
      handler = none;
    })
interrupt-returns c f idle free =
    let entered : Reach c (record c { handler = some spinning }) = next here (interrupt idle) in
    let locked : Reach c (attempted c (true, record c.mutex { locked = true })) =
      subst (λ r. Reach c (attempted c r)) (cew_free c.mutex free)
        (next entered (handle refl (round false))) in
    next (next (next locked (handle refl (change f))) (handle refl leave)) (iret refl)
