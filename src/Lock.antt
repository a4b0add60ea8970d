-- ===== src/Lock.antt =====
-- `Locked`, `spin::Mutex` and `MutexGuard`, which src/vga.rs, src/fs.rs and src/allocator.rs each have a copy of.
-- A context is a call chain that may take the lock: the main loop, an interrupt handler. Between two of
-- its steps any other may run.
pub mod Exclusion
pub mod Interrupt
mod Tests
use alilu_os.Common.{ℕ, Bool, true, false, ◌||◌, ◌==◌, if◌then◌else◌}

-- `Mutex`, inside a `Locked`
pub record Mutex (T : Type 0) : Type 0 where
  pub locked : Bool
  pub value : T

-- `Mutex::new`
abbrev pub new : {T : Type 0} → T → Mutex T
new value = record { locked = false; value = value }

-- `compare_exchange_weak(false, true, ..)`: it may fail although the lock is free.
unfoldable pub compare_exchange_weak : {T : Type 0} → (spurious : Bool) → Mutex T → Bool × Mutex T
compare_exchange_weak spurious m =
    if spurious || m.locked then (false, m) else (true, record m { locked = true })

-- `DerefMut`: the value behind the guard changes.
abbrev pub deref_mut : {T : Type 0} → (T → T) → Mutex T → Mutex T
deref_mut change m = record m { value = change m.value }

-- `Drop` of the guard
abbrev pub drop : {T : Type 0} → Mutex T → Mutex T
drop m = record m { locked = false }

-- Where a context stands: outside, in the loop of `lock`, or with the guard.
pub data Pc : Type 0 where
  outside spinning holding : Pc

-- After a round of the loop of `lock`.
abbrev pub after_round : Bool → Pc
after_round true = holding
after_round false = spinning

-- One step of one context.
pub data Move {T : Type 0} (m : Mutex T) : Pc → Mutex T → Pc → Type 0 where
  call : Move m outside m spinning
  round :
      (spurious : Bool)
      → Move m spinning
          (compare_exchange_weak spurious m).1
          (after_round (compare_exchange_weak spurious m).0)
  change : (f : T → T) → Move m holding (deref_mut f m) holding
  leave : Move m holding (drop m) outside
