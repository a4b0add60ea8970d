-- ===== src/Lock/Tests.antt =====
-- The lock at concrete contexts.
use alilu_os.Common.{ℕ, true, false, none, some, ◌≡◌, refl, arith}
use alilu_os.Lock.{compare_exchange_weak, spinning, holding, call, round}
use alilu_os.Lock.Exclusion.{System, pick, Reach, start, later, holding-alone}
use alilu_os.Lock.Interrupt.{Cpu, IsStuck, here, next, handle, interrupt-IsStuck}

-- The context 0 takes the lock and the context 1 tries to.
taken : (s : System ℕ) × Reach 7 s × (s.pc 0 ≡ holding) × (s.pc 1 ≡ spinning) × (s.mutex.value ≡ 7)
unfolding compare_exchange_weak
taken = (
  _,
  later (later (later start 0 (pick call)) 0 (pick (round false))) 1 (pick call),
  refl,
  refl,
  refl,
)

holding-alone_example :
    (◌≡◌ {A = ℕ} 0 0) × (taken.0.mutex.locked ≡ true) × (taken.0.mutex.value ≡ taken.0.mutex.value)
unfolding taken compare_exchange_weak
holding-alone_example = holding-alone 0 0 1 taken.1 refl refl (omega arith) (pick (round true))

-- The main loop pops while a key is pressed.
abbrev popping : Cpu ℕ
popping = record { mutex = record { locked = true; value = 3 }; main = holding; handler = none }

interrupt-IsStuck_example : IsStuck 3 (record popping { handler = some spinning })
unfolding compare_exchange_weak
interrupt-IsStuck_example =
    interrupt-IsStuck popping (record popping { handler = some spinning }) refl refl refl
      (next here (handle refl (round false)))
