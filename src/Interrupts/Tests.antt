-- ===== src/Interrupts/Tests.antt =====
-- Runs of the interrupt layer, and its theorems at concrete states.
use alilu_os.Common.{◌+◌, ◌/◌, ◌^◌, ◌<◌, ◌≡◌, refl, none, some, List, [], ◌∷◌, arith}
use alilu_os.Interrupts.{new, push, pop, EntryPoints}
use alilu_os.Interrupts.Queue
use alilu_os.Interrupts.Queue.{Call, irq, poll}
use alilu_os.Interrupts.Ring.{new-IsValid, contents, run, run_refines}
use alilu_os.Interrupts.Gdt.{
  init, descriptor_byte, system_base, descriptor_limit, init-descriptor_byte,
}

-- Two keys pressed before the first poll.
abbrev typed : List Call
typed = irq 0x1E ∷ irq 0x30 ∷ poll ∷ irq 0x2E ∷ poll ∷ poll ∷ poll ∷ []

run_refines_example : run new typed ≡ Queue.run (contents new) typed
run_refines_example = run_refines typed new-IsValid

run-typed : run new typed ≡ some 0x1E ∷ some 0x30 ∷ some 0x2E ∷ none ∷ []
unfolding run new push pop
run-typed = refl

abbrev entry_points : EntryPoints
entry_points = record {
  divide_by_zero = 0xFFFF_8000_0000_1000;
  double_fault = 0x20_0000;
  page_fault = 0x20_1000;
  timer = 0x20_2000;
  keyboard = 0x20_3000;
}

init-descriptor_byte_example :
    let l = init entry_points 0xFFFF_8000_1234_5678 0x30_0000 0x30_1000 [] in
    (descriptor_byte l.gdt 0x08 5 ≡ 0x9A)
    × (descriptor_byte l.gdt 0x08 6 / 2 ^ 5 ≡ 1)
    × (descriptor_byte l.gdt 0x10 5 ≡ 0x92)
    × (descriptor_byte l.gdt 0x18 5 ≡ 0x89)
    × (system_base (descriptor_byte l.gdt 0x18) ≡ 0xFFFF_8000_1234_5678)
    × (descriptor_limit (descriptor_byte l.gdt 0x18) ≡ 103)
    × (0x18 + 15 < l.gdt_pointer.limit)
init-descriptor_byte_example =
    init-descriptor_byte entry_points 0xFFFF_8000_1234_5678 0x30_0000 0x30_1000 [] (omega arith)
