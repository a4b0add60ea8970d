-- ===== src/Interrupts/Entry/Tests.antt =====
-- An interrupt of a concrete program.
use alilu_os.Common.{◌+◌, ◌-◌, refl, arith}
use alilu_os.Interrupts.Entry.{
  Cpu, put, rax, r11, execute_all, timer_interrupt_handler, keyboard_interrupt_handler,
}
use alilu_os.Interrupts.Entry.Resume.{
  callee_saved, Balanced, Delivered, Resumed, interrupt_handlers-Resumed,
}

abbrev program : Cpu
program = record {
  registers = λ r. 100 + r;
  rsp = 0x9004;
  rip = 0x20_1234;
  cs = 0x08;
  rflags = 0x202;
  ss = 0x10;
  cr2 = 0;
  stack = λ x. x;
}

-- The frame in the five words below 0x9000.
abbrev entered : Cpu
entered = record program {
  rsp = 0x8FD8;
  rip = 0x20_2000;
  rflags = 2;
  stack =
      put (put (put (put (put program.stack 0x8FF8 0x10) 0x8FF0 0x9004) 0x8FE8 0x202) 0x8FE0 0x08)
        0x8FD8 0x20_1234;
}

entered-Delivered : Delivered program entered
entered-Delivered = record {
  registers = λ r. refl;
  rip = refl;
  cs = refl;
  rflags = refl;
  rsp = refl;
  ss = refl;
  below = omega arith;
  above = λ x h. ground arith;
}

-- A function that uses two registers and one word of the stack.
abbrev clobber : Cpu → Cpu
clobber c = record c {
  registers = put (put c.registers rax 0) r11 7;
  stack = put c.stack (c.rsp - 8) 1;
}

clobber-Balanced : Balanced callee_saved 8 0 clobber
clobber-Balanced c enough at = record {
  pointer = refl;
  above = λ x h. ground arith;
  saved = λ r h. ground arith;
}

interrupt_handlers-Resumed_example :
    Resumed program (execute_all clobber timer_interrupt_handler entered)
    × Resumed program (execute_all clobber keyboard_interrupt_handler entered)
interrupt_handlers-Resumed_example =
    interrupt_handlers-Resumed clobber 8 program entered clobber-Balanced entered-Delivered refl
      (omega arith)
