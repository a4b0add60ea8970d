-- ===== src/Interrupts/Entry.antt =====
-- src/interrupts.rs: the entry sequences of the handlers, instruction by instruction. A register is
-- its number in the encoding of the instructions, the stack gives the word at an address, and `rsp`
-- is a field of its own. The compiled Rust function that a sequence calls is a parameter.
pub mod Resume
mod Tests
use alilu_os.Common.{ℕ, ◌+◌, ◌-◌, Bool, ◌==◌, if◌then◌else◌, List, [], ◌∷◌}

abbrev pub rax : ℕ
rax = 0

abbrev pub rcx : ℕ
rcx = 1

abbrev pub rdx : ℕ
rdx = 2

abbrev pub rsi : ℕ
rsi = 6

abbrev pub rdi : ℕ
rdi = 7

abbrev pub r8 : ℕ
r8 = 8

abbrev pub r9 : ℕ
r9 = 9

abbrev pub r10 : ℕ
r10 = 10

abbrev pub r11 : ℕ
r11 = 11

pub record Cpu : Type 0 where
  pub registers : ℕ → ℕ
  pub rsp : ℕ
  pub rip : ℕ
  pub cs : ℕ
  pub rflags : ℕ
  pub ss : ℕ
  pub cr2 : ℕ
  pub stack : ℕ → ℕ

pub data Instruction : Type 0 where
  push : ℕ → Instruction
  pop : ℕ → Instruction
  -- `mov r, cr2`
  mov_cr2 : ℕ → Instruction
  -- `add rsp, n`
  add_rsp : ℕ → Instruction
  -- `call {rust_handler}`
  call : Instruction
  iretq : Instruction

abbrev pub put : (ℕ → ℕ) → (at value : ℕ) → ℕ → ℕ
put words at value x = if x == at then value else words x

-- An instruction, with the function that `call` calls, from its call to its return.
unfoldable pub execute : (Cpu → Cpu) → Instruction → Cpu → Cpu
execute rust_handler (push r) c = record c {
  rsp = c.rsp - 8;
  stack = put c.stack (c.rsp - 8) (c.registers r);
}
execute rust_handler (pop r) c = record c {
  rsp = c.rsp + 8;
  registers = put c.registers r (c.stack c.rsp);
}
execute rust_handler (mov_cr2 r) c = record c { registers = put c.registers r c.cr2 }
execute rust_handler (add_rsp n) c = record c { rsp = c.rsp + n }
execute rust_handler call c = rust_handler c
execute rust_handler iretq c = record c {
  rip = c.stack c.rsp;
  cs = c.stack (c.rsp + 8);
  rflags = c.stack (c.rsp + 16);
  rsp = c.stack (c.rsp + 24);
  ss = c.stack (c.rsp + 32);
}

unfoldable pub execute_all : (Cpu → Cpu) → List Instruction → Cpu → Cpu
execute_all rust_handler [] c = c
execute_all rust_handler (i ∷ instructions) c =
    execute_all rust_handler instructions (execute rust_handler i c)

-- What `exception_handler!` makes.
unfoldable pub exception_handler : List Instruction
exception_handler =
    push rax
    ∷ push rcx
    ∷ push rdx
    ∷ push rsi
    ∷ push rdi
    ∷ push r8
    ∷ push r9
    ∷ push r10
    ∷ push r11
    ∷ call
    ∷ pop r11
    ∷ pop r10
    ∷ pop r9
    ∷ pop r8
    ∷ pop rdi
    ∷ pop rsi
    ∷ pop rdx
    ∷ pop rcx
    ∷ pop rax
    ∷ iretq
    ∷ []

unfoldable pub page_fault_handler : List Instruction
page_fault_handler =
    push rax
    ∷ push rcx
    ∷ push rdx
    ∷ push rsi
    ∷ push rdi
    ∷ push r8
    ∷ push r9
    ∷ push r10
    ∷ push r11
    ∷ mov_cr2 rdi
    ∷ call
    ∷ pop r11
    ∷ pop r10
    ∷ pop r9
    ∷ pop r8
    ∷ pop rdi
    ∷ pop rsi
    ∷ pop rdx
    ∷ pop rcx
    ∷ pop rax
    ∷ add_rsp 8
    ∷ iretq
    ∷ []

unfoldable pub timer_interrupt_handler : List Instruction
timer_interrupt_handler =
    push rax
    ∷ push rcx
    ∷ push rdx
    ∷ push rsi
    ∷ push rdi
    ∷ push r8
    ∷ push r9
    ∷ push r10
    ∷ push r11
    ∷ call
    ∷ pop r11
    ∷ pop r10
    ∷ pop r9
    ∷ pop r8
    ∷ pop rdi
    ∷ pop rsi
    ∷ pop rdx
    ∷ pop rcx
    ∷ pop rax
    ∷ iretq
    ∷ []

unfoldable pub keyboard_interrupt_handler : List Instruction
keyboard_interrupt_handler =
    push rax
    ∷ push rcx
    ∷ push rdx
    ∷ push rsi
    ∷ push rdi
    ∷ push r8
    ∷ push r9
    ∷ push r10
    ∷ push r11
    ∷ call
    ∷ pop r11
    ∷ pop r10
    ∷ pop r9
    ∷ pop r8
    ∷ pop rdi
    ∷ pop rsi
    ∷ pop rdx
    ∷ pop rcx
    ∷ pop rax
    ∷ iretq
    ∷ []
