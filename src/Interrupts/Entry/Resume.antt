-- ===== src/Interrupts/Entry/Resume.antt =====
-- What an interrupted program finds when it goes on.
use alilu_os.Common.{
  ℕ, ◌+◌, ◌%◌, ◌≤◌, ◌<◌, ◌≡◌, refl, ap, ◌∙◌, Bool, true, not, ◌&&◌, ◌||◌, ◌==◌, leb, arith,
}
use alilu_os.Interrupts.Entry.{
  Cpu, put, execute, execute_all, push, pop, iretq, rax, rcx, rdx, rsi, rdi, r8, r9, r10, r11,
  timer_interrupt_handler, keyboard_interrupt_handler, page_fault_handler, mov_cr2,
}

-- The registers that a function gives back as it found them, by the calling convention of System V:
-- rbx, rbp and r12 to r15.
abbrev pub callee_saved : ℕ → Bool
callee_saved r = (r == 3) || ((r == 5) || leb 12 r)

-- After a piece of code: the registers in `kept`, the stack pointer and what lies on the stack from
-- it on are as they were.
pub record Keeps (kept : ℕ → Bool) (before after : Cpu) : Type 0 where
  pub pointer : after.rsp ≡ before.rsp
  pub above : (x : ℕ) → before.rsp ≤ x → after.stack x ≡ before.stack x
  pub saved : (r : ℕ) → kept r ≡ true → after.registers r ≡ before.registers r

-- A piece of code that does so where it has room on the stack and the pointer is `offset` behind a
-- multiple of 16.
abbrev pub Balanced : (kept : ℕ → Bool) → (room offset : ℕ) → (Cpu → Cpu) → Type 0
Balanced kept room offset f = (c : Cpu) → room ≤ c.rsp → c.rsp % 16 ≡ offset → Keeps kept c (f c)

-- Code between a push and the pop of the same register.
abbrev around : ℕ → (Cpu → Cpu) → Cpu → Cpu
around r f c = execute f (pop r) (f (execute f (push r) c))

around-Balanced :
    (kept : ℕ → Bool) (room inner outer r : ℕ) (f : Cpu → Cpu)
    → (inner + 8) % 16 ≡ outer
    → inner < 16
    → Balanced kept room inner f
    → Balanced (λ s. (s == r) || kept s) (room + 8) outer (around r f)
unfolding execute
around-Balanced kept room inner outer r f next small b c enough at =
    let pushed = execute f (push r) c in
    let k = b pushed (omega arith) (omega arith) in
    let top : (f pushed).stack (f pushed).rsp ≡ c.registers r =
      ap (f pushed).stack k.pointer ∙ k.above pushed.rsp (omega arith) ∙ ground arith in
    record {
      pointer = omega (arith, k.pointer);
      above = λ x h. k.above x (omega arith) ∙ ground arith;
      saved = λ s h. ground (arith, top, k.saved s);
    }

-- The registers but rsp.
abbrev pub every_register : ℕ → Bool
every_register r = not (r == 4) && leb r 15

-- What is between the pushes and the pops of the sequences.
abbrev saving : (Cpu → Cpu) → Cpu → Cpu
saving f = around rax (
    around rcx
      (around rdx (around rsi (around rdi (around r8 (around r9 (around r10 (around r11 f))))))))

saving-Balanced :
    (room inner outer : ℕ) (f : Cpu → Cpu)
    → (inner + 8) % 16 ≡ outer
    → inner < 16
    → Balanced callee_saved room inner f
    → Balanced every_register (room + 72) outer (saving f)
saving-Balanced room inner outer f next small b c enough at =
    let back : (outer + 8) % 16 ≡ inner = omega arith in
    let under : outer < 16 = omega arith in
    let nine = around-Balanced _ _ inner outer r11 _ next small b in
    let eight = around-Balanced _ _ outer inner r10 _ back under nine in
    let seven = around-Balanced _ _ inner outer r9 _ next small eight in
    let six = around-Balanced _ _ outer inner r8 _ back under seven in
    let five = around-Balanced _ _ inner outer rdi _ next small six in
    let four = around-Balanced _ _ outer inner rsi _ back under five in
    let three = around-Balanced _ _ inner outer rdx _ next small four in
    let two = around-Balanced _ _ outer inner rcx _ back under three in
    let k = around-Balanced _ _ inner outer rax _ next small two c (omega arith) at in
    record { pointer = k.pointer; above = k.above; saved = λ r h. k.saved r (ground arith) }

-- What the CPU hands to the handler of an interrupt without an error code: the registers as they
-- were, and its frame on the same stack, below what the program has there.
pub record Delivered (program c : Cpu) : Type 0 where
  pub registers : (r : ℕ) → c.registers r ≡ program.registers r
  pub rip : c.stack c.rsp ≡ program.rip
  pub cs : c.stack (c.rsp + 8) ≡ program.cs
  pub rflags : c.stack (c.rsp + 16) ≡ program.rflags
  pub rsp : c.stack (c.rsp + 24) ≡ program.rsp
  pub ss : c.stack (c.rsp + 32) ≡ program.ss
  pub below : c.rsp + 40 ≤ program.rsp
  pub above : (x : ℕ) → program.rsp ≤ x → c.stack x ≡ program.stack x

-- The program goes on as it was: where, in its registers and flags, and on its stack.
pub record Resumed (program c : Cpu) : Type 0 where
  pub registers : (r : ℕ) → every_register r ≡ true → c.registers r ≡ program.registers r
  pub rip : c.rip ≡ program.rip
  pub cs : c.cs ≡ program.cs
  pub rflags : c.rflags ≡ program.rflags
  pub rsp : c.rsp ≡ program.rsp
  pub ss : c.ss ≡ program.ss
  pub above : (x : ℕ) → program.rsp ≤ x → c.stack x ≡ program.stack x

iretq-Resumed :
    (f : Cpu → Cpu) (program c after : Cpu)
    → Keeps every_register c after
    → Delivered program c
    → Resumed program (execute f iretq after)
unfolding execute
iretq-Resumed f program c after k d =
    let word =
      λ (n : ℕ). ap (λ p. after.stack (p + n)) k.pointer ∙ k.above (c.rsp + n) (omega arith) in
    record {
      registers = λ r h. k.saved r h ∙ d.registers r;
      rip = ap after.stack k.pointer ∙ k.above c.rsp (omega arith) ∙ d.rip;
      cs = word 8 ∙ d.cs;
      rflags = word 16 ∙ d.rflags;
      rsp = word 24 ∙ d.rsp;
      ss = word 32 ∙ d.ss;
      above = λ x h. k.above x (omega (arith, d.below)) ∙ d.above x h;
    }

-- Where the Rust function keeps the calling convention with `room` bytes of stack: after the timer
-- and after the keyboard interrupt the interrupted program goes on at its instruction, with its
-- registers, its flags, its stack pointer and what it has on its stack as they were. The CPU has
-- put its frame of five words below what the program has on its stack, from a multiple of 16 down,
-- and there is room for 72 bytes more than the function's.
pub interrupt_handlers-Resumed :
    (rust_handler : Cpu → Cpu) (room : ℕ) (program c : Cpu)
    → Balanced callee_saved room 0 rust_handler
    → Delivered program c
    → c.rsp % 16 ≡ 8
    → room + 72 ≤ c.rsp
    → Resumed program (execute_all rust_handler timer_interrupt_handler c)
      × Resumed program (execute_all rust_handler keyboard_interrupt_handler c)
unfolding execute execute_all timer_interrupt_handler keyboard_interrupt_handler
interrupt_handlers-Resumed rust_handler room program c b d aligned enough =
    let k = saving-Balanced room 0 8 rust_handler refl (omega arith) b c enough aligned in
    let resumed = iretq-Resumed rust_handler program c (saving rust_handler c) k d in
    (resumed, resumed)

-- With an error code on top of the frame, and so a function that keeps the convention from a stack
-- pointer 8 behind a multiple of 16: the sequence of the page fault drops the code.
page_fault_handler-Resumed :
    (rust_handler : Cpu → Cpu) (room : ℕ) (program c : Cpu)
    → Balanced callee_saved room 8 rust_handler
    → Delivered program (record c { rsp = c.rsp + 8 })
    → c.rsp % 16 ≡ 0
    → room + 72 ≤ c.rsp
    → Resumed program (execute_all rust_handler page_fault_handler c)
unfolding execute execute_all page_fault_handler
page_fault_handler-Resumed rust_handler room program c b d aligned enough =
    let told = λ (e : Cpu). rust_handler (execute rust_handler (mov_cr2 rdi) e) in
    let passed : Balanced callee_saved room 8 told = λ e fits at.
      let k = b (record e { registers = put e.registers rdi e.cr2 }) fits at in
      record { pointer = k.pointer; above = k.above; saved = λ r h. k.saved r h ∙ ground arith } in
    let k = saving-Balanced room 8 0 told refl (omega arith) passed c enough aligned in
    iretq-Resumed rust_handler program (record c { rsp = c.rsp + 8 })
      (record (saving told c) { rsp = (saving told c).rsp + 8 })
      (record {
        pointer = ap (λ p. p + 8) k.pointer;
        above = λ x h. k.above x (omega arith);
        saved = k.saved;
      })
      d
