-- ===== src/Interrupts.antt =====
-- src/interrupts.rs: the scancode ring buffer, the descriptor tables, the PIC and PIT programming,
-- the timer and keyboard handlers, and the hexadecimal digits of the page-fault report.
-- An address or a register is a number below its width's power of two.
pub mod Queue
pub mod Ring
pub mod Tables
pub mod Gdt
pub mod Reports
pub mod Entry
mod Tests
use alilu_os.Common.{ℕ, zero, suc, ◌+◌, ◌-◌, ◌*◌, ◌/◌, ◌%◌, ◌^◌, Bool, Option, none, some}
use alilu_os.Common.{List, [], ◌∷◌, ◌++◌, ◌==◌, ltb, if◌then◌else◌, get_or, set, replicate}
use alilu_os.Ports.{PortWrite, outb}

pub record ScancodeBuffer : Type 0 where
  pub buffer : List ℕ
  pub head : ℕ
  pub tail : ℕ

abbrev pub buffer_size : ℕ
buffer_size = 256

unfoldable pub new : ScancodeBuffer
new = record { buffer = replicate buffer_size 0; head = 0; tail = 0 }

-- `ScancodeBuffer::push`: a full buffer drops the byte.
unfoldable pub push : ScancodeBuffer → ℕ → ScancodeBuffer
push b scancode =
    let next_head = (b.head + 1) % buffer_size in
    if next_head == b.tail
    then b
    else record b { buffer = set b.buffer b.head scancode; head = next_head }

-- `ScancodeBuffer::pop`
unfoldable pub pop : ScancodeBuffer → Option ℕ × ScancodeBuffer
pop b =
    if b.head == b.tail
    then (none, b)
    else (some (get_or b.buffer b.tail 0), record b { tail = (b.tail + 1) % buffer_size })

-- What the handlers change: `SCANCODES` and `TIMER_TICKS`.
pub record State : Type 0 where
  pub scancodes : ScancodeBuffer
  pub ticks : ℕ

abbrev pub pic1_command : ℕ
pic1_command = 0x20

-- `timer_interrupt_inner`: a 64-bit counter, and the end of the interrupt.
unfoldable pub timer_interrupt_inner : State → State × List PortWrite
timer_interrupt_inner s = (record s { ticks = (s.ticks + 1) % 2 ^ 64 }, outb pic1_command 0x20 ∷ [])

-- `keyboard_interrupt_inner`: `scancode` is the byte that port 0x60 gives.
unfoldable pub keyboard_interrupt_inner : ℕ → State → State × List PortWrite
unfolding push
keyboard_interrupt_inner scancode s =
    (record s { scancodes = push s.scancodes scancode }, outb pic1_command 0x20 ∷ [])

-- `pop_scancode`
unfoldable pub pop_scancode : State → Option ℕ × State
unfolding pop
pop_scancode s = let (code, b) = pop s.scancodes in (code, record s { scancodes = b })

pub record IdtEntry : Type 0 where
  pub pointer_low : ℕ
  pub gdt_selector : ℕ
  pub options : ℕ
  pub pointer_middle : ℕ
  pub pointer_high : ℕ
  pub reserved : ℕ

pub missing : IdtEntry
missing = record {
  pointer_low = 0;
  gdt_selector = 0;
  options = 0;
  pointer_middle = 0;
  pointer_high = 0;
  reserved = 0;
}

-- `IdtEntry::set_handler`: a mask of ones is a remainder, a shift to the right a quotient.
pub set_handler : IdtEntry → ℕ → IdtEntry
set_handler e handler = record {
  pointer_low = handler % 2 ^ 16;
  gdt_selector = 8;
  options = 0x8E00;
  pointer_middle = (handler / 2 ^ 16) % 2 ^ 16;
  pointer_high = (handler / 2 ^ 32) % 2 ^ 32;
  reserved = 0;
}

-- The five entry points that `setup_idt` installs; the linker chooses their addresses.
pub record EntryPoints : Type 0 where
  pub divide_by_zero : ℕ
  pub double_fault : ℕ
  pub page_fault : ℕ
  pub timer : ℕ
  pub keyboard : ℕ

-- `IDT[vector].set_handler(handler)`
pub install : List IdtEntry → ℕ → ℕ → List IdtEntry
unfolding set_handler missing
install idt vector handler = set idt vector (set_handler (get_or idt vector missing) handler)

-- `setup_idt`, the table that `lidt` loads.
pub setup_idt : EntryPoints → List IdtEntry → List IdtEntry
unfolding install
setup_idt h idt0 =
    let idt1 = install idt0 0 h.divide_by_zero in
    let idt2 = install idt1 8 h.double_fault in
    let idt3 = install idt2 14 h.page_fault in
    let idt4 = install idt3 32 h.timer in install idt4 33 h.keyboard

pub record GdtSystemEntry : Type 0 where
  pub limit_low : ℕ
  pub base_low : ℕ
  pub base_middle : ℕ
  pub access_byte : ℕ
  pub flags_limit_high : ℕ
  pub base_high_middle : ℕ
  pub base_high : ℕ
  pub reserved : ℕ

-- `setup_gdt`, the TSS descriptor: `tss_size` is `size_of::<TaskStateSegment>()`.
pub setup_gdt : (tss_address tss_size : ℕ) → GdtSystemEntry → GdtSystemEntry
setup_gdt tss_address tss_size tss = record tss {
  limit_low = (tss_size - 1) % 2 ^ 16;
  base_low = tss_address % 2 ^ 16;
  base_middle = (tss_address / 2 ^ 16) % 2 ^ 8;
  access_byte = 0x89;
  flags_limit_high = ((tss_size - 1) / 2 ^ 16) % 2 ^ 4;
  base_high_middle = (tss_address / 2 ^ 24) % 2 ^ 8;
  base_high = (tss_address / 2 ^ 32) % 2 ^ 32;
}

-- `setup_pic`: the four initialisation words of the two controllers, then the masks.
pub setup_pic : List PortWrite
setup_pic =
    outb 0x20 0x11
    ∷ outb 0xA0 0x11
    ∷ outb 0x21 0x20
    ∷ outb 0xA1 0x28
    ∷ outb 0x21 0x04
    ∷ outb 0xA1 0x02
    ∷ outb 0x21 0x01
    ∷ outb 0xA1 0x01
    ∷ outb 0x21 0xFC
    ∷ outb 0xA1 0xFF
    ∷ []

abbrev pub pit_divisor : ℕ → ℕ
pit_divisor frequency = 1193182 / frequency

-- `setup_pit`: the divisor goes out low byte first. `frequency` is not 0.
pub setup_pit : ℕ → List PortWrite
setup_pit frequency =
    outb 0x43 0x36
    ∷ outb 0x40 (pit_divisor frequency % 2 ^ 8)
    ∷ outb 0x40 ((pit_divisor frequency / 2 ^ 8) % 2 ^ 8)
    ∷ []

-- The digit that `page_fault_inner` prints for `(temp >> (i * 4)) & 0xF`.
pub hex_digit : ℕ → ℕ
hex_digit digit = if ltb digit 10 then b'0' + digit else b'A' + (digit - 10)

-- The loop `for i in (0..16).rev()` of `page_fault_inner`, with `n` digits left.
pub hex_digits : ℕ → ℕ → List ℕ
unfolding hex_digit
hex_digits zero temp = []
hex_digits (suc i) temp = hex_digit ((temp / 2 ^ (i * 4)) % 16) ∷ hex_digits i temp
