-- ===== src/Kernel/Tests.antt =====
-- The start of the kernel and a few keys, and its theorem at them.
use alilu_os.Common.{List, [], ◌∷◌, true, arith}
use alilu_os.Vga.{Vga, white, black}
use alilu_os.Vga.Bounds.{IsValid}
use alilu_os.Shell.Commands.{Program}
use alilu_os.Common.{ℕ, none}
use alilu_os.Programs.{launch, launch-Safe}
use alilu_os.Kernel.{Event, tick, irq, turn}
use alilu_os.Kernel.Start.{Hardware, start_kernel}
use alilu_os.Kernel.Ready.{IsReady, start_kernel-IsReady}

-- A display whose memory and ports are blank.
abbrev blank : Vga
blank = record {
  row = 24;
  column = 79;
  foreground = white;
  background = black;
  cursor_visible = true;
  memory = λ _. 0;
  ports = [];
}

blank-IsValid : IsValid blank
blank-IsValid = record { row_in = omega arith; column_in = omega arith }

-- The key `a` goes down, the timer ticks and the loop looks twice.
abbrev events : List Event
events = irq 0x1E ∷ tick ∷ turn 0 0 ∷ turn 1 0x9E ∷ []

-- The programs, each on an arrow key, a space and Escape.
abbrev keys : Program → List ℕ
keys program = 0x1C ∷ 0x4D ∷ 0x39 ∷ 0x01 ∷ []

programs : Program → Vga → Vga
programs = launch (λ bytes. none) keys

abbrev hardware : Hardware
hardware = record {
  display = blank;
  config = λ address. 0x100E8086;
  handlers = record {
    divide_by_zero = 0x20_0000;
    double_fault = 0x20_1000;
    page_fault = 0x20_2000;
    timer = 0x20_3000;
    keyboard = 0x20_4000;
  };
  tss_address = 0x30_0000;
  gdt_address = 0x30_1000;
  idt_address = 0x30_2000;
  heap_start = 0x40_0010;
}

start_kernel-IsReady_example : IsReady hardware (start_kernel programs events hardware)
unfolding programs
start_kernel-IsReady_example =
    start_kernel-IsReady programs (launch-Safe (λ bytes. none) keys) events hardware blank-IsValid
      (omega arith) (omega arith) (omega arith, omega arith, omega arith, omega arith, omega arith)
