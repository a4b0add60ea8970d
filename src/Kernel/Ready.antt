-- ===== src/Kernel/Ready.antt =====
-- What the entry of the kernel has set up when the first event comes, and after any events.
use alilu_os.Common.{ℕ, ◌+◌, ◌≤◌, ◌<◌, ◌^◌, ◌≡◌, List, get_or, replicate, length-replicate}
use alilu_os.Interrupts.{EntryPoints, missing}
use alilu_os.Interrupts.Tables.{handler_address, setup_idt-handler_of}
use alilu_os.Interrupts.Gdt.{init, descriptor_byte, system_base, init-descriptor_byte}
use alilu_os.Allocator.{heap_size}
use alilu_os.Allocator.Owners.{one}
use alilu_os.Allocator.Heaps.{IsHeap, heap_owners}
use alilu_os.Allocator.Clients.{in_heap}
use alilu_os.Allocator.Safety.{init-IsHeap}
use alilu_os.Vga.{Vga}
use alilu_os.Vga.Bounds.{IsValid, Safe}
use alilu_os.Shell.Commands.{Program}
use alilu_os.Kernel.{Event}
use alilu_os.Kernel.Safety.{IsRunning, run-initialize}
use alilu_os.Kernel.Start.{Hardware, System, start, start_kernel}

-- The five entry points are 64-bit addresses.
abbrev pub InWord : EntryPoints → Type 0
InWord h =
    (h.divide_by_zero < 2 ^ 64)
    × (h.double_fault < 2 ^ 64)
    × (h.page_fault < 2 ^ 64)
    × (h.timer < 2 ^ 64)
    × (h.keyboard < 2 ^ 64)

pub record IsReady (hw : Hardware) (s : System) : Type 0 where
  pub running : IsRunning hw.display s.kernel
  pub heap : IsHeap s.heap
  pub heap_in : (x : ℕ) → heap_owners s.heap x ≤ one (in_heap hw.heap_start x)
  pub timer_gate : handler_address (get_or s.tables.idt 32 missing) ≡ hw.handlers.timer
  pub keyboard_gate : handler_address (get_or s.tables.idt 33 missing) ≡ hw.handlers.keyboard
  pub task_state : system_base (descriptor_byte s.tables.gdt 0x18) ≡ hw.tss_address

-- After the entry of the kernel, whatever interrupts and rounds follow: the cursor stays on the screen
-- and no byte outside the text buffer changes, every directory stays in order, the working directory
-- stays canonical, the help viewer is never entered and the scancode buffer stays valid; the heap
-- that the entry made is in order and inside its array, the gates of the timer and of the keyboard
-- lead to their handlers, and the task register's descriptor to the TSS. The display is valid
-- before, the heap's array ends below 2 ^ 62, the addresses have 64 bits, and the programs that the
-- shell starts keep to the display.
pub start_kernel-IsReady :
    (launch : Program → Vga → Vga)
    → ((p : Program) (s : Vga) → IsValid s → Safe s (launch p s))
    → (events : List Event) (hw : Hardware) → IsValid hw.display
    → hw.heap_start + heap_size ≤ 2 ^ 62
    → hw.tss_address < 2 ^ 64
    → InWord hw.handlers
    → IsReady hw (start_kernel launch events hw)
unfolding start_kernel start init
start_kernel-IsReady launch keeps events hw display fits address words =
    let (heap, heap_in) = init-IsHeap hw.heap_start fits in
    let gate = λ (vector : ℕ).
      setup_idt-handler_of hw.handlers (replicate 256 missing) vector (length-replicate 256 missing)
        words in
    let (_, _, _, _, task_state, _, _) =
      init-descriptor_byte hw.handlers hw.tss_address hw.gdt_address hw.idt_address
        (replicate 256 missing) address in
    record {
      running = run-initialize launch keeps events hw.display display;
      heap = heap;
      heap_in = heap_in;
      timer_gate = gate 32;
      keyboard_gate = gate 33;
      task_state = task_state;
    }
