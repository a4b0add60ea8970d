-- ===== src/Kernel/Start.antt =====
-- src/main.rs: the entry of the kernel and its panic handler, with the start of every driver as
-- `Kernel::initialize` of src/kernel.rs calls it.
use alilu_os.Common.{ℕ, Option, none, some, List, [], ◌∷◌, ◌++◌, Text, codes, replicate}
use alilu_os.Interrupts.{EntryPoints, missing}
use alilu_os.Interrupts.Gdt
use alilu_os.Interrupts.Gdt.{Loaded}
use alilu_os.Allocator
use alilu_os.Allocator.{Heap}
use alilu_os.Network
use alilu_os.Network.{EthernetDriver, new_driver}
use alilu_os.Vga.{Vga, light_red, white, black}
use alilu_os.Vga.Bounds.{Op, print, print_line, color}
use alilu_os.Shell.Commands.{Program}
use alilu_os.Kernel.{Kernel, Event, initialize, run}

-- What the kernel finds: the display, the PCI bus, and the addresses that the linker chose.
pub record Hardware : Type 0 where
  pub display : Vga
  pub config : ℕ → ℕ
  pub handlers : EntryPoints
  pub tss_address : ℕ
  pub gdt_address : ℕ
  pub idt_address : ℕ
  pub heap_start : ℕ

-- The kernel with the statics of its drivers.
pub record System : Type 0 where
  pub kernel : Kernel
  pub tables : Loaded
  pub heap : Heap
  pub nic : EthernetDriver

-- `Kernel::new` and `Kernel::initialize`. `IDT` starts as 256 missing gates.
unfoldable pub start : Hardware → System
start hw = record {
  kernel = initialize hw.display;
  tables =
      Gdt.init hw.handlers hw.tss_address hw.gdt_address hw.idt_address (replicate 256 missing);
  heap = Allocator.init Allocator.new hw.heap_start;
  nic = Network.init hw.config new_driver;
}

-- `_start`: after `sti` the events come.
unfoldable pub start_kernel : (Program → Vga → Vga) → List Event → Hardware → System
unfolding start
start_kernel launch events hw = let s = start hw in record s { kernel = run launch events s.kernel }

-- The location of a panic, where it has one.
abbrev location_ops : Option Text → List Op
location_ops (some file) = print (codes "Location: ") ∷ print file ∷ print_line [] ∷ []
location_ops none = []

-- `panic`: what it shows before it halts.
pub panic : Option Text → List Op
panic location =
    color light_red black
    ∷ print_line (codes "\n--- KERNEL PANIC ---")
    ∷ (location_ops location ++ (color white black ∷ []))
