-- ===== src/Kernel/Safety.antt =====
-- What holds after the start of the kernel and is kept by interrupts and rounds in any order.
use alilu_os.Common.{ℕ, Option, none, some, List, [], ◌∷◌, refl}
use alilu_os.Interrupts.{pop_scancode, keyboard_interrupt_inner, timer_interrupt_inner}
use alilu_os.Interrupts.Ring
use alilu_os.Interrupts.Ring.{new-IsValid, push-IsValid, pop-IsValid}
use alilu_os.Keyboard.{KeyEvent, read_key}
use alilu_os.Vga.{Vga}
use alilu_os.Vga.Bounds.{IsValid, Safe, Safe-refl, start}
use alilu_os.Fs
use alilu_os.Fs.Order.{NodeOk, DirectoryOk}
use alilu_os.Shell.Commands.{Program}
use alilu_os.Shell.Safety.{IsSound, say-IsSound}
use alilu_os.Shell.Safety.Keys.{handle_key_event-IsSound}
use alilu_os.Kernel.{Kernel, boot_banner, initialize, Event, tick, irq, turn, handle, step, run}

-- The machine is sound and the scancode buffer valid.
pub record IsRunning (display : Vga) (k : Kernel) : Type 0 where
  pub machine : IsSound display k.machine
  pub scancodes : Ring.IsValid k.irqs.scancodes

new-DirectoryOk : DirectoryOk Fs.new.root
unfolding NodeOk
new-DirectoryOk = tt

pub initialize-IsRunning :
    (display : Vga) → IsValid display → IsRunning display (initialize display)
unfolding initialize boot_banner
initialize-IsRunning display v = record {
  machine = say-IsSound _ (
      say-IsSound (start ∷ []) record {
        screen = Safe-refl v;
        ordered = new-DirectoryOk;
        canonical = tt;
        no_viewer = refl;
      });
  scancodes = new-IsValid;
}

read_key-IsValid :
    (status value : ℕ) (k : Kernel)
    → Ring.IsValid k.irqs.scancodes
    → Ring.IsValid (read_key status value k.irqs k.keyboard).1.scancodes
unfolding read_key pop_scancode
read_key-IsValid status value k v = pop-IsValid v

module _ (launch : Program → Vga → Vga)
    (keeps : (p : Program) (s : Vga) → IsValid s → Safe s (launch p s)) {display : Vga} where
  handle-IsRunning :
      (event : Option KeyEvent) {k : Kernel}
      → IsRunning display k
      → IsRunning display (handle launch event k)
  unfolding handle
  handle-IsRunning none v = v
  handle-IsRunning (some event) {k} v = record {
    machine =
        handle_key_event-IsSound launch keeps
          record {
            screen = v.machine.screen;
            ordered = v.machine.ordered;
            canonical = v.machine.canonical;
            no_viewer = v.machine.no_viewer;
          }
          k.keyboard.ctrl event;
    scancodes = v.scancodes;
  }

  step-IsRunning :
      (event : Event) {k : Kernel} → IsRunning display k → IsRunning display (step launch event k)
  unfolding step timer_interrupt_inner keyboard_interrupt_inner
  step-IsRunning tick v = record { machine = v.machine; scancodes = v.scancodes }
  step-IsRunning (irq byte) v = record {
    machine = v.machine;
    scancodes = push-IsValid byte v.scancodes;
  }
  step-IsRunning (turn status value) {k} v =
      handle-IsRunning (read_key status value k.irqs k.keyboard).0
        record { machine = v.machine; scancodes = read_key-IsValid status value k v.scancodes }

  run-IsRunning :
      (events : List Event) {k : Kernel}
      → IsRunning display k
      → IsRunning display (run launch events k)
  unfolding run
  run-IsRunning [] v = v
  run-IsRunning (event ∷ events) v = run-IsRunning events (step-IsRunning event v)

-- The start, and any events behind it.
pub run-initialize :
    (launch : Program → Vga → Vga)
    → ((p : Program) (s : Vga) → IsValid s → Safe s (launch p s))
    → (events : List Event) (display : Vga) → IsValid display
    → IsRunning display (run launch events (initialize display))
run-initialize launch keeps events display v =
    run-IsRunning launch keeps events (initialize-IsRunning display v)
