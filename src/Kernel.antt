-- ===== src/Kernel.antt =====
-- src/kernel.rs: the start of the kernel and the rounds of its loop, between which the interrupt
-- handlers of interrupts.rs run. The display starts with any memory and ports. The other steps of
-- `initialize` are in Kernel/Start.antt.
pub mod Safety
pub mod Start
pub mod Ready
mod Tests
use Prim.Native.String.{String}
use alilu_os.Common.{ℕ, Bool, Option, none, some, List, [], ◌∷◌, codes}
use alilu_os.Interrupts
use alilu_os.Interrupts.{State, keyboard_interrupt_inner, timer_interrupt_inner}
use alilu_os.Keyboard
use alilu_os.Keyboard.{KeyEvent, read_key}
use alilu_os.Vga.{Vga, init, white, black, light_green}
use alilu_os.Vga.Bounds.{Op, print, color, start}
use alilu_os.Fs
use alilu_os.Shell
use alilu_os.Shell.{Machine, say, line}
use alilu_os.Shell.Commands.{Program}
use alilu_os.Shell.Keys.{handle_key_event}

-- `Kernel`, with the statics that it works on.
pub record Kernel : Type 0 where
  pub keyboard : Keyboard.Keyboard
  pub machine : Machine
  pub irqs : State

-- `Kernel::boot_banner`
pub boot_banner : Machine → Machine
boot_banner = say (
    color light_green black
    ∷ line "========================================"
    ∷ line "          Welcome to AliluOS"
    ∷ line "========================================"
    ∷ color white black
    ∷ line ""
    ∷ line "Kernel Initialized Successfully."
    ∷ line ""
    ∷ print (codes "> ")
    ∷ [])

-- `Kernel::new` and `Kernel::initialize`, over the display that the driver finds.
pub initialize : Vga → Kernel
initialize vga = record {
  keyboard = Keyboard.reset Keyboard.new;
  machine =
      boot_banner
        (say (start ∷ []) (record { shell = Shell.new; fs = Fs.new; vga = vga; ticks = 0 }));
  irqs = record { scancodes = Interrupts.new; ticks = 0 };
}

-- What happens to the kernel: an interrupt of the timer, one of the keyboard with its byte, or a
-- round of the loop while ports 0x64 and 0x60 give `status` and `value`.
pub data Event : Type 0 where
  tick : Event
  irq : ℕ → Event
  turn : (status value : ℕ) → Event

module _ (launch : Program → Vga → Vga) where
  -- `Kernel::run` after `read_key` answered.
  pub handle : Option KeyEvent → Kernel → Kernel
  handle none k = k
  handle (some event) k = record k {
    machine =
        handle_key_event launch k.keyboard.ctrl event (record k.machine { ticks = k.irqs.ticks });
  }

  pub step : Event → Kernel → Kernel
  step tick k = record k { irqs = (timer_interrupt_inner k.irqs).0 }
  step (irq byte) k = record k { irqs = (keyboard_interrupt_inner byte k.irqs).0 }
  step (turn status value) k =
      let (event, irqs, keyboard) = read_key status value k.irqs k.keyboard in
      handle event (record k { irqs = irqs; keyboard = keyboard })

  pub run : List Event → Kernel → Kernel
  run [] k = k
  run (event ∷ events) k = run events (step event k)
