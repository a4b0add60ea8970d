-- ===== src/Interrupts/Reports.antt =====
-- src/interrupts.rs: what the handlers of the fatal exceptions show before they halt.
use Prim.Native.String.{String}
use alilu_os.Common.{ℕ, ◌<◌, ◌^◌, ◌≡◌, List, [], ◌∷◌, Text, codes}
use alilu_os.Interrupts.{hex_digits}
use alilu_os.Interrupts.Tables.{value, hex_digits-value}
use alilu_os.Vga.{light_red, black}
use alilu_os.Vga.Bounds.{Op, print, print_line, color}

-- The function that `exception_handler!` makes for a message.
pub exception_inner : String → List Op
exception_inner msg =
    color light_red black
    ∷ print_line (codes "\n--- CPU EXCEPTION ---")
    ∷ print_line (codes msg)
    ∷ print_line (codes "Halting system.")
    ∷ []

pub divide_by_zero_inner : List Op
unfolding exception_inner
divide_by_zero_inner = exception_inner "Divide by Zero Exception (0x00)"

pub double_fault_inner : List Op
unfolding exception_inner
double_fault_inner = exception_inner "Double Fault Exception (0x08)"

-- `page_fault_inner`: each digit is a call of `put_char`, as `write` makes them.
unfoldable pub page_fault_inner : ℕ → List Op
unfolding hex_digits
page_fault_inner faulting_address =
    color light_red black
    ∷ print_line (codes "\n--- CPU EXCEPTION ---")
    ∷ print (codes "Page Fault at address: 0x")
    ∷ print (hex_digits 16 faulting_address)
    ∷ print_line (codes "\nHalting system.")
    ∷ []

-- What a report writes behind the text `0x`, up to its end of line.
abbrev pub address_text : List Op → Text
address_text (_ ∷ _ ∷ print _ ∷ print digits ∷ _) = digits
address_text _ = []

-- The report of a page fault has the faulting 64-bit address in hexadecimal.
pub page_fault_inner-address_text :
    (address : ℕ) → address < 2 ^ 64 → value 0 (address_text (page_fault_inner address)) ≡ address
unfolding page_fault_inner
page_fault_inner-address_text address h = hex_digits-value address h
