-- ===== src/Interrupts/Tables.antt =====
-- What the processor reads back from the tables and ports that the kernel programs.
use native.Mathlib.Nat.{div-add-mod, div-div-eq-div-mul, suc-mul, pow-suc, one-le-pow}
use native.Mathlib.Numerals.{towards_suc}
use alilu_os.Common.{
  ◌∙◌, ap, ℕ, zero, suc, ◌+◌, ◌-◌, ◌*◌, ◌/◌, ◌%◌, ◌^◌, ◌≤◌, ◌<◌, ◌≡◌, refl, List, [],
}
use alilu_os.Common.{◌∷◌, arith, ltb, ◌==◌, if◌then◌else◌, length, get_or, length-set}
use alilu_os.Common.{get_or-set}
use alilu_os.Ports.{PortWrite}
use alilu_os.Interrupts.{IdtEntry, set_handler, missing, EntryPoints, install, setup_idt}
use alilu_os.Interrupts.{pit_divisor, setup_pit, hex_digit, hex_digits}

-- The entry point that the processor assembles from a gate.
abbrev pub handler_address : IdtEntry → ℕ
handler_address e = e.pointer_low + 2 ^ 16 * e.pointer_middle + 2 ^ 32 * e.pointer_high

-- For a 64-bit address the gate leads to that address, in the kernel's code segment, with the
-- present bit and the interrupt-gate type, whatever the entry held before.
pub set_handler-handler_address :
    (e : IdtEntry) (handler : ℕ)
    → handler < 2 ^ 64
    → (handler_address (set_handler e handler) ≡ handler)
      × ((set_handler e handler).gdt_selector ≡ 8)
      × ((set_handler e handler).options / 2 ^ 15 ≡ 1)
      × (((set_handler e handler).options / 2 ^ 8) % 16 ≡ 14)
unfolding set_handler
set_handler-handler_address e handler h = (omega arith, refl, refl, refl)

length-install : (idt : List IdtEntry) (i a : ℕ) → length (install idt i a) ≡ length idt
unfolding install
length-install idt i a = length-set idt i (set_handler (get_or idt i missing) a)

install-handler_address :
    (idt : List IdtEntry) (i a vector : ℕ)
    → i < length idt
    → a < 2 ^ 64
    → handler_address (get_or (install idt i a) vector missing)
      ≡ (if i == vector then a else handler_address (get_or idt vector missing))
unfolding install
install-handler_address idt i a vector hi ha =
    let e = set_handler (get_or idt i missing) a in
    rw (get_or-set idt i vector e missing hi)
      (ground (arith, (set_handler-handler_address (get_or idt i missing) a ha).0))

-- The handler of a vector, among the five that the kernel installs.
abbrev pub handler_of : EntryPoints → ℕ → ℕ → ℕ
handler_of h vector other =
    if vector == 0
    then h.divide_by_zero
    else if vector == 8
    then h.double_fault
    else if vector == 14
    then h.page_fault
    else if vector == 32
    then h.timer
    else if vector == 33
    then h.keyboard
    else other

-- A vector's gate after `setup_idt`: the five vectors lead to their entry points, every other entry
-- of the 256 is as it was.
pub setup_idt-handler_of :
    (h : EntryPoints) (idt : List IdtEntry) (vector : ℕ)
    → length idt ≡ 256
    → (h.divide_by_zero < 2 ^ 64)
      × (h.double_fault < 2 ^ 64)
      × (h.page_fault < 2 ^ 64)
      × (h.timer < 2 ^ 64)
      × (h.keyboard < 2 ^ 64)
    → handler_address (get_or (setup_idt h idt) vector missing)
      ≡ handler_of h vector (handler_address (get_or idt vector missing))
unfolding setup_idt
setup_idt-handler_of h idt vector n bounds = ground (
  arith,
  length-install idt 0 h.divide_by_zero,
  length-install (install idt 0 h.divide_by_zero) 8 h.double_fault,
  length-install (install (install idt 0 h.divide_by_zero) 8 h.double_fault) 14 h.page_fault,
  length-install
      (install (install (install idt 0 h.divide_by_zero) 8 h.double_fault) 14 h.page_fault) 32
      h.timer,
  install-handler_address idt 0 h.divide_by_zero vector,
  install-handler_address (install idt 0 h.divide_by_zero) 8 h.double_fault vector,
  install-handler_address (install (install idt 0 h.divide_by_zero) 8 h.double_fault) 14
      h.page_fault vector,
  install-handler_address
      (install (install (install idt 0 h.divide_by_zero) 8 h.double_fault) 14 h.page_fault) 32
      h.timer vector,
  install-handler_address
      (install (install (install (install idt 0 h.divide_by_zero) 8 h.double_fault) 14 h.page_fault)
        32 h.timer)
      33 h.keyboard vector,
)

-- The 16-bit divisor that channel 0 holds after its two bytes, low byte first.
abbrev pub divisor_of : List PortWrite → ℕ
divisor_of (_ ∷ low ∷ high ∷ []) = low.value + 2 ^ 8 * high.value
divisor_of _ = 0

-- From 19 Hz up the timer gets the divisor of the frequency, and it is not 0 up to the clock's
-- own 1193182 Hz.
pub setup_pit-divisor_of :
    (frequency : ℕ)
    → 19 ≤ frequency
    → frequency ≤ 1193182
    → (divisor_of (setup_pit frequency) ≡ pit_divisor frequency)
      × (0 < divisor_of (setup_pit frequency))
unfolding setup_pit
setup_pit-divisor_of f lo hi = grind arith

-- The number that a hexadecimal digit stands for, and a row of them, most significant first.
unfoldable pub digit_value : ℕ → ℕ
digit_value c = if ltb c b'A' then c - b'0' else c - b'A' + 10

unfoldable pub value : ℕ → List ℕ → ℕ
unfolding digit_value
value acc [] = acc
value acc (c ∷ cs) = value (16 * acc + digit_value c) cs

digit_value-hex_digit : (d : ℕ) → d < 16 → digit_value (hex_digit d) ≡ d
unfolding hex_digit digit_value
digit_value-hex_digit d h = ground arith

-- One more hexadecimal digit of a remainder.
mod-hex : (t p : ℕ) → 0 < p → t % (16 * p) ≡ ((t / p) % 16) * p + t % p
mod-hex t p h =
    let same : t / p / 16 ≡ t / (16 * p) =
      div-div-eq-div-mul t p 16 ∙ ap (λ k. t / k) (omega arith) in
    omega (
      arith,
      div-add-mod t p,
      div-add-mod t (16 * p),
      ap (λ (x : ℕ). x * p) (div-add-mod (t / p) 16),
      ap (λ (x : ℕ). 16 * p * x) same,
    )

pow-digit : (i : ℕ) → 2 ^ (suc i * 4) ≡ 16 * 2 ^ (i * 4)
pow-digit i = simp (suc-mul, towards_suc) (simp pow-suc (omega arith))

value-hex_digits : (n acc t : ℕ) → value acc (hex_digits n t) ≡ acc * 2 ^ (n * 4) + t % 2 ^ (n * 4)
unfolding value hex_digits
value-hex_digits zero acc t = omega arith
value-hex_digits (suc n) acc t =
    let p : ℕ = 2 ^ (n * 4) in
    let d : ℕ = (t / p) % 16 in
    omega (
      arith,
      value-hex_digits n (16 * acc + digit_value (hex_digit d)) t,
      ap (λ (x : ℕ). x * p) (digit_value-hex_digit d (omega arith)),
      ap (λ (x : ℕ). acc * x) (pow-digit n),
      ap (λ (x : ℕ). t % x) (pow-digit n),
      mod-hex t p (one-le-pow (n * 4) 2 (omega arith)),
    )

-- The sixteen digits of the page-fault report are the faulting 64-bit address in hexadecimal.
pub hex_digits-value : (address : ℕ) → address < 2 ^ 64 → value 0 (hex_digits 16 address) ≡ address
hex_digits-value address h = omega (arith, value-hex_digits 16 0 address)
