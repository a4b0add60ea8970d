-- ===== src/Keyboard.antt =====
-- src/keyboard.rs: the driver's modifier state and the translation of PS/2 set 1 scancodes.
-- A character is its code; the status and data bytes of the controller's ports are parameters.
mod Bytes
mod Layout
mod Modifiers
mod Tests
use alilu_os.Common.{ℕ, ◌-◌, Bool, true, false, not, ◌||◌, ◌&&◌, Option, none, some}
use alilu_os.Common.{◌==◌, leb, if◌then◌else◌, List, [], ◌∷◌}
use Prim.Native.Nat.{bit_and}
use alilu_os.Interrupts.{State, pop_scancode}

pub data Key : Type 0 where
  character : ℕ → Key
  enter backspace tab escape space : Key
  left right up down : Key
  home end insert delete page_up page_down : Key
  function : ℕ → Key
  shift ctrl alt : Key
  caps_lock num_lock scroll_lock : Key
  unknown : Key

pub data KeyEvent : Type 0 where
  press release : Key → KeyEvent

pub record Keyboard : Type 0 where
  pub shift : Bool
  pub ctrl : Bool
  pub alt : Bool
  pub caps_lock : Bool
  pub caps_lock_pressed : Bool
  pub num_lock : Bool
  pub scroll_lock : Bool

-- `Keyboard::new`
abbrev pub new : Keyboard
new = record {
  shift = false;
  ctrl = false;
  alt = false;
  caps_lock = false;
  caps_lock_pressed = false;
  num_lock = false;
  scroll_lock = false;
}

-- `Keyboard::reset`
abbrev pub reset : Keyboard → Keyboard
reset s = record s {
  shift = false;
  ctrl = false;
  alt = false;
  caps_lock = false;
  caps_lock_pressed = false;
  num_lock = false;
  scroll_lock = false;
}

-- `char::to_ascii_uppercase`
abbrev pub to_ascii_uppercase : ℕ → ℕ
to_ascii_uppercase c = if leb b'a' c && leb c b'z' then c - 32 else c

-- `Keyboard::letter`
abbrev pub letter : Keyboard → ℕ → ℕ
letter s c = if s.caps_lock || s.shift then to_ascii_uppercase c else c

-- The arms of `translate` that pick a character by the shift key: code, shifted, plain.
abbrev pub symbols : List (ℕ × (ℕ × ℕ))
symbols =
    (0x02, (b'!', b'1'))
    ∷ (0x03, (b'@', b'2'))
    ∷ (0x04, (b'#', b'3'))
    ∷ (0x05, (b'$', b'4'))
    ∷ (0x06, (b'%', b'5'))
    ∷ (0x07, (b'^', b'6'))
    ∷ (0x08, (b'&', b'7'))
    ∷ (0x09, (b'*', b'8'))
    ∷ (0x0A, (b'(', b'9'))
    ∷ (0x0B, (b')', b'0'))
    ∷ (0x0C, (b'_', b'-'))
    ∷ (0x0D, (b'+', b'='))
    ∷ (0x1A, (b'{', b'['))
    ∷ (0x1B, (b'}', b']'))
    ∷ (0x27, (b':', b';'))
    ∷ (0x28, (b'"', b'\''))
    ∷ (0x29, (b'~', b'`'))
    ∷ (0x2B, (b'|', b'\\'))
    ∷ (0x33, (b'<', b','))
    ∷ (0x34, (b'>', b'.'))
    ∷ (0x35, (b'?', b'/'))
    ∷ []

-- The arms of `translate` that call `letter`: code and letter.
abbrev pub letters : List (ℕ × ℕ)
letters =
    (0x10, b'q')
    ∷ (0x11, b'w')
    ∷ (0x12, b'e')
    ∷ (0x13, b'r')
    ∷ (0x14, b't')
    ∷ (0x15, b'y')
    ∷ (0x16, b'u')
    ∷ (0x17, b'i')
    ∷ (0x18, b'o')
    ∷ (0x19, b'p')
    ∷ (0x1E, b'a')
    ∷ (0x1F, b's')
    ∷ (0x20, b'd')
    ∷ (0x21, b'f')
    ∷ (0x22, b'g')
    ∷ (0x23, b'h')
    ∷ (0x24, b'j')
    ∷ (0x25, b'k')
    ∷ (0x26, b'l')
    ∷ (0x2C, b'z')
    ∷ (0x2D, b'x')
    ∷ (0x2E, b'c')
    ∷ (0x2F, b'v')
    ∷ (0x30, b'b')
    ∷ (0x31, b'n')
    ∷ (0x32, b'm')
    ∷ []

abbrev arm {ℓ} : {A : Type ℓ} → ℕ → List (ℕ × A) → Option A
arm code [] = none
arm code ((c, a) ∷ arms) = let rest = arm code arms in if code == c then some a else rest

abbrev function_key : ℕ → Key
function_key code =
    if leb 0x3B code && leb code 0x44
    then function (code - 0x3A)
    else if code == 0x57
    then function 11
    else if code == 0x58
    then function 12
    else unknown

-- The arms of `translate` that read the modifiers and leave them.
unfoldable pub character_key : Keyboard → ℕ → Key
character_key s code = elim (arm code symbols) [
  | some (shifted, plain) ↦ character (if s.shift then shifted else plain)
  | none ↦ elim (arm code letters) [ some c ↦ character (letter s c) | none ↦ function_key code ]
]

-- The arm of the caps lock key: a repeated press changes nothing.
abbrev toggle_caps_lock : Keyboard → Bool → Keyboard
toggle_caps_lock s released =
    if not released
    then (if not s.caps_lock_pressed
        then record s { caps_lock = not s.caps_lock; caps_lock_pressed = true }
        else s)
    else record s { caps_lock_pressed = false }

-- The `match` of `Keyboard::translate`: the key of a code, and the state that its arm leaves.
unfoldable pub key_of : Keyboard → Bool → ℕ → Key × Keyboard
key_of s released code =
    if code == 0x01
    then (escape, s)
    else if code == 0x0E
    then (backspace, s)
    else if code == 0x0F
    then (tab, s)
    else if code == 0x1C
    then (enter, s)
    else if code == 0x39
    then (space, s)
    else if code == 0x2A || code == 0x36
    then (Key.shift, record s { shift = not released })
    else if code == 0x1D
    then (Key.ctrl, record s { ctrl = not released })
    else if code == 0x38
    then (Key.alt, record s { alt = not released })
    else if code == 0x3A
    then (Key.caps_lock, toggle_caps_lock s released)
    else (character_key s code, s)

-- `Keyboard::translate`
unfoldable pub translate : Keyboard → ℕ → KeyEvent × Keyboard
translate s scancode =
    let released = not (bit_and scancode 0x80 == 0) in
    let (key, s') = key_of s released (bit_and scancode 0x7F) in
    (if released then release key else press key, s')

-- `Keyboard::read_key` after `pop_scancode` answered, where ports 0x64 and 0x60 give `status` and
-- `value`.
unfoldable pub read_code : ℕ → ℕ → Option ℕ → Keyboard → Option KeyEvent × Keyboard
read_code status value (some scancode) s =
    let (event, s') = translate s scancode in (some event, s')
read_code status value none s =
    if not (bit_and status 1 == 0)
    then (let (event, s') = translate s value in (some event, s'))
    else (none, s)

-- `Keyboard::read_key`
unfoldable pub read_key : ℕ → ℕ → State → Keyboard → Option KeyEvent × State × Keyboard
read_key status value irqs s =
    let (code, irqs') = pop_scancode irqs in
    let (event, s') = read_code status value code s in (event, irqs', s')
