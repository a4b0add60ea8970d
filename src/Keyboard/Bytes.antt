-- ===== src/Keyboard/Bytes.antt =====
-- What a scancode byte below 128 and the byte of the same key with the release bit make of the
-- driver.
use Prim.Native.Nat.{bit_and}
use alilu_os.Common.{ℕ, ◌+◌, ◌%◌, ◌<◌, ◌≡◌, refl, Bool, true, false, not, arith}
use alilu_os.Common.{◌==◌, leb, if◌then◌else◌, holds_up_to, holds_up_to_lem}
use alilu_os.Keyboard.{Keyboard, Key, press, release, key_of, translate}

-- Whether the two masks split the byte as its high bit and the rest.
abbrev splits : ℕ → Bool
splits c =
    if bit_and c 0x7F == (c % 128)
    then (if bit_and c 0x80 == (if leb 128 c then 128 else 0) then true else false)
    else false

byte_parts :
    (c : ℕ) → c < 256 → (bit_and c 0x7F ≡ c % 128) × (not (bit_and c 0x80 == 0) ≡ leb 128 c)
byte_parts c h =
    let table : holds_up_to splits 256 ≡ true = refl in
    let one = holds_up_to_lem splits c 256 h table in ground arith

pub translate-pressed :
    (s : Keyboard) (code : ℕ)
    → code < 128
    → translate s code ≡ (let (key, s') = key_of s false code in (press key, s'))
unfolding translate
translate-pressed s code h = ground (arith, byte_parts code (omega arith))

pub translate-released :
    (s : Keyboard) (code : ℕ)
    → code < 128
    → translate s (code + 128) ≡ (let (key, s') = key_of s true code in (release key, s'))
unfolding translate
translate-released s code h = ground (arith, byte_parts (code + 128) (omega arith))

-- Only a byte below 128 gives a press, that of its key.
pub translate-press :
    (s : Keyboard) (byte : ℕ) (k : Key)
    → byte < 256
    → (translate s byte).0 ≡ press k
    → (byte < 128) × ((key_of s false byte).0 ≡ k)
unfolding translate
translate-press s byte k h e = ground (arith, byte_parts byte)

-- A byte as its code and its release bit.
pub translate-parts :
    (s : Keyboard) (byte : ℕ)
    → byte < 256
    → (translate s byte).1 ≡ (key_of s (leb 128 byte) (byte % 128)).1
unfolding translate
translate-parts s byte h = ground (arith, byte_parts byte)
