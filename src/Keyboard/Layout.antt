-- ===== src/Keyboard/Layout.antt =====
-- The characters that the scancodes of src/keyboard.rs type, and the codes of their keys.
use alilu_os.Common.{ℕ, ◌<◌, ◌≤◌, ◌≡◌, refl, ap, ap₂, ◌∙◌, sym, Bool, true, false, arith}
use alilu_os.Common.{List, [], ◌∷◌, ◌==◌, ltb, if◌then◌else◌, ==_iff, holds_up_to}
use alilu_os.Common.{holds_up_to_lem, Text, codes, suc, ◌+◌, Option, some, none}
use alilu_os.Keyboard.{Key, Keyboard, new, character_key, key_of, translate, character, press}
use alilu_os.Keyboard.Bytes.{translate-pressed, translate-press}

-- The four rows of a US keyboard from left to right: the code of the first key, what the keys type
-- alone, and with shift. The codes of a row follow each other.
abbrev pub rows : List (ℕ × Text × Text)
rows =
    (2, codes "1234567890-=", codes "!@#$%^&*()_+")
    ∷ (16, codes "qwertyuiop[]", codes "QWERTYUIOP{}")
    ∷ (30, codes "asdfghjkl;'`", codes "ASDFGHJKL:\"~")
    ∷ (43, codes "\\zxcvbnm,./", codes "|ZXCVBNM<>?")
    ∷ []

-- The place of a character in a row.
abbrev place : ℕ → Text → Option ℕ
place c [] = none
place c (d ∷ row) =
    let rest = place c row in
    if d == c then some 0 else elim rest [ some i ↦ some (suc i) | none ↦ none ]

-- The code of the key that bears a character, and whether the character is its shifted one.
unfoldable pub key_in : List (ℕ × Text × Text) → ℕ → ℕ × Bool
key_in [] c = (0, false)
key_in ((first, plain, shifted) ∷ others) c =
    let rest = key_in others c in
    elim (place c plain) [
      | some i ↦ (first + i, false)
      | none ↦ elim (place c shifted) [ some i ↦ (first + i, true) | none ↦ rest ]
    ]

unfoldable pub key_for : ℕ → ℕ × Bool
unfolding key_in
key_for = key_in rows

-- The code of a character's key, and the shift key that it needs while caps lock is off.
unfoldable pub code_of : ℕ → ℕ
code_of c = (key_for c).0

unfoldable pub needs_shift : ℕ → Bool
needs_shift c = (key_for c).1

-- The modifiers that a character depends on.
abbrev with_modifiers : Bool → Bool → Keyboard
with_modifiers b caps = record new { shift = b; caps_lock = caps }

abbrev is_character : Key → ℕ → Bool
is_character (character d) c = d == c
is_character _ c = false

types : ℕ → Bool
types c =
    if ltb c 33
    then true
    else if ltb (code_of c) 128
    then is_character (key_of (with_modifiers (needs_shift c) false) false (code_of c)).0 c
    else false

every_character : holds_up_to types 127 ≡ true
unfolding key_for code_of needs_shift key_of character_key types
every_character = refl

is_character-≡ : (k : Key) (c : ℕ) → is_character k c ≡ true → k ≡ character c
is_character-≡ (character d) c h = ap character ((==_iff d c).0 h)
is_character-≡ _ c h = ground arith

types-key :
    (c : ℕ)
    → 33 ≤ c
    → types c ≡ true
    → (code_of c < 128)
      × ((key_of (with_modifiers (needs_shift c) false) false (code_of c)).0 ≡ character c)
unfolding types
types-key c lo h =
    ground
      (arith, is_character-≡ (key_of (with_modifiers (needs_shift c) false) false (code_of c)).0 c)

-- The key depends on the shift and caps lock states alone.
key_of-modifiers :
    (s : Keyboard) (r : Bool) (code : ℕ)
    → (key_of s r code).0 ≡ (key_of (with_modifiers s.shift s.caps_lock) false code).0
unfolding key_of character_key
key_of-modifiers s r code = ground arith

-- A key that types a character leaves the modifiers.
key_of-character :
    (s : Keyboard) (r : Bool) (code c : ℕ)
    → (key_of s r code).0 ≡ character c
    → (key_of s r code).1 ≡ s
unfolding key_of
key_of-character s r code c h = ground arith

-- Every printable character but the space is typed by its key on a US keyboard, with shift where
-- the character needs it, while caps lock is off; the press leaves the driver's state.
pub translate-code_of :
    (c : ℕ) (s : Keyboard)
    → 33 ≤ c
    → c < 127
    → s.caps_lock ≡ false
    → s.shift ≡ needs_shift c
    → translate s (code_of c) ≡ (press (character c), s)
translate-code_of c s lo hi caps shifted =
    let typed = types-key c lo (holds_up_to_lem types c 127 hi every_character) in
    let key : (key_of s false (code_of c)).0 ≡ character c =
      rw (key_of-modifiers, shifted, caps) typed.1 in
    translate-pressed s (code_of c) typed.0
    ∙ ap₂ (λ k s. (press k, s)) key (key_of-character s false (code_of c) c key)

abbrev bears : ℕ → Key → Bool
bears code (character c) = code_of c == code
bears code _ = true

own_code : Bool → Bool → ℕ → Bool
own_code b caps code = bears code (key_of (with_modifiers b caps) false code).0

own_code-lem :
    (b caps : Bool) (code c : ℕ)
    → own_code b caps code ≡ true
    → (key_of (with_modifiers b caps) false code).0 ≡ character c
    → code_of c ≡ code
unfolding own_code
own_code-lem b caps code c h e = (==_iff _ _).0 (ap (bears code) (sym e) ∙ h)

own_code-table : (b caps : Bool) → holds_up_to (own_code b caps) 128 ≡ true
unfolding own_code key_for code_of key_of character_key
own_code-table true true = refl
own_code-table true false = refl
own_code-table false true = refl
own_code-table false false = refl

-- A byte below 256 whose press types a character is the code of that character's key: no two keys
-- type the same character, whatever the modifiers are.
pub code_of-translate :
    (s : Keyboard) (byte c : ℕ)
    → byte < 256
    → (translate s byte).0 ≡ press (character c)
    → code_of c ≡ byte
code_of-translate s byte c h e =
    let (low, key) = translate-press s byte (character c) h e in
    own_code-lem s.shift s.caps_lock byte c
      (holds_up_to_lem (own_code s.shift s.caps_lock) byte 128 low (own_code-table _ _))
      (sym (key_of-modifiers s false byte) ∙ key)
