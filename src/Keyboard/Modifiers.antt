-- ===== src/Keyboard/Modifiers.antt =====
-- What a run of scancodes leaves of the modifiers.
use mathlib.Core.List.{foldl}
use alilu_os.Common.{
  ℕ, zero, suc, ◌+◌, ◌<◌, ◌≡◌, refl, ap, ◌∙◌, Bool, true, false, not, ◌||◌, arith,
}
use alilu_os.Common.{List, [], ◌∷◌, ◌++◌, ◌==◌, if◌then◌else◌, replicate, Option, none, some}
use alilu_os.Keyboard.{KeyEvent, Keyboard, press, release, key_of, translate, read_key, read_code}
use alilu_os.Keyboard.Bytes.{translate-pressed, translate-parts, translate-released}
use alilu_os.Interrupts.{State, pop, pop_scancode}
use alilu_os.Interrupts.Queue
use Prim.Native.Nat.{bit_and}
use alilu_os.Interrupts.Ring.{IsValid, contents, pop-dequeue}

-- The state after a run of bytes, oldest first.
abbrev pub run : Keyboard → List ℕ → Keyboard
run = foldl (λ s byte. (translate s byte).1)

abbrev pub AreBytes : List ℕ → Type 0
AreBytes [] = Unit
AreBytes (b ∷ bytes) = (b < 256) × AreBytes bytes

-- What the last byte of a modifier's keys in a run says: pressed or released.
abbrev pub held : (ℕ → Bool) → (ℕ → Bool) → Bool → List ℕ → Bool
held presses releases before [] = before
held presses releases before (b ∷ bytes) =
    held presses releases (if presses b then true else if releases b then false else before) bytes

-- The two shift keys share one state.
abbrev pub shift_held : Bool → List ℕ → Bool
shift_held = held (λ b. b == 0x2A || b == 0x36) (λ b. b == 0xAA || b == 0xB6)

abbrev pub ctrl_held : Bool → List ℕ → Bool
ctrl_held = held (λ b. b == 0x1D) (λ b. b == 0x9D)

abbrev pub alt_held : Bool → List ℕ → Bool
alt_held = held (λ b. b == 0x38) (λ b. b == 0xB8)

translate-held :
    (s : Keyboard) (b : ℕ)
    → b < 256
    → ((translate s b).1.shift ≡ shift_held s.shift (b ∷ []))
      × ((translate s b).1.ctrl ≡ ctrl_held s.ctrl (b ∷ []))
      × ((translate s b).1.alt ≡ alt_held s.alt (b ∷ []))
unfolding key_of
translate-held s b h = rw (translate-parts s b h) (ground arith)

-- After a run of bytes shift, ctrl and alt are held as the last byte of the modifier's own keys says, and as
-- before where the run has none.
pub run-held :
    (bytes : List ℕ) (s : Keyboard)
    → AreBytes bytes
    → ((run s bytes).shift ≡ shift_held s.shift bytes)
      × ((run s bytes).ctrl ≡ ctrl_held s.ctrl bytes)
      × ((run s bytes).alt ≡ alt_held s.alt bytes)
run-held [] s h = (refl, refl, refl)
run-held (b ∷ bytes) s (h, hs) =
    let later = run-held bytes (translate s b).1 hs in
    let (e1, e2, e3) = translate-held s b h in rw (← e1, ← e2, ← e3) later

repeated_caps_lock : (s : Keyboard) → s.caps_lock_pressed ≡ true → (translate s 0x3A).1 ≡ s
unfolding key_of
repeated_caps_lock s h = rw (translate-parts s 0x3A (omega arith)) (ground arith)

run-repeats :
    (n : ℕ) (s : Keyboard)
    → s.caps_lock_pressed ≡ true
    → run s (replicate n 0x3A ++ (0xBA ∷ [])) ≡ record s { caps_lock_pressed = false }
unfolding key_of
run-repeats zero s h = rw (translate-parts s 0xBA (omega arith)) (ground arith)
run-repeats (suc n) s h =
    ap (λ t. run t (replicate n 0x3A ++ (0xBA ∷ []))) (repeated_caps_lock s h) ∙ run-repeats n s h

-- However often the caps lock key repeats while it is down, one press and its release toggle caps
-- lock once and leave every other modifier, when the key was up before.
pub run-caps_lock :
    (n : ℕ) (s : Keyboard)
    → s.caps_lock_pressed ≡ false
    → run s (replicate (suc n) 0x3A ++ (0xBA ∷ []))
      ≡ record s { caps_lock = not s.caps_lock; caps_lock_pressed = false }
unfolding key_of
run-caps_lock n s h =
    let first : (translate s 0x3A).1
        ≡ record s { caps_lock = not s.caps_lock; caps_lock_pressed = true } =
      rw (translate-parts s 0x3A (omega arith)) (ground arith) in
    ap (λ t. run t (replicate n 0x3A ++ (0xBA ∷ []))) first ∙ run-repeats n _ refl

same_key :
    (s : Keyboard) (code : ℕ)
    → (key_of (key_of s false code).1 true code).0 ≡ (key_of s false code).0
unfolding key_of
same_key s code = ground arith

-- A key pressed and then released is released as the key that it was pressed as.
pub translate-released_same :
    (s : Keyboard) (code : ℕ)
    → code < 128
    → ((translate s code).0 ≡ press (key_of s false code).0)
      × ((translate (translate s code).1 (code + 128)).0 ≡ release (key_of s false code).0)
translate-released_same s code h =
    rw (translate-pressed s code h)
      (refl, rw (translate-released (key_of s false code).1 code h) (ap release (same_key s code)))

-- What a byte, if there is one, makes of the driver.
abbrev pub event_of : Option ℕ → Keyboard → Option KeyEvent × Keyboard
event_of none s = (none, s)
event_of (some byte) s = let (event, s') = translate s byte in (some event, s')

abbrev pub or_port : ℕ → ℕ → Option ℕ → Option ℕ
or_port status value (some byte) = some byte
or_port status value none = if not (bit_and status 1 == 0) then some value else none

read_code-event_of :
    (status value : ℕ) (byte : Option ℕ) (s : Keyboard)
    → read_code status value byte s ≡ event_of (or_port status value byte) s
unfolding read_code
read_code-event_of status value (some byte) s = refl
read_code-event_of status value none s = ground arith

-- The driver takes the oldest waiting byte of a valid scancode buffer, and the byte of port 0x60
-- where none waits and bit 0 of port 0x64 is set; it has no event otherwise.
pub read_key-contents :
    (status value : ℕ) (irqs : State) (s : Keyboard)
    → IsValid irqs.scancodes
    → let (event, irqs', s') = read_key status value irqs s in
      let (byte, rest) = Queue.dequeue (contents irqs.scancodes) in
      (contents irqs'.scancodes ≡ rest) × ((event, s') ≡ event_of (or_port status value byte) s)
unfolding read_key pop_scancode
read_key-contents status value irqs s v =
    rw (← pop-dequeue v) (refl, read_code-event_of status value (pop irqs.scancodes).0 s)
