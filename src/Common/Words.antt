-- ===== src/Common/Words.antt =====
-- Rust's operations on strings that the shell and the browser use: white space, lines, ends and
-- prefixes, letter case, and lengths in bytes.
use mathlib.Core.Bool.{Bool, true, false, ◌&&◌, ◌||◌}
use mathlib.Core.List.{List, [], ◌∷◌, ◌++◌, reverse, map}
use mathlib.Core.Option.{Option, none, some}
use Prim.Native.Nat.{ℕ, zero, suc, ◌+◌}
use alilu_os.Common.Tests.{ltb, leb, ◌==◌, if◌then◌else◌}
use alilu_os.Common.Strings.{Text, is_empty, text_eq, cons_head, split}

-- `char::is_whitespace`
unfoldable pub is_whitespace : ℕ → Bool
is_whitespace c =
    (leb 9 c && leb c 13)
    || c == b' '
    || c == 0x85
    || c == 0xA0
    || c == 0x1680
    || (leb 0x2000 c && leb c 0x200A)
    || c == 0x2028
    || c == 0x2029
    || c == 0x202F
    || c == 0x205F
    || c == 0x3000

-- `str::trim_start`
unfoldable pub trim_start : Text → Text
trim_start [] = []
trim_start (c ∷ s) = let rest = trim_start s in if is_whitespace c then rest else c ∷ s

-- `str::trim`
unfoldable pub trim : Text → Text
unfolding trim_start is_whitespace
trim s = reverse (trim_start (reverse (trim_start s)))

abbrev pub filled_only : List Text → List Text
filled_only [] = []
filled_only (s ∷ ss) = if is_empty s then filled_only ss else s ∷ filled_only ss

-- `str::split` on the characters that answer a test.
unfoldable pub split_where : (ℕ → Bool) → Text → List Text
split_where test [] = [] ∷ []
split_where test (c ∷ s) =
    let rest = split_where test s in if test c then [] ∷ rest else cons_head c rest

-- `str::split_whitespace`
unfoldable pub split_whitespace : Text → List Text
unfolding split_where is_whitespace
split_whitespace s = filled_only (split_where is_whitespace s)

-- `[&str]::join(" ")`
unfoldable pub join_words : List Text → Text
join_words [] = []
join_words (s ∷ []) = s
join_words (s ∷ t ∷ ss) = s ++ (b' ' ∷ join_words (t ∷ ss))

abbrev pub last {ℓ} : {A : Type ℓ} → List A → Option A
last [] = none
last (x ∷ []) = some x
last (x ∷ y ∷ xs) = last (y ∷ xs)

-- What the last line of `str::lines` is made of: pieces between line feeds, the last one only if it
-- is not empty.
abbrev pub drop_empty_end : List Text → List Text
drop_empty_end [] = []
drop_empty_end (s ∷ []) = if is_empty s then [] else s ∷ []
drop_empty_end (s ∷ t ∷ ss) = s ∷ drop_empty_end (t ∷ ss)

-- A line without the carriage return that ends it.
unfoldable pub strip_return : Text → Text
strip_return [] = []
strip_return (c ∷ []) = if c == b'\r' then [] else c ∷ []
strip_return (c ∷ d ∷ s) = c ∷ strip_return (d ∷ s)

-- `str::lines`
unfoldable pub lines : Text → List Text
unfolding split strip_return
lines s = map strip_return (drop_empty_end (split b'\n' s))

-- `String::pop`
abbrev pub pop_char : Text → Text
pop_char [] = []
pop_char (c ∷ []) = []
pop_char (c ∷ d ∷ s) = c ∷ pop_char (d ∷ s)

unfoldable pub starts_with : Text → Text → Bool
starts_with s [] = true
starts_with [] (p ∷ prefix) = false
starts_with (c ∷ s) (p ∷ prefix) = c == p && starts_with s prefix

-- A slice from a character on.
abbrev pub drop : ℕ → Text → Text
drop zero s = s
drop (suc n) [] = []
drop (suc n) (_ ∷ s) = drop n s

-- What follows the last such character, if there is one: a slice from `rfind(c) + 1` on.
unfoldable pub after_last : ℕ → Text → Option Text
after_last sep [] = none
after_last sep (c ∷ s) = elim (after_last sep s) [
  | some rest ↦ some rest
  | none ↦ if c == sep then some s else none
]

-- `char::to_ascii_lowercase`
abbrev pub to_ascii_lowercase : ℕ → ℕ
to_ascii_lowercase c = if leb b'A' c && leb c b'Z' then c + 32 else c

-- `str::to_lowercase`, as far as its result is ASCII: beside the Latin capitals only the Kelvin sign
-- has such a lower case.
unfoldable pub to_lowercase : Text → Text
to_lowercase [] = []
to_lowercase (c ∷ s) = (if c == 0x212A then b'k' else to_ascii_lowercase c) ∷ to_lowercase s

-- Whether a list of texts has a text: `[&str]::contains`.
unfoldable pub member : Text → List Text → Bool
member s [] = false
member s (t ∷ ts) = text_eq t s || member s ts

-- `str::len`: bytes of UTF-8.
abbrev utf8_size : ℕ → ℕ
utf8_size c = if ltb c 0x80 then 1 else if ltb c 0x800 then 2 else if ltb c 0x10000 then 3 else 4

unfoldable pub byte_len : Text → ℕ
byte_len [] = 0
byte_len (c ∷ s) = utf8_size c + byte_len s
