-- ===== src/Shell/Names.antt =====
-- The file names that `create` and `edit` accept.
use alilu_os.Common.{ℕ, true, false, Option, none, some, [], ◌∷◌, ◌++◌, ◌≡◌, refl}
use alilu_os.Common.{ap, sym, arith, Text, codes, contains, after_last, member}
use alilu_os.Common.{text_eq, to_lowercase, Bool-cases, inl, inr, ◌⊎◌, value, value-decimal}
use mathlib.Core.Path.{subst}
use alilu_os.Fs.{ok}
use alilu_os.Shell.{file_part, extension, allowed, seconds_to_str, normalize_and_validate_filename}

abbrev behind : Option Text → Text → Option Text
behind none t = none
behind (some s) t = some (s ++ t)

-- A text without the separator is what follows none of them.
after_last_absent : (sep : ℕ) (s : Text) → contains s sep ≡ false → after_last sep s ≡ none
unfolding after_last contains
after_last_absent sep [] h = refl
after_last_absent sep (c ∷ s) h = ground (arith, after_last_absent sep s)

after_last-append :
    (sep : ℕ) (s t : Text)
    → contains t sep ≡ false
    → after_last sep (s ++ t) ≡ behind (after_last sep s) t
unfolding after_last contains
after_last-append sep [] t h = after_last_absent sep t h
after_last-append sep (c ∷ s) t h = ground (arith, after_last-append sep s t h)

-- What follows a separator that is the last one.
after_last_found :
    (sep : ℕ) (s t : Text) → contains t sep ≡ false → after_last sep (s ++ (sep ∷ t)) ≡ some t
unfolding after_last contains
after_last_found sep [] t h = ground (arith, after_last_absent sep t)
after_last_found sep (c ∷ s) t h = ground (arith, after_last_found sep s t)

contains-append_right : (s t : Text) (c : ℕ) → contains t c ≡ true → contains (s ++ t) c ≡ true
unfolding contains
contains-append_right [] t c h = h
contains-append_right (x ∷ s) t c h = ground (arith, contains-append_right s t c)

file_part-append : (p t : Text) → contains t b'/' ≡ false → file_part (p ++ t) ≡ file_part p ++ t
unfolding file_part
file_part-append p t h = ground (arith, after_last-append b'/' p t h)

-- A path whose file name has an extension that is allowed.
pub record IsTextFile (path : Text) : Type 0 where
  pub dotted : contains (file_part path) b'.' ≡ true
  pub known : member (to_lowercase (extension (file_part path))) allowed ≡ true

-- `.txt` is text: it holds no slash, one dot in front, and what follows the dot is on the list.
txt-facts :
    (contains (codes ".txt") b'/' ≡ false)
    × (contains (codes ".txt") b'.' ≡ true)
    × (contains (codes "txt") b'.' ≡ false)
    × (member (to_lowercase (codes "txt")) allowed ≡ true)
unfolding contains to_lowercase member text_eq
txt-facts = (refl, refl, refl, refl)

txt-IsTextFile : (p : Text) → IsTextFile (p ++ codes ".txt")
unfolding extension
txt-IsTextFile p =
    let (no_slash, dot, no_dot, listed) = txt-facts in
    let name = file_part-append p (codes ".txt") no_slash in
    let ext : extension (file_part p ++ codes ".txt") ≡ codes "txt" =
      ap (λ o. elim o [ some e ↦ e | none ↦ [] ])
        (after_last_found b'.' (file_part p) (codes "txt") no_dot) in
    record {
      dotted = rw name (contains-append_right (file_part p) (codes ".txt") b'.' dot);
      known = rw (name, ext) listed;
    }

normalize_lem : (p : Text) → IsTextFile p → normalize_and_validate_filename p ≡ ok p
unfolding normalize_and_validate_filename
normalize_lem p v = ground (arith, v.dotted, v.known)

-- A file name that is accepted is the path itself, or the path with `.txt` behind it; its extension
-- is one of the list, and accepting it again changes nothing.
pub normalize-IsTextFile :
    (p q : Text)
    → normalize_and_validate_filename p ≡ ok q
    → IsTextFile q
      × ((q ≡ p) ⊎ (q ≡ p ++ codes ".txt"))
      × (normalize_and_validate_filename q ≡ ok q)
unfolding normalize_and_validate_filename
normalize-IsTextFile p q h = elim (Bool-cases (contains (file_part p) b'.')) [
  | inl dotted ↦ elim (Bool-cases (member (to_lowercase (extension (file_part p))) allowed)) [
    | inl known ↦
        let same : p ≡ q = ground arith in
        let v : IsTextFile q = subst IsTextFile same (record { dotted = dotted; known = known }) in
        (v, inl (sym same), normalize_lem q v)
    | inr other ↦ absurd (ground arith)
  ]
  | inr plain ↦
      let same : p ++ codes ".txt" ≡ q = ground arith in
      let v : IsTextFile q = subst IsTextFile same (txt-IsTextFile p) in
      (v, inr (sym same), normalize_lem q v)
]

-- The seconds of the uptime, printed, read back as the number.
pub value-seconds_to_str : (secs : ℕ) → value (seconds_to_str secs) ≡ secs
unfolding seconds_to_str
value-seconds_to_str secs = value-decimal secs
