-- ===== src/Network/Search.antt =====
-- The scroll position of the search screen.
use alilu_os.Common.{
  ℕ, ◌+◌, ◌-◌, ◌<◌, ◌≡◌, refl, Option, none, some, List, [], ◌∷◌, arith, Bool-cases, inl, inr,
  Option-cases, sym, ltb→lt,
}
use alilu_os.Common.{
  byte_len, ◌==◌, Text, length, true, false, ltb, is_empty, trim, not, if◌then◌else◌, Bool,
}
use mathlib.Core.Path.{subst}
use alilu_os.Network.Browser.{
  Search, search_query, edit_key, search_key, type_char, scancode_to_char, scroll_down,
  perform_duckduckgo_search,
}

-- The first line on the screen is one of the results, and without results nothing is scrolled.
abbrev pub Shown : Option (List Text) → ℕ → Type 0
Shown none scroll = scroll ≡ 0
Shown (some lines) scroll = scroll < length lines

pub record IsShown (s : Search) : Type 0 where
  pub first : Shown s.results s.scroll_offset

if-IsShown : (b : Bool) {s t : Search} → IsShown s → IsShown t → IsShown (if b then s else t)
if-IsShown true v w = v
if-IsShown false v w = w

scrolled_up :
    (results : Option (List Text)) (scroll : ℕ) → Shown results scroll → Shown results (scroll - 1)
scrolled_up none scroll v = omega arith
scrolled_up (some lines) scroll v = omega arith

scroll_down-IsShown :
    (results : Option (List Text)) (s : Search)
    → s.results ≡ results
    → IsShown s
    → IsShown (scroll_down results s)
scroll_down-IsShown none s e v = v
scroll_down-IsShown (some lines) s e v =
    elim (Bool-cases (ltb (s.scroll_offset + 1) (length lines))) [
      | inl more ↦
          rw more (record {
            first = subst (λ r. Shown r (s.scroll_offset + 1)) (sym e) (ltb→lt _ _ more);
          })
      | inr last ↦ rw last v
    ]

type_char-IsShown : (c : Option ℕ) (s : Search) → IsShown s → IsShown (type_char c s)
unfolding type_char
type_char-IsShown none s v = v
type_char-IsShown (some c) s v =
    if-IsShown (ltb (byte_len s.query) 60) (record { first = v.first }) v

module _ (from_utf8 : List ℕ → Option Text) where
  search_query-IsShown : (s : Search) → IsShown s → IsShown (search_query from_utf8 s)
  unfolding search_query perform_duckduckgo_search
  search_query-IsShown s v =
      if-IsShown (not (is_empty (trim s.query))) (record { first = omega arith }) v

  edit_key-IsShown : (code : ℕ) (s : Search) → IsShown s → IsShown (edit_key from_utf8 code s)
  unfolding edit_key
  edit_key-IsShown code s v = if-IsShown (code == 0x1C) (search_query-IsShown s v) (
      if-IsShown (code == 0x0E) (record { first = v.first })
        (if-IsShown (code == 0x48)
          (if-IsShown (ltb 0 s.scroll_offset)
            (record { first = scrolled_up s.results s.scroll_offset v.first }) v)
          (if-IsShown (code == 0x50) (scroll_down-IsShown s.results s refl v)
            (type_char-IsShown (scancode_to_char code) s v))))

  search_key-edit_key :
      (code : ℕ) (s t : Search)
      → search_key from_utf8 code s ≡ some t
      → edit_key from_utf8 code s ≡ t
  unfolding search_key
  search_key-edit_key code s t h = ground arith

  -- The screen after some keys, none of which leaves it.
  unfoldable pub after : List ℕ → Search → Option Search
  after [] s = some s
  after (code ∷ codes) s = elim (search_key from_utf8 code s) [
    | some t ↦ after codes t
    | none ↦ none
  ]

  after-IsShown : (codes : List ℕ) (s t : Search) → IsShown s → after codes s ≡ some t → IsShown t
  unfolding after
  after-IsShown [] s t v h = subst IsShown (ground arith) v
  after-IsShown (code ∷ codes) s t v h = elim (Option-cases (search_key from_utf8 code s)) [
    | inl leaves ↦ absurd (ground arith)
    | inr (u, e) ↦
        after-IsShown codes u t
          (subst IsShown (search_key-edit_key code s u e) (edit_key-IsShown code s v))
          (ground arith)
  ]

  -- Whatever is typed into the search screen, the line that its results are scrolled to is one of
  -- them.
  pub after-search_query :
      (query : Text) (codes : List ℕ) (t : Search)
      → after codes
          (search_query from_utf8 (record { query = query; scroll_offset = 0; results = none }))
        ≡ some t
      → IsShown t
  after-search_query query codes t h =
      after-IsShown codes _ t
        (search_query-IsShown (record { query = query; scroll_offset = 0; results = none })
          (record { first = refl }))
        h
