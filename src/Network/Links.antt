-- ===== src/Network/Links.antt =====
-- The links that `parse_html` finds: their numbers, and the text and address of an anchor.
use Prim.Native.String.{String}
use alilu_os.Common.{ℕ, ◌+◌, ◌≡◌, refl, Bool, true, false, ◌||◌, arith}
use alilu_os.Common.{List, [], ◌∷◌, ◌++◌, ◌==◌, if◌then◌else◌, Text, codes, length, length-append}
use alilu_os.Common.{starts_with, to_lowercase, text_eq}
use alilu_os.Network.Html.{
  Hyperlink, Parser, initial, push_text, open_tag, apply_tag, close_tag, step, finish, run,
  parse_html,
}

-- Links numbered from `n` on, in order.
abbrev pub Numbered : ℕ → List Hyperlink → Type 0
Numbered n [] = Unit
Numbered n (link ∷ links) = (link.index ≡ n) × Numbered (n + 1) links

Numbered-append :
    (n : ℕ) (links : List Hyperlink) (link : Hyperlink)
    → Numbered n links
    → link.index ≡ n + length links
    → Numbered n (links ++ (link ∷ []))
Numbered-append n [] link v h = (omega arith, tt)
Numbered-append n (l ∷ links) link (e, v) h =
    (e, Numbered-append (n + 1) links link v (omega arith))

record IsCounted (p : Parser) : Type 0 where
  numbered : Numbered 1 p.links
  counter : p.link_counter ≡ 1 + length p.links

if-IsCounted :
    (b : Bool) {p q : Parser} → IsCounted p → IsCounted q → IsCounted (if b then p else q)
if-IsCounted true v w = v
if-IsCounted false v w = w

-- Only the links and their counter matter.
same-IsCounted :
    {p q : Parser} → q.links ≡ p.links → q.link_counter ≡ p.link_counter → IsCounted p → IsCounted q
same-IsCounted e f v = record { numbered = rw e v.numbered; counter = rw (e, f) v.counter }

push_text-IsCounted : (decoded : Text) {p : Parser} → IsCounted p → IsCounted (push_text decoded p)
unfolding push_text
push_text-IsCounted decoded {p} v =
    if-IsCounted p.in_anchor
      record {
        numbered = Numbered-append 1 p.links _ v.numbered v.counter;
        counter = omega (arith, v.counter, length-append {0});
      }
      (same-IsCounted refl refl v)

open_tag-IsCounted : {p : Parser} → IsCounted p → IsCounted (open_tag p)
unfolding open_tag
open_tag-IsCounted {p} v = same-IsCounted refl refl (if-IsCounted _ (push_text-IsCounted _ v) v)

apply_tag-IsCounted : (tag : Text) {p : Parser} → IsCounted p → IsCounted (apply_tag tag p)
unfolding apply_tag
apply_tag-IsCounted tag v =
    let begins = λ (s : String). starts_with (to_lowercase tag) (codes s) in
    let lower = to_lowercase tag in
    if-IsCounted (begins "script" || begins "style" || begins "head") (same-IsCounted refl refl v) (
      if-IsCounted (begins "/script" || begins "/style" || begins "/head")
        (same-IsCounted refl refl v)
        (if-IsCounted (begins "h1") (same-IsCounted refl refl v) (
          if-IsCounted (begins "a " || text_eq lower (codes "a")) (same-IsCounted refl refl v)
            (if-IsCounted (text_eq lower (codes "/a")) (same-IsCounted refl refl v) v))))

step-IsCounted : {p : Parser} (c : ℕ) → IsCounted p → IsCounted (step p c)
unfolding step close_tag
step-IsCounted {p} c v = if-IsCounted (c == b'<') (open_tag-IsCounted v) (
    if-IsCounted (c == b'>')
      (same-IsCounted refl refl (apply_tag-IsCounted p.tag_buffer (same-IsCounted refl refl v)))
      (if-IsCounted p.in_tag (same-IsCounted refl refl v) (same-IsCounted refl refl v)))

run-IsCounted : (html : Text) {p : Parser} → IsCounted p → IsCounted (run p html)
run-IsCounted [] v = v
run-IsCounted (c ∷ html) v = run-IsCounted html (step-IsCounted c v)

-- The links of a page are numbered 1, 2, 3 and so on, in the order of the page.
pub parse_html-Numbered : (html : Text) → Numbered 1 (parse_html html).links
unfolding parse_html finish
parse_html-Numbered html =
    (run-IsCounted html {p = initial} (record { numbered = tt; counter = omega arith })).numbered
