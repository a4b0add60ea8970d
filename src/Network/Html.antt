-- ===== src/Network/Html.antt =====
-- `parse_html` and `decode_entities`.
use Prim.Native.String.{String}
use mathlib.Core.List.{foldl}
use alilu_os.Common.{
  ℕ, zero, suc, ◌+◌, ◌-◌, ◌%◌, Bool, true, false, not, ◌&&◌, ◌||◌, Option, none, some,
}
use alilu_os.Common.{List, [], ◌∷◌, ◌++◌, ◌==◌, if◌then◌else◌, Text, codes, is_empty, text_eq}
use alilu_os.Common.{starts_with, drop, to_lowercase, trim, length}
use alilu_os.Network.{u8_to_str}

pub record Hyperlink : Type 0 where
  pub index : ℕ
  pub text : Text
  pub target_url : Text

pub record HtmlDocument : Type 0 where
  pub title : Text
  pub lines : List Text
  pub links : List Hyperlink

-- `str::replace`, where `skip` characters of an occurrence are still to be passed.
unfoldable pub replace_from : (skip : ℕ) → (pattern to : Text) → Text → Text
replace_from skip pattern to [] = []
replace_from (suc skip) pattern to (c ∷ s) = replace_from skip pattern to s
replace_from zero pattern to (c ∷ s) = elim (starts_with (c ∷ s) pattern) [
  | true ↦ to ++ replace_from (length pattern - 1) pattern to s
  | false ↦ c ∷ replace_from zero pattern to s
]

abbrev replace : Text → Text → Text → Text
replace pattern to s = replace_from 0 pattern to s

unfoldable pub decode_entities : Text → Text
unfolding replace_from
decode_entities input =
    let s1 = replace (codes "&amp;") (codes "&") input in
    let s2 = replace (codes "&lt;") (codes "<") s1 in
    let s3 = replace (codes "&gt;") (codes ">") s2 in replace (codes "&quot;") (codes "\"") s3

-- The variables of `parse_html`.
pub record Parser : Type 0 where
  pub lines : List Text
  pub links : List Hyperlink
  pub link_counter : ℕ
  pub in_tag : Bool
  pub tag_buffer : Text
  pub text_buffer : Text
  pub skip_content : Bool
  pub current_link_url : Text
  pub in_anchor : Bool

abbrev pub initial : Parser
initial = record {
  lines = [];
  links = [];
  link_counter = 1;
  in_tag = false;
  tag_buffer = [];
  text_buffer = [];
  skip_content = false;
  current_link_url = [];
  in_anchor = false;
}

-- The label of a link; its number is cut to a byte.
abbrev label : ℕ → Text → Text
label number text = b'[' ∷ (u8_to_str (number % 256) ++ (codes "] " ++ text))

-- A text at a `<`, decoded: a link inside an anchor, a line elsewhere.
unfoldable pub push_text : Text → Parser → Parser
push_text decoded p =
    if p.in_anchor
    then record p {
      lines = p.lines ++ (label p.link_counter decoded ∷ []);
      links =
          p.links
          ++ (record { index = p.link_counter; text = decoded; target_url = p.current_link_url }
              ∷ []);
      link_counter = p.link_counter + 1;
    }
    else record p { lines = p.lines ++ (decoded ∷ []) }

-- Whether the text read so far is shown.
abbrev shows_text : Parser → Bool
shows_text p = not (is_empty (trim p.text_buffer)) && not p.skip_content

-- At `<`.
unfoldable pub open_tag : Parser → Parser
unfolding push_text
open_tag p =
    let flushed = if shows_text p then push_text (decode_entities (trim p.text_buffer)) p else p in
    record flushed { in_tag = true; text_buffer = []; tag_buffer = [] }

-- What follows `href="` in a tag, where it stands in the tag's lower case: `find` and the slice after
-- it.
unfoldable pub after_href : (lower tag : Text) → Option Text
after_href [] tag = none
after_href (c ∷ lower) tag = elim (starts_with (c ∷ lower) (codes "href=\"")) [
  | true ↦ some (drop 6 tag)
  | false ↦ after_href lower (drop 1 tag)
]

-- What stands before the first quotation mark, if there is one.
unfoldable pub before_quote : Text → Option Text
before_quote [] = none
before_quote (c ∷ s) = elim (c == b'"') [
  | true ↦ some []
  | false ↦ elim (before_quote s) [ some rest ↦ some (c ∷ rest) | none ↦ none ]
]

abbrev url_in : Text → Option Text → Text
url_in current (some url) = url
url_in current none = current

-- The address of an anchor's tag; the last one stays where the tag has none.
unfoldable pub link_url : Text → Text → Text
unfolding after_href before_quote
link_url current tag = elim (after_href (to_lowercase tag) tag) [
  | some rest ↦ url_in current (before_quote rest)
  | none ↦ current
]

-- What a whole tag does.
unfoldable pub apply_tag : Text → Parser → Parser
unfolding link_url
apply_tag tag p =
    let begins = λ (s : String). starts_with (to_lowercase tag) (codes s) in
    if begins "script" || begins "style" || begins "head"
    then record p { skip_content = true }
    else if begins "/script" || begins "/style" || begins "/head"
    then record p { skip_content = false }
    else if begins "h1"
    then record p { lines = p.lines ++ (codes "# " ∷ []) }
    else if begins "a " || text_eq (to_lowercase tag) (codes "a")
    then record p { in_anchor = true; current_link_url = link_url p.current_link_url tag }
    else if text_eq (to_lowercase tag) (codes "/a")
    then record p { in_anchor = false }
    else p

-- At `>`.
unfoldable pub close_tag : Parser → Parser
unfolding apply_tag
close_tag p = record (apply_tag p.tag_buffer (record p { in_tag = false })) { tag_buffer = [] }

-- One round of the loop.
unfoldable pub step : Parser → ℕ → Parser
unfolding open_tag close_tag
step p c =
    if c == b'<'
    then open_tag p
    else if c == b'>'
    then close_tag p
    else if p.in_tag
    then record p { tag_buffer = p.tag_buffer ++ (c ∷ []) }
    else record p { text_buffer = p.text_buffer ++ (c ∷ []) }

-- After the loop: the title is never read from the page.
unfoldable pub finish : Parser → HtmlDocument
finish p = record {
  title = codes "Web Page";
  lines = if shows_text p then p.lines ++ (decode_entities (trim p.text_buffer) ∷ []) else p.lines;
  links = p.links;
}

abbrev pub run : Parser → Text → Parser
run = foldl step

unfoldable pub parse_html : Text → HtmlDocument
unfolding finish step
parse_html html = finish (run initial html)
