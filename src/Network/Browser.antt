-- ===== src/Network/Browser.antt =====
-- The browser: its history, and the search screen of `start_browser`.
use Prim.Native.String.{String}
use alilu_os.Common.{ℕ, zero, suc, ◌+◌, ◌-◌, not, Option, none, some, List}
use alilu_os.Common.{
  [], ◌∷◌, ◌++◌, ◌==◌, ltb, if◌then◌else◌, Text, codes, is_empty, starts_with, trim,
}
use alilu_os.Common.{pop_char, byte_len, length, min, replicate, map}
use alilu_os.Vga.{Vga, black, white, light_cyan, light_green, dark_gray, light_gray, yellow}
use alilu_os.Vga.Bounds
use alilu_os.Vga.Bounds.{Op, print, print_line, color, wipe}
use alilu_os.Fs.{Result, ok, err}
use alilu_os.Vga.Loops.{screen_loop}
use alilu_os.Shell.{line}
use alilu_os.Network.{HttpResponse, http_get}
use alilu_os.Network.Html.{HtmlDocument, parse_html}

pub record WebBrowser : Type 0 where
  pub current_url : Text
  pub document : Option HtmlDocument
  pub history_back : List Text
  pub history_forward : List Text
  pub scroll_offset : ℕ
  pub selected_link_idx : ℕ

-- `WebBrowser::new`
abbrev pub new : WebBrowser
new = record {
  current_url = [];
  document = none;
  history_back = [];
  history_forward = [];
  scroll_offset = 0;
  selected_link_idx = 0;
}

-- `Vec::pop`: the last item and what stands before it.
abbrev with_first : Text → Option (Text × List Text) → Option (Text × List Text)
with_first t none = some (t, [])
with_first t (some (x, rest)) = some (x, t ∷ rest)

unfoldable pub pop_last : List Text → Option (Text × List Text)
pop_last [] = none
pop_last (t ∷ ts) = with_first t (pop_last ts)

-- A line of a page: a heading green, a link cyan.
abbrev page_line : Text → List Op
page_line text =
    if starts_with text (codes "# ")
    then color light_green black ∷ print_line text ∷ color white black ∷ []
    else if starts_with text (codes "[")
    then color light_cyan black ∷ print_line text ∷ color white black ∷ []
    else print_line text ∷ []

-- `lines.iter().skip(skip).take(take)`, drawn.
unfoldable pub page_lines : (skip take : ℕ) → List Text → List Op
page_lines skip take [] = []
page_lines (suc skip) take (text ∷ texts) = page_lines skip take texts
page_lines zero zero (text ∷ texts) = []
page_lines zero (suc take) (text ∷ texts) = page_line text ++ page_lines zero take texts

abbrev document_ops : Option HtmlDocument → ℕ → List Op
document_ops (some doc) scroll = page_lines scroll 21 doc.lines
document_ops none scroll = line "\n  Loading web page..." ∷ []

-- `WebBrowser::render`
unfoldable pub render : WebBrowser → Vga → Vga
render b = Bounds.run (
    wipe
    ∷ color black light_cyan
    ∷ print (codes " URL: ")
    ∷ print b.current_url
    ∷ print (replicate (70 - min (byte_len b.current_url) 65) b' ')
    ∷ line "[ESC: Exit]"
    ∷ color white black
    ∷ (document_ops b.document b.scroll_offset
        ++ (color black light_gray
            ∷ print (codes " Keys: Up/Down: Scroll | l: Prev Page | r: Next Page | Enter: Follow ")
            ∷ color white black
            ∷ [])))

-- `format_duckduckgo_url`
unfoldable pub format_duckduckgo_url : Text → Text
format_duckduckgo_url query =
    codes "https://html.duckduckgo.com/html/?q=" ++ map (λ c. if c == b' ' then b'+' else c) query

-- `format_str`
abbrev pub format_str : String → Text → String → Text
format_str prefix mid suffix = codes prefix ++ (mid ++ codes suffix)

-- The search screen of `start_browser`.
pub record Search : Type 0 where
  pub query : Text
  pub scroll_offset : ℕ
  pub results : Option (List Text)

-- The arms of `scancode_to_char`.
abbrev keys : List (ℕ × ℕ)
keys =
    (0x1E, b'a')
    ∷ (0x30, b'b')
    ∷ (0x2E, b'c')
    ∷ (0x20, b'd')
    ∷ (0x12, b'e')
    ∷ (0x21, b'f')
    ∷ (0x22, b'g')
    ∷ (0x23, b'h')
    ∷ (0x17, b'i')
    ∷ (0x24, b'j')
    ∷ (0x25, b'k')
    ∷ (0x26, b'l')
    ∷ (0x32, b'm')
    ∷ (0x31, b'n')
    ∷ (0x18, b'o')
    ∷ (0x19, b'p')
    ∷ (0x10, b'q')
    ∷ (0x13, b'r')
    ∷ (0x1F, b's')
    ∷ (0x14, b't')
    ∷ (0x16, b'u')
    ∷ (0x2F, b'v')
    ∷ (0x11, b'w')
    ∷ (0x2D, b'x')
    ∷ (0x15, b'y')
    ∷ (0x2C, b'z')
    ∷ (0x02, b'1')
    ∷ (0x03, b'2')
    ∷ (0x04, b'3')
    ∷ (0x05, b'4')
    ∷ (0x06, b'5')
    ∷ (0x07, b'6')
    ∷ (0x08, b'7')
    ∷ (0x09, b'8')
    ∷ (0x0A, b'9')
    ∷ (0x0B, b'0')
    ∷ (0x39, b' ')
    ∷ (0x34, b'.')
    ∷ (0x35, b'/')
    ∷ (0x0C, b'-')
    ∷ []

abbrev find_key : ℕ → List (ℕ × ℕ) → Option ℕ
find_key code [] = none
find_key code ((k, c) ∷ rest) =
    let later = find_key code rest in if code == k then some c else later

unfoldable pub scancode_to_char : ℕ → Option ℕ
scancode_to_char scancode = find_key scancode keys

-- A character typed into the query: at 60 bytes it is full.
unfoldable pub type_char : Option ℕ → Search → Search
type_char none s = s
type_char (some c) s =
    if ltb (byte_len s.query) 60 then record s { query = s.query ++ (c ∷ []) } else s

-- The down arrow.
abbrev pub scroll_down : Option (List Text) → Search → Search
scroll_down none s = s
scroll_down (some lines) s =
    if ltb (s.scroll_offset + 1) (length lines)
    then record s { scroll_offset = s.scroll_offset + 1 }
    else s

abbrev results_ops : Option (List Text) → ℕ → List Op
results_ops (some []) scroll = line "No search results found." ∷ []
results_ops (some (text ∷ texts)) scroll = page_lines scroll 17 (text ∷ texts)
results_ops none scroll =
    line ""
    ∷ color yellow black
    ∷ line "  Type what you want to search for above and press Enter!"
    ∷ line "  Example queries: 'rust os', 'bare metal keyboard', 'b-tree fs'"
    ∷ color white black
    ∷ []

-- What a round of the loop draws.
unfoldable pub search_ops : Search → List Op
search_ops s =
    wipe
    ∷ color black light_cyan
    ∷ print (codes " DuckDuckGo Search Engine [AliluOS CLI Web Browser]                     ")
    ∷ line ""
    ∷ color white black
    ∷ color light_green black
    ∷ print (codes "Search: ")
    ∷ color white black
    ∷ print s.query
    ∷ print (codes "_")
    ∷ line ""
    ∷ color dark_gray black
    ∷ line "[Type query + Enter: Search | Up/Down: Scroll Results | ESC: Exit]"
    ∷ color light_cyan black
    ∷ line "------------------------------------------------------------------------"
    ∷ color white black
    ∷ results_ops s.results s.scroll_offset

abbrev exit_ops : List Op
exit_ops =
    wipe
    ∷ color light_green black
    ∷ line "=== AliluOS Interactive Shell ==="
    ∷ color white black
    ∷ line "Exited DuckDuckGo search browser.\n"
    ∷ []

module _ (from_utf8 : List ℕ → Option Text) where
  abbrev loaded : Result HttpResponse → Option HtmlDocument → Option HtmlDocument
  loaded (ok response) old = some (parse_html response.body)
  loaded (err _) old = old

  unfoldable pub load_current_page : WebBrowser → WebBrowser
  load_current_page b = record b {
    scroll_offset = 0;
    selected_link_idx = 0;
    document = loaded (http_get from_utf8 b.current_url) b.document;
  }

  unfoldable pub navigate : Text → WebBrowser → WebBrowser
  navigate url b = load_current_page (record b {
    history_back =
        if not (is_empty b.current_url)
        then b.history_back ++ (b.current_url ∷ [])
        else b.history_back;
    history_forward = [];
    current_url = url;
  })

  abbrev pub go_back : Option (Text × List Text) → WebBrowser → WebBrowser
  go_back none b = b
  go_back (some (prev_url, rest)) b = load_current_page (record b {
    history_back = rest;
    history_forward = b.history_forward ++ (b.current_url ∷ []);
    current_url = prev_url;
  })

  unfoldable pub history_back_page : WebBrowser → WebBrowser
  history_back_page b = go_back (pop_last b.history_back) b

  abbrev pub go_forward : Option (Text × List Text) → WebBrowser → WebBrowser
  go_forward none b = b
  go_forward (some (next_url, rest)) b = load_current_page (record b {
    history_forward = rest;
    history_back = b.history_back ++ (b.current_url ∷ []);
    current_url = next_url;
  })

  unfoldable pub history_forward_page : WebBrowser → WebBrowser
  history_forward_page b = go_forward (pop_last b.history_forward) b

  abbrev answer_lines : Text → Result HttpResponse → List Text
  answer_lines query (ok response) = (parse_html response.body).lines
  answer_lines query (err _) =
      format_str "[1] DuckDuckGo Result: " query ""
      ∷ format_str "    Top matching search entry for '" query "' on DuckDuckGo..."
      ∷ []
      ∷ format_str "[2] " query " Reference Manual & Documentation"
      ∷ format_str "    Official reference guides and tutorials for '" query "'"
      ∷ []
      ∷ format_str "[3] Developer Discussions & Examples for " query ""
      ∷ format_str "    Community projects, blogs, and code snippets matching '" query "'"
      ∷ []

  unfoldable pub perform_duckduckgo_search : Text → List Text
  perform_duckduckgo_search query =
      format_str "# DuckDuckGo Search Results: \"" query "\""
      ∷ []
      ∷ answer_lines query (http_get from_utf8 (format_duckduckgo_url query))

  -- Enter, and the query that the command gave.
  unfoldable pub search_query : Search → Search
  search_query s =
      if not (is_empty (trim s.query))
      then record s { scroll_offset = 0; results = some (perform_duckduckgo_search s.query) }
      else s

  -- What a scancode other than that of Escape does.
  unfoldable pub edit_key : ℕ → Search → Search
  edit_key code s =
      if code == 0x1C
      then search_query s
      else if code == 0x0E
      then record s { query = pop_char s.query }
      else if code == 0x48
      then (if ltb 0 s.scroll_offset then record s { scroll_offset = s.scroll_offset - 1 } else s)
      else if code == 0x50
      then scroll_down s.results s
      else type_char (scancode_to_char code) s

  -- One scancode; `none` leaves the browser.
  unfoldable pub search_key : ℕ → Search → Option Search
  search_key code s = if code == 0x01 then none else some (edit_key code s)

  -- `start_browser`
  unfoldable pub start_browser : Text → List ℕ → Vga → Vga
  start_browser initial_query scancodes =
      screen_loop search_key search_ops exit_ops scancodes
        (search_query (record { query = initial_query; scroll_offset = 0; results = none }))
