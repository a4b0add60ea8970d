-- ===== src/Network/Tests.antt =====
-- Runs of the browser, and its theorems at concrete pages and keys.
use alilu_os.Common.{ℕ, Option, some, none, List, [], ◌≡◌, refl, Text, codes}
use alilu_os.Common.{◌==◌, if◌then◌else◌}
use alilu_os.Network.{pci_find_network_card}
use alilu_os.Network.Pci.{Answers, pci_find_network_card-Answers}
use alilu_os.Network.{http_get, respond, send, connect}
use alilu_os.Network.Html.{parse_html}
use alilu_os.Network.Links.{Numbered, parse_html-Numbered}
use alilu_os.Network.Browser.{
  WebBrowser, Search, navigate, new, history_back_page, history_forward_page,
  perform_duckduckgo_search, load_current_page,
}
use alilu_os.Network.History.{history_forward_page-history_back_page}

-- Decoding that fails: the pages are ASCII in the source.
abbrev from_utf8 : List ℕ → Option Text
from_utf8 bytes = none

abbrev html : Text
html = codes "<p>x</p><a href=\"u\">one</a> <a href=\"v\">two</a>"

parse_html-Numbered_example : Numbered 1 (parse_html html).links
parse_html-Numbered_example = parse_html-Numbered html

-- A browser that went to two pages.
abbrev at_second : WebBrowser
at_second = navigate from_utf8 (codes "http://b") (navigate from_utf8 (codes "http://a") new)

history_forward_page-history_back_page_example :
    history_forward_page from_utf8 (history_back_page from_utf8 at_second) ≡ at_second
unfolding navigate load_current_page http_get respond send connect
history_forward_page-history_back_page_example =
    history_forward_page-history_back_page from_utf8 at_second (codes "http://a") [] refl
      (record { page = refl; top = refl; first = refl })

abbrev scrolled : Search
scrolled = record {
  query = codes "rust";
  scroll_offset = 1;
  results = some (perform_duckduckgo_search from_utf8 (codes "rust"));
}

-- One card, at slot 3 of bus 0.
abbrev one_card : ℕ → ℕ
one_card address = if address == 0x80001800 then 0x100E8086 else 0xFFFFFFFF

pci_find_network_card-Answers_example :
    Answers one_card 0x8086 0x100E (pci_find_network_card one_card 0x8086 0x100E)
pci_find_network_card-Answers_example = pci_find_network_card-Answers one_card 0x8086 0x100E
