-- ===== src/Network/History.antt =====
-- Going back and forward in the browser's history.
use alilu_os.Common.{ℕ, ◌≡◌, refl, sym, ◌∙◌, ap, false, Option, some, List, [], ◌∷◌, ◌++◌}
use alilu_os.Common.{Text, is_empty, codes}
use alilu_os.Fs.{ok}
use alilu_os.Network.{canned_page, http_get, respond, send, connect}
use alilu_os.Network.Html.{parse_html}
use alilu_os.Network.Browser.{
  WebBrowser, pop_last, load_current_page, navigate, history_back_page, history_forward_page,
  go_back, go_forward,
}

pop_last-append : (ts : List Text) (t : Text) → pop_last (ts ++ (t ∷ [])) ≡ some (t, ts)
unfolding pop_last
pop_last-append [] t = refl
pop_last-append (s ∷ ts) t = rw (pop_last-append ts t) refl

module _ (from_utf8 : List ℕ → Option Text) where
  -- Whatever the address, the HTTP service answers with the page that is built into the kernel.
  pub http_get-canned :
      (url : Text)
      → http_get from_utf8 url
        ≡ ok (record {
          status_code = 200;
          content_type = codes "text/html";
          body = codes canned_page;
        })
  unfolding http_get respond send connect
  http_get-canned url = refl

  -- A browser that shows its page from the top.
  pub record IsFresh (b : WebBrowser) : Type 0 where
    pub page : b.document ≡ some (parse_html (codes canned_page))
    pub top : b.scroll_offset ≡ 0
    pub first : b.selected_link_idx ≡ 0

  fresh : WebBrowser → WebBrowser
  fresh b = record b {
    scroll_offset = 0;
    selected_link_idx = 0;
    document = some (parse_html (codes canned_page));
  }

  load-fresh : (b : WebBrowser) → load_current_page from_utf8 b ≡ fresh b
  unfolding load_current_page http_get respond send connect fresh
  load-fresh b = refl

  back_once :
      (b : WebBrowser) (prev : Text) (rest : List Text)
      → b.history_back ≡ rest ++ (prev ∷ [])
      → history_back_page from_utf8 b
        ≡ fresh (record b {
          history_back = rest;
          history_forward = b.history_forward ++ (b.current_url ∷ []);
          current_url = prev;
        })
  unfolding history_back_page load_current_page http_get respond send connect fresh
  back_once b prev rest e =
      ap (λ popped. go_back from_utf8 popped b) (ap pop_last e ∙ pop_last-append rest prev)

  forward_once :
      (b : WebBrowser) (next : Text) (rest : List Text)
      → b.history_forward ≡ rest ++ (next ∷ [])
      → history_forward_page from_utf8 b
        ≡ fresh (record b {
          history_forward = rest;
          history_back = b.history_back ++ (b.current_url ∷ []);
          current_url = next;
        })
  unfolding history_forward_page load_current_page http_get respond send connect fresh
  forward_once b next rest e =
      ap (λ popped. go_forward from_utf8 popped b) (ap pop_last e ∙ pop_last-append rest next)

  -- From a page shown from the top, with a page before it, going back and then forward again leads
  -- to the same browser, its page and both of its histories included.
  pub history_forward_page-history_back_page :
      (b : WebBrowser) (prev : Text) (rest : List Text)
      → b.history_back ≡ rest ++ (prev ∷ [])
      → IsFresh b
      → history_forward_page from_utf8 (history_back_page from_utf8 b) ≡ b
  unfolding fresh
  history_forward_page-history_back_page b prev rest e v =
      ap (history_forward_page from_utf8) (back_once b prev rest e)
      ∙ forward_once _ b.current_url b.history_forward refl
      ∙ λ i. record b {
        history_back = sym e i;
        document = sym v.page i;
        scroll_offset = sym v.top i;
        selected_link_idx = sym v.first i;
      }

  -- Going back from a page that one navigated to leads to the page before, shown from the top, with
  -- the address that one left as the one page forward.
  pub history_back_page-navigate :
      (b : WebBrowser) (url : Text)
      → is_empty b.current_url ≡ false
      → IsFresh b
      → history_back_page from_utf8 (navigate from_utf8 url b)
        ≡ record b { history_forward = url ∷ [] }
  unfolding navigate load_current_page http_get respond send connect fresh
  history_back_page-navigate b url filled v =
      let pushed : (navigate from_utf8 url b).history_back
          ≡ b.history_back ++ (b.current_url ∷ []) =
        rw filled refl in
      back_once _ b.current_url b.history_back pushed ∙ λ i. record b {
        history_forward = url ∷ [];
        document = sym v.page i;
        scroll_offset = sym v.top i;
        selected_link_idx = sym v.first i;
      }
