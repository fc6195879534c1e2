-- ===== src/Examples/App.antt =====
-- The application at concrete inputs.
use revelt.Base.{suc, ℕ, ◌<◌, ◌≡◌, ◌⊎◌, inl, inr, refl, List, [], ◌∷◌, none, some, arith}
use revelt.Text.{Text, codes}
use revelt.Renderer.{RenderInput, RenderError, Output, html}
use revelt.Http.{Request, Handler, set_header, returned, no_headers, exec, blank}
use revelt.App.{AppOption, default_options, configure, with_middleware, root_handler}
use revelt.App.Order.{middleware_order}
use revelt.App.Page.{PageBuilder, Executed, page, Parsed, parsed, cannot_open, render_page}
use revelt.App.Page.Orders.{Among}
use revelt.App.Page.Whole.{IsWhole, IsRefused, page-IsWhole}
use revelt.App.Static.{buffered}
use revelt.App.Static.Gzip.{static_gzip, file_calls}
use revelt.Examples.Middleware.{stored, unstore, unstore-feed}

-- A handler is the list of the marks that a request meets.
abbrev mark : ℕ → List ℕ → List ℕ
mark n h = n ∷ h

abbrev marking : List (AppOption (List ℕ))
marking =
    with_middleware (List ℕ) (mark 1 ∷ mark 2 ∷ []) ∷ with_middleware (List ℕ) (mark 3 ∷ []) ∷ []

middleware_order_example :
    root_handler
      (List ℕ)
      (configure (List ℕ) marking (default_options (List ℕ) 10 (λ e. [])))
      (9 ∷ [])
    ≡ 1 ∷ 2 ∷ 3 ∷ 9 ∷ []
unfolding with_middleware
middleware_order_example =
    middleware_order (List ℕ) marking (mark 1 ∷ mark 2 ∷ mark 3 ∷ []) 10 (λ e. []) (9 ∷ [])
      (mark 1 ∷ mark 2 ∷ [], mark 3 ∷ [], λ o. refl, (mark 3 ∷ [], [], λ o. refl, refl, refl), refl)

abbrev named : RenderInput → Output
named input = html input.component

abbrev no_text : RenderError → Text
no_text e = []

abbrev first_value : List (Text × Text) → Executed
first_value [] = page []
first_value ((k, v) ∷ data') = page v

abbrev parse : Text → Parsed
parse content = parsed first_value

abbrev two_slots : PageBuilder
two_slots = record {
  template = codes "{{ .a }}";
  slots =
      record { key = codes "a"; input = record { component = codes "A"; props = none } }
      ∷ record { key = codes "b"; input = record { component = codes "B"; props = none } }
      ∷ [];
}

page-IsWhole_example :
    IsWhole named no_text parse two_slots
      (cannot_open [])
      (render_page named no_text parse two_slots (cannot_open []) (1 ∷ 0 ∷ []))
    ⊎ IsRefused named no_text parse
        (render_page named no_text parse two_slots (cannot_open []) (1 ∷ 0 ∷ []))
page-IsWhole_example = page-IsWhole named no_text parse two_slots (cannot_open []) (1 ∷ 0 ∷ []) both
  where
    both : (i : ℕ) → i < 2 → Among i (1 ∷ 0 ∷ [])
    both ℕ.zero h = inr (inl refl)
    both (suc ℕ.zero) h = inl refl
    both (suc (suc i)) h = absurd (omega arith)

abbrev get_chunk : Request
get_chunk = record {
  method = "GET";
  path = codes "/static/chunks/a.js";
  headers = no_headers;
  remote_addr = [];
  ctx = λ k. none;
}

abbrev a_file : Handler
a_file r h = (
  file_calls stored (set_header "Content-Length" (codes "2") ∷ []) 200 (codes "a" ∷ codes "b" ∷ []),
  returned none,
)

static_gzip_example :
    let w = exec (a_file get_chunk no_headers).0 blank in
    let u = exec (buffered stored a_file get_chunk no_headers).0 blank in
    unstore u.body ≡ some w.body
static_gzip_example =
    (static_gzip stored unstore a_file get_chunk no_headers
        (set_header "Content-Length" (codes "2") ∷ []) 200 (codes "a" ∷ codes "b" ∷ []) unstore-feed
        (omega arith) (tt, tt) refl).2
      refl
