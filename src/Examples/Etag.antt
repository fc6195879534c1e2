-- ===== src/Examples/Etag.antt =====
-- The ETag middleware at concrete inputs.
use revelt.Base.{◌≡◌, refl, [], ◌∷◌, ◌++◌, none, some, str_eq, if◌then◌else◌}
use revelt.Text.{Text, codes, text_eq, contains}
use revelt.Http.{
  Request, Response, Handler, set_header, write, returned, exec, adapt, commit,
  default_error_handler,
}
use revelt.Middleware.Etag.{etag, overlay}
use revelt.Middleware.Etag.Responses.{answer, etag_response, etag_error}

-- A tag that quotes the body.
abbrev quoted : Text → Text
quoted body = codes "'" ++ body ++ codes "'"

abbrev get : Request
get = record {
  method = "GET";
  path = codes "/page";
  headers = λ k. if str_eq k "If-None-Match" then codes "'old'" else [];
  remote_addr = codes "10.0.0.1:4000";
  ctx = λ k. none;
}

abbrev page : Handler
page r h = (
  set_header "Content-Type" (codes "text/plain") ∷ write (codes "he") ∷ write (codes "llo") ∷ [],
  returned none,
)

abbrev broken : Handler
broken r h = (write (codes "half") ∷ [], returned (some (codes "lost")))

-- While the page is sent, another request writes "bye" into the buffer.
etag_response_example :
    let plain = commit 200 (adapt default_error_handler page get) in
    let tagged = commit 200 (adapt default_error_handler (etag quoted [] (codes "bye") page) get) in
    (tagged.status ≡ (answer (quoted plain.body) (overlay (codes "bye") plain.body) get).0)
    × (tagged.body ≡ (answer (quoted plain.body) (overlay (codes "bye") plain.body) get).1)
unfolding adapt etag exec text_eq contains
etag_response_example =
    etag_response quoted [] (codes "bye") page get default_error_handler (tt, (tt, (tt, tt))) refl
      refl refl

race_body : overlay (codes "bye") (codes "hello") ≡ codes "byelo"
unfolding overlay
race_body = refl

etag_error_example :
    (before : Response) × (before.status ≡ 0)
    × (before.body ≡ [])
    × (adapt default_error_handler (etag quoted [] [] broken) get
        ≡ exec (default_error_handler (codes "lost")) before)
unfolding exec etag text_eq contains
etag_error_example =
    etag_error quoted [] [] broken get default_error_handler (codes "lost") (tt, tt) refl refl refl
