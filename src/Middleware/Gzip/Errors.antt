-- ===== src/Middleware/Gzip/Errors.antt =====
-- middleware/gzip/gzip.go: which requests are compressed, and what its deferred close does to errors.
use revelt.Base.{◌≡◌, ◌⊎◌, refl, ap, true, false, List, [], ◌∷◌, some, arith}
use revelt.Text.{Text, codes, contains}
use revelt.Http.{
  Request, Headers, Handler, returned, no_headers, adapt, default_error_handler, exec, respond,
  Response, write, blank,
}
use revelt.Middleware.Gzip.{Compressor, compressed, any_prefix, not_empty, gzip, through}

-- The middleware compresses just where no path to skip is a prefix of the request's, no encoding is
-- set yet and the client accepts gzip; everywhere else the handler runs on the bare writer.
gzip_choice :
    (z : Compressor) (skip : List Text) (next : Handler) (r : Request) (h : Headers)
    → ((any_prefix z skip r.path ≡ false)
        × (not_empty (h "Content-Encoding") ≡ false)
        × (contains (codes "gzip") (r.headers "Accept-Encoding") ≡ true)
        × (gzip z skip next r h ≡ compressed z next r h))
      ⊎ (((any_prefix z skip r.path ≡ true)
            ⊎ (not_empty (h "Content-Encoding") ≡ true)
            ⊎ (contains (codes "gzip") (r.headers "Accept-Encoding") ≡ false))
          × (gzip z skip next r h ≡ next r h))
unfolding gzip
gzip_choice z skip next r h = ground arith

-- The deferred close writes a trailer for a handler that made no call.
gzip_silent :
    (z : Compressor) (skip : List Text) (next : Handler) (r : Request) (e : Text)
    → next r no_headers ≡ ([], returned (some e))
    → any_prefix z skip r.path ≡ false
    → contains (codes "gzip") (r.headers "Accept-Encoding") ≡ true
    → gzip z skip next r no_headers ≡ (write (z.finish z.start) ∷ [], returned (some e))
unfolding gzip compressed
gzip_silent z skip next r e fails keep accepts = rw (keep, accepts, gzip) (ap (through z) fails)

-- A handler that returns an error before it has written anything is answered with status 500
-- without the middleware, and with status 200 and no encoding header through it, where it applies.
gzip_hides_error :
    (z : Compressor) (skip : List Text) (next : Handler) (r : Request) (e : Text)
    → next r no_headers ≡ ([], returned (some e))
    → any_prefix z skip r.path ≡ false
    → contains (codes "gzip") (r.headers "Accept-Encoding") ≡ true
    → ((adapt default_error_handler next r).status ≡ 500)
      × ((adapt default_error_handler (gzip z skip next) r).status ≡ 200)
      × ((adapt default_error_handler (gzip z skip next) r).sent "Content-Encoding" ≡ [])
unfolding adapt default_error_handler
gzip_hides_error z skip next r e fails keep accepts =
    (rw fails refl, ap (λ u. u.status) hidden, ap (λ u. u.sent "Content-Encoding") hidden)
  where
    trailer : Response
    trailer = exec (write (z.finish z.start) ∷ []) blank

    hidden :
        respond default_error_handler (gzip z skip next r no_headers)
        ≡ exec (default_error_handler e) trailer
    hidden = ap (respond default_error_handler) (gzip_silent z skip next r e fails keep accepts)
