-- ===== src/Middleware/Cors/Policy.antt =====
-- middleware/cors/cors.go: which requests reach the handler, and what it is told.
use revelt.Base.{ℕ, ◌≡◌, refl, sym, ap, ◌∙◌, true, false, List, [], ◌∷◌, str_eq}
use revelt.Text.{Text}
use revelt.Http.{
  Request, Response, Headers, no_headers, Action, write_header, set_given, headers_after, Handler,
  exec, act, blank, adapt, respond, before, set_key,
}
use revelt.Http.Exec.{set_given-Spares, exec-set_given, headers_after-Spares, exec-append}
use revelt.Middleware.Cors.{Options, allows, extra_rows, cors_headers, preflight, cors}

module _ (decimal : ℕ → Text) where
  origin_echoed :
      (origin : Text) (o : Options) (h : Headers)
      → headers_after h (cors_headers decimal origin o) "Access-Control-Allow-Origin" ≡ origin
  unfolding cors_headers set_given headers_after
  origin_echoed origin o h =
      headers_after-Spares "Access-Control-Allow-Origin"
        (set_key h "Access-Control-Allow-Origin" origin) (set_given (extra_rows decimal o))
        (set_given-Spares "Access-Control-Allow-Origin" (extra_rows decimal o)
          (refl, (refl, (refl, (refl, (refl, (refl, tt)))))))

  -- A request from an origin that is not allowed is answered with the status 403, whatever handler
  -- stands behind.
  cors_blocks :
      (o : Options) (next other : Handler) (r : Request) (err_handler : Text → List Action)
      → allows o.allowed_origins (r.headers "Origin") ≡ false
      → let w = adapt err_handler (cors decimal o next) r in
        (w.status ≡ 403) × (w ≡ adapt err_handler (cors decimal o other) r)
  unfolding cors adapt respond exec
  cors_blocks o next other r err_handler refused = rw (refused) (refl, refl)

  preflighted : Options → Request → Response
  preflighted o r =
      let h = headers_after no_headers (cors_headers decimal (r.headers "Origin") o) in
      record blank { headers = h; status = 204; sent = h }

  answered :
      (o : Options) (r : Request)
      → let rows =
          (true, ("Access-Control-Allow-Origin", r.headers "Origin")) ∷ extra_rows decimal o in
        exec
          (write_header 204 ∷ [])
          (record blank { headers = headers_after no_headers (set_given rows) })
        ≡ preflighted o r
  unfolding exec act preflighted cors_headers
  answered o r = refl

  preflight_response :
      (o : Options) (next : Handler) (r : Request) (err_handler : Text → List Action)
      → allows o.allowed_origins (r.headers "Origin") ≡ true
      → str_eq r.method "OPTIONS" ≡ true
      → adapt err_handler (cors decimal o next) r ≡ preflighted o r
  unfolding cors adapt respond preflight before preflighted cors_headers
  preflight_response o next r err_handler allowed options =
      let rows =
        (true, ("Access-Control-Allow-Origin", r.headers "Origin")) ∷ extra_rows decimal o in
      rw (allowed, options)
        (exec-append (set_given rows) (write_header 204 ∷ []) blank
          ∙ ap (exec (write_header 204 ∷ [])) (exec-set_given rows blank)
          ∙ answered o r)

  -- A preflight request from an allowed origin is answered with the status 204 and that origin,
  -- whatever handler stands behind.
  cors_preflight :
      (o : Options) (next other : Handler) (r : Request) (err_handler : Text → List Action)
      → allows o.allowed_origins (r.headers "Origin") ≡ true
      → str_eq r.method "OPTIONS" ≡ true
      → let w = adapt err_handler (cors decimal o next) r in
        (w.status ≡ 204)
        × (w.sent "Access-Control-Allow-Origin" ≡ r.headers "Origin")
        × (w ≡ adapt err_handler (cors decimal o other) r)
  unfolding preflighted
  cors_preflight o next other r err_handler allowed options =
      let here = preflight_response o next r err_handler allowed options in
      (
        ap (λ w. w.status) here,
        ap (λ w. w.sent "Access-Control-Allow-Origin") here
            ∙ origin_echoed (r.headers "Origin") o no_headers,
        here ∙ sym (preflight_response o other r err_handler allowed options),
      )
