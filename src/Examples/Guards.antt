-- ===== src/Examples/Guards.antt =====
-- The middleware that refuses requests or sets headers, at concrete inputs.
use revelt.Base.{ℕ, ◌≡◌, inl, refl, true, [], ◌∷◌, none, some, arith, str_eq, if◌then◌else◌}
use revelt.Text.{Text, codes, text_eq}
use revelt.Http.{Request, Handler, write, returned, adapt, default_error_handler}
use revelt.Middleware.Csrf.{csrf, created, is_safe_method}
use revelt.Middleware.Csrf.Guard.{csrf_blocks}
use revelt.Middleware.Cors.{Options, default_options}

abbrev post : Request
post = record {
  method = "POST";
  path = codes "/save";
  headers = λ k. if str_eq k "Origin" then codes "https://a.example" else [];
  remote_addr = codes "10.0.0.1:4000";
  ctx = λ k. none;
}

abbrev preflight : Request
preflight = record post { method = "OPTIONS" }

abbrev saved : Handler
saved r h = (write (codes "saved") ∷ [], returned none)

abbrev other : Handler
other r h = ([], returned none)

csrf_blocks_example :
    let w =
      adapt default_error_handler
        (csrf (some (codes "t1")) (codes "t2") (created []) true saved)
        post in
    (w.status ≡ 403)
    × (w
        ≡ adapt default_error_handler
            (csrf (some (codes "t1")) (codes "t2") (created []) true other)
            post)
unfolding is_safe_method text_eq
csrf_blocks_example =
    csrf_blocks (some (codes "t1")) (codes "t2") [] true saved other post default_error_handler refl
      (inl (λ e. ground (arith, e)))

abbrev one_origin : Options
one_origin = record default_options { allowed_origins = codes "https://b.example" ∷ [] }

abbrev unary : ℕ → Text
unary n = codes "n"
