-- ===== src/Middleware/Cors.antt =====
-- middleware/cors/cors.go. The decimal text of a number is a parameter; MaxAge is a natural number, as a
-- negative one is like 0.
pub mod Policy
use revelt.Base.{
  ℕ, String, Bool, true, false, not, ◌||◌, List, [], ◌∷◌, ◌++◌, Option, none, some, ltb, str_eq,
  if◌then◌else◌,
}
use revelt.Text.{Text, codes, text_eq}
use revelt.Http.{
  Request, Headers, Action, set_header, write_header, set_given, Outcome, returned, Handler, before,
}

pub record Options : Type 0 where
  pub allowed_origins : List Text
  pub allowed_methods : List Text
  pub allowed_headers : List Text
  pub exposed_headers : List Text
  pub allow_credentials : Bool
  pub max_age : ℕ
  pub allow_websockets : Bool

abbrev pub default_options : Options
default_options = record {
  allowed_origins = codes "*" ∷ [];
  allowed_methods =
      codes "GET" ∷ codes "OPTIONS" ∷ codes "POST" ∷ codes "PUT" ∷ codes "DELETE" ∷ [];
  allowed_headers = codes "*" ∷ [];
  exposed_headers = [];
  allow_credentials = false;
  max_age = 5;
  allow_websockets = false;
}

-- strings.Join(ss, ", ")
unfoldable pub join : List Text → Text
join [] = []
join (s ∷ []) = s
join (s ∷ (t ∷ ss)) = s ++ codes ", " ++ join (t ∷ ss)

abbrev given : List Text → Bool
given [] = false
given _ = true

-- The loop over the allowed origins.
unfoldable pub any_origin : Text → List Text → Bool
any_origin origin [] = false
any_origin origin (v ∷ vs) =
    let rest = any_origin origin vs in
    if text_eq v origin || text_eq v (codes "*") then true else rest

unfoldable pub allows : List Text → Text → Bool
unfolding any_origin
allows origins origin = if given origins then any_origin origin origins else true

module _ (decimal : ℕ → Text) where
  abbrev pub extra_rows : Options → List (Bool × (String × Text))
  extra_rows o =
      (given o.allowed_methods, ("Access-Control-Allow-Methods", join o.allowed_methods))
      ∷ (given o.allowed_headers, ("Access-Control-Allow-Headers", join o.allowed_headers))
      ∷ (given o.exposed_headers, ("Access-Control-Expose-Headers", join o.exposed_headers))
      ∷ (o.allow_credentials, ("Access-Control-Allow-Credentials", codes "true"))
      ∷ (ltb 0 o.max_age, ("Access-Control-Max-Age", decimal o.max_age))
      ∷ (o.allow_websockets, ("Access-Control-Allow-Websocket", codes "true"))
      ∷ []

  unfoldable pub cors_headers : Text → Options → List Action
  cors_headers origin o = set_given ((true, ("Access-Control-Allow-Origin", origin)) ∷ extra_rows o)

  preflight : Handler → Handler
  preflight next r h =
      if str_eq r.method "OPTIONS" then (write_header 204 ∷ [], returned none) else next r h

  -- The middleware of New.
  unfoldable pub cors : Options → Handler → Handler
  unfolding allows cors_headers preflight
  cors o next r h =
      let origin = r.headers "Origin" in
      if allows o.allowed_origins origin
      then before (cors_headers origin o) (preflight next) r h
      else (write_header 403 ∷ [], returned none)
