-- ===== src/Middleware/Csrf.antt =====
-- middleware/csrf/csrf.go. The token cookie and the form value of the request at hand are parameters,
-- and so is the outcome of CreateToken.
pub mod Guard
use revelt.Base.{
  ℕ, String, Bool, true, false, not, ◌||◌, List, [], ◌∷◌, ◌++◌, Option, none, some, str_eq,
  if◌then◌else◌,
}
use revelt.Text.{Text, codes, text_eq}
use revelt.Http.{
  Request, Cookie, Context, with_value, Headers, Action, del_header, set_header, set_cookie,
  write_header, write, Outcome, returned, Handler, before,
}

pub data Created : Type 0 where
  created no_random : Text → Created

abbrev cookie_name : String
cookie_name = "csrf_token"

-- The key of the token on the request's context.
abbrev token_key : String
token_key = "csrf.tokenCtxKey"

unfoldable pub is_safe_method : String → Bool
is_safe_method m = str_eq m "GET" || str_eq m "HEAD" || str_eq m "OPTIONS" || str_eq m "TRACE"

-- Token: empty where the middleware has not run.
unfoldable pub token : Request → Text
token r = elim (r.ctx token_key) [ some t ↦ t | none ↦ [] ]

abbrev pub with_token : Text → Request → Request
with_token t r = record r { ctx = with_value r.ctx token_key t }

abbrev pub token_cookie : Text → Bool → Cookie
token_cookie t secure_cookie = record {
  name = cookie_name;
  value = t;
  max_age_negative = false;
  http_only = true;
  secure = secure_cookie;
}

-- http.Error with the status 403.
abbrev pub forbidden : List Action
forbidden =
    del_header "Content-Length"
    ∷ set_header "Content-Type" (codes "text/plain; charset=utf-8")
    ∷ set_header "X-Content-Type-Options" (codes "nosniff")
    ∷ write_header 403
    ∷ write (codes "Forbidden: CSRF token validation failed\n")
    ∷ []

-- The token that a request submits, in its form or else in its header.
abbrev pub submitted : Text → Request → Text
submitted form r = if text_eq form [] then r.headers "X-CSRF-Token" else form

-- `cookie` is the value of the request's cookie of that name, `form` its form value of that name.
module _ (cookie : Option Text) (form : Text) where
  unfoldable pub validate_csrf_token : Request → Bool
  validate_csrf_token r = elim cookie [
    | none ↦ false
    | some value ↦ if text_eq (submitted form r) [] then false else text_eq (submitted form r) value
  ]

  unfoldable pub get_or_create_token : Created → Bool → Created × List Action
  get_or_create_token fresh secure_cookie = elim cookie [
    | some value ↦ (created value, [])
    | none ↦ elim fresh [
      | no_random e ↦ (no_random e, [])
      | created t ↦ (created t, set_cookie (token_cookie t secure_cookie) ∷ [])
    ]
  ]

  -- The handler of New behind getOrCreateToken.
  unfoldable pub guarded : Handler → Handler
  unfolding is_safe_method validate_csrf_token
  guarded next r h =
      if is_safe_method r.method
      then next r h
      else if validate_csrf_token r
      then next r h
      else (forbidden, returned none)

  unfoldable pub csrf : Created → Bool → Handler → Handler
  unfolding get_or_create_token guarded
  csrf fresh secure_cookie next r h =
      let (token, calls) = get_or_create_token fresh secure_cookie in
      elim token [
        | no_random e ↦ (
          [],
          returned (
              some
                (codes "csrf: unable to create CSRF token: csrf: generating random token: " ++ e)),
        )
        | created t ↦ before calls (guarded next) (with_token t r) h
      ]
