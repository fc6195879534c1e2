-- ===== src/Middleware/Csrf/Guard.antt =====
-- middleware/csrf/csrf.go: which requests reach the handler.
use revelt.Base.{
  ◌≡◌, ◌≢◌, ◌⊎◌, inl, inr, refl, ap, Bool, true, false, List, [], Option, none, some, arith,
  Bool-cases,
}
use revelt.Text.{Text, text_eq}
use revelt.Text.Laws.{text_eq_refl, text_eq→eq}
use revelt.Http.{Request, Headers, Action, Handler, no_headers, exec, adapt, respond, before}
use revelt.Middleware.Csrf.{
  Created, created, csrf, guarded, is_safe_method, validate_csrf_token, get_or_create_token,
  submitted, with_token, token,
}

validate-refused :
    (cookie : Option Text) (form : Text) (r : Request)
    → (cookie ≢ some (submitted form r)) ⊎ (submitted form r ≡ [])
    → validate_csrf_token cookie form r ≡ false
unfolding validate_csrf_token text_eq
validate-refused none form r bad = refl
validate-refused (some value) form r (inl ne) =
    ground (arith, text_eq→eq (submitted form r) value, ap {B = Option Text} some)
validate-refused (some value) form r (inr empty) = rw (empty) refl

validate-accepted :
    (t form : Text) (r : Request)
    → t ≢ []
    → submitted form r ≡ t
    → validate_csrf_token (some t) form r ≡ true
unfolding validate_csrf_token
validate-accepted t form r full same = rw (same, text_eq_refl t) (ground (arith, text_eq→eq t []))

guarded_passes :
    (cookie : Option Text) (form : Text) (next : Handler) (r : Request) (h : Headers)
    → validate_csrf_token cookie form r ≡ true
    → guarded cookie form next r h ≡ next r h
unfolding guarded
guarded_passes cookie form next r h valid = elim (Bool-cases (is_safe_method r.method)) [
  | inl safe ↦ rw (safe) refl
  | inr unsafe ↦ rw (unsafe, valid) refl
]

-- A request with an unsafe method whose submitted token is empty, or is not the one in its cookie,
-- is answered with the status 403, whatever handler is protected.
pub csrf_blocks :
    (cookie : Option Text) (form t : Text) (secure : Bool) (next other : Handler) (r : Request)
    (err_handler : Text → List Action)
    → is_safe_method r.method ≡ false
    → (cookie ≢ some (submitted form r)) ⊎ (submitted form r ≡ [])
    → let w = adapt err_handler (csrf cookie form (created t) secure next) r in
      (w.status ≡ 403) × (w ≡ adapt err_handler (csrf cookie form (created t) secure other) r)
unfolding csrf adapt respond exec before guarded get_or_create_token
csrf_blocks none form t secure next other r err_handler unsafe bad = rw (unsafe) (refl, refl)
csrf_blocks (some value) form t secure next other r err_handler unsafe bad =
    rw (unsafe, validate-refused (some value) form (with_token value r) bad) (refl, refl)

-- A request that submits the token of its cookie, not an empty one, is answered by the protected
-- handler as if it stood alone, with that token on the request's context.
csrf_admits :
    (t form : Text) (fresh : Created) (secure : Bool) (next : Handler) (r : Request)
    (err_handler : Text → List Action)
    → t ≢ []
    → submitted form r ≡ t
    → (adapt err_handler (csrf (some t) form fresh secure next) r
        ≡ adapt err_handler next (with_token t r))
      × (token (with_token t r) ≡ t)
unfolding csrf adapt before get_or_create_token token
csrf_admits t form fresh secure next r err_handler full same = (
  ap (respond err_handler) (
      guarded_passes (some t) form next (with_token t r) no_headers
        (validate-accepted t form (with_token t r) full same)),
  refl,
)
