-- ===== src/App/Routes.antt =====
-- app.go: Handle, HandleFunc, HandleStd, HandleFuncStd and the routes of RegisterHealthEndpoints. The mux is the list of
-- what was registered; whether two patterns conflict, so that http.ServeMux panics, is a parameter.
use revelt.Base.{
  ◌≡◌, Bool, true, false, ◌||◌, List, [], ◌∷◌, Option, none, some, arith, if◌then◌else◌,
}
use revelt.Text.{Text, codes}
use revelt.Http.{Request, Response, Handler, Action, adapt}

-- A standard handler, by the response that a request gets.
abbrev pub Route : Type 0
Route = Request → Response

abbrev pub Mux : Type 0
Mux = List (Text × Route)

module _ (conflicts : Text → Text → Bool) where
  unfoldable pub is_taken : Text → Mux → Bool
  is_taken pattern' [] = false
  is_taken pattern' ((p, r) ∷ mux) =
      let rest = is_taken pattern' mux in conflicts pattern' p || rest

  -- mux.Handle; none where it panics.
  unfoldable pub handle_std : Text → Route → Mux → Option Mux
  unfolding is_taken
  handle_std pattern' r mux = if is_taken pattern' mux then none else some ((pattern', r) ∷ mux)

  -- Handle and HandleFunc, with the error handler of the options.
  unfoldable pub handle : (Text → List Action) → Text → Handler → Mux → Option Mux
  unfolding handle_std adapt
  handle error_handler pattern' fn mux = handle_std pattern' (adapt error_handler fn) mux

  -- RegisterHealthEndpoints, with its two handlers.
  unfoldable pub register_health_endpoints : Route → Route → Mux → Option Mux
  unfolding handle_std
  register_health_endpoints healthz readyz mux = elim (handle_std (codes "/healthz") healthz mux) [
    | none ↦ none
    | some mux' ↦ handle_std (codes "/readyz") readyz mux'
  ]

  -- Registering the health endpoints a second time panics.
  register_twice :
      (healthz readyz healthz' readyz' : Route) (mux mux' : Mux)
      → conflicts (codes "/healthz") (codes "/healthz") ≡ true
      → register_health_endpoints healthz readyz mux ≡ some mux'
      → register_health_endpoints healthz' readyz' mux' ≡ none
  unfolding register_health_endpoints handle_std is_taken
  register_twice healthz readyz healthz' readyz' mux mux' same once = ground arith
