-- ===== src/App.antt =====
-- app.go: the options, the construction and the run of an application. A middleware is any function on
-- handlers of a type `H`; times are in nanoseconds.
pub mod Routes
pub mod Page
pub mod Static
pub mod Probes
pub mod Order
use revelt.Base.{
  ℕ, zero, suc, ◌*◌, Bool, true, false, not, ◌&&◌, List, [], ◌∷◌, ◌++◌, Option, none, some, length,
  get_elem?, ◌==◌, str_eq, String, if◌then◌else◌,
}
use revelt.Text.{Text, codes}
use revelt.Http.{Action}

abbrev second : ℕ
second = 1_000_000_000

module _ (H : Type 0) where
  pub record AppOptions : Type 0 where
    pub read_timeout : ℕ
    pub write_timeout : ℕ
    pub idle_timeout : ℕ
    pub shutdown_timeout : ℕ
    pub middleware : List (H → H)
    pub error_handler : Text → List Action
    pub disable_compression : Bool
    -- The number of certificates of the TLS configuration, if there is one.
    pub tls_config : Option ℕ

  abbrev pub AppOption : Type 0
  AppOption = AppOptions → AppOptions

  unfoldable pub with_read_timeout : ℕ → AppOption
  with_read_timeout d o = record o { read_timeout = d }

  unfoldable pub with_write_timeout : ℕ → AppOption
  with_write_timeout d o = record o { write_timeout = d }

  unfoldable pub with_idle_timeout : ℕ → AppOption
  with_idle_timeout d o = record o { idle_timeout = d }

  unfoldable pub with_shutdown_timeout : ℕ → AppOption
  with_shutdown_timeout d o = record o { shutdown_timeout = d }

  unfoldable pub with_middleware : List (H → H) → AppOption
  with_middleware mw o = record o { middleware = o.middleware ++ mw }

  unfoldable pub with_error_handler : (Text → List Action) → AppOption
  with_error_handler fn o = record o { error_handler = fn }

  unfoldable pub without_compression : AppOption
  without_compression o = record o { disable_compression = true }

  -- WithTLSConfig, for a pair that loads.
  unfoldable pub with_tls_config : AppOption
  with_tls_config o = record o { tls_config = some 1 }

  -- The options of newAppWithConfig before the caller's.
  abbrev pub default_options : ℕ → (Text → List Action) → AppOptions
  default_options shutdown_timeout default_error_handler = record {
    read_timeout = 5 * second;
    write_timeout = 30 * second;
    idle_timeout = 120 * second;
    shutdown_timeout = shutdown_timeout;
    middleware = [];
    error_handler = default_error_handler;
    disable_compression = false;
    tls_config = none;
  }

  unfoldable pub configure : List AppOption → AppOptions → AppOptions
  configure [] o = o
  configure (opt ∷ opts) o = configure opts (opt o)

  -- The loop of Run, from the middleware with index i - 1 down to the first.
  unfoldable pub apply_chain : ℕ → List (H → H) → H → H
  apply_chain zero mws root = root
  apply_chain (suc i) mws root = elim (get_elem? mws i) [
    | none ↦ root
    | some mw ↦ apply_chain i mws (mw root)
  ]

  -- The handler of the server.
  unfoldable pub root_handler : AppOptions → H → H
  unfolding apply_chain
  root_handler o mux = apply_chain (length o.middleware) o.middleware mux

-- What an application does to what it holds.
pub data Effect : Type 0 where
  cancels_context stops_signals registers_static closes_renderer shuts_server_down : Effect
  logs fatal : Text → Effect

pub data NewApp (R : Type 0) : Type 0 where
  app : R → NewApp R
  failed : Text → NewApp R

-- newAppWithConfig, given what New returns for the renderer.
unfoldable pub new_app_with_config : {R : Type 0} → NewApp R → NewApp R × List Effect
new_app_with_config (app renderer) = (app renderer, registers_static ∷ [])
new_app_with_config (failed e) =
    (failed (codes "revelt.NewApp: starting renderer: " ++ e), cancels_context ∷ stops_signals ∷ [])

unfoldable pub new_app : {R : Type 0} → Option Text → NewApp R → NewApp R × List Effect
unfolding new_app_with_config
new_app (some e) renderer = (failed (codes "revelt.NewApp: loading config: " ++ e), [])
new_app none renderer = new_app_with_config renderer

-- The error of ListenAndServe or ListenAndServeTLS.
pub data Listen : Type 0 where
  server_closed : Listen
  listen_fault : Text → Listen

-- `err != nil && err != http.ErrServerClosed`
unfoldable pub report : Option Listen → List Effect
report none = []
report (some server_closed) = []
report (some (listen_fault e)) = fatal (codes "[revelt] server error: " ++ e) ∷ []

-- The goroutine of Run: without certificates the error is not kept.
unfoldable pub serve : Option ℕ → Listen → List Effect
unfolding report
serve none e = report none
serve (some zero) e = report none
serve (some (suc n)) e = report (some e)

abbrev logged : Text → Option Text → List Effect
logged prefix none = []
logged prefix (some e) = logs (prefix ++ e) ∷ []

-- Run after the context is done: `closed` and `stopped` are the errors of the renderer's Close and of
-- Shutdown.
unfoldable pub shut_down : Option Text → Option Text → List Effect
shut_down closed stopped =
    logs (codes "[revelt] shutdown signal received, draining…")
    ∷ stops_signals
    ∷ closes_renderer
    ∷ (logged (codes "[revelt] renderer close error: ") closed
        ++ shuts_server_down
          ∷ (logged (codes "[revelt] graceful shutdown error: ") stopped
              ++ cancels_context ∷ logs (codes "[revelt] stopped.") ∷ []))
