-- ===== src/Middleware/Recovery.antt =====
-- middleware/recovery/recovery.go.
pub mod Panics
pub mod Logging
use revelt.Base.{
  ℕ, String, Bool, true, false, ◌||◌, List, [], ◌∷◌, ◌++◌, Option, none, some, if◌then◌else◌,
}
use revelt.Text.{Text, codes, text_eq}
use revelt.Http.{
  Request, Action, set_header, write_header, write, Panic, an_error, a_string, a_stringer, a_value,
  Outcome, returned, panicked, Handler,
}

-- A Logger: defaultLogger, or one that the caller has given, by a number.
pub data Logger : Type 0 where
  standard : Logger
  given : ℕ → Logger

-- `error_handler` is nil by default.
pub record Config : Type 0 where
  pub stack_trace : Bool
  pub logger : Logger
  pub error_handler : Option (Request → Text → List Action)
  pub expose_errors : Bool
  pub production_message : Text

abbrev pub default_config : Config
default_config = record {
  stack_trace = false;
  logger = standard;
  error_handler = none;
  expose_errors = false;
  production_message = codes "Internal Server Error";
}

-- convertPanicToError, by the text of the error.
abbrev pub convert_panic : Panic → Text
convert_panic (an_error e) = e
convert_panic (a_string s) = s
convert_panic (a_stringer s) = s
convert_panic (a_value v) = codes "panic: " ++ v

unfoldable pub wants_json : Request → Bool
unfolding text_eq
wants_json r =
    text_eq (r.headers "Content-Type") (codes "application/json")
    || text_eq (r.headers "Accept") (codes "application/json")

abbrev pub message_of : Config → Text → Text
message_of c e = if c.expose_errors then e else c.production_message

module _ (marshal : Text → Option Text) where
  -- The body of {"error": message}, or the plain message where json.Marshal fails.
  abbrev pub json_body : Text → Text
  json_body message = elim (marshal message) [ some data' ↦ data' | none ↦ message ]

  unfoldable pub send_error : Config → Request → Text → List Action
  unfolding wants_json
  send_error c r e =
      if wants_json r
      then write_header 500
        ∷ set_header "Content-Type" (codes "application/json")
        ∷ write (json_body (message_of c e))
        ∷ []
      else write_header 500
        ∷ set_header "Content-Type" (codes "text/plain")
        ∷ write (message_of c e)
        ∷ []

  -- The deferred function, at a value that was recovered.
  on_panic : Config → Request → Text → List Action
  unfolding send_error
  on_panic c r e = elim c.error_handler [ some handle ↦ handle r e | none ↦ send_error c r e ]

  recover : Config → Request → List Action × Outcome → List Action × Outcome
  unfolding on_panic
  recover c r (as', returned e) = (as', returned e)
  recover c r (as', panicked v) = (as' ++ on_panic c r (convert_panic v), returned none)

  unfoldable pub recovery : Config → Handler → Handler
  unfolding recover
  recovery c next r h = recover c r (next r h)
