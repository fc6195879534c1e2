-- ===== src/Middleware/Recovery/Logging.antt =====
-- middleware/recovery/recovery.go: the options, what is logged of a panic, and what the client is not told of it.
use revelt.Base.{Bool, List, [], ◌∷◌, ◌++◌, Option, if◌then◌else◌}
use revelt.Text.{Text, codes}
use revelt.Http.{Request, Handler, Action, Outcome, returned, panicked}
use revelt.Middleware.Recovery.{Logger, Config, default_config, convert_panic, recovery}

-- An Option.
pub data Setting : Type 0 where
  with_stack_trace with_expose_errors : Bool → Setting
  with_error_handler : Option (Request → Text → List Action) → Setting
  with_logger : Logger → Setting
  with_production_message : Text → Setting

unfoldable pub apply_setting : Setting → Config → Config
apply_setting (with_stack_trace enabled) c = record c { stack_trace = enabled }
apply_setting (with_expose_errors expose) c = record c { expose_errors = expose }
apply_setting (with_error_handler handler) c = record c { error_handler = handler }
apply_setting (with_logger l) c = record c { logger = l }
apply_setting (with_production_message message) c = record c { production_message = message }

-- The loop of New over its options.
unfoldable pub apply_settings : List Setting → Config → Config
unfolding apply_setting
apply_settings [] c = c
apply_settings (s ∷ settings) c = apply_settings settings (apply_setting s c)

-- New
unfoldable pub new : (Text → Option Text) → List Setting → Handler → Handler
unfolding apply_settings recovery
new marshal settings = recovery marshal (apply_settings settings default_config)

-- logError: the logger and the line that it is given.
unfoldable pub log_error : Config → Text → Text → Logger × Text
log_error c stack e = (
  c.logger,
  codes "Panic recovered: "
      ++ (e ++ (if c.stack_trace then codes "\nStack trace:\n" ++ stack else codes "\n")),
)

-- What is logged of a request that ends so.
unfoldable pub logged : Config → Text → Outcome → List (Logger × Text)
unfolding log_error
logged c stack (returned e) = []
logged c stack (panicked v) = log_error c stack (convert_panic v) ∷ []
