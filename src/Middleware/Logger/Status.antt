-- ===== src/Middleware/Logger/Status.antt =====
-- middleware/logger/logger.go: the middleware changes no response, and what status it logs.
use revelt.Base.{ℕ, ◌≡◌, refl, ap, ◌∙◌, false, not, List, [], ◌∷◌, Option, none, some, ◌==◌}
use revelt.Text.{Text}
use revelt.Http.{
  default_error_handler, Action, Response, Request, Handler, Outcome, returned, respond, no_headers,
}
use revelt.Middleware.Logger.{
  format_of, Config, Capture, fresh, capture_all, Line, completed, skips, observe, log_args,
  finish_log, log_requests,
}

-- The wrapper beside the response under it.
record Tracks (w : Response) (s : Capture) : Type 0 where
  same : s.status ≡ w.status
  flagged : s.wrote_header ≡ not (w.status == 0)

module _ (decimal : ℕ → Text) (split_host_port : Text → Option Text) (config : Option Config)
    (latency : Text) (next : Handler) (r : Request) (err_handler : Text → List Action) where
  abbrev pub logged : (List Action × Outcome) × List Line
  logged = log_requests decimal split_host_port config latency next r no_headers

  -- The line for a status.
  abbrev pub line_of : ℕ → Line
  line_of status = record {
    format = format_of (completed config).format;
    args = log_args decimal split_host_port (completed config).flags status latency r;
  }

  abbrev observed : List Action → Option Text → (List Action × Outcome) × List Line
  observed as' err =
      observe decimal split_host_port (completed config) latency r (as', returned err)

  observed-quiet :
      (as' : List Action) (err : Option Text)
      → (completed config).callback ≡ none
      → observed as' err
        ≡ (((capture_all as' fresh).1, returned err), line_of (capture_all as' fresh).0.status ∷ [])
  unfolding observe finish_log
  observed-quiet as' err quiet = rw (finish_log, quiet) refl

  logged_not_skipped :
      (as' : List Action) (err : Option Text)
      → skips decimal split_host_port (completed config) r ≡ false
      → next r no_headers ≡ (as', returned err)
      → logged ≡ observed as' err
  unfolding log_requests
  logged_not_skipped as' err kept calls = rw (log_requests, kept, calls) refl

  -- A handler that returns an error without a call on the writer is logged with status 200, where no
  -- callback is set; the default error handler answers with 500.
  logger_misses_error :
      (e : Text)
      → (completed config).callback ≡ none
      → skips decimal split_host_port (completed config) r ≡ false
      → next r no_headers ≡ ([], returned (some e))
      → ((respond default_error_handler logged.0).status ≡ 500) × (logged.1 ≡ line_of 200 ∷ [])
  unfolding log_args capture_all respond default_error_handler
  logger_misses_error e quiet kept calls =
      let all = logged_not_skipped [] (some e) kept calls ∙ observed-quiet [] (some e) quiet in
      (ap (λ out. (respond default_error_handler out.0).status) all, ap (λ out. out.1) all)
