-- ===== src/Middleware/Recovery/Panics.antt =====
-- middleware/recovery/recovery.go: what a client sees of a panic.
use revelt.Base.{◌≡◌, refl, List, [], ◌++◌, Option, none, arith, if◌then◌else◌}
use revelt.Text.{Text}
use revelt.Http.{
  Request, Headers, Handler, Action, returned, panicked, Panic, Response, exec, blank, no_headers,
}
use revelt.Http.Exec.{exec-append, exec_unsent}
use revelt.Middleware.Recovery.{
  Config, convert_panic, wants_json, message_of, send_error, recovery, json_body,
}

-- Through the middleware no handler panics: a panic becomes a nil error, and any other outcome is
-- passed on with the handler's calls unchanged.
recovery_outcome :
    (marshal : Text → Option Text) (c : Config) (next : Handler) (r : Request) (h : Headers)
    → ((v : Panic) → (next r h).1 ≡ panicked v → (recovery marshal c next r h).1 ≡ returned none)
      × ((e : Option Text) → (next r h).1 ≡ returned e → recovery marshal c next r h ≡ next r h)
unfolding recovery
recovery_outcome marshal c next r h = (λ v e. ground arith, λ x e. ground arith)

send_error_lem :
    (marshal : Text → Option Text) (c : Config) (r : Request) (e : Text) (w : Response)
    → w.status ≡ 0
    → w.body ≡ []
    → let u = exec (send_error marshal c r e) w in
      (u.status ≡ 500)
      × (u.sent ≡ w.headers)
      × (u.body ≡ (if wants_json r then json_body marshal (message_of c e) else message_of c e))
unfolding send_error exec
send_error_lem marshal c r e w unsent empty = ground arith

pub recovered_calls :
    (marshal : Text → Option Text) (c : Config) (next : Handler) (r : Request) (v : Panic)
    (calls : List Action)
    → c.error_handler ≡ none
    → next r no_headers ≡ (calls, panicked v)
    → (recovery marshal c next r no_headers).0 ≡ calls ++ send_error marshal c r (convert_panic v)
unfolding recovery
recovered_calls marshal c next r v calls default e = rw (e, recovery) (rw (default, recovery) refl)

-- A handler that panics before it has sent anything is answered, where no error handler is
-- configured, with status 500; the body is the message, or its JSON where the request asks for JSON;
-- and the header that is sent is the one the handler left, the Content-Type of the error response
-- being set too late.
pub recovery_response :
    (marshal : Text → Option Text) (c : Config) (next : Handler) (r : Request) (v : Panic)
    (calls : List Action)
    → c.error_handler ≡ none
    → next r no_headers ≡ (calls, panicked v)
    → (exec calls blank).status ≡ 0
    → let u = exec (recovery marshal c next r no_headers).0 blank in
      let message = message_of c (convert_panic v) in
      (u.status ≡ 500)
      × (u.sent ≡ (exec calls blank).headers)
      × (u.body ≡ (if wants_json r then json_body marshal message else message))
recovery_response marshal c next r v calls default e unsent =
    rw
      (
        recovered_calls marshal c next r v calls default e,
        exec-append calls (send_error marshal c r (convert_panic v)) blank,
      )
      (send_error_lem marshal c r (convert_panic v) (exec calls blank) unsent
        (exec_unsent calls blank (λ _. refl) unsent))
