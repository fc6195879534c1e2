-- ===== src/Http/Handlers.antt =====
-- What Adapt makes of a handler behind a middleware.
use revelt.Base.{◌∷◌, [], ap, ◌≢◌, false, ◌≡◌, refl, List, ◌++◌, none, some, arith, Bool, String}
use revelt.Text.{Text, codes}
use revelt.Http.{
  set_header, write, del_header, write_header, is_bodyless, Response, default_error_handler, act,
  Request, Action, Outcome, returned, panicked, Handler, no_headers, headers_after, set_given, exec,
  blank, adapt, respond, before, commit,
}
use revelt.Http.Exec.{commit_again, exec-append, exec-set_given, header_sent, Spares}

pub respond_returned :
    (err_handler : Text → List Action) (as' : List Action) (out : Outcome)
    → out ≡ returned none
    → respond err_handler (as', out) ≡ exec as' blank
unfolding respond
respond_returned err_handler as' (returned none) h = refl
respond_returned err_handler as' (returned (some x)) h = ground arith
respond_returned err_handler as' (panicked v) h = ground arith

-- A middleware that sets headers before the handler: each of them is sent, if the handler leaves it
-- alone and returns without an error.
pub set_before :
    (rows : List (Bool × (String × Text))) (next : Handler) (r : Request)
    (err_handler : Text → List Action) (k : String)
    → let inner = next r (headers_after no_headers (set_given rows)) in
      inner.1 ≡ returned none
      → Spares k inner.0
      → (commit 200 (adapt err_handler (before (set_given rows) next) r)).sent k
        ≡ headers_after no_headers (set_given rows) k
unfolding adapt before
set_before rows next r err_handler k fine spares =
    let h = headers_after no_headers (set_given rows) in
    let (as', out) = next r h in
    rw
      (
        respond_returned err_handler (set_given rows ++ as') out fine,
        exec-append (set_given rows) as' blank,
        exec-set_given rows blank,
      )
      (header_sent k (h k) as' (record blank { headers = h }) spares refl refl)

-- What comes after the header has been sent goes into the body.
late_error :
    (w : Response) (p : Text)
    → w.status ≢ 0
    → is_bodyless w.status ≡ false
    → exec (write_header 500 ∷ write p ∷ []) w ≡ record w { body = w.body ++ p }
unfolding exec act
late_error w p sent full = rw (commit_again 500 w sent, commit_again 200 w sent, full) refl

pub default_error_late :
    (w : Response) (x : Text)
    → w.status ≢ 0
    → is_bodyless w.status ≡ false
    → let u = exec (default_error_handler x) w in
      (u.status ≡ w.status)
      × (u.sent ≡ w.sent)
      × (u.body ≡ w.body ++ codes "Internal Server Error\n")
unfolding exec act default_error_handler
default_error_late w x sent full =
    let told =
      late_error
        (exec
          (del_header "Content-Length"
            ∷ set_header "Content-Type" (codes "text/plain; charset=utf-8")
            ∷ set_header "X-Content-Type-Options" (codes "nosniff")
            ∷ [])
          w)
        (codes "Internal Server Error\n") sent full in
    (ap (λ u. u.status) told, ap (λ u. u.sent) told, ap (λ u. u.body) told)
