-- ===== src/Middleware/Etag/Responses.antt =====
-- middleware/etag/etag.go: the responses under the middleware of New.
use revelt.Base.{
  ℕ, ◌≡◌, ◌≤◌, inl, inr, refl, sym, ap, ◌∙◌, Bool, true, not, List, [], ◌∷◌, ◌++◌, none, some, All,
  arith, ◌&&◌, Bool-cases, if◌then◌else◌,
}
use mathlib.Core.Path.{subst₂}
use mathlib.Core.List.{append-nil}
use revelt.Text.{Text, text_eq}
use revelt.Http.{
  Request, Action, set_header, write_header, write, Response, Handler, act, exec, blank, commit,
  adapt, respond, Outcome, returned, panicked, no_headers,
}
use revelt.Http.Exec.{commit_again, exec-append}
use revelt.Http.Handlers.{respond_returned}
use revelt.Middleware.Gzip.Stream.{IsPlain}
use revelt.Middleware.Etag.{
  Writer, fresh, wrap_all, overlay, finish, conclude, through, etag, is_cacheable,
}
use revelt.Middleware.Etag.Buffering.{Sim, untouched, buffered, passed, Sim-handled}

-- What the wrapper holds for a response of the status 200.
abbrev Held : Response → Response → Writer → Type 0
Held w u e =
    (e.status ≡ 200)
    × ((commit 200 w).body ≡ e.buf)
    × (e.hashed ≡ e.buf)
    × (u.status ≡ 0)
    × (u.body ≡ [])

held : (w u : Response) (e : Writer) → Sim w u e → (commit 200 w).status ≡ 200 → Held w u e
held w u e (untouched new same z b) ok =
    subst₂ (λ x g. Held w x g) (sym same) (sym new) (refl, ground arith, refl, z, b)
held w u e (buffered b) ok = (
  b.is_ok,
  ap (λ x. x.body) (commit_again 200 w (ground arith)) ∙ b.body,
  b.fed,
  b.unsent,
  b.empty,
)
held w u e (passed same ne wrote sent not_ok) ok =
    absurd (not_ok (sym (ap (λ x. x.status) (commit_again 200 w sent)) ∙ ok))

abbrev fails_match : Text → Text → Bool
fails_match if_match value = not (text_eq if_match []) && not (text_eq if_match value)

-- The status and body that the conditional headers ask for.
unfoldable pub answer : Text → Text → Request → ℕ × Text
answer value body r =
    if text_eq (r.headers "If-None-Match") value
    then (304, [])
    else if fails_match (r.headers "If-Match") value
    then (412, [])
    else (200, body)

-- The calls of finish after a response of the status 200.
abbrev answer_calls : Text → Text → Request → List Action
answer_calls value body r =
    if text_eq (r.headers "If-None-Match") value
    then write_header 304 ∷ []
    else if fails_match (r.headers "If-Match") value
    then write_header 412 ∷ []
    else set_header "ETag" value ∷ write_header 200 ∷ write body ∷ []

sent_short :
    (code : ℕ) (u : Response)
    → u.status ≡ 0
    → u.body ≡ []
    → 200 ≤ code
    → let w = commit 200 (act (write_header code) u) in (w.status ≡ code) × (w.body ≡ [])
unfolding act
sent_short code u z b real = ground arith

sent_full :
    (value body : Text) (u : Response)
    → u.status ≡ 0
    → u.body ≡ []
    → let w = commit 200 (exec (set_header "ETag" value ∷ write_header 200 ∷ write body ∷ []) u) in
      (w.status ≡ 200) × (w.body ≡ body)
unfolding exec act
sent_full value body u z b = rw (z, b) (refl, refl)

module _ (tag : Text → Text) where
  finish_held :
      (other : Text) (r : Request) (e : Writer)
      → e.status ≡ 200
      → finish tag other r e ≡ answer_calls (tag e.hashed) (overlay other e.buf) r
  unfolding finish
  finish_held other r e ok = simp ok

answer_calls_response :
    (value body : Text) (r : Request) (u : Response)
    → u.status ≡ 0
    → u.body ≡ []
    → let w = commit 200 (exec (answer_calls value body r) u) in
      (w.status ≡ (answer value body r).0) × (w.body ≡ (answer value body r).1)
unfolding answer exec act
answer_calls_response value body r u z b =
    elim (Bool-cases (text_eq (r.headers "If-None-Match") value)) [
      | inl fresh_copy ↦ rw (fresh_copy) (sent_short 304 u z b (ground arith))
      | inr stale ↦ elim (Bool-cases (fails_match (r.headers "If-Match") value)) [
        | inl fails ↦ rw (stale, fails) (sent_short 412 u z b (ground arith))
        | inr fine ↦ rw (stale, fine) (sent_full value body u z b)
      ]
    ]

adapt_returned :
    (next : Handler) (r : Request) (err_handler : Text → List Action)
    → (next r no_headers).1 ≡ returned none
    → adapt err_handler next r ≡ exec (next r no_headers).0 blank
unfolding adapt
adapt_returned next r err_handler fine =
    respond_returned err_handler (next r no_headers).0 (next r no_headers).1 fine

module _ (tag : Text → Text) where
  through_returned :
      (other : Text) (r : Request) (as' : List Action) (out : Outcome)
      → out ≡ returned none
      → let (e, calls) = wrap_all as' fresh in
        through tag other r (as', out) ≡ (calls ++ finish tag other r e, out)
  unfolding through conclude
  through_returned other r as' (returned none) h = refl
  through_returned other r as' (returned (some x)) h = ground arith
  through_returned other r as' (panicked v) h = ground arith

  etag_calls :
      (skip : List (Request → Bool)) (other : Text) (next : Handler) (r : Request)
      (err_handler : Text → List Action)
      → (next r no_headers).1 ≡ returned none
      → is_cacheable r skip ≡ true
      → let (e, calls) = wrap_all (next r no_headers).0 fresh in
        adapt err_handler (etag tag skip other next) r
        ≡ exec (finish tag other r e) (exec calls blank)
  unfolding etag adapt
  etag_calls skip other next r err_handler fine cacheable =
      let (as', out) = next r no_headers in
      let (e, calls) = wrap_all as' fresh in
      rw (cacheable, through_returned other r as' out fine)
        (respond_returned err_handler (calls ++ finish tag other r e) out fine
          ∙ exec-append calls (finish tag other r e) blank)

  -- For a cacheable request, where the handler does not flush, sends no status below 200 and returns without an error, a
  -- response of the status 200 is answered by its conditional headers, against the tag of the body:
  -- 304 or 412 without a body, or 200 with the bytes then in the shared buffer, which are the
  -- handler's when no other request has taken the buffer.
  pub etag_response :
      (skip : List (Request → Bool)) (other : Text) (next : Handler) (r : Request)
      (err_handler : Text → List Action)
      → All IsPlain (next r no_headers).0
      → (next r no_headers).1 ≡ returned none
      → is_cacheable r skip ≡ true
      → let plain = commit 200 (adapt err_handler next r) in
        let tagged = commit 200 (adapt err_handler (etag tag skip other next) r) in
        plain.status ≡ 200
        → (tagged.status ≡ (answer (tag plain.body) (overlay other plain.body) r).0)
          × (tagged.body ≡ (answer (tag plain.body) (overlay other plain.body) r).1)
  etag_response skip other next r err_handler plainly fine cacheable ok =
      let as' = (next r no_headers).0 in
      let (e, calls) = wrap_all as' fresh in
      let alone = adapt_returned next r err_handler fine in
      let (e_ok, body, fed, unsent, empty) =
        held (exec as' blank) (exec calls blank) e (Sim-handled as' plainly)
          (sym (ap (λ w. (commit 200 w).status) alone) ∙ ok) in
      rw
        (
          etag_calls skip other next r err_handler fine cacheable,
          finish_held tag other r e e_ok,
          fed,
          alone,
          body,
        )
        (answer_calls_response (tag e.buf) (overlay other e.buf) r (exec calls blank) unsent empty)

  through_failed :
      (other : Text) (r : Request) (err_handler : Text → List Action) (x : Text) (as' : List Action)
      (out : Outcome)
      → out ≡ returned (some x)
      → respond err_handler (through tag other r (as', out))
        ≡ exec (err_handler x) (exec (wrap_all as' fresh).1 blank)
  unfolding through conclude respond
  through_failed other r err_handler x as' (returned none) h = ground arith
  through_failed other r err_handler x as' (returned (some y)) h =
      let same : y ≡ x = ground arith in rw (same, append-nil (wrap_all as' fresh).1) refl
  through_failed other r err_handler x as' (panicked v) h = ground arith

  -- For a cacheable request, where the handler makes calls towards the status 200, without a flush or a status below it, and then
  -- returns an error, nothing has been sent: the error handler starts from a response without a
  -- status and without a body.
  pub etag_error :
      (skip : List (Request → Bool)) (other : Text) (next : Handler) (r : Request)
      (err_handler : Text → List Action) (x : Text)
      → All IsPlain (next r no_headers).0
      → (next r no_headers).1 ≡ returned (some x)
      → is_cacheable r skip ≡ true
      → (commit 200 (exec (next r no_headers).0 blank)).status ≡ 200
      → (before : Response) × (before.status ≡ 0)
        × (before.body ≡ [])
        × (adapt err_handler (etag tag skip other next) r ≡ exec (err_handler x) before)
  unfolding etag adapt
  etag_error skip other next r err_handler x plainly fails cacheable ok =
      let (as', out) = next r no_headers in
      let (e, calls) = wrap_all as' fresh in
      let (e_ok, body, fed, unsent, empty) =
        held (exec as' blank) (exec calls blank) e (Sim-handled as' plainly) ok in
      (
        exec calls blank,
        unsent,
        empty,
        rw (cacheable) (through_failed other r err_handler x as' out fails),
      )
