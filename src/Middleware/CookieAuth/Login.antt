-- ===== src/Middleware/CookieAuth/Login.antt =====
-- middleware/auth/cookie.go: what SetState promises a client.
use revelt.Base.{ℕ, String, ◌-◌, ◌≤◌, ◌≡◌, refl, ap, ◌∙◌, List, [], ◌∷◌, none, some, arith}
use revelt.Text.{Text}
use revelt.Http.{Request, Headers, Handler}
use revelt.Http.Jar.{jar_after, str_eq_refl}
use revelt.Middleware.CookieAuth.{
  set_state, CookieConfig, CookieAuth, build, Session, Got, session, Saved, encoded, session_cookie,
}
use revelt.Middleware.CookieAuth.Window.{
  session_of, ReadsBack, Apart, Within, LetThrough, let_through,
}

module _ (get : ℕ → Text → Got) (save : ℕ → Session → Saved) (name : String)
    (config : CookieConfig) where
  logged_in :
      (a : CookieAuth) (old : Session) (now : ℕ) (r : Request) (state t : Text)
      → get now (r.headers "Cookie") ≡ session old
      → save now (session_of state now) ≡ encoded t
      → set_state (get now) (save now) (some a) now r state ≡ (session_cookie a t ∷ [], none)
  unfolding set_state
  logged_in a old now r state t gets saves = rw (set_state, gets, saves) refl

  jar-saved : (t : Text) → jar_after name (session_cookie (build name config) t ∷ []) [] ≡ t
  unfolding build
  jar-saved t = rw (jar_after, str_eq_refl name) refl

  -- After SetState, in a session that can be read, a client stays logged in for as long as the time
  -- from each request to the next is at most half the maximal age: each of its requests reaches the
  -- handler, with the state that was set. This asks that the handler leaves the session cookie alone,
  -- that the store saves sessions with this state and reads them back for some time, and that this
  -- time is not shorter than the maximal age.
  pub login_lasts :
      (next : Handler) (r : Request) (h : Headers) (old : Session) (start life : ℕ) (state : Text)
      (times : List ℕ)
      → let a = build name config in
        get start (r.headers "Cookie") ≡ session old
        → ReadsBack get save life state
        → a.max_age ≤ life
        → Apart get save life state a next r h
        → Within get save life state a next r h (a.max_age - a.refresh_age) start times
        → let (calls, fault) = set_state (get start) (save start) (some a) start r state in
          (fault ≡ none) × LetThrough get save life state a next r h (jar_after name calls []) times
  unfolding set_state build
  login_lasts next r h old start life state times gets reads lives apart within =
      let (t, saves, back) = reads start in
      let a = build name config in
      let done = logged_in a old start r state t gets saves in
      let kept = ap (λ out. jar_after name out.0 []) done ∙ jar-saved t in
      (
        ap (λ out. out.1) done,
        let_through get save life state a next r h start _ times reads apart (omega arith) lives
            (start, omega arith, omega arith, λ now from to. ap (get now) kept ∙ back now from to)
            within,
      )
