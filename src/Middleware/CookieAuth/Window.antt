-- ===== src/Middleware/CookieAuth/Window.antt =====
-- middleware/auth/cookie.go: the sliding window of a session, over the requests of one client that sends
-- back the cookie it was given last.
use revelt.Base.{
  dec_lt, inr, inl, Option-cases, ◌<◌, ℕ, ◌+◌, ◌-◌, ◌≤◌, ◌≡◌, refl, ap, ◌∙◌, true, false, ltb, List,
  [], ◌∷◌, some, arith,
}
use revelt.Text.{Text}
use revelt.Http.{Request, Headers, Action, Outcome, Handler, before}
use revelt.Http.Jar.{jar_after, with_jar, str_eq_refl}
use revelt.Middleware.CookieAuth.{
  CookieAuth, Session, Got, session, Saved, encoded, session_cookie, admit, refresh, aged,
  cookie_auth,
}

abbrev pub session_of : Text → ℕ → Session
session_of state at = record { authenticated = true; state = some state; last_access = some at }

-- A session with this state can be saved at any time, and is read back for `life` from then on.
abbrev pub ReadsBack : (ℕ → Text → Got) → (ℕ → Session → Saved) → ℕ → Text → Type 0
ReadsBack get save life state =
    (at : ℕ)
    → (t : Text) × (save at (session_of state at) ≡ encoded t)
      × ((now : ℕ) → at ≤ now → now ≤ at + life → get now t ≡ session (session_of state at))

ltb-false : (m n : ℕ) → n ≤ m → ltb m n ≡ false
ltb-false m n h = ground arith

ltb-true : (m n : ℕ) → m < n → ltb m n ≡ true
ltb-true m n h = ground arith

-- `get now` and `save now` are the store's operations at the time `now`; `life` is the maximal age of
-- the store's codec.
module _ (get : ℕ → Text → Got) (save : ℕ → Session → Saved) (life : ℕ) (state : Text)
    (a : CookieAuth) (next : Handler) (r : Request) (h : Headers) where
  -- The handler leaves the session cookie alone.
  abbrev pub Apart : Type 0
  Apart =
      (r' : Request) (h' : Headers) (jar : Text) → jar_after a.session_name (next r' h').0 jar ≡ jar

  -- The cookie holds the session, refreshed at most `refresh_age` before `t` and readable for `life`.
  abbrev pub IsLive : ℕ → Text → Type 0
  IsLive t jar =
      (last : ℕ) × (last ≤ t)
      × (t ≤ last + a.refresh_age)
      × ((now : ℕ) → last ≤ now → now ≤ last + life → get now jar ≡ session (session_of state last))

  -- Each request comes at most `gap` after the one before.
  abbrev pub Within : ℕ → ℕ → List ℕ → Type 0
  Within gap prev [] = Unit
  Within gap prev (now ∷ times) = (prev ≤ now) × (now ≤ prev + gap) × Within gap now times

  abbrev pub visit : ℕ → Text → List Action × Outcome
  visit now jar = cookie_auth (get now) (save now) a now next (with_jar r jar) h

  -- The request is answered by the handler, called with the state.
  abbrev pub IsServed : ℕ → Text → Type 0
  IsServed now jar =
      (last : ℕ) × (first : List Action) × (visit now jar
        ≡ before first (admit (session_of state last) next) (with_jar r jar) h)

  -- Each of the requests at these times is let through to the handler.
  abbrev pub LetThrough : Text → List ℕ → Type 0
  LetThrough jar [] = Unit
  LetThrough jar (now ∷ times) =
      IsServed now jar × LetThrough (jar_after a.session_name (visit now jar).0 jar) times

  aged-fresh :
      (now last : ℕ) (s : Session) (r' : Request)
      → now - last ≤ a.max_age
      → now - last ≤ a.refresh_age
      → aged (get now) (save now) a now last s next r' h ≡ admit s next r' h
  unfolding aged
  aged-fresh now last s r' young fresh =
      rw (aged, ltb-false a.max_age (now - last) young, ltb-false a.refresh_age (now - last) fresh)
        refl

  aged-stale :
      (now last : ℕ) (s : Session) (r' : Request) (t : Text)
      → now - last ≤ a.max_age
      → a.refresh_age < now - last
      → save now (record s { last_access = some now }) ≡ encoded t
      → aged (get now) (save now) a now last s next r' h
        ≡ before (session_cookie a t ∷ []) (admit s next) r' h
  unfolding aged refresh
  aged-stale now last s r' t young stale saves =
      rw
        (
          aged,
          ltb-false a.max_age (now - last) young,
          ltb-true a.refresh_age (now - last) stale,
          refresh,
          saves,
        )
        refl

  visit-aged :
      (now last : ℕ) (jar : Text)
      → get now jar ≡ session (session_of state last)
      → visit now jar
        ≡ aged (get now) (save now) a now last (session_of state last) next (with_jar r jar) h
  unfolding cookie_auth
  visit-aged now last jar gets = ground arith

  admit-Apart :
      (s : Session) (r' : Request) (h' : Headers) (jar : Text)
      → Apart
      → jar_after a.session_name (admit s next r' h').0 jar ≡ jar
  unfolding admit
  admit-Apart s r' h' jar apart = elim (Option-cases s.state) [
    | inl nil ↦ rw (admit, nil) (apart r' h' jar)
    | inr (v, there) ↦ rw (admit, there) (apart _ h' jar)
  ]

  jar-refreshed :
      (s : Session) (t jar : Text)
      → Apart
      → jar_after a.session_name
          (before (session_cookie a t ∷ []) (admit s next) (with_jar r jar) h).0
          jar
        ≡ t
  unfolding before
  jar-refreshed s t jar apart =
      rw (jar_after, str_eq_refl a.session_name) (admit-Apart s (with_jar r jar) h t apart)

  -- One request in time.
  visit-IsLive :
      (prev now : ℕ) (jar : Text)
      → ReadsBack get save life state
      → Apart
      → a.refresh_age ≤ a.max_age
      → a.max_age ≤ life
      → IsLive prev jar
      → prev ≤ now
      → now ≤ prev + (a.max_age - a.refresh_age)
      → IsServed now jar × IsLive now (jar_after a.session_name (visit now jar).0 jar)
  unfolding before admit
  visit-IsLive prev now jar reads apart half lives (last, since, recent, back) later soon =
      let s = session_of state last in
      let gets = back now (omega arith) (omega arith) in
      elim (dec_lt a.refresh_age (now - last)) [
        | no fresh ↦
            let answer =
              visit-aged now last jar gets
              ∙ aged-fresh now last s (with_jar r jar) (omega arith) (omega arith) in
            let kept =
              ap (λ out. jar_after a.session_name out.0 jar) answer
              ∙ admit-Apart s (with_jar r jar) h jar apart in
            (
              (last, [], answer),
              (last, omega arith, omega arith, λ t' from to. ap (get t') kept ∙ back t' from to),
            )
        | yes stale ↦
            let (t, saves, back') = reads now in
            let answer =
              visit-aged now last jar gets
              ∙ aged-stale now last s (with_jar r jar) t (omega arith) stale saves in
            let kept =
              ap (λ out. jar_after a.session_name out.0 jar) answer ∙ jar-refreshed s t jar apart in
            (
              (last, session_cookie a t ∷ [], answer),
              (now, omega arith, omega arith, λ t' from to. ap (get t') kept ∙ back' t' from to),
            )
      ]

  pub let_through :
      (prev : ℕ) (jar : Text) (times : List ℕ)
      → ReadsBack get save life state
      → Apart
      → a.refresh_age ≤ a.max_age
      → a.max_age ≤ life
      → IsLive prev jar
      → Within (a.max_age - a.refresh_age) prev times
      → LetThrough jar times
  let_through prev jar [] reads apart half lives live within = tt
  let_through prev jar (now ∷ times) reads apart half lives live (later, soon, within) =
      let (served, live') = visit-IsLive prev now jar reads apart half lives live later soon in
      (served, let_through now _ times reads apart half lives live' within)
