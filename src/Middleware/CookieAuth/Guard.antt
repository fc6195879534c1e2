-- ===== src/Middleware/CookieAuth/Guard.antt =====
-- middleware/auth/cookie.go: who is let through.
use revelt.Base.{
  ℕ, ◌-◌, ◌≤◌, ◌≡◌, ◌⊎◌, inl, inr, refl, Bool, true, false, ltb, [], ◌∷◌, some, arith, Bool-cases,
  Option-cases,
}
use revelt.Text.{Text}
use revelt.Http.{headers_after, Request, Headers, Handler, before}
use revelt.Middleware.CookieAuth.{
  CookieAuth, Session, Got, session, undecodable, Saved, expire, aged, cookie_auth, unauthenticated,
}

-- SkipAuth does not let the request through.
abbrev pub Enforced : CookieAuth → Request → Type 0
Enforced a r = (skips : Request → Bool) → a.skip_auth ≡ some skips → skips r ≡ false

Got-cases : (g : Got) → ((s : Session) × (g ≡ session s)) ⊎ ((e : Text) × (g ≡ undecodable e))
Got-cases (session s) = inl (s, refl)
Got-cases (undecodable e) = inr (e, refl)

module _ (get : Text → Got) (save : Session → Saved) (a : CookieAuth) (now : ℕ) (next : Handler)
    (r : Request) (h : Headers) where
  -- The request carries an authenticated session that was refreshed at most `max_age` ago.
  abbrev pub IsAuthentic : Type 0
  IsAuthentic =
      (s : Session) × (last : ℕ) × (get (r.headers "Cookie") ≡ session s)
      × (s.authenticated ≡ true)
      × (s.last_access ≡ some last)
      × (now - last ≤ a.max_age)

  -- The error handler answers, after the cookie has been expired or after nothing.
  abbrev pub IsRefused : Type 0
  IsRefused =
      (cookie_auth get save a now next r h ≡ a.error_handler r h)
      ⊎ (cookie_auth get save a now next r h ≡ before (expire a ∷ []) a.error_handler r h)

  refuses :
      (r' : Request) (h' : Headers)
      → Enforced a r'
      → unauthenticated a next r' h' ≡ a.error_handler r' h'
  unfolding unauthenticated
  refuses r' h' enforced = elim (Option-cases a.skip_auth) [
    | inl never ↦ rw (unauthenticated, never) refl
    | inr (skips, there) ↦ rw (unauthenticated, there, enforced skips there) refl
  ]

  -- A request that SkipAuth does not exempt either carries an authenticated session young enough, or
  -- is answered by the error handler and never reaches the handler behind.
  pub cookie_guards : Enforced a r → IsAuthentic ⊎ IsRefused
  unfolding cookie_auth aged before
  cookie_guards enforced = elim (Got-cases (get (r.headers "Cookie"))) [
    | inr (e, bad) ↦
        inr (inr (ground (arith, refuses r (headers_after h (expire a ∷ [])) enforced)))
    | inl (s, good) ↦ elim (Bool-cases s.authenticated) [
      | inr out ↦ inr (inl (ground (arith, refuses r h enforced)))
      | inl auth_ok ↦ elim (Option-cases s.last_access) [
        | inl never ↦ inr (inl (ground (arith, refuses r h enforced)))
        | inr (last, accessed) ↦ elim (Bool-cases (ltb a.max_age (now - last))) [
          | inl old ↦ inr (inl (ground (arith, refuses r h enforced)))
          | inr young ↦ inl (s, last, good, auth_ok, accessed, ground arith)
        ]
      ]
    ]
  ]
