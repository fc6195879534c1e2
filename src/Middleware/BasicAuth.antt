-- ===== src/Middleware/BasicAuth.antt =====
-- middleware/auth/basic_auth.go. What Request.BasicAuth reads from the request at hand is a
-- parameter.
use revelt.Base.{
  Bool, false, ◌&&◌, ◌≡◌, ◌≢◌, List, [], ◌∷◌, ◌++◌, Option, none, some, if◌then◌else◌, refl, ap,
  ◌∙◌, inl, inr, Bool-cases, get_or,
}
use revelt.Text.{Text, codes, text_eq}
use revelt.Text.Laws.{text_eq_refl, text_eq→eq}
use revelt.Http.{Request, Action, set_header, write_header, returned, Handler, adapt, respond, exec}

module _ (credentials : Option (Text × Text)) where
  accepts : Text → Text → Bool
  accepts username password = elim credentials [
    | none ↦ false
    | some (user, pass) ↦ text_eq user username && text_eq pass password
  ]

  -- BasicAuth: `realm` is its last argument, if it has one.
  unfoldable pub basic_auth : Text → Text → Option Text → Handler → Handler
  unfolding accepts
  basic_auth username password realm next r h =
      let name = get_or realm (codes "Restricted") in
      if accepts username password then next r h else (
        set_header "WWW-Authenticate" (codes "Basic realm=\"" ++ name ++ codes "\"")
            ∷ write_header 401
            ∷ [],
        returned none,
      )

accepts-only :
    (credentials : Option (Text × Text)) (username password : Text)
    → credentials ≢ some (username, password)
    → accepts credentials username password ≡ false
unfolding accepts
accepts-only none username password wrong = refl
accepts-only (some (user, pass)) username password wrong =
    elim (Bool-cases (text_eq user username)) [
      | inr ne ↦ rw (ne) refl
      | inl same ↦ elim (Bool-cases (text_eq pass password)) [
        | inr ne ↦ rw (same, ne) refl
        | inl equal ↦ absurd (
            wrong (
              ap (λ u. some (u, pass)) (text_eq→eq user username same)
              ∙ ap (λ v. some (username, v)) (text_eq→eq pass password equal)))
      ]
    ]

module _ (credentials : Option (Text × Text)) where
  -- A request without exactly these credentials is answered with the status 401, by an answer that
  -- no protected handler has a part in.
  basic_auth_denies :
      (username password : Text) (realm : Option Text) (next other : Handler) (r : Request)
      (err_handler : Text → List Action)
      → credentials ≢ some (username, password)
      → let w = adapt err_handler (basic_auth credentials username password realm next) r in
        (w.status ≡ 401)
        × (w.body ≡ [])
        × (w ≡ adapt err_handler (basic_auth credentials username password realm other) r)
  unfolding basic_auth adapt respond exec
  basic_auth_denies username password realm next other r err_handler wrong =
      rw (accepts-only credentials username password wrong) (refl, refl, refl)

  -- With the credentials, the request is answered by the protected handler as if it stood alone.
  basic_auth_grants :
      (username password : Text) (realm : Option Text) (next : Handler) (r : Request)
      (err_handler : Text → List Action)
      → credentials ≡ some (username, password)
      → adapt err_handler (basic_auth credentials username password realm next) r
        ≡ adapt err_handler next r
  unfolding basic_auth accepts adapt
  basic_auth_grants username password realm next r err_handler right =
      rw (right, text_eq_refl username, text_eq_refl password) refl
