-- ===== src/Middleware/Jwt/Guard.antt =====
-- middleware/auth/jwt.go: what a token must be to reach the handler.
use mathlib.Core.Path.{subst}
use revelt.Base.{ℕ, ◌≡◌, ◌⊎◌, inl, inr, refl, ◌∙◌, true, false, [], ◌∷◌, Option, none, some, arith}
use revelt.Text.{Text}
use revelt.Http.{Request, Headers, Handler, write_header, returned, with_value}
use revelt.Middleware.Jwt.{
  Method, hmac, other, Parsed, token, unparsable, claims_key, key_for, bearer, verify_token,
  verified, authenticate, jwt,
}

-- Parse finds a token valid only if the key function has a key for its method, and the token is
-- signed by that method under that key.
abbrev pub ChecksSignature :
    (Text → (Method → Option Text) → Parsed) → (Text → Method → Text → Text → Type 0) → Type 0
ChecksSignature parse Signed =
    (text c : Text) (keys : Method → Option Text)
    → parse text keys ≡ token true c
    → (m : Method) × (key : Text) × (keys m ≡ some key) × Signed text m key c

module _ (parse : Text → (Method → Option Text) → Parsed)
    (Signed : Text → Method → Text → Text → Type 0) (secret : Text) (next : Handler) (r : Request)
    (h : Headers) where
  -- The handler is called with the claims of the request's token, which is signed by HMAC under the
  -- secret.
  abbrev pub IsSigned : Type 0
  IsSigned =
      (c : Text) × Signed (bearer r) hmac secret c
      × (jwt parse secret none next r h ≡ next (record r { ctx = with_value r.ctx claims_key c }) h)

  key_for-hmac :
      (m : Method) (key : Text) → key_for secret m ≡ some key → (m ≡ hmac) × (key ≡ secret)
  key_for-hmac hmac key e = (refl, ground arith)
  key_for-hmac (other alg) key e = absurd (ground arith)

  Parsed-cases :
      (p : Parsed)
      → ((c : Text) × (p ≡ token true c))
        ⊎ ((c : Text) × (p ≡ token false c))
        ⊎ ((e : Text) × (p ≡ unparsable e))
  Parsed-cases (token true c) = inl (c, refl)
  Parsed-cases (token false c) = inr (inl (c, refl))
  Parsed-cases (unparsable e) = inr (inr (e, refl))

  Text-cases : (t : Text) → (t ≡ []) ⊎ ((a : ℕ) × (s : Text) × (t ≡ a ∷ s))
  Text-cases [] = inl refl
  Text-cases (a ∷ s) = inr (a, s, refl)

  without_token :
      bearer r ≡ [] → jwt parse secret none next r h ≡ (write_header 401 ∷ [], returned none)
  unfolding jwt authenticate
  without_token bare = ground arith

  with_token :
      (a : ℕ) (s : Text)
      → bearer r ≡ a ∷ s
      → jwt parse secret none next r h ≡ verified parse secret (bearer r) next r h
  unfolding jwt authenticate
  with_token a s there = ground arith

  verified_valid :
      (text c : Text)
      → parse text (key_for secret) ≡ token true c
      → verified parse secret text next r h
        ≡ next (record r { ctx = with_value r.ctx claims_key c }) h
  unfolding verified verify_token
  verified_valid text c valid = ground arith

  verified_invalid :
      (text : Text)
      → ((c : Text) × (parse text (key_for secret) ≡ token false c))
        ⊎ ((e : Text) × (parse text (key_for secret) ≡ unparsable e))
      → verified parse secret text next r h ≡ (write_header 401 ∷ [], returned none)
  unfolding verified verify_token
  verified_invalid text (inl (c, expired)) = ground arith
  verified_invalid text (inr (e, broken)) = ground arith

  -- Without a function to skip requests, where Parse checks signatures as it says, a request reaches
  -- the handler only with a token that is signed by HMAC under the secret, and the handler then has
  -- the claims of that token; every other request is answered with 401.
  pub jwt_guards :
      ChecksSignature parse Signed
      → IsSigned ⊎ (jwt parse secret none next r h ≡ (write_header 401 ∷ [], returned none))
  jwt_guards checks = elim (Text-cases (bearer r)) [
    | inl bare ↦ inr (without_token bare)
    | inr (a, s, there) ↦ elim (Parsed-cases (parse (bearer r) (key_for secret))) [
      | inr bad ↦ inr (with_token a s there ∙ verified_invalid (bearer r) bad)
      | inl (c, valid) ↦
          let (m, key, keyed, signed) = checks (bearer r) c (key_for secret) valid in
          let (by_hmac, with_secret) = key_for-hmac m key keyed in
          inl (
            c,
            subst (λ k. Signed (bearer r) hmac k c) with_secret
                (subst (λ n. Signed (bearer r) n key c) by_hmac signed),
            with_token a s there ∙ verified_valid (bearer r) c valid,
          )
    ]
  ]
