-- ===== src/Middleware/Jwt.antt =====
-- middleware/auth/jwt.go. The JWT library is two parameters: Parse, which is given the function from a
-- token's signing method to its key, and SignedString. Claims are texts.
pub mod Guard
use revelt.Base.{ℕ, ◌+◌, ◌/◌, String, Bool, true, false, List, [], ◌∷◌, ◌++◌, Option, none, some}
use revelt.Text.{Text, codes, trim_prefix, trim_space}
use revelt.Http.{Request, Headers, Action, write_header, Outcome, returned, Handler, with_value}

-- Whether the method is a *jwt.SigningMethodHMAC, or else the name of its algorithm.
pub data Method : Type 0 where
  hmac : Method
  other : Text → Method

-- The error, or whether the token is valid and its claims.
pub data Parsed : Type 0 where
  token : Bool → Text → Parsed
  unparsable : Text → Parsed

pub data Verified : Type 0 where
  claims rejected : Text → Verified

abbrev pub claims_key : String
claims_key = "jwt_claims_key"

abbrev pub skipped_key : String
skipped_key = "jwt_auth_skipped"

-- The key for a token, which only the HMAC methods get.
abbrev pub key_for : Text → Method → Option Text
key_for secret hmac = some secret
key_for secret (other alg) = none

-- The token of the Authorization header.
unfoldable pub bearer : Request → Text
bearer r = trim_space (trim_prefix (codes "Bearer ") (r.headers "Authorization"))

-- A payload, and the second at which the token expires.
pub record Payload : Type 0 where
  pub payload : Text
  pub exp : ℕ

pub data Created : Type 0 where
  signed failed : Text → Created

-- CreateJWTToken at the time `now`, for a duration, both in nanoseconds; `sign` is SignedString.
unfoldable pub create_token : (Payload → Text → Created) → Text → Text → ℕ → ℕ → Created
create_token sign [] payload now exp = failed (codes "auth: secret key must not be empty")
create_token sign (c ∷ s) payload now exp =
    elim (sign (record { payload = payload; exp = (now + exp) / 1_000_000_000 }) (c ∷ s)) [
      | signed t ↦ signed t
      | failed e ↦ failed (codes "auth: signing JWT: " ++ e)
    ]

module _ (parse : Text → (Method → Option Text) → Parsed) where
  -- VerifyJWToken
  unfoldable pub verify_token : Text → Text → Verified
  verify_token secret text = elim (parse text (key_for secret)) [
    | unparsable e ↦ rejected (codes "auth: parsing JWT: " ++ e)
    | token true c ↦ claims c
    | token false c ↦ rejected (codes "auth: invalid or expired token")
  ]

  unfoldable pub verified : Text → Text → Handler → Handler
  unfolding verify_token
  verified secret text next r h = elim (verify_token secret text) [
    | rejected e ↦ (write_header 401 ∷ [], returned none)
    | claims c ↦ next (record r { ctx = with_value r.ctx claims_key c }) h
  ]

  unfoldable pub authenticate : Text → Handler → Handler
  unfolding bearer verified
  authenticate secret next r h = elim (bearer r) [
    | [] ↦ (write_header 401 ∷ [], returned none)
    | c ∷ s ↦ verified secret (c ∷ s) next r h
  ]

  -- JWT
  unfoldable pub jwt : Text → Option (Request → Bool) → Handler → Handler
  unfolding authenticate
  jwt secret skip_func next r h = elim skip_func [
    | none ↦ authenticate secret next r h
    | some skips ↦ elim (skips r) [
      | true ↦ next (record r { ctx = with_value r.ctx skipped_key (codes "true") }) h
      | false ↦ authenticate secret next r h
    ]
  ]

-- JwtClaims
unfoldable pub jwt_claims : Request → Verified
jwt_claims r = elim (r.ctx claims_key) [
  | none ↦ rejected (codes "auth: invalid or missing JWT claims")
  | some c ↦ claims c
]

-- JWTAuthSkipped
unfoldable pub is_skipped : Request → Bool
is_skipped r = elim (r.ctx skipped_key) [ none ↦ false | some v ↦ true ]
