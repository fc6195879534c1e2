-- ===== src/Middleware/Security.antt =====
-- middleware/security/security.go. The decimal text of a number is a parameter; HSTSMaxAge is a natural
-- number, as a negative one is like 0.
use revelt.Base.{
  ℕ, String, ◌≡◌, refl, Bool, true, false, List, [], ◌∷◌, ◌++◌, ◌∙◌, none, ltb, if◌then◌else◌, All,
}
use revelt.Text.{Text, codes}
use revelt.Http.{
  Request, no_headers, Action, set_given, set_key, headers_after, Handler, returned, before, adapt,
  commit,
}
use revelt.Http.Exec.{headers_after-Spares, set_given-Spares, Spares, Other}
use revelt.Http.Handlers.{set_before}

pub record Config : Type 0 where
  pub xss_protection : Text
  pub content_type_nosniff : Text
  pub x_frame_options : Text
  pub hsts_max_age : ℕ
  pub hsts_exclude_subdomains : Bool
  pub hsts_preload : Bool
  pub content_security_policy : Text
  pub referrer_policy : Text

abbrev pub default_config : Config
default_config = record {
  xss_protection = codes "1; mode=block";
  content_type_nosniff = codes "nosniff";
  x_frame_options = codes "SAMEORIGIN";
  hsts_max_age = 0;
  hsts_exclude_subdomains = false;
  hsts_preload = false;
  content_security_policy = [];
  referrer_policy = [];
}

abbrev pub or_default : Text → Text → Text
or_default d [] = d
or_default d (c ∷ s) = c ∷ s

-- The first lines of WithConfig.
unfoldable pub completed : Config → Config
completed c = record c {
  xss_protection = or_default (codes "1; mode=block") c.xss_protection;
  content_type_nosniff = or_default (codes "nosniff") c.content_type_nosniff;
  x_frame_options = or_default (codes "SAMEORIGIN") c.x_frame_options;
}

abbrev given : Text → Bool
given [] = false
given _ = true

given-or_default : (d : Text) → given d ≡ true → (s : Text) → given (or_default d s) ≡ true
given-or_default d full [] = full
given-or_default d full (c ∷ s) = refl

protected :
    (a b d : Text) (rest : List (Bool × (String × Text)))
    → given a ≡ true
    → given b ≡ true
    → given d ≡ true
    → All (Other "X-XSS-Protection") rest
    → All (Other "X-Content-Type-Options") rest
    → All (Other "X-Frame-Options") rest
    → let rows =
        (given a, ("X-XSS-Protection", a))
        ∷ (given b, ("X-Content-Type-Options", b))
        ∷ (given d, ("X-Frame-Options", d))
        ∷ rest in
      let h = headers_after no_headers (set_given rows) in
      (h "X-XSS-Protection" ≡ a) × (h "X-Content-Type-Options" ≡ b) × (h "X-Frame-Options" ≡ d)
unfolding set_given headers_after
protected a b d rest ga gb gd xss nosniff frame =
    let spare = λ (k : String) (s : All (Other k) rest).
      headers_after-Spares k
        (set_key (set_key (set_key no_headers "X-XSS-Protection" a) "X-Content-Type-Options" b)
          "X-Frame-Options" d)
        (set_given rest) (set_given-Spares k rest s) in
    rw (ga, gb, gd)
      (
        spare "X-XSS-Protection" xss,
        spare "X-Content-Type-Options" nosniff,
        spare "X-Frame-Options" frame,
      )

module _ (decimal : ℕ → Text) where
  abbrev pub hsts : Config → Text
  hsts c =
      (codes "max-age=" ++ decimal c.hsts_max_age)
      ++ (if c.hsts_exclude_subdomains then [] else codes "; includeSubDomains")
      ++ (if c.hsts_preload then codes "; preload" else [])

  -- The headers that are set only where they are configured.
  abbrev pub optional : Config → List (Bool × (String × Text))
  optional c =
      (ltb 0 c.hsts_max_age, ("Strict-Transport-Security", hsts c))
      ∷ (given c.content_security_policy, ("Content-Security-Policy", c.content_security_policy))
      ∷ (given c.referrer_policy, ("Referrer-Policy", c.referrer_policy))
      ∷ []

  abbrev pub rows : Config → List (Bool × (String × Text))
  rows c =
      (given c.xss_protection, ("X-XSS-Protection", c.xss_protection))
      ∷ (given c.content_type_nosniff, ("X-Content-Type-Options", c.content_type_nosniff))
      ∷ (given c.x_frame_options, ("X-Frame-Options", c.x_frame_options))
      ∷ optional c

  -- The middleware of WithConfig.
  unfoldable pub with_config : Config → Handler → Handler
  unfolding completed
  with_config c next = before (set_given (rows (completed c))) next

  unfoldable pub new : Handler → Handler
  unfolding with_config
  new = with_config default_config

  protections :
      (c : Config)
      → let h = headers_after no_headers (set_given (rows (completed c))) in
        (h "X-XSS-Protection" ≡ or_default (codes "1; mode=block") c.xss_protection)
        × (h "X-Content-Type-Options" ≡ or_default (codes "nosniff") c.content_type_nosniff)
        × (h "X-Frame-Options" ≡ or_default (codes "SAMEORIGIN") c.x_frame_options)
  unfolding completed
  protections c =
      let filled = completed c in
      protected filled.xss_protection filled.content_type_nosniff filled.x_frame_options
        (optional filled) (given-or_default (codes "1; mode=block") refl c.xss_protection)
        (given-or_default (codes "nosniff") refl c.content_type_nosniff)
        (given-or_default (codes "SAMEORIGIN") refl c.x_frame_options) (refl, (refl, (refl, tt)))
        (refl, (refl, (refl, tt))) (refl, (refl, (refl, tt)))

  -- Where the handler returns without an error and leaves these headers alone, the response is sent
  -- with the configured protections, or the default ones where none is configured.
  security_sent :
      (c : Config) (next : Handler) (r : Request) (err_handler : Text → List Action)
      → let inner = next r (headers_after no_headers (set_given (rows (completed c)))) in
        inner.1 ≡ returned none
        → Spares "X-XSS-Protection" inner.0
        → Spares "X-Content-Type-Options" inner.0
        → Spares "X-Frame-Options" inner.0
        → let sent = (commit 200 (adapt err_handler (with_config c next) r)).sent in
          (sent "X-XSS-Protection" ≡ or_default (codes "1; mode=block") c.xss_protection)
          × (sent "X-Content-Type-Options" ≡ or_default (codes "nosniff") c.content_type_nosniff)
          × (sent "X-Frame-Options" ≡ or_default (codes "SAMEORIGIN") c.x_frame_options)
  unfolding with_config
  security_sent c next r err_handler fine xss nosniff frame =
      let rs = rows (completed c) in
      let (a, b, d) = protections c in
      (
        set_before rs next r err_handler "X-XSS-Protection" fine xss ∙ a,
        set_before rs next r err_handler "X-Content-Type-Options" fine nosniff ∙ b,
        set_before rs next r err_handler "X-Frame-Options" fine frame ∙ d,
      )
