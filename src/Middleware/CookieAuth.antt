-- ===== src/Middleware/CookieAuth.antt =====
-- middleware/auth/cookie.go. The gorilla store is two parameters: what Get makes of the request's Cookie
-- header, and the text that Save puts into the cookie. Times are in nanoseconds; a time before another
-- gives an age of zero, which the comparisons do not tell from a negative one.
pub mod Window
pub mod Login
pub mod Guard
use revelt.Base.{
  ℕ, String, ◌-◌, ◌*◌, ◌/◌, Bool, true, false, not, ◌==◌, ltb, List, [], ◌∷◌, ◌++◌, Option, none,
  some, length, if◌then◌else◌,
}
use revelt.Text.{Text, codes}
use revelt.Http.{
  Request, Headers, Cookie, Action, set_cookie, write_header, Outcome, returned, Handler, before,
  with_value,
}

-- sessions.Options; a MaxAge that is not positive is 0 here.
pub record Options : Type 0 where
  pub path : Text
  pub domain : Text
  pub max_age : ℕ
  pub secure : Bool
  pub http_only : Bool
  pub same_site_strict : Bool

pub record CookieConfig : Type 0 where
  pub options : Option Options
  pub skip_auth : Option (Request → Bool)
  pub error_handler : Option Handler

pub record CookieAuth : Type 0 where
  pub session_name : String
  pub options : Options
  pub skip_auth : Option (Request → Bool)
  pub error_handler : Handler
  pub max_age : ℕ
  pub refresh_age : ℕ

unfoldable pub default_error_handler : Handler
default_error_handler r h = (write_header 401 ∷ [], returned none)

abbrev pub day : ℕ
day = 86_400

abbrev pub default_path : Text → Text
default_path [] = codes "/"
default_path (c ∷ s) = c ∷ s

-- The options of normalizeCookieConfig.
unfoldable pub normalize_options : Option Options → Options
normalize_options none = record {
  path = codes "/";
  domain = [];
  max_age = day;
  secure = false;
  http_only = true;
  same_site_strict = true;
}
normalize_options (some o) = record {
  path = default_path o.path;
  domain = o.domain;
  max_age = if o.max_age == 0 then day else o.max_age;
  secure = o.secure;
  http_only = true;
  same_site_strict = true;
}

unfoldable pub normalize_handler : Option Handler → Handler
unfolding default_error_handler
normalize_handler none = default_error_handler
normalize_handler (some f) = f

pub data NewAuth : Type 0 where
  auth : CookieAuth → NewAuth
  refused : Text → NewAuth

abbrev pub second : ℕ
second = 1_000_000_000

unfoldable pub build : String → CookieConfig → CookieAuth
unfolding normalize_options normalize_handler
build name config =
    let options = normalize_options config.options in
    record {
      session_name = name;
      options = options;
      skip_auth = config.skip_auth;
      error_handler = normalize_handler config.error_handler;
      max_age = options.max_age * second;
      refresh_age = options.max_age * second / 2;
    }

-- NewCookieAuth, for an age that fits in a time.Duration; `nil_type` is userType == nil.
unfoldable pub new_cookie_auth : String → List Text → Bool → CookieConfig → NewAuth
unfolding build
new_cookie_auth name key_pairs nil_type config =
    if length (codes name) == 0
    then refused (codes "auth: sessionName is required")
    else if length key_pairs == 0
    then refused (codes "auth: you must pass at least one keyPair")
    else if nil_type
    then refused (codes "auth: userType must not be nil")
    else auth (build name config)

-- The values of a session: whether authKey holds true, the state and the time of the last access.
pub record Session : Type 0 where
  pub authenticated : Bool
  pub state : Option Text
  pub last_access : Option ℕ

pub data Got : Type 0 where
  session : Session → Got
  undecodable : Text → Got

pub data Saved : Type 0 where
  encoded unencodable : Text → Saved

abbrev pub skipped_key : String
skipped_key = "cookie_auth_skipped"

abbrev pub state_key : String
state_key = "rex_auth_state_ctx"

unfoldable pub unauthenticated : CookieAuth → Handler → Handler
unauthenticated a next r h = elim a.skip_auth [
  | none ↦ a.error_handler r h
  | some skips ↦
      if skips r
      then next (record r { ctx = with_value r.ctx skipped_key (codes "true") }) h
      else a.error_handler r h
]

unfoldable pub expire : CookieAuth → Action
expire a = set_cookie (record {
  name = a.session_name;
  value = [];
  max_age_negative = true;
  http_only = a.options.http_only;
  secure = a.options.secure;
})

-- The cookie of session.Save with the options of `a`.
abbrev pub session_cookie : CookieAuth → Text → Action
session_cookie a value = set_cookie (record {
  name = a.session_name;
  value = value;
  max_age_negative = false;
  http_only = a.options.http_only;
  secure = a.options.secure;
})

-- context.WithValue of the state; a nil state is as good as none.
unfoldable pub admit : Session → Handler → Handler
admit s next r h = elim s.state [
  | none ↦ next r h
  | some v ↦ next (record r { ctx = with_value r.ctx state_key v }) h
]

module _ (get : Text → Got) (save : Session → Saved) where
  unfoldable pub refresh : CookieAuth → ℕ → Session → Handler → Handler
  unfolding admit
  refresh a now s next r h = elim (save (record s { last_access = some now })) [
    | unencodable e ↦ ([], returned (some (codes "auth: saving refreshed session: " ++ e)))
    | encoded value ↦ before (session_cookie a value ∷ []) (admit s next) r h
  ]

  -- An authenticated session with a time of last access.
  unfoldable pub aged : CookieAuth → ℕ → ℕ → Session → Handler → Handler
  unfolding refresh unauthenticated
  aged a now last s next r h =
      if ltb a.max_age (now - last)
      then unauthenticated a next r h
      else if ltb a.refresh_age (now - last)
      then refresh a now s next r h
      else admit s next r h

  -- Middleware, at the time `now`.
  unfoldable pub cookie_auth : CookieAuth → ℕ → Handler → Handler
  unfolding aged expire
  cookie_auth a now next r h = elim (get (r.headers "Cookie")) [
    | undecodable e ↦ before (expire a ∷ []) (unauthenticated a next) r h
    | session s ↦ if not s.authenticated then unauthenticated a next r h else elim s.last_access [
      | none ↦ unauthenticated a next r h
      | some last ↦ aged a now last s next r h
    ]
  ]

  -- SetState: the calls and the error; no instance is a nil one.
  unfoldable pub set_state : Option CookieAuth → ℕ → Request → Text → List Action × Option Text
  set_state none now r state = ([], some (codes "auth: cookie auth is not initialized"))
  set_state (some a) now r state = elim (get (r.headers "Cookie")) [
    | undecodable e ↦ ([], some (codes "auth: retrieving session: " ++ e))
    | session s ↦
        elim (save (record { authenticated = true; state = some state; last_access = some now })) [
          | unencodable e ↦ ([], some (codes "auth: saving session: " ++ e))
          | encoded value ↦ (session_cookie a value ∷ [], none)
        ]
  ]

-- Clear; the session of this request is emptied too.
unfoldable pub clear : Option CookieAuth → List Action
unfolding expire
clear none = []
clear (some a) = expire a ∷ []

-- Value
unfoldable pub value_of : Request → Option Text
value_of r = r.ctx state_key

unfoldable pub is_skipped : Request → Bool
is_skipped r = elim (r.ctx skipped_key) [ none ↦ false | some v ↦ true ]
