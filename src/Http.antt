-- ===== src/Http.antt =====
-- What the middleware uses of net/http: requests, and handlers as the calls that they make on their
-- ResponseWriter; app.go: Adapt.
pub mod Exec
pub mod Handlers
pub mod Jar
use revelt.Base.{
  ℕ, String, Bool, true, false, not, ◌||◌, ◌&&◌, leb, ltb, List, [], ◌∷◌, ◌++◌, Option, none, some,
  ◌==◌, str_eq, if◌then◌else◌,
}
use revelt.Text.{Text, codes}

-- A header by its name, as Get shows it: the empty text where it is absent.
abbrev pub Headers : Type 0
Headers = String → Text

abbrev pub no_headers : Headers
no_headers k = []

abbrev pub set_key : Headers → String → Text → Headers
set_key h k v j = if str_eq k j then v else h j

-- The values on the request's context, by their keys.
abbrev pub Context : Type 0
Context = String → Option Text

abbrev pub with_value : Context → String → Text → Context
with_value c k v j = if str_eq k j then some v else c j

pub record Request : Type 0 where
  pub method : String
  pub path : Text
  pub headers : Headers
  pub remote_addr : Text
  pub ctx : Context

pub record Cookie : Type 0 where
  pub name : String
  pub value : Text
  pub max_age_negative : Bool
  pub http_only : Bool
  pub secure : Bool

-- One call on a ResponseWriter or on its header map.
pub data Action : Type 0 where
  set_header : String → Text → Action
  del_header : String → Action
  set_cookie : Cookie → Action
  write_header : ℕ → Action
  write : Text → Action
  flush : Action

-- recover()'s value: an error, a string, a Stringer by its text, or another value by its %+v text.
pub data Panic : Type 0 where
  an_error a_string a_stringer a_value : Text → Panic

pub data Outcome : Type 0 where
  returned : Option Text → Outcome
  panicked : Panic → Outcome

-- if c { w.Header().Set(k, v) }
abbrev pub set_if : Bool → String → Text → List Action
set_if c k v = if c then set_header k v ∷ [] else []

-- Such lines in a row.
unfoldable pub set_given : List (Bool × (String × Text)) → List Action
set_given [] = []
set_given ((c, (k, v)) ∷ rows) = set_if c k v ++ set_given rows

-- HandlerFunc: the request and the header map as it stands give the calls made and how it ended.
abbrev pub Handler : Type 0
Handler = Request → Headers → List Action × Outcome

-- The header map after some calls.
unfoldable pub headers_after : Headers → List Action → Headers
headers_after h [] = h
headers_after h (set_header k v ∷ as') = headers_after (set_key h k v) as'
headers_after h (del_header k ∷ as') = headers_after (set_key h k []) as'
headers_after h (_ ∷ as') = headers_after h as'

abbrev prepend : List Action → List Action × Outcome → List Action × Outcome
prepend first (rest, out) = (first ++ rest, out)

-- Calls made before `next` is called.
unfoldable pub before : List Action → Handler → Handler
unfolding headers_after
before first next r h = prepend first (next r (headers_after h first))

-- The response of net/http: `status` is 0 until the header is sent; `sent` is the header map then.
pub record Response : Type 0 where
  pub headers : Headers
  pub cookies : List Cookie
  pub status : ℕ
  pub sent : Headers
  pub sent_cookies : List Cookie
  pub body : Text

abbrev pub blank : Response
blank = record {
  headers = no_headers;
  cookies = [];
  status = 0;
  sent = no_headers;
  sent_cookies = [];
  body = [];
}

-- The codes of 1xx but 101, which are sent ahead of the response and leave it open.
abbrev pub is_informational : ℕ → Bool
is_informational code = leb 100 code && ltb code 200 && not (code == 101)

-- A second WriteHeader is ignored, where the first one was not informational.
abbrev pub commit : ℕ → Response → Response
commit code w =
    if is_informational code
    then w
    else if w.status == 0
    then record w { status = code; sent = w.headers; sent_cookies = w.cookies }
    else w

-- http.StatusNoContent and http.StatusNotModified allow no body.
abbrev pub is_bodyless : ℕ → Bool
is_bodyless code = code == 204 || code == 304

abbrev add_body : Text → Response → Response
add_body p w = if is_bodyless w.status then w else record w { body = w.body ++ p }

unfoldable pub act : Action → Response → Response
act (set_header k v) w = record w { headers = set_key w.headers k v }
act (del_header k) w = record w { headers = set_key w.headers k [] }
act (set_cookie c) w = record w { cookies = c ∷ w.cookies }
act (write_header code) w = commit code w
act (write p) w = add_body p (commit 200 w)
act flush w = commit 200 w

unfoldable pub exec : List Action → Response → Response
unfolding act
exec [] w = w
exec (a ∷ as') w = exec as' (act a w)

-- Adapt: the error handler runs after a handler that returned an error. A panic leaves the response
-- as it is.
unfoldable pub respond : (Text → List Action) → List Action × Outcome → Response
unfolding exec
respond err_handler (as', returned none) = exec as' blank
respond err_handler (as', returned (some e)) = exec (err_handler e) (exec as' blank)
respond err_handler (as', panicked v) = exec as' blank

unfoldable pub adapt : (Text → List Action) → Handler → Request → Response
unfolding respond
adapt err_handler fn r = respond err_handler (fn r no_headers)

-- DefaultErrorHandler, by http.Error.
unfoldable pub default_error_handler : Text → List Action
default_error_handler e =
    del_header "Content-Length"
    ∷ set_header "Content-Type" (codes "text/plain; charset=utf-8")
    ∷ set_header "X-Content-Type-Options" (codes "nosniff")
    ∷ write_header 500
    ∷ write (codes "Internal Server Error\n")
    ∷ []
