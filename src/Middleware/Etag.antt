-- ===== src/Middleware/Etag.antt =====
-- middleware/etag/etag.go. A text hashed and formatted with "%x" between quotes is a parameter.
pub mod Buffering
pub mod Responses
use revelt.Base.{
  ℕ, ◌+◌, String, Bool, true, false, not, ◌||◌, ◌&&◌, List, [], ◌∷◌, ◌++◌, Option, none, some, ◌==◌,
  ltb, str_eq, if◌then◌else◌,
}
use revelt.Text.{Text, codes, contains, text_eq}
use revelt.Http.{
  Request, Headers, Action, set_header, del_header, set_cookie, write_header, write, flush, Outcome,
  returned, panicked, Handler,
}

-- etagResponseWriter: `hashed` is what the hash has been fed.
pub record Writer : Type 0 where
  pub buf : Text
  pub hashed : Text
  pub status : ℕ
  pub wrote_header : Bool

-- The writer of the pool after reset.
abbrev pub fresh : Writer
fresh = record { buf = []; hashed = []; status = 200; wrote_header = false }

-- etagResponseWriter.WriteHeader: the calls on the wrapped writer.
unfoldable pub on_header : ℕ → Writer → Writer × List Action
on_header code e = if e.wrote_header then (e, []) else (
  record e { wrote_header = true; status = code },
  if code == 200 then [] else write_header code ∷ [],
)

-- The first lines of Write: the implicit header.
abbrev pub implied : Writer → Writer
implied e = if e.wrote_header then e else record e { wrote_header = true; status = 200 }

store : Text → Writer → Writer × List Action
store p e =
    if e.status == 200
    then (record e { buf = e.buf ++ p; hashed = e.hashed ++ p }, [])
    else (e, write p ∷ [])

unfoldable pub on_write : Text → Writer → Writer × List Action
unfolding store
on_write p e = store p (implied e)

-- A call of the handler on the wrapper.
unfoldable pub wrap : Action → Writer → Writer × List Action
unfolding on_header on_write
wrap (write_header code) e = on_header code e
wrap (write p) e = on_write p e
wrap a e = (e, a ∷ [])

unfoldable pub wrap_all : List Action → Writer → Writer × List Action
unfolding wrap
wrap_all [] e = (e, [])
wrap_all (a ∷ as') e =
    let (e', out) = wrap a e in let (e'', rest) = wrap_all as' e' in (e'', out ++ rest)

fold : ℕ → ℕ
fold c =
    if c == 0x212A
    then 0x6B
    else if c == 0x17F
    then 0x73
    else if ltb 0x40 c && ltb c 0x5B
    then c + 0x20
    else c

map_fold : Text → Text
unfolding fold
map_fold [] = []
map_fold (c ∷ s) = fold c ∷ map_fold s

-- strings.EqualFold with a text of small ASCII letters.
unfoldable pub equal_fold : Text → Text → Bool
unfolding map_fold
equal_fold s lower = text_eq (map_fold s) lower

abbrev any_skip : List (Request → Bool) → Request → Bool
any_skip [] r = false
any_skip (s ∷ ss) r = s r || any_skip ss r

unfoldable pub is_cacheable : Request → List (Request → Bool) → Bool
unfolding equal_fold
is_cacheable r skip =
    if not (str_eq r.method "GET" || str_eq r.method "HEAD")
    then false
    else if equal_fold (r.headers "Upgrade") (codes "websocket")
    then false
    else if contains (codes "text/event-stream") (r.headers "Accept")
    then false
    else not (any_skip skip r)

-- A slice of a buffer whose first bytes another request has overwritten.
unfoldable pub overlay : Text → Text → Text
overlay other [] = []
overlay [] (c ∷ body) = c ∷ body
overlay (d ∷ other) (c ∷ body) = d ∷ overlay other body

module _ (tag : Text → Text) where
  -- The response once the handler has returned without an error. `body` is still the array of the
  -- buffer given back to the pool: `other` is what the requests that took the writer from there have
  -- put into it by now, empty where there were none or the buffer was too large to be given back.
  unfoldable pub finish : Text → Request → Writer → List Action
  finish other r e =
      let value = tag e.hashed in
      let if_match = r.headers "If-Match" in
      if not (e.status == 200)
      then []
      else if text_eq (r.headers "If-None-Match") value
      then write_header 304 ∷ []
      else if not (text_eq if_match []) && not (text_eq if_match value)
      then write_header 412 ∷ []
      else set_header "ETag" value ∷ write_header 200 ∷ write (overlay other e.buf) ∷ []

  unfoldable pub conclude : Text → Request → Outcome → Writer → List Action
  conclude other r (returned none) e = finish other r e
  conclude other r (returned (some x)) e = []
  conclude other r (panicked v) e = []

  unfoldable pub through : Text → Request → List Action × Outcome → List Action × Outcome
  unfolding wrap_all conclude
  through other r (as', out) =
      let (e, calls) = wrap_all as' fresh in (calls ++ conclude other r out e, out)

  -- The middleware of New.
  unfoldable pub etag : List (Request → Bool) → Text → Handler → Handler
  unfolding is_cacheable through
  etag skip other next r h = if is_cacheable r skip then through other r (next r h) else next r h
