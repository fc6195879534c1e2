-- ===== src/Examples/Middleware.antt =====
-- The middleware at concrete inputs.
use revelt.Base.{
  ℕ, ◌≡◌, refl, sym, ap, ◌∙◌, true, false, List, [], ◌∷◌, ◌++◌, Option, none, some, arith, str_eq,
  if◌then◌else◌,
}
use mathlib.Core.List.{append_assoc, append-nil}
use revelt.Text.{Text, codes}
use revelt.Http.{
  Request, Handler, set_header, write, returned, panicked, a_string, an_error, no_headers, exec,
  blank, is_bodyless,
}
use revelt.Middleware.Gzip.{Compressor, compressed}
use revelt.Middleware.Gzip.Stream.{feed, concat, compressed_stream}
use revelt.Middleware.Recovery.{default_config, recovery, json_body, wants_json}
use revelt.Middleware.Recovery.Panics.{recovery_response}

-- A compressor that sends its input on, and ends with a byte of its own.
abbrev pub stored : Compressor
stored = record {
  State = ℕ;
  start = 0;
  push = λ st p. (st, p);
  sync = λ st. (st, []);
  finish = λ st. 0 ∷ [];
}

pub unstore : Text → Option Text
unstore [] = none
unstore (c ∷ []) = some []
unstore (c ∷ (d ∷ s)) = elim (unstore (d ∷ s)) [ none ↦ none | some t ↦ some (c ∷ t) ]

unstore-snoc : (s : Text) → unstore (s ++ 0 ∷ []) ≡ some s
unfolding unstore
unstore-snoc [] = refl
unstore-snoc (c ∷ []) = refl
unstore-snoc (c ∷ (d ∷ s)) = rw (unstore-snoc (d ∷ s), unstore)

feed-stored : (out : Text) (ps : List Text) → (feed stored 0 out ps).1 ≡ out ++ concat ps
feed-stored out [] = sym (append-nil out)
feed-stored out (p ∷ ps) = feed-stored (out ++ p) ps ∙ append_assoc out p (concat ps)

pub unstore-feed : (ps : List Text) → unstore ((feed stored 0 [] ps).1 ++ 0 ∷ []) ≡ some (concat ps)
unstore-feed ps = ap (λ s. unstore (s ++ 0 ∷ [])) (feed-stored [] ps) ∙ unstore-snoc (concat ps)

abbrev get : Request
get = record {
  method = "GET";
  path = codes "/page";
  headers = λ k. if str_eq k "Accept-Encoding" then codes "br, gzip" else [];
  remote_addr = codes "10.0.0.1:4000";
  ctx = λ k. none;
}

abbrev hello : Handler
hello r h = (
  set_header "Content-Length" (codes "5") ∷ write (codes "hel") ∷ write (codes "lo") ∷ [],
  returned none,
)

abbrev fails : Handler
fails r h = ([], returned (some (codes "no rows")))

abbrev panics : Handler
panics r h = ([], panicked (a_string (codes "index out of range")))

compressed_stream_example :
    let w = exec (hello get no_headers).0 blank in
    let u = exec (compressed stored hello get no_headers).0 blank in
    (u.status ≡ w.status)
    × (is_bodyless w.status ≡ false
        → (u.sent "Content-Encoding" ≡ codes "gzip")
          × (u.sent "Content-Length" ≡ [])
          × (unstore u.body ≡ some w.body))
    × (is_bodyless w.status ≡ true → u.body ≡ [])
unfolding exec
compressed_stream_example =
    compressed_stream stored unstore unstore-feed hello get no_headers (tt, (tt, (tt, tt)))
      (omega arith)

recovery_response_example :
    let u = exec (recovery some default_config panics get no_headers).0 blank in
    let message = codes "Internal Server Error" in
    (u.status ≡ 500)
    × (u.sent ≡ no_headers)
    × (u.body ≡ (if wants_json get then json_body some message else message))
unfolding exec
recovery_response_example =
    recovery_response some default_config panics get (a_string (codes "index out of range")) [] refl
      refl refl

-- A handler that panics with a secret.
abbrev leaks : Handler
leaks r h = ([], panicked (an_error (codes "dial: password=hunter2")))

abbrev short : Handler
short r h = (write (codes "hi") ∷ [], returned none)

-- Both compressors send their input on and end with a 0, so the client's brotli decoder is left with
-- the gzip ending in the text.
