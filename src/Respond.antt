-- ===== src/Respond.antt =====
-- http.go: the answers of a handler in one call, the cache headers, FlushWriter and the tests of the
-- request's media type. mime.ParseMediaType, http.Redirect and the decimal text of a number are
-- parameters.
use revelt.Base.{
  ap, ℕ, Bool, false, ◌||◌, ◌≡◌, ◌≤◌, arith, List, [], ◌∷◌, ◌++◌, Option, get_or, if◌then◌else◌,
}
use revelt.Text.{Text, codes, text_eq, has_prefix, has_suffix}
use revelt.Http.{
  act, Request, Response, Action, set_header, write_header, write, flush, adapt,
  default_error_handler, is_bodyless, exec, respond, blank, set_key, no_headers,
}
use revelt.Http.Exec.{is_informational_final}
use revelt.Http.Handlers.{default_error_late}
use revelt.Json.{Encoded, unencodable, json}

unfoldable pub no_content : List Action
no_content = write_header 204 ∷ []

unfoldable pub redirect : (Text → ℕ → List Action) → Text → ℕ → List Action
redirect http_redirect target status = http_redirect target status

unfoldable pub set_no_cache : List Action
set_no_cache =
    set_header "Cache-Control" (codes "no-store, no-cache, must-revalidate")
    ∷ set_header "Pragma" (codes "no-cache")
    ∷ set_header "Expires" (codes "0")
    ∷ []

-- SetCacheImmutable, with the maximal age in seconds.
unfoldable pub set_cache_immutable : (ℕ → Text) → ℕ → List Action
set_cache_immutable decimal seconds =
    set_header "Cache-Control" (codes "public, max-age=" ++ decimal seconds ++ codes ", immutable")
    ∷ []

-- FlushWriter.Write, over a writer that can be flushed or not.
unfoldable pub flush_write : Bool → Text → List Action
flush_write flusher p = write p ∷ (if flusher then flush ∷ [] else [])

-- PeekContentType.
unfoldable pub peek_content_type : (Text → Option Text) → Request → Text
peek_content_type parse r =
    if text_eq (r.headers "Content-Type") []
    then []
    else get_or (parse (r.headers "Content-Type")) []

unfoldable pub is_json_request : (Text → Option Text) → Request → Bool
unfolding peek_content_type
is_json_request parse r =
    text_eq (peek_content_type parse r) (codes "application/json")
    || has_suffix (codes "+json") (peek_content_type parse r)

unfoldable pub is_multipart_request : (Text → Option Text) → Request → Bool
unfolding peek_content_type
is_multipart_request parse r = has_prefix (codes "multipart/") (peek_content_type parse r)

-- The response when JSON has failed.
abbrev json_sent : ℕ → Response
json_sent status =
    let h = set_key no_headers "Content-Type" (codes "application/json; charset=utf-8") in
    record blank { headers = h; status = status; sent = h }

-- A handler that returns what JSON returns for a value that cannot be encoded: the status of JSON is
-- sent with the JSON content type, and the body is the text of the default error handler.
json_unencodable :
    {V : Type 0} (encode : V → Encoded) (status : ℕ) (v : V) (e : Text) (r : Request)
    → encode v ≡ unencodable e
    → 200 ≤ status
    → is_bodyless status ≡ false
    → let w = adapt default_error_handler (λ _ _. json encode status v) r in
      (w.status ≡ status)
      × (w.sent "Content-Type" ≡ codes "application/json; charset=utf-8")
      × (w.body ≡ codes "Internal Server Error\n")
unfolding json adapt respond exec act
json_unencodable encode status v e r broken real full =
    let late =
      default_error_late (json_sent status) (codes "revelt.JSON: encoding response: " ++ e)
        (omega arith) full in
    rw (json, broken, is_informational_final status real)
      (late.0, ap (λ h. h "Content-Type") late.1, late.2)
