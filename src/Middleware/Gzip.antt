-- ===== src/Middleware/Gzip.antt =====
-- middleware/gzip/gzip.go.
pub mod Stream
pub mod Errors
use revelt.Base.{
  ℕ, String, Bool, true, false, ◌||◌, ◌&&◌, List, [], ◌∷◌, ◌++◌, Option, none, some, ◌==◌,
  if◌then◌else◌,
}
use revelt.Text.{Text, codes, has_prefix, contains, text_eq}
use revelt.Http.{
  Request, Headers, Action, set_header, del_header, set_cookie, write_header, write, flush, Outcome,
  Handler, is_bodyless,
}

-- compress/gzip: a writer's state, and the bytes that each call sends on.
pub record Compressor : Type 1 where
  pub State : Type 0
  pub start : State
  pub push : State → Text → State × Text
  pub sync : State → State × Text
  pub finish : State → Text

abbrev pub not_empty : Text → Bool
not_empty [] = false
not_empty _ = true

module _ (z : Compressor) where
  open z use {State, start, push, sync, finish}

  pub record Writer : Type 0 where
    pub gw : State
    pub status : ℕ
    pub header_written : Bool

  abbrev pub fresh : Writer
  fresh = record { gw = start; status = 0; header_written = false }

  abbrev encoding_headers : ℕ → List Action
  encoding_headers code =
      if is_bodyless code
      then []
      else set_header "Content-Encoding" (codes "gzip") ∷ del_header "Content-Length" ∷ []

  -- gzipWriter.WriteHeader: the calls on the wrapped writer.
  unfoldable pub on_header : ℕ → Writer → Writer × List Action
  on_header code g = if g.header_written then (g, []) else (
    record g { status = code; header_written = true },
    encoding_headers code ++ write_header code ∷ [],
  )

  -- The implicit WriteHeader of Write.
  unfoldable pub ensure_header : Writer → Writer × List Action
  unfolding on_header
  ensure_header g =
      if g.header_written then (g, []) else on_header (if g.status == 0 then 200 else g.status) g

  unfoldable pub on_write : Text → Writer → Writer × List Action
  unfolding ensure_header
  on_write p g =
      let (g', first) = ensure_header g in
      let (gw', out) = push g'.gw p in (record g' { gw = gw' }, first ++ write out ∷ [])

  -- gzipWriter.Flush.
  unfoldable pub on_flush : Writer → Writer × List Action
  on_flush g = let (gw', out) = sync g.gw in (record g { gw = gw' }, write out ∷ flush ∷ [])

  -- A call of the handler on the wrapper.
  unfoldable pub wrap : Action → Writer → Writer × List Action
  unfolding on_header on_write on_flush
  wrap (write_header code) g = on_header code g
  wrap (write p) g = on_write p g
  wrap flush g = on_flush g
  wrap a g = (g, a ∷ [])

  unfoldable pub wrap_all : List Action → Writer → Writer × List Action
  unfolding wrap
  wrap_all [] g = (g, [])
  wrap_all (a ∷ as') g =
      let (g', out) = wrap a g in let (g'', rest) = wrap_all as' g' in (g'', out ++ rest)

  -- The deferred function.
  unfoldable pub close : Writer → List Action
  close g = if g.header_written && is_bodyless g.status then [] else write (finish g.gw) ∷ []

  unfoldable pub through : List Action × Outcome → List Action × Outcome
  unfolding wrap_all close
  through (as', out) = let (g, calls) = wrap_all as' fresh in (calls ++ close g, out)

  unfoldable pub compressed : Handler → Handler
  unfolding through
  compressed next r h = through (next r h)

  abbrev pub any_prefix : List Text → Text → Bool
  any_prefix [] path = false
  any_prefix (p ∷ ps) path = has_prefix p path || any_prefix ps path

  -- GzipLevel, at a valid level.
  unfoldable pub gzip : List Text → Handler → Handler
  unfolding compressed
  gzip skip_paths next r h =
      if any_prefix skip_paths r.path
      then next r h
      else if not_empty (h "Content-Encoding")
      then next r h
      else if contains (codes "gzip") (r.headers "Accept-Encoding")
      then compressed next r h
      else next r h
