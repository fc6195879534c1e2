-- ===== src/Middleware/Brotli.antt =====
-- middleware/brotli/brotli.go, over the interface of a compressor that Gzip declares.
pub mod Stacking
use revelt.Base.{
  ℕ, Bool, true, false, ◌||◌, ◌&&◌, List, [], ◌∷◌, ◌++◌, Option, none, some, ◌==◌, if◌then◌else◌,
}
use revelt.Text.{Text, codes, has_prefix, contains}
use revelt.Http.{
  Request, Headers, Action, set_header, del_header, write_header, write, flush, Outcome, Handler,
  is_bodyless,
}
use revelt.Middleware.Gzip.{Compressor}

module _ (z : Compressor) where
  open z use {State, start, push, finish}

  pub record Writer : Type 0 where
    pub bw : State
    pub status : ℕ
    pub header_written : Bool

  abbrev pub fresh : Writer
  fresh = record { bw = start; status = 0; header_written = false }

  abbrev encoding_headers : ℕ → List Action
  encoding_headers code =
      if is_bodyless code
      then []
      else set_header "Content-Encoding" (codes "br") ∷ del_header "Content-Length" ∷ []

  -- brotliWriter.WriteHeader: the calls on the wrapped writer.
  unfoldable pub on_header : ℕ → Writer → Writer × List Action
  on_header code b = if b.header_written then (b, []) else (
    record b { status = code; header_written = true },
    encoding_headers code ++ write_header code ∷ [],
  )

  -- The implicit WriteHeader of Write.
  unfoldable pub ensure_header : Writer → Writer × List Action
  unfolding on_header
  ensure_header b =
      if b.header_written then (b, []) else on_header (if b.status == 0 then 200 else b.status) b

  unfoldable pub on_write : Text → Writer → Writer × List Action
  unfolding ensure_header
  on_write p b =
      let (b', first) = ensure_header b in
      let (bw', out) = push b'.bw p in (record b' { bw = bw' }, first ++ write out ∷ [])

  -- A call of the handler on the wrapper; Flush does not flush the compressor.
  unfoldable pub wrap : Action → Writer → Writer × List Action
  unfolding on_header on_write
  wrap (write_header code) b = on_header code b
  wrap (write p) b = on_write p b
  wrap a b = (b, a ∷ [])

  unfoldable pub wrap_all : List Action → Writer → Writer × List Action
  unfolding wrap
  wrap_all [] b = (b, [])
  wrap_all (a ∷ as') b =
      let (b', out) = wrap a b in let (b'', rest) = wrap_all as' b' in (b'', out ++ rest)

  -- The deferred function.
  unfoldable pub close : Writer → List Action
  close b = if b.header_written && is_bodyless b.status then [] else write (finish b.bw) ∷ []

  unfoldable pub through : List Action × Outcome → List Action × Outcome
  unfolding wrap_all close
  through (as', out) = let (b, calls) = wrap_all as' fresh in (calls ++ close b, out)

  abbrev pub any_prefix : List Text → Text → Bool
  any_prefix [] path = false
  any_prefix (p ∷ ps) path = has_prefix p path || any_prefix ps path

  -- Brotli.
  unfoldable pub brotli : List Text → Handler → Handler
  unfolding through
  brotli skip_paths next r h =
      if any_prefix skip_paths r.path
      then next r h
      else if contains (codes "br") (r.headers "Accept-Encoding")
      then through (next r h)
      else next r h
