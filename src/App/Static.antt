-- ===== src/App/Static.antt =====
-- app.go: registerStaticHandler and gzipResponseWriter. http.FileServer behind http.StripPrefix is a
-- parameter.
pub mod Gzip
use revelt.Base.{
  ℕ, Bool, true, false, not, ◌&&◌, List, [], ◌∷◌, ◌++◌, Option, none, some, ◌==◌, if◌then◌else◌,
}
use revelt.Text.{Text, codes, has_prefix, trim_prefix, contains}
use revelt.Http.{
  Request, Headers, Action, set_header, del_header, write_header, write, flush, Outcome, returned,
  Handler, before,
}
use revelt.Middleware.Gzip.{Compressor}

-- Content-hashed chunks are immutable.
unfoldable pub cache_control : Text → Text → Text
unfolding trim_prefix
cache_control static_prefix path =
    if has_prefix (codes "chunks/") (trim_prefix static_prefix path)
    then codes "public, max-age=31536000, immutable"
    else codes "no-cache"

unfoldable pub accepts_gzip : Request → Bool
accepts_gzip r = contains (codes "gzip") (r.headers "Accept-Encoding")

-- gzipResponseWriter
pub record Buffered : Type 0 where
  pub buf : Text
  pub status_code : ℕ

abbrev pub empty_buffer : Buffered
empty_buffer = record { buf = []; status_code = 0 }

-- A call of the base handler on the buffering writer, which has no Flush.
unfoldable pub hold : Action → Buffered → Buffered × List Action
hold (write_header code) g = (record g { status_code = code }, [])
hold (write p) g = (record g { buf = g.buf ++ p }, [])
hold flush g = (g, [])
hold a g = (g, a ∷ [])

unfoldable pub hold_all : List Action → Buffered → Buffered × List Action
unfolding hold
hold_all [] g = (g, [])
hold_all (a ∷ as') g =
    let (g', out) = hold a g in let (g'', rest) = hold_all as' g' in (g'', out ++ rest)

module _ (z : Compressor) where
  open z use {State, start, push, finish}

  -- io.Copy from the buffer: one Write, unless there is nothing.
  abbrev pub copied : Text → State × Text
  copied [] = (start, [])
  copied (c ∷ s) = push start (c ∷ s)

  -- gzipResponseWriter.flush, with the deferred Close.
  unfoldable pub flush_buffer : Buffered → List Action
  flush_buffer g =
      set_header "Content-Encoding" (codes "gzip")
      ∷ del_header "Content-Length"
      ∷ ((if g.status_code == 0 then [] else write_header g.status_code ∷ [])
          ++ write ((copied g.buf).1 ++ finish (copied g.buf).0) ∷ [])

  unfoldable pub buffered : Handler → Handler
  unfolding hold_all flush_buffer
  buffered base r h =
      let (as', out) = base r h in
      let (g, calls) = hold_all as' empty_buffer in (calls ++ flush_buffer g, out)

  -- The handler that registerStaticHandler mounts.
  unfoldable pub static_handler : Bool → Text → Handler → Handler
  unfolding accepts_gzip cache_control buffered
  static_handler disable_compression static_prefix base r =
      before (set_header "Cache-Control" (cache_control static_prefix r.path) ∷ [])
        (if not disable_compression && accepts_gzip r then buffered base else base) r
