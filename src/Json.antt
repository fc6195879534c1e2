-- ===== src/Json.antt =====
-- http.go: JSON, JSONOk, JSONError and DecodeJSON. encoding/json is a parameter.
pub mod Decode
use revelt.Base.{
  ℕ, zero, suc, ◌+◌, ◌*◌, Bool, true, false, ◌||◌, List, [], ◌∷◌, ◌++◌, Option, none, some, length,
  ltb, ◌==◌, if◌then◌else◌,
}
use revelt.Text.{Text, codes}
use revelt.Http.{Action, set_header, write_header, write, Outcome, returned}
use revelt.Reader.{Source, one_beyond, limit_reader}

-- json.NewEncoder(w).Encode: the text, or an error before any of it is written.
pub data Encoded : Type 0 where
  encoded unencodable : Text → Encoded

module _ {V : Type 0} (encode : V → Encoded) where
  -- JSON, as the calls on the writer and the error returned.
  unfoldable pub json : ℕ → V → List Action × Outcome
  json status v = elim (encode v) [
    | encoded text ↦ (
      set_header "Content-Type" (codes "application/json; charset=utf-8")
          ∷ write_header status
          ∷ write text
          ∷ [],
      returned none,
    )
    | unencodable e ↦ (
      set_header "Content-Type" (codes "application/json; charset=utf-8")
          ∷ write_header status
          ∷ [],
      returned (some (codes "revelt.JSON: encoding response: " ++ e)),
    )
  ]

  unfoldable pub json_ok : V → List Action × Outcome
  unfolding json
  json_ok v = json 200 v

  -- JSONError; `envelope` is map[string]string{"error": message}.
  unfoldable pub json_error : (Text → V) → ℕ → Text → List Action × Outcome
  unfolding json
  json_error envelope status message = json status (envelope message)

-- A call of Decode from an offset: a value and the offset behind it, io.EOF, or another error, with
-- what InputOffset says then.
pub data Step (V : Type 0) : Type 0 where
  value : V → ℕ → Step V
  eof : ℕ → Step V
  bad : ℕ → Text → Step V

pub data DecodeError : Type 0 where
  empty_body body_too_large : DecodeError
  reading : Text → DecodeError
  malformed : ℕ → Text → DecodeError

pub data Decoded (V : Type 0) : Type 0 where
  decoded : V → Decoded V
  refused : DecodeError → Decoded V

abbrev pub default_max : ℕ
default_max = 1048576

-- maxBytes as it is given; a number that is not positive is given as 0.
unfoldable pub max_memory : Option ℕ → ℕ
max_memory none = default_max
max_memory (some zero) = default_max
max_memory (some (suc n)) = suc n

module _ {V : Type 0} (decode : Text → ℕ → Step V) where
  -- The second Decode, which should meet io.EOF.
  unfoldable pub only_value : Text → V → ℕ → Decoded V
  only_value body v offset = elim (decode body offset) [
    | eof _ ↦ decoded v
    | value _ next ↦ refused (malformed next (codes "unexpected additional JSON value after body"))
    | bad next e ↦ refused (malformed next e)
  ]

  unfoldable pub parse_body : Text → Decoded V
  unfolding only_value
  parse_body body = elim (decode body 0) [
    | value v offset ↦ only_value body v offset
    | eof offset ↦ refused (malformed offset (codes "EOF"))
    | bad offset e ↦ refused (malformed offset e)
  ]

  -- The tests on what ReadAll has read.
  unfoldable pub check_body : ℕ → Source → Decoded V
  unfolding parse_body
  check_body max read = elim read.fault [
    | some e ↦ refused (reading e)
    | none ↦
        if length read.bytes == 0
        then refused empty_body
        else if ltb max (length read.bytes)
        then refused body_too_large
        else parse_body read.bytes
  ]

  -- DecodeJSON; `body` is none where r.Body is nil.
  unfoldable pub decode_json : Option Source → Option ℕ → Decoded V
  unfolding check_body max_memory
  decode_json none max_bytes = refused empty_body
  decode_json (some body) max_bytes =
      let max = max_memory max_bytes in check_body max (limit_reader (one_beyond max) body)
