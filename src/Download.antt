-- ===== src/Download.antt =====
-- http.go: ServeFile, StreamReader, sanitizeDispositionFilename and isASCIIPrintable. filepath.Base,
-- url.QueryEscape and mime are parameters. A character above 0x7E stands for bytes above 0x7E.
use revelt.Base.{
  List, ℕ, ◌≤◌, ◌≡◌, ◌≢◌, inl, inr, refl, Bool, true, false, ◌||◌, ◌&&◌, [], ◌∷◌, ◌++◌, All, ◌==◌,
  ltb, leb, arith, Bool-cases, if◌then◌else◌, Option, none, some,
}
use revelt.Text.{Text, codes, text_eq}
use revelt.Http.{Action, set_header, write, Outcome, returned}
use revelt.Reader.{Source}

-- The replacer: a quote becomes an apostrophe, a backslash an underscore, line ends are dropped.
unfoldable pub replace_all : Text → Text
replace_all [] = []
replace_all (c ∷ s) =
    let rest = replace_all s in
    if c == 0x22
    then 0x27 ∷ rest
    else if c == 0x0D || c == 0x0A
    then rest
    else if c == 0x5C
    then 0x5F ∷ rest
    else c ∷ rest

unfoldable pub is_ascii_printable : Text → Bool
is_ascii_printable [] = true
is_ascii_printable (c ∷ s) =
    let rest = is_ascii_printable s in if ltb c 0x20 || ltb 0x7E c then false else rest

-- A character that can stand inside a quoted header parameter.
abbrev pub IsQuotable : ℕ → Type 0
IsQuotable c = (0x20 ≤ c) × (c ≤ 0x7E) × (c ≢ 0x22) × (c ≢ 0x5C)

-- What url.QueryEscape leaves: letters, digits and the marks - _ . ~ + %.
abbrev pub is_query_char : ℕ → Bool
is_query_char c =
    (leb 0x30 c && leb c 0x39)
    || (leb 0x41 c && leb c 0x5A)
    || (leb 0x61 c && leb c 0x7A)
    || c == 0x2D
    || c == 0x5F
    || c == 0x2E
    || c == 0x7E
    || c == 0x2B
    || c == 0x25

module _ (base escape : Text → Text) where
  unfoldable pub sanitize_disposition_filename : Text → Text
  unfolding replace_all is_ascii_printable
  sanitize_disposition_filename name =
      let cleaned = replace_all (base name) in
      if is_ascii_printable cleaned then cleaned else escape cleaned

-- The value of the Content-Disposition header.
disposition : (Text → Text) → Text → Text → Text
disposition clean kind name = kind ++ codes "; filename=\"" ++ clean name ++ codes "\""

-- os.Open and Stat.
pub data OpenedFile : Type 0 where
  regular directory : OpenedFile
  no_such_file : OpenedFile
  unreadable cannot_stat : Text → OpenedFile

-- ServeFile: `base` is filepath.Base, `media_type` what mime gives for the name's extension, and
-- `serve_content` the calls of http.ServeContent.
module _ (base escape media_type : Text → Text) (serve_content : Text → List Action) where
  served : Text → Text → List Action
  unfolding disposition sanitize_disposition_filename
  served kind name =
      set_header "Content-Type"
        (if text_eq (media_type name) [] then codes "application/octet-stream" else media_type name)
      ∷ set_header "Content-Disposition"
          (disposition (sanitize_disposition_filename base escape) kind name)
      ∷ serve_content name

  unfoldable pub serve_file : OpenedFile → Text → Text → List Action × Outcome
  unfolding served
  serve_file no_such_file path download_name =
      ([], returned (some (codes "revelt.ServeFile: file does not exist: " ++ path)))
  serve_file (unreadable e) path download_name =
      ([], returned (some (codes "revelt.ServeFile: opening " ++ path ++ codes ": " ++ e)))
  serve_file (cannot_stat e) path download_name =
      ([], returned (some (codes "revelt.ServeFile: stat " ++ path ++ codes ": " ++ e)))
  serve_file directory path download_name =
      ([], returned (some (codes "revelt.ServeFile: " ++ path ++ codes " is a directory")))
  serve_file regular path [] = (served (codes "inline") (base path), returned none)
  serve_file regular path (c ∷ name) = (served (codes "attachment") (c ∷ name), returned none)

-- StreamReader; `size` is none where it is negative.
module _ (base escape : Text → Text) (decimal : ℕ → Text) where
  abbrev content_length : Option ℕ → List Action
  content_length none = []
  content_length (some size) = set_header "Content-Length" (decimal size) ∷ []

  named : Text → Text
  unfolding disposition sanitize_disposition_filename
  named [] =
      disposition (sanitize_disposition_filename base escape) (codes "inline") (codes "download")
  named (c ∷ name) =
      disposition (sanitize_disposition_filename base escape) (codes "attachment") (c ∷ name)

  abbrev copied : Source → List Action
  copied src = elim src.bytes [ [] ↦ [] | c ∷ s ↦ write (c ∷ s) ∷ [] ]

  unfoldable pub stream_reader : Source → Text → Text → Option ℕ → List Action × Outcome
  unfolding named
  stream_reader src content_type download_name size = (
    set_header "Content-Type"
          (if text_eq content_type [] then codes "application/octet-stream" else content_type)
        ∷ set_header "Content-Disposition" (named download_name)
        ∷ (content_length size ++ copied src),
    returned (elim src.fault [
      | none ↦ none
      | some e ↦ some (codes "revelt.StreamReader: copying response body: " ++ e)
    ]),
  )

query_char-IsQuotable : (c : ℕ) → is_query_char c ≡ true → IsQuotable c
query_char-IsQuotable c h = ground arith

query_chars-IsQuotable : (s : Text) → All (λ c. is_query_char c ≡ true) s → All IsQuotable s
query_chars-IsQuotable [] h = h
query_chars-IsQuotable (c ∷ s) h = (query_char-IsQuotable c h.0, query_chars-IsQuotable s h.1)

-- Neither a quote nor a backslash is left.
replaced : (s : Text) → All (λ c. (c ≢ 0x22) × (c ≢ 0x5C)) (replace_all s)
unfolding replace_all
replaced [] = tt
replaced (c ∷ s) = elim (Bool-cases (c == 0x22)) [
  | inl quote ↦ rw (quote) (((λ e. ground (arith, e)), (λ e. ground (arith, e))), replaced s)
  | inr plain ↦ elim (Bool-cases (c == 0x0D || c == 0x0A)) [
    | inl line ↦ rw (plain, line) (replaced s)
    | inr inside ↦ elim (Bool-cases (c == 0x5C)) [
      | inl backslash ↦
          rw (plain, inside, backslash)
            (((λ e. ground (arith, e)), (λ e. ground (arith, e))), replaced s)
      | inr other ↦ rw (plain, inside, other) ((ground arith, ground arith), replaced s)
    ]
  ]
]

printable :
    (s : Text)
    → is_ascii_printable s ≡ true
    → All (λ c. (c ≢ 0x22) × (c ≢ 0x5C)) s
    → All IsQuotable s
unfolding is_ascii_printable
printable [] h k = tt
printable (c ∷ s) h k = (ground arith, printable s (ground arith) k.1)

-- The text before the first quote, and what follows it.
abbrev cons_to : ℕ → Option (Text × Text) → Option (Text × Text)
cons_to c none = none
cons_to c (some (s, after)) = some (c ∷ s, after)

unfoldable pub read_quoted : Text → Option (Text × Text)
read_quoted [] = none
read_quoted (c ∷ s) = let rest = read_quoted s in if c == 0x22 then some ([], s) else cons_to c rest

ne_false : (c : ℕ) → c ≢ 0x22 → (c == 0x22) ≡ false
ne_false c ne = ground arith

read_quoted_lem :
    (s after : Text) → All IsQuotable s → read_quoted (s ++ 0x22 ∷ after) ≡ some (s, after)
unfolding read_quoted
read_quoted_lem [] after h = refl
read_quoted_lem (c ∷ s) after h = rw (ne_false c h.0.2, read_quoted_lem s after h.1) refl

module _ (base escape : Text → Text) where
  sanitized :
      ((s : Text) → All (λ c. is_query_char c ≡ true) (escape s))
      → (name : Text) → All IsQuotable (sanitize_disposition_filename base escape name)
  unfolding sanitize_disposition_filename
  sanitized law name = elim (Bool-cases (is_ascii_printable (replace_all (base name)))) [
    | inl fine ↦ rw (fine) (printable (replace_all (base name)) fine (replaced (base name)))
    | inr odd ↦
        rw (odd) (
          query_chars-IsQuotable (escape (replace_all (base name))) (law (replace_all (base name))))
  ]

  -- Where QueryEscape leaves letters, digits and the marks - _ . ~ + % only, a file name put between
  -- quotes in a header is printable ASCII without quotes and backslashes, whatever the name was, and
  -- a reader of the header that stops at the first quote reads that name.
  pub disposition_name-Reads :
      ((s : Text) → All (λ c. is_query_char c ≡ true) (escape s))
      → (name after : Text)
      → let clean = sanitize_disposition_filename base escape name in
        All IsQuotable clean × (read_quoted (clean ++ 0x22 ∷ after) ≡ some (clean, after))
  disposition_name-Reads law name after =
      let safe = sanitized law name in
      (safe, read_quoted_lem (sanitize_disposition_filename base escape name) after safe)
