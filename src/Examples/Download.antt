-- ===== src/Examples/Download.antt =====
-- The names of downloads at a concrete input, with an escape that puts + for every other character.
use revelt.Base.{ℕ, ◌≡◌, refl, true, [], ◌∷◌, ◌++◌, All, some, Bool-cases, inl, inr, if◌then◌else◌}
use revelt.Text.{Text, codes}
use revelt.Download.{
  IsQuotable, is_query_char, sanitize_disposition_filename, read_quoted, disposition_name-Reads,
}

escape : Text → Text
escape [] = []
escape (c ∷ s) = (if is_query_char c then c else 0x2B) ∷ escape s

kept : (c : ℕ) → is_query_char (if is_query_char c then c else 0x2B) ≡ true
kept c = elim (Bool-cases (is_query_char c)) [ inl fine ↦ rw (fine) fine | inr odd ↦ rw (odd) refl ]

escape_law : (s : Text) → All (λ c. is_query_char c ≡ true) (escape s)
unfolding escape
escape_law [] = tt
escape_law (c ∷ s) = (kept c, escape_law s)

abbrev name : Text
name = codes "a\"b\n.txt"

disposition_name-Reads_example :
    let clean = sanitize_disposition_filename (λ s. s) escape name in
    All IsQuotable clean
    × (read_quoted (clean ++ 0x22 ∷ codes "; size=1") ≡ some (clean, codes "; size=1"))
disposition_name-Reads_example =
    disposition_name-Reads (λ s. s) escape escape_law name (codes "; size=1")
