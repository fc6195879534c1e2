-- ===== src/Config/Annotation.antt =====
-- config.go: extractMode and readModeAnnotation.
use revelt.Base.{
  ℕ, suc, ◌+◌, ◌≡◌, ◌≢◌, refl, ap, ◌∙◌, List, [], ◌∷◌, ◌++◌, none, some, All, arith, length, ◌-◌,
  ◌<◌,
}
use revelt.Text.{
  Text, codes, has_prefix, cut_after, strip_prefix, is_space, trim_left, trim_right, trim_space,
}
use revelt.Text.Laws.{cut_after-append, Blank, trim_left-append}
use revelt.Config.{
  Mode, ssr, hydrate, client, lazy_client, mode_name, match_mode, extract_mode, scan_modes, Source,
  ok, read_mode_annotation, search_lines,
}

-- Trimming keeps a mode's name in front.
trim_right-mode :
    (m : Mode) (t : Text) → trim_right (mode_name m ++ t) ≡ mode_name m ++ trim_right t
unfolding trim_right is_space
trim_right-mode ssr t = refl
trim_right-mode hydrate t = refl
trim_right-mode client t = refl
trim_right-mode lazy_client t = refl

trim_left-mode : (m : Mode) (t : Text) → trim_left (mode_name m ++ t) ≡ mode_name m ++ t
unfolding trim_left is_space
trim_left-mode ssr t = refl
trim_left-mode hydrate t = refl
trim_left-mode client t = refl
trim_left-mode lazy_client t = refl

match_mode-name : (m : Mode) (t : Text) → match_mode (mode_name m ++ t) ≡ some m
unfolding match_mode has_prefix
match_mode-name ssr t = refl
match_mode-name hydrate t = refl
match_mode-name client t = refl
match_mode-name lazy_client t = refl

trimmed :
    (m : Mode) (blanks tail : Text)
    → Blank blanks
    → trim_space (blanks ++ (mode_name m ++ tail)) ≡ mode_name m ++ trim_right tail
unfolding trim_space
trimmed m blanks tail blank =
    ap trim_right (trim_left-append blanks _ blank ∙ trim_left-mode m tail) ∙ trim_right-mode m tail

-- A line that carries an annotation, `@mode`, blanks and the name of a mode, behind any text with no
-- `@` and before any text at all, is read as that mode.
pub extract_mode-annotated :
    (m : Mode) (before blanks tail : Text)
    → All (λ c. c ≢ b'@') before
    → Blank blanks
    → extract_mode (before ++ (codes "@mode" ++ (blanks ++ (mode_name m ++ tail)))) ≡ some m
unfolding extract_mode
extract_mode-annotated m before blanks tail clean blank =
    rw
      (
        cut_after-append b'@' (codes "mode") before (blanks ++ (mode_name m ++ tail)) clean,
        extract_mode,
      )
      (ap match_mode (trimmed m blanks tail blank) ∙ match_mode-name m (trim_right tail))

-- A line with no `@` is no annotation.
cut_after-none : (a : ℕ) (sep s : Text) → All (λ c. c ≢ a) s → cut_after (a ∷ sep) s ≡ none
unfolding cut_after strip_prefix
cut_after-none a sep [] h = refl
cut_after-none a sep (c ∷ s) h = ground (arith, cut_after-none a sep s h.1)

extract_mode-plain : (line : Text) → All (λ c. c ≢ b'@') line → extract_mode line ≡ none
unfolding extract_mode
extract_mode-plain line h = rw (cut_after-none b'@' (codes "mode") line h, extract_mode)

abbrev pub Plain : List Text → Type 0
Plain = All (λ line. All (λ c. c ≢ b'@') line)

scan_modes-skip :
    (n : ℕ) (plain rest : List Text)
    → Plain plain
    → scan_modes (length plain + n) (plain ++ rest) ≡ scan_modes n rest
unfolding scan_modes
scan_modes-skip n [] rest h = let e : 0 + n ≡ n = omega arith in ap (λ k. scan_modes k rest) e
scan_modes-skip n (l ∷ plain) rest h =
    let e : suc (length plain) + n ≡ suc (length plain + n) = omega arith in
    rw (e, extract_mode-plain l h.0, scan_modes) (scan_modes-skip n plain rest h.1)

-- In a file that opens, the first line with an annotation gives the mode if it is among the first
-- five lines and those before it have no `@`, whatever follows it and however the scan ends.
read_mode_annotation-first :
    (f : Source) (plain rest : List Text) (line : Text) (m : Mode)
    → f.open_fault ≡ none
    → f.lines ≡ plain ++ line ∷ rest
    → Plain plain
    → length plain < search_lines
    → extract_mode line ≡ some m
    → read_mode_annotation f ≡ ok m
unfolding read_mode_annotation
read_mode_annotation-first f plain rest line m opens lines clean few e =
    rw (opens, read_mode_annotation) (rw (lines, found, read_mode_annotation) refl)
  where
    split : search_lines ≡ length plain + suc (4 - length plain)
    split = omega arith

    found : scan_modes search_lines (plain ++ line ∷ rest) ≡ some m
    found =
        ap (λ k. scan_modes k (plain ++ line ∷ rest)) split
        ∙ scan_modes-skip (suc (4 - length plain)) plain (line ∷ rest) clean
        ∙ unfold scan_modes in (rw (e, scan_modes))
