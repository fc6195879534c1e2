-- ===== src/Text.antt =====
-- Text as a list of code points, and what the source uses of Go's package strings.
pub mod Laws
pub mod Maps
use Prim.Native.Char.{code}
use revelt.Base.{
  ℕ, String, Bool, true, false, ◌&&◌, ◌||◌, List, [], ◌∷◌, Option, none, some, ◌==◌, leb,
  if◌then◌else◌,
}

abbrev pub Text : Type 0
Text = List ℕ

abbrev pub codes : String → Text
codes String.[] = []
codes (String.◌∷◌ c s) = code c ∷ codes s

-- strings.HasPrefix(s, p), with the pattern first.
unfoldable pub has_prefix : Text → Text → Bool
has_prefix [] s = true
has_prefix (a ∷ p) [] = false
has_prefix (a ∷ p) (b ∷ s) = a == b && has_prefix p s

-- strings.CutPrefix(s, p): what is left behind the prefix, if it is one.
unfoldable pub strip_prefix : Text → Text → Option Text
strip_prefix [] s = some s
strip_prefix (a ∷ p) [] = none
strip_prefix (a ∷ p) (b ∷ s) = if a == b then strip_prefix p s else none

-- strings.TrimPrefix
unfoldable pub trim_prefix : Text → Text → Text
unfolding strip_prefix
trim_prefix p s = elim (strip_prefix p s) [ none ↦ s | some rest ↦ rest ]

-- The `after` of strings.Cut(s, sep): what follows the first occurrence of `sep`.
unfoldable pub cut_after : Text → Text → Option Text
unfolding strip_prefix
cut_after sep [] = strip_prefix sep []
cut_after sep (c ∷ s) = elim (strip_prefix sep (c ∷ s)) [
  | some rest ↦ some rest
  | none ↦ cut_after sep s
]

-- strings.Contains(s, p), with the pattern first.
unfoldable pub contains : Text → Text → Bool
unfolding cut_after
contains p s = elim (cut_after p s) [ none ↦ false | some _ ↦ true ]

-- unicode.IsSpace.
unfoldable pub is_space : ℕ → Bool
is_space c =
    (leb 9 c && leb c 13)
    || c == 32
    || c == 0x85
    || c == 0xA0
    || c == 0x1680
    || (leb 0x2000 c && leb c 0x200A)
    || c == 0x2028
    || c == 0x2029
    || c == 0x202F
    || c == 0x205F
    || c == 0x3000

unfoldable pub trim_left : Text → Text
unfolding is_space
trim_left [] = []
trim_left (c ∷ s) = if is_space c then trim_left s else c ∷ s

abbrev is_nil : Text → Bool
is_nil [] = true
is_nil _ = false

unfoldable pub trim_right : Text → Text
unfolding is_space
trim_right [] = []
trim_right (c ∷ s) = let r = trim_right s in if is_space c && is_nil r then [] else c ∷ r

-- strings.TrimSpace.
unfoldable pub trim_space : Text → Text
unfolding trim_left trim_right
trim_space s = trim_right (trim_left s)

unfoldable pub text_eq : Text → Text → Bool
text_eq [] [] = true
text_eq (a ∷ s) (b ∷ t) = a == b && text_eq s t
text_eq _ _ = false

-- strings.HasSuffix(s, p), with the pattern first.
unfoldable pub has_suffix : Text → Text → Bool
unfolding text_eq
has_suffix p [] = text_eq p []
has_suffix p (c ∷ s) = let rest = has_suffix p s in text_eq p (c ∷ s) || rest
