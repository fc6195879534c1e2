-- ===== src/Query.antt =====
-- http.go: QueryInt, QueryBool and QueryDefault. The value of the parameter is given by its text, empty
-- where it is absent; strconv is a parameter. An integer is given by its bits.
use revelt.Base.{
  ℕ, ◌+◌, ◌^◌, ◌%◌, ◌≡◌, ◌≢◌, refl, Bool, true, false, [], ◌∷◌, Option, none, some, get_or, arith,
  if◌then◌else◌,
}
use revelt.Text.{Text, codes, text_eq}

-- QueryInt for an integer type of `w` bits; `parse` is ParseInt(raw, 10, 64), as 64 bits.
unfoldable pub query_int : ℕ → (Text → Option ℕ) → Text → Option ℕ → ℕ
query_int w parse [] fallback = get_or fallback 0
query_int w parse (c ∷ raw) fallback = elim (parse (c ∷ raw)) [
  | none ↦ get_or fallback 0
  | some v ↦ v % 2 ^ w
]

-- The switch on "on" and "off".
switch : Text → Option Bool
switch s =
    if text_eq s (codes "on")
    then some true
    else if text_eq s (codes "off")
    then some false
    else none

-- QueryBool, over strconv.ParseBool and strings.ToLower.
unfoldable pub query_bool : (Text → Option Bool) → (Text → Text) → Text → Option Bool → Bool
unfolding switch
query_bool parse lower [] fallback = get_or fallback false
query_bool parse lower (c ∷ raw) fallback = elim (parse (c ∷ raw)) [
  | some b ↦ b
  | none ↦ get_or (switch (lower (c ∷ raw))) (get_or fallback false)
]

unfoldable pub query_default : Text → Text → Text
query_default [] fallback = fallback
query_default (c ∷ raw) fallback = c ∷ raw

wraps : (u m : ℕ) → (u + m) % m ≡ u % m
wraps u m = grind arith

-- A text that parses as a 64-bit integer beyond the type is not given the fallback: for a type of
-- fewer bits, another text of the type's own range has the same answer, whatever the fallbacks are.
pub query_int_narrows :
    (w : ℕ) (parse : Text → Option ℕ) (raw small : Text) (v u : ℕ) (fallback other : Option ℕ)
    → raw ≢ []
    → small ≢ []
    → parse raw ≡ some v
    → parse small ≡ some u
    → v ≡ u + 2 ^ w
    → query_int w parse raw fallback ≡ query_int w parse small other
unfolding query_int
query_int_narrows w parse [] small v u fallback other full full' p q e = absurd (full refl)
query_int_narrows w parse (c ∷ raw) [] v u fallback other full full' p q e = absurd (full' refl)
query_int_narrows w parse (c ∷ raw) (d ∷ small) v u fallback other full full' p q e =
    rw (query_int, p, q, e) (wraps u (2 ^ w))
