-- ===== src/Text/Laws.antt =====
-- Laws of the text functions.
use revelt.Base.{ℕ, ◌≡◌, ◌≢◌, refl, true, [], ◌∷◌, ◌++◌, some, All, arith}
use revelt.Text.{Text, has_prefix, strip_prefix, cut_after, is_space, trim_left, text_eq}

pub text_eq→eq : (s t : Text) → text_eq s t ≡ true → s ≡ t
unfolding text_eq
text_eq→eq [] [] e = refl
text_eq→eq [] (b ∷ t) e = ground arith
text_eq→eq (a ∷ s) [] e = ground arith
text_eq→eq (a ∷ s) (b ∷ t) e = ground (arith, text_eq→eq s t)

pub text_eq_refl : (s : Text) → text_eq s s ≡ true
unfolding text_eq
text_eq_refl [] = refl
text_eq_refl (a ∷ s) = ground (arith, text_eq_refl s)

pub has_prefix-append : (p s : Text) → has_prefix p (p ++ s) ≡ true
unfolding has_prefix
has_prefix-append [] s = refl
has_prefix-append (a ∷ p) s = ground (arith, has_prefix-append p s)

pub strip_prefix-append : (p s : Text) → strip_prefix p (p ++ s) ≡ some s
unfolding strip_prefix
strip_prefix-append [] s = refl
strip_prefix-append (a ∷ p) s = ground (arith, strip_prefix-append p s)

-- The first occurrence of a separator is found behind a text that has no code of its first one.
pub cut_after-append :
    (a : ℕ) (sep before rest : Text)
    → All (λ c. c ≢ a) before
    → cut_after (a ∷ sep) (before ++ ((a ∷ sep) ++ rest)) ≡ some rest
unfolding cut_after strip_prefix
cut_after-append a sep [] rest h = ground (arith, strip_prefix-append sep rest)
cut_after-append a sep (c ∷ before) rest h = ground (arith, cut_after-append a sep before rest h.1)

abbrev pub Blank : Text → Type 0
Blank = All (λ c. is_space c ≡ true)

pub trim_left-append : (ws s : Text) → Blank ws → trim_left (ws ++ s) ≡ trim_left s
unfolding trim_left
trim_left-append [] s h = refl
trim_left-append (c ∷ ws) s h = ground (arith, h.0, trim_left-append ws s h.1)
