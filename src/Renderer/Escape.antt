-- ===== src/Renderer/Escape.antt =====
-- renderer.go: escapeHTML.
use mathlib.Core.Path.{ap₂}
use revelt.Base.{ℕ, ◌≡◌, ◌≢◌, refl, sym, [], ◌∷◌, ◌++◌, All, All-append, arith}
use revelt.Text.{Text}
use revelt.Renderer.{escape_rune, escape_html}

abbrev pub IsSafe : ℕ → Type 0
IsSafe c = (c ≢ b'<') × (c ≢ b'>') × (c ≢ 34) × (c ≢ 39)

escape_rune-IsSafe : (r : ℕ) → All IsSafe (escape_rune r)
unfolding escape_rune
escape_rune-IsSafe r = ground arith

-- An escaped text has no angle bracket and no quote, so it ends no attribute and opens no tag.
pub escape_html-IsSafe : (text : Text) → All IsSafe (escape_html text)
unfolding escape_html
escape_html-IsSafe [] = tt
escape_html-IsSafe (r ∷ text) =
    All-append IsSafe (escape_rune r) (escape_html text) (escape_rune-IsSafe r)
      (escape_html-IsSafe text)

escape_rune_prefix :
    (r q : ℕ) (s t : Text) → escape_rune r ++ s ≡ escape_rune q ++ t → (r ≡ q) × (s ≡ t)
unfolding escape_rune
escape_rune_prefix r q s t e = ground arith

escape_rune-cons : (r : ℕ) (s : Text) → escape_rune r ++ s ≢ []
unfolding escape_rune
escape_rune-cons r s e = ground arith

-- Different texts have different escaped forms: the browser can recover the props.
pub escape_html_injective : (s t : Text) → escape_html s ≡ escape_html t → s ≡ t
unfolding escape_html
escape_html_injective [] [] e = refl
escape_html_injective [] (q ∷ t) e = absurd (escape_rune-cons q (escape_html t) (sym e))
escape_html_injective (r ∷ s) [] e = absurd (escape_rune-cons r (escape_html s) e)
escape_html_injective (r ∷ s) (q ∷ t) e =
    let (same, rest) = escape_rune_prefix r q (escape_html s) (escape_html t) e in
    ap₂ (λ c l. c ∷ l) same (escape_html_injective s t rest)
