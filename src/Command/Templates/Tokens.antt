-- ===== src/Command/Templates/Tokens.antt =====
-- cmd/revelt/template.go: templates as their authors mean them, literal codes and holes, and how one
-- call of strings.ReplaceAll fills the holes of a name.
use revelt.Base.{
  ℕ, zero, suc, ◌-◌, ◌≡◌, ◌≢◌, inl, inr, refl, sym, ap, ◌∙◌, Bool, true, false, not, ◌&&◌, ◌||◌,
  ◌==◌, leb, List, [], ◌∷◌, ◌++◌, Option, none, some, length, Bool-cases, arith, if◌then◌else◌,
}
use revelt.Text.{Text, codes, has_prefix, text_eq}
use revelt.Text.Laws.{text_eq→eq, text_eq_refl, has_prefix-append}
use revelt.Command.Templates.{replace_from, replace_all, braced}

-- A template as its author means it.
pub data Token : Type 0 where
  lit : ℕ → Token
  hole : Text → Token

abbrev pub print : List Token → Text
print [] = []
print (lit c ∷ ts) = c ∷ print ts
print (hole key ∷ ts) = braced key ++ print ts

-- The codes of a placeholder's name: capitals and the underscore.
abbrev pub is_name_code : ℕ → Bool
is_name_code c = (leb 65 c && leb c 90) || c == 95

abbrev all_name : Text → Bool
all_name [] = true
all_name (c ∷ s) = is_name_code c && all_name s

abbrev pub is_name : Text → Bool
is_name [] = false
is_name (c ∷ s) = all_name (c ∷ s)

-- What may stand behind a literal `{{`.
abbrev no_name_next : List Token → Bool
no_name_next [] = true
no_name_next (lit c ∷ ts) = not (is_name_code c)
no_name_next (hole key ∷ ts) = false

-- What may stand behind a literal `{`.
abbrev no_hole_next : List Token → Bool
no_hole_next [] = true
no_hole_next (lit c ∷ ts) = if c == 123 then no_name_next ts else true
no_hole_next (hole key ∷ ts) = false

-- No literal part can become a placeholder.
abbrev pub is_well_formed : List Token → Bool
is_well_formed [] = true
is_well_formed (lit c ∷ ts) = (if c == 123 then no_hole_next ts else true) && is_well_formed ts
is_well_formed (hole key ∷ ts) = is_name key && is_well_formed ts

abbrev pub no_brace : Text → Bool
no_brace [] = true
no_brace (c ∷ s) = not (c == 123) && no_brace s

-- All placeholders at once.
abbrev pub instantiate : (Text → Option Text) → List Token → Text
instantiate m [] = []
instantiate m (lit c ∷ ts) = c ∷ instantiate m ts
instantiate m (hole key ∷ ts) =
    (elim (m key) [ none ↦ braced key | some v ↦ v ]) ++ instantiate m ts

abbrev pub lits : Text → List Token → List Token
lits [] ts = ts
lits (c ∷ s) ts = lit c ∷ lits s ts

-- One name replaced.
unfoldable pub fill : Text → Text → List Token → List Token
fill key v [] = []
fill key v (lit c ∷ ts) = lit c ∷ fill key v ts
fill key v (hole k ∷ ts) = if text_eq key k then lits v (fill key v ts) else hole k ∷ fill key v ts

name-no_brace : (key : Text) → all_name key ≡ true → no_brace key ≡ true
name-no_brace [] h = refl
name-no_brace (c ∷ key) h = ground (arith, name-no_brace key)

-- A key's placeholder is found at its own hole only.
has_prefix-key :
    (k key s : Text)
    → all_name k ≡ true
    → all_name key ≡ true
    → has_prefix (key ++ codes "}}") ((k ++ codes "}}") ++ s) ≡ true
    → k ≡ key
unfolding has_prefix
has_prefix-key [] [] s a b h = refl
has_prefix-key [] (c ∷ key) s a b h = ground arith
has_prefix-key (c ∷ k) [] s a b h = ground arith
has_prefix-key (c ∷ k) (d ∷ key) s a b h = ground (arith, has_prefix-key k key s)

module _ (old new : Text) where
  replace_skip :
      (s t : Text) → replace_from old new (length s) (s ++ t) ≡ replace_from old new zero t
  unfolding replace_from
  replace_skip [] t = refl
  replace_skip (c ∷ s) t = replace_skip s t

  replace_match :
      (c : ℕ) (s : Text)
      → has_prefix old (c ∷ s) ≡ true
      → replace_from old new zero (c ∷ s) ≡ new ++ replace_from old new (length old - 1) s
  unfolding replace_from
  replace_match c s h = ground arith

  replace_no_match :
      (c : ℕ) (s : Text)
      → has_prefix old (c ∷ s) ≡ false
      → replace_from old new zero (c ∷ s) ≡ c ∷ replace_from old new zero s
  unfolding replace_from
  replace_no_match c s h = ground arith

suc_pred : (n : ℕ) → suc n - 1 ≡ n
suc_pred n = omega arith

replace_hit :
    (c : ℕ) (old new s : Text)
    → replace_from (c ∷ old) new zero (c ∷ (old ++ s)) ≡ new ++ replace_from (c ∷ old) new zero s
replace_hit c old new s =
    replace_match (c ∷ old) new c (old ++ s) (has_prefix-append (c ∷ old) s)
    ∙ (ap (λ n. new ++ replace_from (c ∷ old) new n (old ++ s)) (suc_pred (length old))
        ∙ ap (λ r. new ++ r) (replace_skip (c ∷ old) new old s))

-- No match starts in a text without braces, whatever follows it.
pub replace_pass :
    (key v s t : Text)
    → no_brace s ≡ true
    → replace_from (braced key) v zero (s ++ t) ≡ s ++ replace_from (braced key) v zero t
unfolding replace_from has_prefix
replace_pass key v [] t h = refl
replace_pass key v (c ∷ s) t h = ground (arith, replace_pass key v s t)

no_brace-tail : (k : Text) → all_name k ≡ true → no_brace (k ++ codes "}}") ≡ true
no_brace-tail [] h = refl
no_brace-tail (c ∷ k) h = ground (arith, no_brace-tail k)

second_brace :
    (key k s : Text)
    → all_name k ≡ true
    → has_prefix (braced key) (123 ∷ ((k ++ codes "}}") ++ s)) ≡ false
unfolding has_prefix
second_brace key [] s h = ground arith
second_brace key (c ∷ k) s h = ground arith

-- The hole of another name stays.
replace_miss :
    (key v k s : Text)
    → all_name k ≡ true
    → all_name key ≡ true
    → k ≢ key
    → replace_from (braced key) v zero (braced k ++ s)
      ≡ braced k ++ replace_from (braced key) v zero s
unfolding has_prefix
replace_miss key v k s a b other =
    replace_no_match (braced key) v 123 (123 ∷ ((k ++ codes "}}") ++ s))
      (ground (arith, has_prefix-key k key s))
    ∙ ap (λ r. 123 ∷ r)
        (replace_no_match (braced key) v 123 ((k ++ codes "}}") ++ s) (second_brace key k s a)
          ∙ ap (λ r. 123 ∷ r) (replace_pass key v (k ++ codes "}}") s (no_brace-tail k a)))

-- A literal `{` starts no match.
no_match_next :
    (key : Text) (ts : List Token)
    → is_name key ≡ true
    → no_hole_next ts ≡ true
    → has_prefix (braced key) (123 ∷ print ts) ≡ false
unfolding has_prefix
no_match_next [] ts n h = ground arith
no_match_next (c ∷ key) [] n h = refl
no_match_next (c ∷ key) (hole k ∷ ts) n h = ground arith
no_match_next (c ∷ key) (lit d ∷ []) n h = ground arith
no_match_next (c ∷ key) (lit d ∷ (hole k ∷ ts)) n h = ground arith
no_match_next (c ∷ key) (lit d ∷ (lit e ∷ ts)) n h = ground arith

print-lits : (s : Text) (ts : List Token) → print (lits s ts) ≡ s ++ print ts
print-lits [] ts = refl
print-lits (c ∷ s) ts = ap (λ r. c ∷ r) (print-lits s ts)

no_hole_next-fill :
    (key v : Text) (ts : List Token)
    → is_well_formed ts ≡ true
    → no_hole_next ts ≡ true
    → no_hole_next (fill key v ts) ≡ true
unfolding fill
no_hole_next-fill key v [] w h = refl
no_hole_next-fill key v (hole k ∷ ts) w h = ground arith
no_hole_next-fill key v (lit c ∷ []) w h = ground arith
no_hole_next-fill key v (lit c ∷ (lit d ∷ ts)) w h = ground arith
no_hole_next-fill key v (lit c ∷ (hole k ∷ ts)) w h = ground arith

is_well_formed-lits :
    (v : Text) (ts : List Token)
    → no_brace v ≡ true
    → is_well_formed ts ≡ true
    → is_well_formed (lits v ts) ≡ true
is_well_formed-lits [] ts b h = h
is_well_formed-lits (c ∷ v) ts b h = ground (arith, is_well_formed-lits v ts)

pub is_well_formed-fill :
    (key v : Text) (ts : List Token)
    → no_brace v ≡ true
    → is_well_formed ts ≡ true
    → is_well_formed (fill key v ts) ≡ true
unfolding fill
is_well_formed-fill key v [] b h = refl
is_well_formed-fill key v (lit c ∷ ts) b h =
    ground (arith, no_hole_next-fill key v ts, is_well_formed-fill key v ts)
is_well_formed-fill key v (hole k ∷ ts) b h =
    ground (arith, is_well_formed-lits v (fill key v ts), is_well_formed-fill key v ts)

name-all_name : (k : Text) → is_name k ≡ true → all_name k ≡ true
name-all_name [] h = refl
name-all_name (c ∷ k) h = h

head_keeps :
    (c : ℕ) (key : Text) (ts : List Token)
    → is_name key ≡ true
    → is_well_formed (lit c ∷ ts) ≡ true
    → has_prefix (braced key) (c ∷ print ts) ≡ false
unfolding has_prefix
head_keeps c key ts n h = elim (Bool-cases (c == 123)) [
  | inl brace ↦ ground (arith, no_match_next key ts)
  | inr plain ↦ ground arith
]

text_ne : (k key : Text) → text_eq key k ≡ false → k ≢ key
text_ne k key other same = ground (arith, text_eq_refl k, ap (λ t. text_eq t k) same)

pub fill_same :
    (key v k : Text) (ts : List Token)
    → text_eq key k ≡ true
    → fill key v (hole k ∷ ts) ≡ lits v (fill key v ts)
unfolding fill
fill_same key v k ts same = ground arith

pub fill_other :
    (key v k : Text) (ts : List Token)
    → text_eq key k ≡ false
    → fill key v (hole k ∷ ts) ≡ hole k ∷ fill key v ts
unfolding fill
fill_other key v k ts other = ground arith

-- One pass of ReplaceAll fills the holes of one name.
replace_from-fill :
    (key v : Text) (ts : List Token)
    → is_name key ≡ true
    → is_well_formed ts ≡ true
    → replace_from (braced key) v zero (print ts) ≡ print (fill key v ts)
unfolding replace_from fill
replace_from-fill key v [] n h = refl
replace_from-fill key v (lit c ∷ ts) n h =
    replace_no_match (braced key) v c (print ts) (head_keeps c key ts n h)
    ∙ ap (λ r. c ∷ r) (replace_from-fill key v ts n (ground arith))
replace_from-fill key v (hole k ∷ ts) n h = elim (Bool-cases (text_eq key k)) [
  | inl same ↦
      ap (λ j. replace_from (braced key) v zero (braced j ++ print ts))
        (sym (text_eq→eq key k same))
      ∙ (replace_hit 123 (123 ∷ (key ++ codes "}}")) v (print ts)
          ∙ (ap (λ r. v ++ r) (replace_from-fill key v ts n (ground arith))
              ∙ (sym (print-lits v (fill key v ts)) ∙ sym (ap print (fill_same key v k ts same)))))
  | inr other ↦
      replace_miss key v k (print ts) (name-all_name k (ground arith)) (name-all_name key n)
        (text_ne k key other)
      ∙ (ap (λ r. braced k ++ r) (replace_from-fill key v ts n (ground arith))
          ∙ sym (ap print (fill_other key v k ts other)))
]

pub replace_all-fill :
    (key v : Text) (ts : List Token)
    → is_name key ≡ true
    → is_well_formed ts ≡ true
    → replace_all (braced key) v (print ts) ≡ print (fill key v ts)
unfolding replace_all
replace_all-fill = replace_from-fill
