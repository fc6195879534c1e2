-- ===== src/Command/Templates/Order.antt =====
-- cmd/revelt/template.go: placeholders are replaced all at once, whatever the order of the loops.
use revelt.Base.{
  inr, inl, ◌≡◌, refl, ap, ◌∙◌, Bool, true, ◌&&◌, List, [], ◌∷◌, ◌++◌, map, Option, none, some, All,
  Bool-cases, arith,
}
use mathlib.Core.Path.{fun_ext}
use revelt.Text.{Text, text_eq}
use revelt.Config.{find}
use revelt.Command.Templates.{
  FileTemplate, Vars, braced, replace_vars, rendered, Loop, over_path, over_content, with_file,
  rendered_file, render_templates,
}
use revelt.Command.Templates.Tokens.{
  fill_other, fill_same, Token, lit, hole, print, is_name, is_well_formed, no_brace, instantiate,
  lits, fill, replace_all-fill, is_well_formed-fill,
}

-- The keys are names, and the values have no `{`.
abbrev pub is_plain : Vars → Bool
is_plain [] = true
is_plain ((key, value) ∷ vars) = is_name key && no_brace value && is_plain vars

instantiate-lits :
    (m : Text → Option Text) (s : Text) (ts : List Token)
    → instantiate m (lits s ts) ≡ s ++ instantiate m ts
instantiate-lits m [] ts = refl
instantiate-lits m (c ∷ s) ts = ap (λ r. c ∷ r) (instantiate-lits m s ts)

abbrev value_or : Vars → Text → Text
value_or vars k = elim (find k vars) [ none ↦ braced k | some v ↦ v ]

instantiate-fill :
    (key v : Text) (vars : Vars) (ts : List Token)
    → instantiate (λ k. find k vars) (fill key v ts)
      ≡ instantiate (λ k. find k ((key, v) ∷ vars)) ts
unfolding fill find
instantiate-fill key v vars [] = refl
instantiate-fill key v vars (lit c ∷ ts) = ap (λ r. c ∷ r) (instantiate-fill key v vars ts)
instantiate-fill key v vars (hole k ∷ ts) = elim (Bool-cases (text_eq key k)) [
  | inl same ↦
      ap (instantiate (λ j. find j vars)) (fill_same key v k ts same)
      ∙ (instantiate-lits (λ j. find j vars) v (fill key v ts)
          ∙ rw same (ap (λ r. v ++ r) (instantiate-fill key v vars ts)))
  | inr other ↦
      ap (instantiate (λ j. find j vars)) (fill_other key v k ts other)
      ∙ rw other (ap (λ r. value_or vars k ++ r) (instantiate-fill key v vars ts))
]

instantiate-none : (ts : List Token) → print ts ≡ instantiate (λ k. none) ts
instantiate-none [] = refl
instantiate-none (lit c ∷ ts) = ap (λ r. c ∷ r) (instantiate-none ts)
instantiate-none (hole k ∷ ts) = ap (λ r. braced k ++ r) (instantiate-none ts)

replace_vars-instantiate :
    (vars : Vars) (ts : List Token)
    → is_plain vars ≡ true
    → is_well_formed ts ≡ true
    → replace_vars vars (print ts) ≡ instantiate (λ k. find k vars) ts
unfolding replace_vars find
replace_vars-instantiate [] ts p h = instantiate-none ts
replace_vars-instantiate ((key, v) ∷ vars) ts p h =
    ap (replace_vars vars) (replace_all-fill key v ts (ground arith) h)
    ∙ (replace_vars-instantiate vars (fill key v ts) (ground arith)
          (is_well_formed-fill key v ts (ground arith) h)
        ∙ instantiate-fill key v vars ts)

-- A template file, with the path that it is written to.
pub record Source : Type 0 where
  pub file : Text
  pub output : List Token
  pub content : List Token

abbrev pub entry : Source → Text × Text
entry s = (s.file, print s.output)

abbrev file_template : Text → Text → FileTemplate
file_template p c = record { path = p; content = c }

abbrev pub instantiated : (Text → Option Text) → Source → FileTemplate
instantiated m s = record { path = instantiate m s.output; content = instantiate m s.content }

abbrev pub IsReadable : (Text → Option Text) → Source → Type 0
IsReadable read s =
    (read s.file ≡ some (print s.content))
    × (is_well_formed s.output ≡ true)
    × (is_well_formed s.content ≡ true)

replace_vars-map :
    (vars : Vars) (m : Text → Option Text) (ts : List Token)
    → is_plain vars ≡ true
    → ((key : Text) → find key vars ≡ m key)
    → is_well_formed ts ≡ true
    → replace_vars vars (print ts) ≡ instantiate m ts
replace_vars-map vars m ts plain same h =
    replace_vars-instantiate vars ts plain h ∙ ap (λ f. instantiate f ts) (fun_ext same)

same_file : (p q c d : Text) → p ≡ q → c ≡ d → file_template p c ≡ file_template q d
same_file p q c d e e' = ap (λ x. file_template x c) e ∙ ap (λ y. file_template q y) e'

module _ (read : Text → Option Text) (order : Loop → Vars) where
  pub render_found :
      (name output content : Text) (entries : List (Text × Text))
      → read name ≡ some content
      → render_templates read order ((name, output) ∷ entries)
        ≡ with_file
            (rendered_file read order name output content)
            (render_templates read order entries)
  unfolding render_templates
  render_found name output content entries h = ground arith

-- renderTemplates puts the value of every variable at its holes, and nothing else, in whichever
-- order each of its loops visits the variables and the files: for files that can be read and whose
-- literal parts can become no placeholder, and orders of the variables that agree with one map of
-- names to values without `{`.
pub render_any_order :
    (read : Text → Option Text) (order : Loop → Vars) (m : Text → Option Text)
    (sources : List Source)
    → ((l : Loop) → is_plain (order l) ≡ true)
    → ((l : Loop) (key : Text) → find key (order l) ≡ m key)
    → All (IsReadable read) sources
    → render_templates read order (map entry sources) ≡ rendered (map (instantiated m) sources)
unfolding render_templates
render_any_order read order m [] plain same readable = refl
render_any_order read order m (s ∷ sources) plain same readable =
    render_found read order s.file (print s.output) (print s.content) (map entry sources)
      readable.0.0
    ∙ (ap (λ r. with_file (rendered_file read order s.file (print s.output) (print s.content)) r)
          (render_any_order read order m sources plain same readable.1)
        ∙ ap (λ f. rendered (f ∷ map (instantiated m) sources))
            (same_file (replace_vars (order (over_path s.file)) (print s.output))
              (instantiate m s.output)
              (replace_vars (order (over_content s.file)) (print s.content))
              (instantiate m s.content)
              (replace_vars-map (order (over_path s.file)) m s.output (plain (over_path s.file))
                (same (over_path s.file)) readable.0.1)
              (replace_vars-map (order (over_content s.file)) m s.content
                (plain (over_content s.file)) (same (over_content s.file)) readable.0.2)))
