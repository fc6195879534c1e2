-- ===== src/App/Page/Orders.antt =====
-- app.go: PageBuilder.Render, over the orders in which its goroutines can end.
use mathlib.Core.Logic.{◌≢◌}
use mathlib.Core.Option.{some-injective}
use revelt.Base.{
  Option-cases, dec_lt, ℕ_discrete, ℕ, zero, suc, ◌<◌, ◌≤◌, ◌≡◌, ◌⊎◌, inl, inr, refl, sym, ap, ◌∙◌,
  List, [], ◌∷◌, ◌++◌, none, some, length, get_elem?, arith, length-set, get_elem?-set_ne,
}
use revelt.Text.{Text}
use revelt.Renderer.{RenderInput, RenderError, Output}
use revelt.Http.{Action, Outcome, returned}
use revelt.App.Page.{
  codes, Slot, PageBuilder, Rendered, Parsed, Index, template_text, unresolved, resolve_template,
  answer, empty_results, finish_slot, finish_slots, assemble, render_page,
}

list-ext : {A : Type 0} (xs ys : List A) → ((i : ℕ) → get_elem? xs i ≡ get_elem? ys i) → xs ≡ ys
list-ext [] [] h = refl
list-ext [] (y ∷ ys) h = absurd (ground (arith, h 0))
list-ext (x ∷ xs) [] h = absurd (ground (arith, h 0))
list-ext (x ∷ xs) (y ∷ ys) h =
    ap (λ z. z ∷ xs) (some-injective _ _ (h 0)) ∙ ap (◌∷◌ y) (list-ext xs ys (λ i. h (suc i)))

-- The position is one of the order's.
abbrev pub Among : ℕ → List ℕ → Type 0
Among i [] = ⊥
Among i (j ∷ order) = (i ≡ j) ⊎ Among i order

module _ (render : RenderInput → Output) (error_text : RenderError → Text)
    (parse : Text → Parsed) where
  -- The results of rendering the slots one after the other.
  abbrev pub in_sequence : List Slot → List Rendered
  in_sequence [] = []
  in_sequence (s ∷ slots) = answer render error_text parse s ∷ in_sequence slots

  length-finish :
      (slots : List Slot) (i : ℕ) (rs : List Rendered)
      → length (finish_slot render error_text parse slots i rs) ≡ length rs
  unfolding finish_slot
  length-finish slots i rs = elim (Option-cases (get_elem? slots i)) [
    | inl none_there ↦ rw (finish_slot, none_there) refl
    | inr (s, there) ↦ rw (finish_slot, there) (length-set rs i (answer render error_text parse s))
  ]

  finish_self :
      (slots : List Slot) (i : ℕ) (rs : List Rendered)
      → length rs ≡ length slots
      → get_elem? (finish_slot render error_text parse slots i rs) i
        ≡ get_elem? (in_sequence slots) i
  unfolding finish_slot
  finish_self [] i [] h = ground arith
  finish_self [] i (x ∷ rs) h = absurd (omega arith)
  finish_self (s ∷ slots) i [] h = absurd (omega arith)
  finish_self (s ∷ slots) zero (x ∷ rs) h = refl
  finish_self (s ∷ slots) (suc i) (x ∷ rs) h = ground (arith, finish_self slots i rs (omega arith))

  finish_ne :
      (slots : List Slot) (i j : ℕ) (rs : List Rendered)
      → i ≢ j
      → get_elem? (finish_slot render error_text parse slots i rs) j ≡ get_elem? rs j
  unfolding finish_slot
  finish_ne slots i j rs h = elim (Option-cases (get_elem? slots i)) [
    | inl none_there ↦ rw (finish_slot, none_there) refl
    | inr (s, there) ↦
        rw (finish_slot, there) (get_elem?-set_ne rs i j (answer render error_text parse s) h)
  ]

  length-finish_slots :
      (slots : List Slot) (order : List ℕ) (rs : List Rendered)
      → length (finish_slots render error_text parse slots order rs) ≡ length rs
  unfolding finish_slots
  length-finish_slots slots [] rs = refl
  length-finish_slots slots (i ∷ order) rs =
      length-finish_slots slots order (finish_slot render error_text parse slots i rs)
      ∙ length-finish slots i rs

  length-empty_results :
      (slots : List Slot) → length (empty_results render error_text parse slots) ≡ length slots
  length-empty_results [] = refl
  length-empty_results (s ∷ slots) = ap suc (length-empty_results slots)

  length-in_sequence : (slots : List Slot) → length (in_sequence slots) ≡ length slots
  length-in_sequence [] = refl
  length-in_sequence (s ∷ slots) = ap suc (length-in_sequence slots)

  -- What one goroutine has written stays.
  finish_slots-keep :
      (slots : List Slot) (order : List ℕ) (rs : List Rendered) (i : ℕ)
      → length rs ≡ length slots
      → get_elem? rs i ≡ get_elem? (in_sequence slots) i
      → get_elem? (finish_slots render error_text parse slots order rs) i
        ≡ get_elem? (in_sequence slots) i
  unfolding finish_slots
  finish_slots-keep slots [] rs i same here = here
  finish_slots-keep slots (j ∷ order) rs i same here =
      finish_slots-keep slots order (finish_slot render error_text parse slots j rs) i
        (length-finish slots j rs ∙ same)
        (elim (ℕ_discrete j i) [
          | yes e ↦ rw (e) (finish_self slots i rs same)
          | no ne ↦ finish_ne slots j i rs ne ∙ here
        ])

  finish_slots-reach :
      (slots : List Slot) (order : List ℕ) (rs : List Rendered) (i : ℕ)
      → length rs ≡ length slots
      → Among i order
      → get_elem? (finish_slots render error_text parse slots order rs) i
        ≡ get_elem? (in_sequence slots) i
  unfolding finish_slots
  finish_slots-reach slots [] rs i same here = absurd here
  finish_slots-reach slots (j ∷ order) rs i same (inl e) =
      finish_slots-keep slots order (finish_slot render error_text parse slots j rs) i
        (length-finish slots j rs ∙ same) (rw (e) (finish_self slots j rs same))
  finish_slots-reach slots (j ∷ order) rs i same (inr later) =
      finish_slots-reach slots order (finish_slot render error_text parse slots j rs) i
        (length-finish slots j rs ∙ same) later

  get_elem?-outside : (xs : List Rendered) (i : ℕ) → length xs ≤ i → get_elem? xs i ≡ none
  get_elem?-outside [] i h = refl
  get_elem?-outside (x ∷ xs) zero h = absurd (omega arith)
  get_elem?-outside (x ∷ xs) (suc i) h = get_elem?-outside xs i (omega arith)

  all_finished :
      (slots : List Slot) (order : List ℕ)
      → ((i : ℕ) → i < length slots → Among i order)
      → finish_slots render error_text parse slots order
          (empty_results render error_text parse slots)
        ≡ in_sequence slots
  all_finished slots order every = list-ext _ _ (λ i. elim (dec_lt i (length slots)) [
    | yes inside ↦
        finish_slots-reach slots order (empty_results render error_text parse slots) i
          (length-empty_results slots) (every i inside)
    | no outside ↦
        get_elem?-outside _ i (
          omega (
            arith,
            length-finish_slots slots order (empty_results render error_text parse slots),
            length-empty_results slots,
          ))
        ∙ sym (get_elem?-outside (in_sequence slots) i (omega (arith, length-in_sequence slots)))
  ])

  -- The page that the results of rendering in sequence make.
  abbrev pub sequential_page : PageBuilder → Index → List Action × Outcome
  sequential_page b index = elim (resolve_template b index) [
    | unresolved e ↦ ([], returned (some (codes "revelt page: resolving template: " ++ e)))
    | template_text content ↦ assemble render error_text parse content (in_sequence b.slots)
  ]

  -- In whatever order the goroutines end, as long as each of them does, the page is the one that
  -- rendering the slots one after the other makes.
  pub page_any_order :
      (b : PageBuilder) (index : Index) (order : List ℕ)
      → ((i : ℕ) → i < length b.slots → Among i order)
      → render_page render error_text parse b index order ≡ sequential_page b index
  unfolding render_page
  page_any_order b index order every =
      ap
        (λ results. elim (resolve_template b index) [
          | unresolved e ↦ ([], returned (some (codes "revelt page: resolving template: " ++ e)))
          | template_text content ↦ assemble render error_text parse content results
        ])
        (all_finished b.slots order every)
