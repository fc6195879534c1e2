-- ===== src/App/Page/Whole.antt =====
-- app.go: PageBuilder.Render sends a page with every slot in it, or nothing.
use revelt.Base.{
  ℕ, ◌<◌, ◌≡◌, ◌⊎◌, inl, inr, refl, sym, ap, ◌∙◌, List, [], ◌∷◌, ◌++◌, Option, none, some, All,
  length, arith, if◌then◌else◌,
}
use revelt.Text.{Text, codes, text_eq}
use revelt.Config.{assign, find}
use revelt.Config.Discovery.{find-assign}
use revelt.Renderer.{RenderInput, RenderError, Output, html, err}
use revelt.Http.{Action, Outcome, returned}
use revelt.App.Page.{
  Slot, PageBuilder, Rendered, Executed, page, stuck, Parsed, parsed, unparsable, Index, Resolved,
  template_text, unresolved, resolve_template, render_headers, write_out, answer, Collected,
  data_map, slot_failed, collect, execute, assemble, render_page,
}
use revelt.App.Page.Orders.{Among, in_sequence, sequential_page, page_any_order}

Executed-cases : (x : Executed) → ((t : Text) × (x ≡ page t)) ⊎ ((e : Text) × (x ≡ stuck e))
Executed-cases (page t) = inl (t, refl)
Executed-cases (stuck e) = inr (e, refl)

Parsed-cases :
    (x : Parsed)
    → ((run : List (Text × Text) → Executed) × (x ≡ parsed run)) ⊎ ((e : Text) × (x ≡ unparsable e))
Parsed-cases (parsed run) = inl (run, refl)
Parsed-cases (unparsable e) = inr (e, refl)

Resolved-cases :
    (x : Resolved) → ((t : Text) × (x ≡ template_text t)) ⊎ ((e : Text) × (x ≡ unresolved e))
Resolved-cases (template_text t) = inl (t, refl)
Resolved-cases (unresolved e) = inr (e, refl)

Output-cases : (x : Output) → ((h : Text) × (x ≡ html h)) ⊎ ((e : RenderError) × (x ≡ err e))
Output-cases (html h) = inl (h, refl)
Output-cases (err e) = inr (e, refl)

abbrev markup : Output → Option Text
markup (html h) = some h
markup (err e) = none

module _ (render : RenderInput → Output) (error_text : RenderError → Text)
    (parse : Text → Parsed) where
  -- The markup of the last slot with the key.
  abbrev pub last_markup : Text → List Slot → Option Text
  last_markup key [] = none
  last_markup key (s ∷ slots) = elim (last_markup key slots) [
    | some h ↦ some h
    | none ↦ if text_eq s.key key then markup (render s.input) else none
  ]

  abbrev pub IsRendered : Slot → Type 0
  IsRendered s = (h : Text) × (render s.input ≡ html h)

  abbrev or_else : Option Text → Option Text → Option Text
  or_else (some h) o = some h
  or_else none o = o

  data_of : Collected render error_text parse → List (Text × Text)
  data_of (data_map d) = d
  data_of (slot_failed key e) = []

  Collected-cases :
      (c : Collected render error_text parse)
      → ((d : List (Text × Text)) × (c ≡ data_map d))
        ⊎ ((key : Text) × (e : RenderError) × (c ≡ slot_failed key e))
  Collected-cases (data_map d) = inl (d, refl)
  Collected-cases (slot_failed key e) = inr (key, e, refl)

  collect_html :
      (s : Slot) (rs : List Rendered) (before : List (Text × Text)) (m : Text)
      → render s.input ≡ html m
      → collect render error_text parse (answer render error_text parse s ∷ rs) before
        ≡ collect render error_text parse rs (assign s.key m before)
  unfolding collect
  collect_html s rs before m e = rw (collect, e) refl

  collect_err :
      (s : Slot) (rs : List Rendered) (before : List (Text × Text)) (e : RenderError)
      → render s.input ≡ err e
      → collect render error_text parse (answer render error_text parse s ∷ rs) before
        ≡ slot_failed s.key e
  unfolding collect
  collect_err s rs before e e' = rw (collect, e') refl

  collected :
      (slots : List Slot) (before data' : List (Text × Text))
      → collect render error_text parse (in_sequence render error_text parse slots) before
        ≡ data_map data'
      → All IsRendered slots
        × ((key : Text) → find key data' ≡ or_else (last_markup key slots) (find key before))
  unfolding collect data_of
  collected [] before data' h = (tt, λ key. ap (find key) (sym (ap data_of h)))
  collected (s ∷ slots) before data' h = elim (Output-cases (render s.input)) [
    | inr (e, fails) ↦
        let bad =
          sym (collect_err s (in_sequence render error_text parse slots) before e fails) ∙ h in
        absurd (ground arith)
    | inl (m, answers) ↦
        let (all, found) =
          collected slots (assign s.key m before) data' (
            sym (collect_html s (in_sequence render error_text parse slots) before m answers)
            ∙ h) in
        (((m, answers), all), λ key. ground (arith, found key, find-assign s.key key m before))
  ]

  -- One page with every slot in it, from the template that was resolved.
  abbrev pub IsWhole : PageBuilder → Index → List Action × Outcome → Type 0
  IsWhole b index result =
      (content : Text) × (run : List (Text × Text) → Executed) × (data' : List (Text × Text))
      × (text : Text) × (resolve_template b index ≡ template_text content)
      × (parse content ≡ parsed run)
      × (run data' ≡ page text)
      × All IsRendered b.slots
      × ((key : Text) → find key data' ≡ last_markup key b.slots)
      × (result ≡ (render_headers ++ write_out text, returned none))

  abbrev pub IsRefused : List Action × Outcome → Type 0
  IsRefused result = (e : Text) × (result ≡ ([], returned (some e)))

  execute-cases :
      (content : Text) (data' : List (Text × Text))
      → ((run : List (Text × Text) → Executed) × (text : Text) × (parse content ≡ parsed run)
          × (run data' ≡ page text)
          × (execute render error_text parse content data'
              ≡ (render_headers ++ write_out text, returned none)))
        ⊎ IsRefused (execute render error_text parse content data')
  unfolding execute
  execute-cases content data' = elim (Parsed-cases (parse content)) [
    | inr (e, broken) ↦
        inr (codes "revelt page: parsing template: " ++ e, rw (execute, broken) refl)
    | inl (run, good) ↦ elim (Executed-cases (run data')) [
      | inr (e, fails) ↦
          inr (codes "revelt page: executing template: " ++ e, rw (execute, good, fails) refl)
      | inl (text, runs) ↦ inl (run, text, good, runs, rw (execute, good, runs) refl)
    ]
  ]

  or_nothing :
      (slots : List Slot) (key : Text)
      → or_else (last_markup key slots) (find key []) ≡ last_markup key slots
  unfolding find
  or_nothing slots key = ground arith

  sequential-cases :
      (b : PageBuilder) (index : Index)
      → IsWhole b index (sequential_page render error_text parse b index)
        ⊎ IsRefused (sequential_page render error_text parse b index)
  unfolding assemble
  sequential-cases b index = elim (Resolved-cases (resolve_template b index)) [
    | inr (e, lost) ↦
        inr (codes "revelt page: resolving template: " ++ e, rw (sequential_page, lost) refl)
    | inl (content, resolved) ↦
        elim (Collected-cases
          (collect render error_text parse (in_sequence render error_text parse b.slots) [])) [
            | inr (key, e, fails) ↦ inr (
              codes "revelt page: rendering slot " ++ (key ++ codes ": " ++ error_text e),
              rw (sequential_page, resolved, assemble, fails) refl,
            )
            | inl (data', collects) ↦
                let (all, found) = collected b.slots [] data' collects in
                elim (execute-cases content data') [
                  | inr (e, refused) ↦
                      inr (e, rw (sequential_page, resolved, assemble, collects) refused)
                  | inl (run, text, good, runs, sends) ↦ inl (
                    content,
                    run,
                    data',
                    text,
                    resolved,
                    good,
                    runs,
                    all,
                    (λ key. found key ∙ or_nothing b.slots key),
                    rw (sequential_page, resolved, assemble, collects) sends,
                  )
                ]
          ]
  ]

  -- However the goroutines end, as long as each of them does, PageBuilder.Render either returns an
  -- error and has called nothing on the writer, or every slot was rendered without an error, and
  -- the one page that is written is the template's, over data that has the markup of the last slot
  -- under each key and no other key.
  pub page-IsWhole :
      (b : PageBuilder) (index : Index) (order : List ℕ)
      → ((i : ℕ) → i < length b.slots → Among i order)
      → IsWhole b index (render_page render error_text parse b index order)
        ⊎ IsRefused (render_page render error_text parse b index order)
  page-IsWhole b index order every =
      rw (page_any_order render error_text parse b index order every) (sequential-cases b index)
