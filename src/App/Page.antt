-- ===== src/App/Page.antt =====
-- app.go: PageBuilder. Parsing and executing a template are parameters; the slots are rendered in any
-- order by goroutines, each of which writes its own element of the results.
pub mod Orders
pub mod Whole
use revelt.Base.{
  String, ℕ, zero, suc, ◌+◌, Bool, true, false, List, [], ◌∷◌, ◌++◌, Option, none, some, length,
  get_elem?, set, if◌then◌else◌,
}
use revelt.Text.{Text, codes}
use revelt.Config.{assign}
use revelt.Protocol.{Props}
use revelt.Renderer.{RenderInput, RenderError, Output, html, err}
use revelt.Http.{Action, set_header, write, Outcome, returned}
use revelt.Reader.{Source}

-- slotRequest
pub record Slot : Type 0 where
  pub key : Text
  pub input : RenderInput

-- `template` is empty for the default index.html.
pub record PageBuilder : Type 0 where
  pub template : Text
  pub slots : List Slot

unfoldable pub new_page : PageBuilder
new_page = record { template = []; slots = [] }

unfoldable pub new_page_with_template : Text → PageBuilder
new_page_with_template tmpl = record { template = tmpl; slots = [] }

unfoldable pub slot : Text → Text → Props → PageBuilder → PageBuilder
slot key component props b = record b {
  slots =
      b.slots ++ record { key = key; input = record { component = component; props = props } } ∷ [];
}

-- The element of a goroutine that has not written yet holds no error and no markup.
pub record Rendered : Type 0 where
  pub key : Text
  pub out : Output

abbrev pub unwritten : Rendered
unwritten = record { key = []; out = html [] }

-- What Execute writes, given the data of the template, or its error.
pub data Executed : Type 0 where
  page stuck : Text → Executed

pub data Parsed : Type 0 where
  parsed : (List (Text × Text) → Executed) → Parsed
  unparsable : Text → Parsed

-- staticFs.Open of index.html.
pub data Index : Type 0 where
  opened : Source → Index
  cannot_open : Text → Index

pub data Resolved : Type 0 where
  template_text unresolved : Text → Resolved

unfoldable pub resolve_template : PageBuilder → Index → Resolved
resolve_template b index = elim b.template [
  | c ∷ s ↦ template_text (c ∷ s)
  | [] ↦ elim index [
    | cannot_open e ↦ unresolved (codes "opening index.html: " ++ e)
    | opened src ↦ elim src.fault [
      | some e ↦ unresolved (codes "reading index.html: " ++ e)
      | none ↦ template_text src.bytes
    ]
  ]
]

abbrev pub render_headers : List Action
render_headers =
    set_header "Content-Type" (codes "text/html; charset=utf-8")
    ∷ set_header "Cache-Control" (codes "no-cache, max-age=0")
    ∷ []

-- buf.WriteTo(w)
abbrev pub write_out : Text → List Action
write_out [] = []
write_out (c ∷ s) = write (c ∷ s) ∷ []

-- `render` is Renderer.Render, `error_text` the text of its error.
module _ (render : RenderInput → Output) (error_text : RenderError → Text)
    (parse : Text → Parsed) where
  abbrev pub answer : Slot → Rendered
  answer s = record { key = s.key; out = render s.input }

  abbrev pub empty_results : List Slot → List Rendered
  empty_results [] = []
  empty_results (s ∷ ss) = unwritten ∷ empty_results ss

  -- The goroutine of slot `i` ends.
  unfoldable pub finish_slot : List Slot → ℕ → List Rendered → List Rendered
  finish_slot slots i results = elim (get_elem? slots i) [
    | none ↦ results
    | some s ↦ set results i (answer s)
  ]

  -- The goroutines end in this order.
  unfoldable pub finish_slots : List Slot → List ℕ → List Rendered → List Rendered
  unfolding finish_slot
  finish_slots slots [] results = results
  finish_slots slots (i ∷ order) results = finish_slots slots order (finish_slot slots i results)

  pub data Collected : Type 0 where
    data_map : List (Text × Text) → Collected
    slot_failed : Text → RenderError → Collected

  -- The loop over the results.
  unfoldable pub collect : List Rendered → List (Text × Text) → Collected
  collect [] data' = data_map data'
  collect (res ∷ results) data' = elim res.out [
    | err e ↦ slot_failed res.key e
    | html h ↦ collect results (assign res.key h data')
  ]

  abbrev page_error : String → Text → List Action × Outcome
  page_error what e = ([], returned (some (codes what ++ e)))

  unfoldable pub execute : Text → List (Text × Text) → List Action × Outcome
  execute content data' = elim (parse content) [
    | unparsable e ↦ page_error "revelt page: parsing template: " e
    | parsed run ↦ elim (run data') [
      | stuck e ↦ page_error "revelt page: executing template: " e
      | page text ↦ (render_headers ++ write_out text, returned none)
    ]
  ]

  unfoldable pub assemble : Text → List Rendered → List Action × Outcome
  unfolding collect execute
  assemble content results = elim (collect results []) [
    | slot_failed key e ↦
        page_error "revelt page: rendering slot " (key ++ codes ": " ++ error_text e)
    | data_map data' ↦ execute content data'
  ]

  -- PageBuilder.Render, where the goroutines end in this order.
  unfoldable pub render_page : PageBuilder → Index → List ℕ → List Action × Outcome
  unfolding resolve_template finish_slots assemble
  render_page b index order = elim (resolve_template b index) [
    | unresolved e ↦ page_error "revelt page: resolving template: " e
    | template_text content ↦ assemble content (finish_slots b.slots order (empty_results b.slots))
  ]
