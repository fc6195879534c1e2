-- ===== src/Renderer.antt =====
-- renderer.go: Renderer.Render and the escaping of props in a mount container.
pub mod Escape
pub mod Construction
pub mod Modes
use revelt.Base.{
  ℕ, Bool, true, false, ◌||◌, List, [], ◌∷◌, ◌++◌, Option, none, some, ◌==◌, if◌then◌else◌,
}
use revelt.Text.{Text, codes}
use revelt.Protocol.{Props, RenderRequest, RenderResponse}
use revelt.Config.{Mode, ssr, hydrate, client, lazy_client, find}
use revelt.Config as Config

pub record RenderInput : Type 0 where
  pub component : Text
  pub props : Props

pub data RenderError : Type 0 where
  empty_component : RenderError
  unknown_component : Text → RenderError
  marshal_failed : Text → RenderError
  render_failed : Text → RenderError
  component_error : Text → Text → RenderError

pub data Output : Type 0 where
  html : Text → Output
  err : RenderError → Output

-- What the pool answers, its error being text.
pub data PoolResult : Type 0 where
  ok : RenderResponse → PoolResult
  failed : Text → PoolResult

-- json.Marshal of props, which are not nil.
pub data Marshalled : Type 0 where
  json : Text → Marshalled
  unsupported : Text → Marshalled

abbrev is_client_only : Mode → Bool
is_client_only client = true
is_client_only lazy_client = true
is_client_only _ = false

-- The switch of escapeHTML on one rune.
unfoldable pub escape_rune : ℕ → Text
escape_rune r =
    if r == b'&'
    then codes "&amp;"
    else if r == b'<'
    then codes "&lt;"
    else if r == b'>'
    then codes "&gt;"
    else if r == 34
    then codes "&quot;"
    else if r == 39
    then codes "&#039;"
    else r ∷ []

unfoldable pub escape_html : Text → Text
unfolding escape_rune
escape_html [] = []
escape_html (r ∷ text) = escape_rune r ++ escape_html text

-- The attributes of the container that carry the component's name and its props.
unfoldable pub mount : Text → Text → Text
mount component props =
    codes "<div data-ssr-island=\"" ++ (component ++ (codes "\" data-ssr-props=\"" ++ props))

-- The two formats of the placeholder.
unfoldable pub placeholder : Mode → Text → Text → Text
unfolding mount
placeholder lazy_client component props =
    mount component props ++ codes "\" data-ssr-lazy=\"true\"></div>"
placeholder _ component props = mount component props ++ codes "\"></div>"

pub is_empty : Text → Bool
is_empty [] = true
is_empty _ = false

finish : Text → PoolResult → Output
finish component (failed e) = err (render_failed e)
finish component (ok r) =
    if is_empty r.error then html r.html else err (component_error component r.error)

-- The component map of the project configuration; none where there is no configuration.
abbrev pub ComponentModes : Type 0
ComponentModes = Option (List (Text × Mode))

module _ (marshal : Props → Marshalled) where
  pub props_json : Props → Marshalled
  props_json none = json (codes "{}")
  props_json (some kvs) = marshal (some kvs)

  pub client_side : Mode → RenderInput → Output
  unfolding props_json escape_html placeholder
  client_side mode input = elim (props_json input.props) [
    | json text ↦ html (placeholder mode input.component (escape_html text))
    | unsupported e ↦ err (marshal_failed e)
  ]

  module _ (pool_render : RenderRequest → PoolResult) where
    server_side : RenderInput → Output
    unfolding finish is_empty
    server_side input =
        finish input.component
          (pool_render (record { id = 0; component = input.component; props = input.props }))

    pub dispatch : ComponentModes → RenderInput → Output
    unfolding client_side server_side
    dispatch none input = server_side input
    dispatch (some modes) input = elim (find input.component modes) [
      | none ↦ err (unknown_component input.component)
      | some mode ↦ if is_client_only mode then client_side mode input else server_side input
    ]

    unfoldable pub render : ComponentModes → RenderInput → Output
    unfolding dispatch is_empty
    render modes input =
        if is_empty input.component then err empty_component else dispatch modes input
