-- ===== src/Renderer/Modes.antt =====
-- renderer.go: Render, by the execution mode of the component.
use mathlib.Core.List.{append_assoc}
use revelt.Base.{
  ◌≡◌, ◌⊎◌, inl, inr, refl, ap, ◌∙◌, Bool, true, false, List, [], ◌++◌, some, arith, if◌then◌else◌,
}
use revelt.Text.{Text, codes}
use revelt.Protocol.{Props, RenderRequest, RenderResponse}
use revelt.Config.{Mode, client, lazy_client, find}
use revelt.Renderer.{
  RenderInput, html, PoolResult, ok, failed, Marshalled, json, unsupported, is_client_only,
  escape_html, mount, placeholder, props_json, render,
}

Marshalled-cases :
    (m : Marshalled) → ((t : Text) × (m ≡ json t)) ⊎ ((x : Text) × (m ≡ unsupported x))
Marshalled-cases (json t) = inl (t, refl)
Marshalled-cases (unsupported x) = inr (x, refl)

PoolResult-cases :
    (p : PoolResult) → ((r : RenderResponse) × (p ≡ ok r)) ⊎ ((x : Text) × (p ≡ failed x))
PoolResult-cases (ok r) = inl (r, refl)
PoolResult-cases (failed x) = inr (x, refl)

-- The container of a client-only component, as the browser is to find it: the component's name and
-- its props in attributes, and the mark of a lazy one.
abbrev pub container : (is_lazy : Bool) → Text → Text → Text
container is_lazy component props =
    codes "<div data-ssr-island=\""
    ++ (component
        ++ (codes "\" data-ssr-props=\""
            ++ (props
                ++ (if is_lazy
                    then codes "\" data-ssr-lazy=\"true\"></div>"
                    else codes "\"></div>"))))

-- The modes client and lazy-client.
abbrev pub client_mode : (is_lazy : Bool) → Mode
client_mode true = lazy_client
client_mode false = client

mount-append :
    (component props rest : Text)
    → mount component props ++ rest
      ≡ codes "<div data-ssr-island=\""
        ++ (component ++ (codes "\" data-ssr-props=\"" ++ (props ++ rest)))
unfolding mount
mount-append component props rest =
    append_assoc (codes "<div data-ssr-island=\"")
      (component ++ (codes "\" data-ssr-props=\"" ++ props)) rest
    ∙ ap (λ t. codes "<div data-ssr-island=\"" ++ t)
        (append_assoc component (codes "\" data-ssr-props=\"" ++ props) rest)

placeholder-container :
    (is_lazy : Bool) (component props : Text)
    → placeholder (client_mode is_lazy) component props ≡ container is_lazy component props
unfolding placeholder
placeholder-container true component props =
    mount-append component props (codes "\" data-ssr-lazy=\"true\"></div>")
placeholder-container false component props = mount-append component props (codes "\"></div>")

module _ (marshal : Props → Marshalled) (modes : List (Text × Mode)) (input : RenderInput) where
  local_html :
      (is_lazy : Bool) (pool : RenderRequest → PoolResult) (h text : Text)
      → find input.component modes ≡ some (client_mode is_lazy)
      → props_json marshal input.props ≡ json text
      → render marshal pool (some modes) input ≡ html h
      → h ≡ container is_lazy input.component (escape_html text)
  unfolding render
  local_html true pool h text e done out =
      ground (arith, placeholder-container true input.component (escape_html text))
  local_html false pool h text e done out =
      ground (arith, placeholder-container false input.component (escape_html text))

  local_fails :
      (is_lazy : Bool) (pool : RenderRequest → PoolResult) (h x : Text)
      → find input.component modes ≡ some (client_mode is_lazy)
      → props_json marshal input.props ≡ unsupported x
      → ¬ (render marshal pool (some modes) input ≡ html h)
  unfolding render
  local_fails true pool h x e bad out = ground arith
  local_fails false pool h x e bad out = ground arith

  -- A component of mode client or lazy-client is rendered without the pool: whatever the pool would
  -- answer, the output is the same, and where it is markup, that is a container with the component's
  -- name and the escaped JSON of the props, marked as lazy in the mode lazy-client only.
  pub client_only_local :
      (is_lazy : Bool) (pool pool' : RenderRequest → PoolResult)
      → find input.component modes ≡ some (client_mode is_lazy)
      → (render marshal pool (some modes) input ≡ render marshal pool' (some modes) input)
        × ((h : Text)
            → render marshal pool (some modes) input ≡ html h
            → (text : Text) × (props_json marshal input.props ≡ json text)
              × (h ≡ container is_lazy input.component (escape_html text)))
  unfolding render
  client_only_local is_lazy pool pool' e = (
    elim is_lazy
          as (λ l.
            find input.component modes ≡ some (client_mode l)
            → render marshal pool (some modes) input ≡ render marshal pool' (some modes) input) [
              | true ↦ λ e'. ground arith
              | false ↦ λ e'. ground arith
            ]
        e,
    λ h out. elim (Marshalled-cases (props_json marshal input.props)) [
      | inl (text, done) ↦ (text, done, local_html is_lazy pool h text e done out)
      | inr (x, bad) ↦ absurd (local_fails is_lazy pool h x e bad out)
    ],
  )

  -- Markup of a server-rendered component is the html of a response of the pool to a request for
  -- that component with these props, and that response reports no error.
  server_side_html :
      (mode : Mode) (pool : RenderRequest → PoolResult) (h : Text)
      → find input.component modes ≡ some mode
      → is_client_only mode ≡ false
      → render marshal pool (some modes) input ≡ html h
      → (r : RenderResponse) × (pool
            (record { id = 0; component = input.component; props = input.props })
          ≡ ok r)
        × (r.error ≡ [])
        × (h ≡ r.html)
  unfolding render
  server_side_html mode pool h e remote out = elim (PoolResult-cases (pool request)) [
    | inl (r, done) ↦ (r, done, ground arith, ground arith)
    | inr (x, bad) ↦ absurd (ground arith)
  ]
    where
      request : RenderRequest
      request = record { id = 0; component = input.component; props = input.props }
