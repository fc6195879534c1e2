-- ===== src/Command/Templates.antt =====
-- cmd/revelt/template.go: the project files with their placeholders replaced. The embedded file
-- systems are parameters, and so is the order in which each `range` visits the map of variables.
pub mod Order
pub mod Tokens
use revelt.Base.{
  ℕ, zero, suc, ◌-◌, true, false, List, [], ◌∷◌, ◌++◌, Option, none, some, length, if◌then◌else◌,
}
use revelt.Text.{Text, codes, has_prefix}

pub record FileTemplate : Type 0 where
  pub path : Text
  pub content : Text

abbrev pub Vars : Type 0
Vars = List (Text × Text)

-- The scan of strings.ReplaceAll, with the number of codes of the last match that it has yet to pass.
unfoldable pub replace_from : Text → Text → ℕ → Text → Text
unfolding has_prefix
replace_from old new skip [] = []
replace_from old new (suc skip) (c ∷ s) = replace_from old new skip s
replace_from old new zero (c ∷ s) = elim (has_prefix old (c ∷ s)) [
  | true ↦ new ++ replace_from old new (length old - 1) s
  | false ↦ c ∷ replace_from old new zero s
]

-- strings.ReplaceAll(s, old, new) for a pattern that is not empty.
unfoldable pub replace_all : Text → Text → Text → Text
unfolding replace_from
replace_all old new s = replace_from old new zero s

abbrev pub braced : Text → Text
braced key = codes "{{" ++ (key ++ codes "}}")

-- for k, v := range vars { s = strings.ReplaceAll(s, "{{"+k+"}}", v) }
unfoldable pub replace_vars : Vars → Text → Text
unfolding replace_all
replace_vars [] s = s
replace_vars ((key, value) ∷ vars) s = replace_vars vars (replace_all (braced key) value s)

pub data Rendered : Type 0 where
  rendered : List FileTemplate → Rendered
  unreadable : Text → Rendered

-- The two loops over the variables, for a template file.
pub data Loop : Type 0 where
  over_path over_content : Text → Loop

abbrev pub with_file : FileTemplate → Rendered → Rendered
with_file file (rendered files) = rendered (file ∷ files)
with_file file (unreadable name) = unreadable name

module _ (read : Text → Option Text) (order : Loop → Vars) where
  abbrev pub rendered_file : Text → Text → Text → FileTemplate
  rendered_file name output content = record {
    path = replace_vars (order (over_path name)) output;
    content = replace_vars (order (over_content name)) content;
  }

  -- renderTemplates, with the map of paths in the order that its `range` visits.
  unfoldable pub render_templates : List (Text × Text) → Rendered
  unfolding replace_vars
  render_templates [] = rendered []
  render_templates ((name, output) ∷ entries) = elim (read name) [
    | none ↦ unreadable name
    | some content ↦ with_file (rendered_file name output content) (render_templates entries)
  ]

-- The literal map of ReactTemplates.
abbrev pub react_paths : List (Text × Text)
react_paths =
    (codes "templates/react/revelt.json.tpl", codes "revelt.json")
    ∷ (codes "templates/react/package.json.tpl", codes "{{SOURCE_DIR}}/package.json")
    ∷ (codes "templates/react/tsconfig.json.tpl", codes "{{SOURCE_DIR}}/tsconfig.json")
    ∷ (codes "templates/react/global.d.ts.tpl", codes "{{SOURCE_DIR}}/global.d.ts")
    ∷ (codes "templates/react/revelt.types.d.ts.tpl", codes "{{SOURCE_DIR}}/revelt.types.d.ts")
    ∷ (
      codes "templates/react/components_Counter.tsx.tpl",
      codes "{{SOURCE_DIR}}/{{COMPONENT_DIR}}/Counter.tsx",
    )
    ∷ (
      codes "templates/react/components_Header.tsx.tpl",
      codes "{{SOURCE_DIR}}/{{COMPONENT_DIR}}/Header.tsx",
    )
    ∷ (
      codes "templates/react/components_ClientChart.tsx.tpl",
      codes "{{SOURCE_DIR}}/{{COMPONENT_DIR}}/ClientChart.tsx",
    )
    ∷ (codes "templates/react/client.tsx.tpl", codes "{{SOURCE_DIR}}/client.tsx")
    ∷ (codes "templates/react/render-server.js.tpl", codes "{{SOURCE_DIR}}/render-server.js")
    ∷ (codes "templates/react/build.mjs.tpl", codes "{{SOURCE_DIR}}/build.mjs")
    ∷ (codes "templates/react/main.go.tpl", codes "main.go")
    ∷ (codes "templates/react/embed.go.tpl", codes "embed.go")
    ∷ (codes "templates/react/go.mod.tpl", codes "go.mod")
    ∷ []

-- The literal map of SvelteTemplates.
abbrev pub svelte_paths : List (Text × Text)
svelte_paths =
    (codes "templates/svelte/revelt.json.tpl", codes "revelt.json")
    ∷ (codes "templates/svelte/package.json.tpl", codes "{{SOURCE_DIR}}/package.json")
    ∷ (codes "templates/svelte/tsconfig.json.tpl", codes "{{SOURCE_DIR}}/tsconfig.json")
    ∷ (codes "templates/svelte/global.d.ts.tpl", codes "{{SOURCE_DIR}}/global.d.ts")
    ∷ (codes "templates/svelte/revelt.types.d.ts.tpl", codes "{{SOURCE_DIR}}/revelt.types.d.ts")
    ∷ (
      codes "templates/svelte/components_Counter.svelte.tpl",
      codes "{{SOURCE_DIR}}/{{COMPONENT_DIR}}/Counter.svelte",
    )
    ∷ (
      codes "templates/svelte/components_Header.svelte.tpl",
      codes "{{SOURCE_DIR}}/{{COMPONENT_DIR}}/Header.svelte",
    )
    ∷ (
      codes "templates/svelte/components_ClientChart.svelte.tpl",
      codes "{{SOURCE_DIR}}/{{COMPONENT_DIR}}/ClientChart.svelte",
    )
    ∷ (codes "templates/svelte/client.ts.tpl", codes "{{SOURCE_DIR}}/client.ts")
    ∷ (codes "templates/svelte/render-server.js.tpl", codes "{{SOURCE_DIR}}/render-server.js")
    ∷ (codes "templates/svelte/build.mjs.tpl", codes "{{SOURCE_DIR}}/build.mjs")
    ∷ (codes "templates/svelte/main.go.tpl", codes "main.go")
    ∷ (codes "templates/svelte/embed.go.tpl", codes "embed.go")
    ∷ (codes "templates/svelte/go.mod.tpl", codes "go.mod")
    ∷ []

-- What ReactTemplates and SvelteTemplates return, or the file whose error they panic with.
pub data TemplateFiles : Type 0 where
  files : List FileTemplate → TemplateFiles
  panics : Text → TemplateFiles

abbrev or_panic : Rendered → TemplateFiles
or_panic (rendered written) = files written
or_panic (unreadable name) = panics name

-- `paths` lists the literal map in the order that is visited.
unfoldable pub project_templates :
    (Text → Option Text) → (Loop → Vars) → List (Text × Text) → TemplateFiles
unfolding render_templates
project_templates read order paths = or_panic (render_templates read order paths)
