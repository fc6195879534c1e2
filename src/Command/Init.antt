-- ===== src/Command/Init.antt =====
-- cmd/revelt/main.go: runInit and installDependencies. The flags, the file system, the embedded
-- templates, package path/filepath and the processes are parameters; what is printed is left out.
pub mod Steps
use revelt.Base.{
  Bool, true, false, not, ◌&&◌, ◌||◌, List, [], ◌∷◌, ◌++◌, Option, none, some, if◌then◌else◌,
}
use revelt.Text.{Text, codes, text_eq}
use revelt.Command.Templates.{
  FileTemplate, Vars, Loop, react_paths, svelte_paths, files, panics, project_templates,
}

pub record Options : Type 0 where
  pub framework : Text
  pub dir : Text
  pub source_dir : Text
  pub component_dir : Text
  pub tailwind : Bool
  pub install : Bool

-- What is done to the disk.
pub data Step : Type 0 where
  make_dir : Text → Step
  write : Text → Text → Step

-- `parse` has none where the flags do not parse. Whether a step succeeds may depend on those
-- before it, the last one first. `order` and `path_order` are the orders in which a `range` visits a map.
pub record System : Type 0 where
  pub parse : List Text → Option Options
  pub lower : Text → Text
  pub clean : Text → Text
  pub to_slash : Text → Text
  pub parent : Text → Text
  pub join : List Text → Text
  pub allows : List Step → Step → Bool
  pub read : Text → Option Text
  pub order : Vars → Loop → Vars
  pub path_order : List (Text × Text) → List (Text × Text)
  pub index_page : Text
  pub on_path : Text → Bool
  pub runs : Text → List Text → Text → Bool

pub data Installation : Type 0 where
  no_manager : Installation
  installed install_failed : Text → Installation

pub data End : Type 0 where
  bad_flags bad_framework : End
  failed : Step → End
  panicked : Text → End
  initialized : Option Installation → End

-- How a command ended, with the steps that have succeeded, the last one first.
pub record Run : Type 0 where
  pub done : List Step
  pub ended : End

abbrev pub managers : List Text
managers = codes "bun" ∷ codes "pnpm" ∷ codes "yarn" ∷ codes "npm" ∷ []

-- The loop over the managers.
unfoldable pub first_manager : (Text → Bool) → List Text → Option Text
first_manager on_path [] = none
first_manager on_path (m ∷ ms) = elim (on_path m) [
  | true ↦ some m
  | false ↦ first_manager on_path ms
]

unfoldable pub install_dependencies : System → Text → Installation
unfolding first_manager
install_dependencies sys dir = elim (first_manager sys.on_path managers) [
  | none ↦ no_manager
  | some m ↦ if sys.runs m (codes "install" ∷ []) dir then installed m else install_failed m
]

-- A part of the command: from the steps that have succeeded to those behind it, and the step that
-- failed where the command stops.
abbrev pub Part : Type 0
Part = List Step → List Step × Option Step

-- A call whose error ends the command.
unfoldable pub must : (List Step → Step → Bool) → Step → Part
must allows s done = elim (allows done s) [ true ↦ (s ∷ done, none) | false ↦ (done, some s) ]

-- A call whose error is ignored.
unfoldable pub attempt : (List Step → Step → Bool) → Step → Part
attempt allows s done = elim (allows done s) [ true ↦ (s ∷ done, none) | false ↦ (done, none) ]

abbrev pub continue : Part → List Step × Option Step → List Step × Option Step
continue g (done, none) = g done
continue g (done, some s) = (done, some s)

unfoldable pub in_order : List Part → Part
in_order [] done = (done, none)
in_order (f ∷ fs) done = continue (in_order fs) (f done)

abbrev pub is_react : Text → Bool
is_react framework = text_eq framework (codes "react")

abbrev pub is_known : Text → Bool
is_known framework = is_react framework || text_eq framework (codes "svelte")

-- The prefix of the paths below the parent of the component folder.
abbrev pub parent_path : Text → Text
parent_path css = if text_eq css (codes ".") then [] else css ++ codes "/"

abbrev pub css_import : Text → Text
css_import css =
    if text_eq css (codes ".")
    then codes "import './app.css';\n"
    else codes "import './" ++ (css ++ codes "/app.css';\n")

abbrev pub tailwind_deps : Bool → Bool → Text
tailwind_deps true true =
    codes
      ",\n    \"tailwindcss\": \"^4.0.0\",\n    \"@tailwindcss/postcss\": \"^4.0.0\",\n    \"postcss\": \"^8.4.38\""
tailwind_deps true false =
    codes ",\n    \"tailwindcss\": \"^4.0.0\",\n    \"@tailwindcss/vite\": \"^4.0.0\""
tailwind_deps false react = []

-- strconv.FormatBool
abbrev format_bool : Bool → Text
format_bool true = codes "true"
format_bool false = codes "false"

-- filepath.ToSlash(filepath.Dir(filepath.ToSlash(filepath.Clean(componentDir))))
abbrev pub css_parent : System → Text → Text
css_parent sys component_dir = sys.to_slash (sys.parent (sys.to_slash (sys.clean component_dir)))

module _ (sys : System) (o : Options) (react : Bool) where
  abbrev pub css : Text
  css = css_parent sys o.component_dir

  abbrev pub vars : Vars
  vars =
      (codes "SOURCE_DIR", sys.to_slash (sys.clean o.source_dir))
      ∷ (codes "COMPONENT_DIR", o.component_dir)
      ∷ (codes "TAILWIND", format_bool o.tailwind)
      ∷ (codes "TAILWIND_DEPS", tailwind_deps o.tailwind react)
      ∷ (codes "TAILWIND_CSS_IMPORT", if o.tailwind && not react then css_import css else [])
      ∷ (codes "COMP_PARENT_PATH", parent_path css)
      ∷ []

  -- filepath.Join(targetDir, sourceDir, names...)
  abbrev pub below : List Text → Text
  below names = sys.join (o.dir ∷ o.source_dir ∷ names)

  abbrev pub app_css_dir : Text
  app_css_dir = if text_eq css (codes ".") then below [] else below (css ∷ [])

  abbrev pub client_dir : Text
  client_dir = below (codes "dist" ∷ codes "client" ∷ [])

  unfoldable pub postcss : Part
  unfolding in_order must
  postcss =
      if react
      then must sys.allows (
          write (below (codes "postcss.config.js" ∷ []))
            (codes "export default {\n  plugins: {\n    '@tailwindcss/postcss': {},\n  },\n};\n"))
      else in_order []

  unfoldable pub set_up_tailwind : Part
  unfolding in_order attempt must postcss
  set_up_tailwind =
      if o.tailwind
      then in_order (
          attempt sys.allows (make_dir app_css_dir)
          ∷ must sys.allows (
              write (sys.join (app_css_dir ∷ codes "app.css" ∷ []))
                (codes "@import \"tailwindcss\";\n"))
          ∷ postcss
          ∷ [])
      else in_order []

  -- From the first MkdirAll up to the templates.
  unfoldable pub write_placeholders : Part
  unfolding in_order must set_up_tailwind
  write_placeholders = in_order (
      must sys.allows (make_dir o.source_dir)
      ∷ must sys.allows (make_dir client_dir)
      ∷ must sys.allows (write (sys.join (client_dir ∷ codes "index.html" ∷ [])) sys.index_page)
      ∷ must sys.allows (write (below (codes "index.html" ∷ [])) sys.index_page)
      ∷ must sys.allows (
          write (sys.join (below (codes "dist" ∷ []) ∷ codes "render-server.cjs" ∷ []))
            (codes "// placeholder\n"))
      ∷ set_up_tailwind
      ∷ [])

  -- The loop over the templates.
  unfoldable pub template_loop : List FileTemplate → Part
  unfolding must
  template_loop [] done = (done, none)
  template_loop (t ∷ ts) done =
      continue
        (λ done'.
          continue (template_loop ts)
            (must sys.allows (write (sys.join (o.dir ∷ t.path ∷ [])) t.content) done'))
        (must sys.allows (make_dir (sys.parent (sys.join (o.dir ∷ t.path ∷ [])))) done)

  abbrev pub installs : Option Installation
  installs = if o.install then some (install_dependencies sys (below [])) else none

  abbrev pub finished : List Step × Option Step → Run
  finished (done, some s) = record { done = done; ended = failed s }
  finished (done, none) = record { done = done; ended = initialized installs }

  -- From the templates on.
  unfoldable pub write_templates : List Step → Run
  unfolding template_loop project_templates
  write_templates done =
      elim (project_templates sys.read (sys.order vars)
        (sys.path_order (if react then react_paths else svelte_paths))) [
          | panics name ↦ record { done = done; ended = panicked name }
          | files ts ↦ finished (template_loop ts done)
        ]

  abbrev pub then_templates : List Step × Option Step → Run
  then_templates (done, some s) = record { done = done; ended = failed s }
  then_templates (done, none) = write_templates done

  unfoldable pub write_project : Run
  unfolding write_placeholders write_templates
  write_project = then_templates (write_placeholders [])

-- runInit, given os.Args behind the command's name.
unfoldable pub init : System → List Text → Run
unfolding write_project
init sys args = elim (sys.parse args) [
  | none ↦ record { done = []; ended = bad_flags }
  | some o ↦
      if is_known (sys.lower o.framework)
      then write_project sys o (is_react (sys.lower o.framework))
      else record { done = []; ended = bad_framework }
]
