-- ===== src/Command/Init/Steps.antt =====
-- cmd/revelt/main.go: runInit does the steps of a plan in order, up to the first that fails.
use revelt.Base.{
  ◌≡◌, ◌⊎◌, Bool, true, false, List, [], ◌∷◌, ◌++◌, Option, none, some, if◌then◌else◌,
}
use revelt.Text.{Text, codes, text_eq}
use revelt.Command.Templates.{
  FileTemplate, files, panics, TemplateFiles, project_templates, react_paths, svelte_paths,
}
use revelt.Command.Init.{
  Options, Step, make_dir, write, System, End, bad_flags, bad_framework, failed, panicked,
  initialized, Run, Part, must, attempt, is_react, is_known, css_parent, vars, installs,
}

-- A step of a plan, which must succeed or may fail.
pub data Item : Type 0 where
  required optional : Step → Item

module _ (allows : List Step → Step → Bool) where
  -- From the steps done at the start to those done at the end, over a part of the plan.
  pub data Follows : List Step → List Item → List Step → Type 0 where
    none_left : {done : List Step} → Follows done [] done
    did :
        {done end : List Step} {items : List Item} (s : Step)
        → allows done s ≡ true
        → Follows (s ∷ done) items end
        → Follows done (required s ∷ items) end
    could :
        {done end : List Step} {items : List Item} (s : Step)
        → allows done s ≡ true
        → Follows (s ∷ done) items end
        → Follows done (optional s ∷ items) end
    passed_over :
        {done end : List Step} {items : List Item} (s : Step)
        → allows done s ≡ false
        → Follows done items end
        → Follows done (optional s ∷ items) end

  pub Follows-append :
      {done middle end : List Step} {items : List Item} (later : List Item)
      → Follows done items middle
      → Follows middle later end
      → Follows done (items ++ later) end
  Follows-append later none_left k = k
  Follows-append later (did s e h) k = did s e (Follows-append later h k)
  Follows-append later (could s e h) k = could s e (Follows-append later h k)
  Follows-append later (passed_over s e h) k = passed_over s e (Follows-append later h k)

  -- What a run over `items` from `done` amounts to: all of them, or those before one that is required
  -- and failed.
  abbrev pub IsRun : List Step → List Item → List Step × Option Step → Type 0
  IsRun done items (end, none) = Follows done items end
  IsRun done items (end, some s) =
      (before : List Item) × (after : List Item) × (items ≡ before ++ required s ∷ after)
      × Follows done before end
      × (allows end s ≡ false)

  -- A part of the command does these items.
  abbrev pub Performs : List Item → Part → Type 0
  Performs items f = (done : List Step) → IsRun done items (f done)

  -- The parts of the command do these items, one behind the other.
  data Matches : List Item → List Part → Type 0 where
    nothing : Matches [] []
    needs :
        {items : List Item} {fs : List Part} (s : Step)
        → Matches items fs
        → Matches (required s ∷ items) (must allows s ∷ fs)
    tries :
        {items : List Item} {fs : List Part} (s : Step)
        → Matches items fs
        → Matches (optional s ∷ items) (attempt allows s ∷ fs)
    ends_with : {items : List Item} {f : Part} → Performs items f → Matches items (f ∷ [])

module _ (sys : System) (o : Options) where
  abbrev react : Bool
  react = is_react (sys.lower o.framework)

  -- The path with these names, from the frontend folder of the target on.
  abbrev pub frontend_path : List Text → Text
  frontend_path names = sys.join (o.dir ∷ o.source_dir ∷ names)

  -- The folder above that of the components, where the style sheet goes.
  abbrev pub style_dir : Text
  style_dir =
      if text_eq (css_parent sys o.component_dir) (codes ".")
      then frontend_path []
      else frontend_path (css_parent sys o.component_dir ∷ [])

  -- The files of Tailwind, whose folder need not be made.
  abbrev pub postcss_plan : List Item
  postcss_plan =
      if react
      then required (
          write (frontend_path (codes "postcss.config.js" ∷ []))
            (codes "export default {\n  plugins: {\n    '@tailwindcss/postcss': {},\n  },\n};\n"))
        ∷ []
      else []

  abbrev pub tailwind_plan : List Item
  tailwind_plan =
      if o.tailwind
      then optional (make_dir style_dir)
        ∷ required (
            write (sys.join (style_dir ∷ codes "app.css" ∷ []))
              (codes "@import \"tailwindcss\";\n"))
        ∷ postcss_plan
      else []

  -- The folders and placeholders that a build is to replace.
  abbrev pub placeholders : List Item
  placeholders =
      required (make_dir o.source_dir)
      ∷ required (make_dir (frontend_path (codes "dist" ∷ codes "client" ∷ [])))
      ∷ required (
          write
            (sys.join
              (frontend_path (codes "dist" ∷ codes "client" ∷ []) ∷ codes "index.html" ∷ []))
            sys.index_page)
      ∷ required (write (frontend_path (codes "index.html" ∷ [])) sys.index_page)
      ∷ required (
          write (sys.join (frontend_path (codes "dist" ∷ []) ∷ codes "render-server.cjs" ∷ []))
            (codes "// placeholder\n"))
      ∷ tailwind_plan

  -- Each file of a template behind its folder.
  abbrev pub template_plan : List FileTemplate → List Item
  template_plan [] = []
  template_plan (t ∷ ts) =
      required (make_dir (sys.parent (sys.join (o.dir ∷ t.path ∷ []))))
      ∷ required (write (sys.join (o.dir ∷ t.path ∷ [])) t.content)
      ∷ template_plan ts

  abbrev pub rendering : TemplateFiles
  rendering =
      project_templates sys.read (sys.order (vars sys o react))
        (sys.path_order (if react then react_paths else svelte_paths))

  -- The whole plan, over the files that the templates give.
  abbrev pub plan : List FileTemplate → List Item
  plan ts = placeholders ++ template_plan ts

  -- What each ending means. A required step that fails has the plan's steps before it, and none behind
  -- it; behind the placeholders, the plan is that of the files that the templates give.
  abbrev pub Outcome : End → List Step → Type 0
  Outcome bad_flags done = ⊥
  Outcome bad_framework done = (is_known (sys.lower o.framework) ≡ false) × (done ≡ [])
  Outcome (panicked name) done = (rendering ≡ panics name) × Follows sys.allows [] placeholders done
  Outcome (failed s) done =
      IsRun sys.allows [] placeholders (done, some s)
      ⊎ ((ts : List FileTemplate) × (rendering ≡ files ts)
          × IsRun sys.allows [] (plan ts) (done, some s))
  Outcome (initialized installation) done =
      (ts : List FileTemplate) × (rendering ≡ files ts)
      × Follows sys.allows [] (plan ts) done
      × (installation ≡ installs sys o react)

  abbrev OutcomeOf : Run → Type 0
  OutcomeOf r = Outcome r.ended r.done
