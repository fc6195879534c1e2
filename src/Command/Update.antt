-- ===== src/Command/Update.antt =====
-- cmd/revelt/main.go: runUpdateCmd. The flags, the file system, the embedded templates and package
-- path/filepath are parameters, and so is the order in which each `range` visits the variables.
pub mod DryRun
use revelt.Base.{
  Bool, true, false, ◌&&◌, ◌||◌, not, List, [], ◌∷◌, ◌++◌, Option, none, some, if◌then◌else◌,
}
use revelt.Text.{Text, codes, text_eq}
use revelt.Config.Project.{ProjectConfig}
use revelt.Command.{Invalid, validate_config, Configured, configured, no_config}
use revelt.Command.Templates.{
  FileTemplate, Vars, Loop, Rendered, rendered, unreadable, render_templates,
}
use revelt.Command.Init.{is_react, is_known, css_import, parent_path}

-- `dry_flag` has none where the flags do not parse, and `read` takes the name of the framework whose
-- embedded templates it reads. Whether a file is written may depend on those written before it.
pub record Project : Type 0 where
  pub dry_flag : List Text → Option Bool
  pub config : Configured
  pub lower : Text → Text
  pub clean : Text → Text
  pub to_slash : Text → Text
  pub parent : Text → Text
  pub join : List Text → Text
  pub exists : Text → Bool
  pub read : Bool → Text → Option Text
  pub writes : List FileTemplate → FileTemplate → Bool

-- `no_file` is the panic at rendered[0] of an empty slice.
pub data End : Type 0 where
  bad_flags no_file completed : End
  unloaded unsupported : Text → End
  invalid : Invalid → End
  not_rendered : Text → End
  not_written : Text → End

-- What the command has shown and written, the last one first.
pub record Update : Type 0 where
  pub shown : List Text
  pub written : List FileTemplate
  pub ended : End

abbrev pub exit : End → Update
exit e = record { shown = []; written = []; ended = e }

abbrev framework_file : Bool → Text → Text
framework_file true name = codes "templates/react/" ++ name
framework_file false name = codes "templates/svelte/" ++ name

module _ (p : Project) (order : Vars → Loop → Vars) where
  abbrev css_parent : ProjectConfig → Text
  css_parent c = p.to_slash (p.parent (p.to_slash (p.clean c.component_dir)))

  abbrev app_css : ProjectConfig → Text
  app_css c =
      if text_eq (css_parent c) (codes ".")
      then p.join (c.source_dir ∷ codes "app.css" ∷ [])
      else p.join (c.source_dir ∷ css_parent c ∷ codes "app.css" ∷ [])

  abbrev pub update_vars : ProjectConfig → Vars
  update_vars c =
      (codes "SOURCE_DIR", c.source_dir)
      ∷ (codes "COMPONENT_DIR", c.component_dir)
      ∷ (codes "TAILWIND", codes "false")
      ∷ (codes "TAILWIND_DEPS", [])
      ∷ (
        codes "TAILWIND_CSS_IMPORT",
        if p.exists (app_css c) then css_import (css_parent c) else [],
      )
      ∷ (codes "COMP_PARENT_PATH", parent_path (css_parent c))
      ∷ []

  abbrev pub target : ProjectConfig → Bool → Text → Text → Text × Text
  target c react template name = (framework_file react template, p.join (c.source_dir ∷ name ∷ []))

  -- The literal tables of the switch.
  abbrev pub targets : ProjectConfig → Bool → List (Text × Text)
  targets c react =
      target c react (codes "build.mjs.tpl") (codes "build.mjs")
      ∷ target c react (codes "render-server.js.tpl") (codes "render-server.js")
      ∷ (if react
          then target c react (codes "client.tsx.tpl") (codes "client.tsx")
          else target c react (codes "client.ts.tpl") (codes "client.ts"))
      ∷ target c react (codes "revelt.types.d.ts.tpl") (codes "revelt.types.d.ts")
      ∷ []

  module _ (react dry : Bool) (vars : Vars) where
    -- The body of the loop behind `rendered[0]`: the new state, and whether the loop goes on.
    abbrev pub update_file : Update → FileTemplate → Update × Bool
    update_file u file =
        if dry
        then (record u { shown = file.path ∷ u.shown }, true)
        else if p.writes u.written file
        then (record u { written = file ∷ u.written }, true)
        else (record u { ended = not_written file.path }, false)

    abbrev pub update_rendered : Update → Rendered → Update × Bool
    update_rendered u (unreadable name) = (record u { ended = not_rendered name }, false)
    update_rendered u (rendered []) = (record u { ended = no_file }, false)
    update_rendered u (rendered (file ∷ files)) = update_file u file

    abbrev pub update_target : Update → Text × Text → Update × Bool
    update_target u t = update_rendered u (render_templates (p.read react) (order vars) (t ∷ []))

    unfoldable pub update_loop : Update → List (Text × Text) → Update
    unfolding render_templates
    update_loop u [] = u
    update_loop u (t ∷ ts) = elim ((update_target u t).1) [
      | true ↦ update_loop (update_target u t).0 ts
      | false ↦ (update_target u t).0
    ]

  unfoldable pub update_framework : Bool → ProjectConfig → Update
  unfolding update_loop
  update_framework dry c =
      if is_known (p.lower c.framework)
      then (let react = is_react (p.lower c.framework) in
          update_loop react dry (update_vars c) (exit completed) (targets c react))
      else exit (unsupported c.framework)

  -- runUpdateCmd, given os.Args behind the command's name.
  unfoldable pub update : List Text → Update
  unfolding update_framework validate_config
  update args = elim (p.dry_flag args) [
    | none ↦ exit bad_flags
    | some dry ↦ elim p.config [
      | no_config e ↦ exit (unloaded e)
      | configured c ↦ elim (validate_config p.lower c) [
        | some e ↦ exit (invalid e)
        | none ↦ update_framework dry c
      ]
    ]
  ]
