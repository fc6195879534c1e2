-- ===== src/Command/Update/DryRun.antt =====
-- cmd/revelt/main.go: a dry run of the update command shows what a real run writes.
use mathlib.Core.List.{append-nil}
use revelt.Base.{
  zero, ◌≡◌, ◌≢◌, inl, inr, refl, ap, sym, ◌∙◌, Bool, true, false, List, [], ◌∷◌, map, Option, none,
  some, All, Bool-cases, Option-cases, arith,
}
use revelt.Text.{Text}
use revelt.Config.Project.{ProjectConfig}
use revelt.Command.{validate_config, configured}
use revelt.Command.Templates.{
  FileTemplate, Vars, Loop, rendered, render_templates, rendered_file, replace_all, braced,
  replace_from, replace_vars, over_path,
}
use revelt.Command.Templates.Tokens.{no_brace, replace_pass}
use revelt.Command.Templates.Order.{render_found}
use revelt.Command.Init.{is_react, is_known}
use revelt.Command.Update.{
  not_written, not_rendered, Project, Update, completed, exit, update_vars, targets, update_file,
  update_rendered, update_target, update_loop, update_framework, update,
}

-- A text without `{` has no placeholder.
replace_vars_plain : (vars : Vars) (s : Text) → no_brace s ≡ true → replace_vars vars s ≡ s
unfolding replace_vars replace_all replace_from
replace_vars_plain [] s h = refl
replace_vars_plain ((key, v) ∷ vars) s h =
    ap (replace_vars vars) (
      ap (replace_from (braced key) v zero) (sym (append-nil s))
      ∙ (replace_pass key v s [] h ∙ append-nil s))
    ∙ replace_vars_plain vars s h

found_one :
    (read : Text → Option Text) (order : Loop → Vars) (name output content : Text)
    → no_brace output ≡ true
    → read name ≡ some content
    → (file : FileTemplate) × (file.path ≡ output)
      × (render_templates read order ((name, output) ∷ []) ≡ rendered (file ∷ []))
unfolding render_templates
found_one read order name output content plain found = (
  rendered_file read order name output content,
  replace_vars_plain (order (over_path name)) output plain,
  render_found read order name output content [] found,
)

module _ (p : Project) (order : Vars → Loop → Vars) (react dry : Bool) (vars : Vars) where
  loop_on :
      (u u' : Update) (t : Text × Text) (ts : List (Text × Text))
      → update_target p order react dry vars u t ≡ (u', true)
      → update_loop p order react dry vars u (t ∷ ts) ≡ update_loop p order react dry vars u' ts
  unfolding update_loop
  loop_on u u' t ts h =
      rw (update_loop, ap (λ x. x.1) h) (ap (λ x. update_loop p order react dry vars x.0 ts) h)

  loop_stop :
      (u u' : Update) (t : Text × Text) (ts : List (Text × Text))
      → update_target p order react dry vars u t ≡ (u', false)
      → update_loop p order react dry vars u (t ∷ ts) ≡ u'
  unfolding update_loop
  loop_stop u u' t ts h = rw (update_loop, ap (λ x. x.1) h) (ap (λ x. x.0) h)

  target_missing :
      (u : Update) (name output : Text)
      → p.read react name ≡ none
      → update_target p order react dry vars u (name, output)
        ≡ (record u { ended = not_rendered name }, false)
  unfolding render_templates
  target_missing u name output h = rw (render_templates, h)

  target_found :
      (u : Update) (t : Text × Text) (file : FileTemplate)
      → render_templates (p.read react) (order vars) (t ∷ []) ≡ rendered (file ∷ [])
      → update_target p order react dry vars u t ≡ update_file p order react dry vars u file
  target_found u t file h = ap (update_rendered p order react dry vars u) h

not_written_end : (path : Text) → not_written path ≢ completed
not_written_end path e = ground arith

not_rendered_end : (name : Text) → not_rendered name ≢ completed
not_rendered_end name e = ground arith

-- A dry run beside a real one.
record Agrees (u v : Update) : Type 0 where
  unwritten : u.written ≡ []
  same_paths : u.shown ≡ map (λ f. f.path) v.written
  complete : u.ended ≡ completed

module _ (p : Project) (order order' : Vars → Loop → Vars) (react : Bool) (vars : Vars) where
  abbrev dry_loop : Update → List (Text × Text) → Update
  dry_loop = update_loop p order react true vars

  abbrev real_loop : Update → List (Text × Text) → Update
  real_loop = update_loop p order' react false vars

  after_file :
      (u v : Update) (t : Text × Text) (ts : List (Text × Text)) (f g : FileTemplate)
      → f.path ≡ g.path
      → render_templates (p.read react) (order vars) (t ∷ []) ≡ rendered (f ∷ [])
      → render_templates (p.read react) (order' vars) (t ∷ []) ≡ rendered (g ∷ [])
      → Agrees u v
      → (real_loop v (t ∷ ts)).ended ≡ completed
      → ((u' : Update) (v' : Update)
          → Agrees u' v'
          → (real_loop v' ts).ended ≡ completed
          → Agrees (dry_loop u' ts) (real_loop v' ts))
      → Agrees (dry_loop u (t ∷ ts)) (real_loop v (t ∷ ts))
  after_file u v t ts f g same shows writes agrees ends rest =
      elim (Bool-cases (p.writes v.written g)) [
        | inl written ↦
            let on =
              loop_on p order' react false vars v (record v { written = g ∷ v.written }) t ts
                (target_found p order' react false vars v t g writes ∙ rw written refl) in
            rw
              (
                loop_on p order react true vars u (record u { shown = f.path ∷ u.shown }) t ts
                    (target_found p order react true vars u t f shows),
                on,
              )
              (rest (record u { shown = f.path ∷ u.shown }) (record v { written = g ∷ v.written })
                (record {
                  unwritten = agrees.unwritten;
                  same_paths = ap (λ x. x ∷ u.shown) same ∙ ap (λ x. g.path ∷ x) agrees.same_paths;
                  complete = agrees.complete;
                })
                (sym (ap (λ x. x.ended) on) ∙ ends))
        | inr refused ↦ absurd (
            not_written_end g.path (
              sym (
                ap (λ x. x.ended)
                  (loop_stop p order' react false vars v (record v { ended = not_written g.path }) t
                    ts (target_found p order' react false vars v t g writes ∙ rw refused refl)))
              ∙ ends))
      ]

  loop-Agrees :
      (ts : List (Text × Text)) (u v : Update)
      → All (λ t. no_brace t.1 ≡ true) ts
      → Agrees u v
      → (real_loop v ts).ended ≡ completed
      → Agrees (dry_loop u ts) (real_loop v ts)
  unfolding update_loop
  loop-Agrees [] u v plain agrees ends = agrees
  loop-Agrees ((name, output) ∷ ts) u v plain agrees ends =
      elim (Option-cases (p.read react name)) [
        | inl missing ↦ absurd (
            not_rendered_end name (
              sym (
                ap (λ x. x.ended)
                  (loop_stop p order' react false vars v (record v { ended = not_rendered name })
                    (name, output) ts
                    (target_missing p order' react false vars v name output missing)))
              ∙ ends))
        | inr (content, found) ↦
            let (f, path, shows) =
              found_one (p.read react) (order vars) name output content plain.0 found in
            let (g, path', writes) =
              found_one (p.read react) (order' vars) name output content plain.0 found in
            after_file u v (name, output) ts f g (path ∙ sym path') shows writes agrees ends
              (λ u' v'. loop-Agrees ts u' v' plain.1)
      ]

module _ (p : Project) (c : ProjectConfig) (config : p.config ≡ configured c) where
  abbrev react_project : Bool
  react_project = is_react (p.lower c.framework)

  -- The run of a project that passes the guards.
  Guarded : Type 0
  Guarded = (validate_config p.lower c ≡ none) × (is_known (p.lower c.framework) ≡ true)

  guarded-update :
      (order : Vars → Loop → Vars) (args : List Text) (dry : Bool)
      → p.dry_flag args ≡ some dry
      → Guarded
      → update p order args
        ≡ update_loop p order react_project dry
            (update_vars p order c)
            (exit completed)
            (targets p order c react_project)
  unfolding update update_framework Guarded
  guarded-update order args dry flag guards =
      rw (update, flag, config, guards.0, update_framework, guards.1) refl

  completed-Guarded :
      (order : Vars → Loop → Vars) (args : List Text) (dry : Bool)
      → p.dry_flag args ≡ some dry
      → (update p order args).ended ≡ completed
      → Guarded
  unfolding update update_framework Guarded
  completed-Guarded order args dry flag ends = elim (Option-cases (validate_config p.lower c)) [
    | inr (e, refused) ↦ absurd (ground arith)
    | inl valid ↦ elim (Bool-cases (is_known (p.lower c.framework))) [
      | inl known ↦ (valid, known)
      | inr unknown ↦ absurd (ground arith)
    ]
  ]

  -- Where a real run of the update command reports success, a dry run of the same project, whose
  -- loops may visit the variables in another order, writes nothing, reports success too, and has
  -- shown the paths of exactly the files that the real run wrote, in their order, for target paths
  -- without `{`.
  pub dry_run_agrees :
      (order order' : Vars → Loop → Vars) (dry_args real_args : List Text)
      → p.dry_flag dry_args ≡ some true
      → p.dry_flag real_args ≡ some false
      → All (λ t. no_brace t.1 ≡ true) (targets p order c react_project)
      → (update p order' real_args).ended ≡ completed
      → ((update p order dry_args).written ≡ [])
        × ((update p order dry_args).shown ≡ map (λ f. f.path) (update p order' real_args).written)
        × ((update p order dry_args).ended ≡ completed)
  dry_run_agrees order order' dry_args real_args dry real plain ends =
      let guards = completed-Guarded order' real_args false real ends in
      let shows = guarded-update order dry_args true dry guards in
      let writes = guarded-update order' real_args false real guards in
      let agrees =
        loop-Agrees p order order' react_project (update_vars p order c)
          (targets p order c react_project) (exit completed) (exit completed) plain
          (record { unwritten = refl; same_paths = refl; complete = refl })
          (sym (ap (λ u. u.ended) writes) ∙ ends) in
      rw (shows, writes) (agrees.unwritten, agrees.same_paths, agrees.complete)
