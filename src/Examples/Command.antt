-- ===== src/Examples/Command.antt =====
-- The command line at concrete inputs.
use revelt.Base.{◌≡◌, refl, true, false, [], ◌∷◌, ◌++◌, map, Option, some, none, ltb, length, arith}
use revelt.Text.{Text, codes, text_eq}
use revelt.Text.Laws.{text_eq→eq}
use revelt.Config.Project.{ProjectConfig}
use revelt.Command.{Workspace, configured, validate_config}
use revelt.Config.{find}
use revelt.Command.Templates.{
  Vars, Loop, over_path, over_content, rendered, render_templates, replace_vars,
}
use revelt.Command.Templates.Tokens.{lit, hole, print}
use revelt.Command.Templates.Order.{is_plain, Source, render_any_order}
use revelt.Command.Init.{Options, System}
use revelt.Command.Init.Steps.{Outcome}
use revelt.Command.Update.{Project, update, update_framework, update_loop, completed}
use revelt.Command.Update.DryRun.{dry_run_agrees}
use revelt.Command.Build.{Shell}
use revelt.Command.Build.Sequence.{Outcome as BuildOutcome}

abbrev project : ProjectConfig
project = record {
  framework = codes "react";
  source_dir = codes "frontend";
  out_dir = codes "dist";
  workers = 4;
  timeout_ms = 0;
  port = 8080;
  static_prefix = codes "/static/";
  component_dir = codes "src";
  go_build_cmd = [];
}

abbrev workspace : Workspace
workspace = record {
  lower = λ t. t;
  mode_flag = λ flags. some (codes "ssr");
  config = configured project;
  join = λ a b c. a ++ (codes "/" ++ (b ++ (codes "/" ++ c)));
  exists = λ path. false;
  makes_folder = λ path. true;
  writes = λ path. true;
}

-- A template with two variables, whose loops visit them in different orders.
abbrev vars_here : Vars
vars_here = (codes "S", codes "web") ∷ (codes "D", codes ",x") ∷ []

abbrev vars_there : Vars
vars_there = (codes "D", codes ",x") ∷ (codes "S", codes "web") ∷ []

abbrev orders : Loop → Vars
orders (over_path name) = vars_here
orders (over_content name) = vars_there

abbrev package_source : Source
package_source = record {
  file = codes "package.json.tpl";
  output = hole (codes "S") ∷ lit 47 ∷ lit 112 ∷ [];
  content =
      lit 123 ∷ lit 123 ∷ lit 32 ∷ hole (codes "D") ∷ hole (codes "S") ∷ hole (codes "X") ∷ [];
}

abbrev reads_package : Text → Option Text
reads_package name = some (print package_source.content)

same_vars : (l : Loop) (key : Text) → find key (orders l) ≡ find key vars_here
unfolding find
same_vars (over_path name) key = refl
same_vars (over_content name) key =
    ground (arith, text_eq→eq (codes "S") key, text_eq→eq (codes "D") key)

plain_vars : (l : Loop) → is_plain (orders l) ≡ true
plain_vars (over_path name) = refl
plain_vars (over_content name) = refl

render_any_order_example :
    render_templates reads_package orders ((codes "package.json.tpl", codes "{{S}}/p") ∷ [])
    ≡ rendered (record { path = codes "web/p"; content = codes "{{ ,xweb{{X}}" } ∷ [])
unfolding text_eq find
render_any_order_example =
    render_any_order reads_package orders (λ key. find key vars_here) (package_source ∷ [])
      plain_vars same_vars ((refl, refl, refl), tt)

abbrev svelte_options : Options
svelte_options = record {
  framework = codes "svelte";
  dir = codes "app";
  source_dir = codes "web";
  component_dir = codes "src/components";
  tailwind = true;
  install = false;
}

-- A disk that is full behind two steps, on which the folder of app.css cannot be made either.
abbrev full_disk : System
full_disk = record {
  parse = λ args. some svelte_options;
  lower = λ t. t;
  clean = λ t. t;
  to_slash = λ t. t;
  parent = λ t. codes "src";
  join = λ parts. codes "joined";
  allows = λ done step. ltb (length done) 2;
  read = λ name. none;
  order = λ vars loop. vars;
  path_order = λ paths. paths;
  index_page = codes "<html></html>";
  on_path = λ name. true;
  runs = λ name args dir. true;
}

abbrev updated : Project
updated = record {
  dry_flag = λ args. some (elim args [ [] ↦ false | a ∷ more ↦ true ]);
  config = configured project;
  lower = λ t. t;
  clean = λ t. t;
  to_slash = λ t. t;
  parent = λ t. codes ".";
  join = λ parts. elim parts [
    | [] ↦ []
    | folder ∷ names ↦ elim names [ [] ↦ folder | name ∷ more ↦ folder ++ (codes "/" ++ name) ]
  ];
  exists = λ path. false;
  read = λ react name. some (codes "code");
  writes = λ written file. true;
}

dry_run_agrees_example :
    ((update updated (λ vars loop. vars) (codes "--dry-run" ∷ [])).written ≡ [])
    × ((update updated (λ vars loop. vars) (codes "--dry-run" ∷ [])).shown
        ≡ map (λ f. f.path) (update updated (λ vars loop. []) []).written)
    × ((update updated (λ vars loop. vars) (codes "--dry-run" ∷ [])).ended ≡ completed)
unfolding text_eq update update_framework update_loop validate_config render_templates replace_vars
dry_run_agrees_example =
    dry_run_agrees updated project refl (λ vars loop. vars) (λ vars loop. [])
      (codes "--dry-run" ∷ []) [] refl refl (refl, (refl, (refl, (refl, tt)))) refl

abbrev blank_command : ProjectConfig
blank_command = record project { go_build_cmd = codes " " }

abbrev blank_shell : Shell
blank_shell = record {
  config = configured blank_command;
  lower = λ t. t;
  misses_sum = true;
  go_mod = none;
  runs = λ done cmd. true;
}
