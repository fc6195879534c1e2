-- ===== src/Command/Build.antt =====
-- cmd/revelt/main.go: main, runBuildCmd and what runDevCmd starts. The configuration, the state of go.sum and
-- go.mod and the commands that are run are parameters; what is printed is left out.
pub mod Sequence
use revelt.Base.{
  String, Bool, true, false, not, ◌&&◌, ◌||◌, List, [], ◌∷◌, ◌++◌, Option, none, some,
  if◌then◌else◌,
}
use revelt.Text.{Text, codes, text_eq, contains, is_space}
use revelt.Config.Project.{ProjectConfig}
use revelt.Command.{Invalid, validate_config, Configured, configured, no_config, is_empty}

-- An exec.Cmd, in the folder that is empty for the current one.
pub record Cmd : Type 0 where
  pub name : Text
  pub args : List Text
  pub dir : Text

-- `misses_sum` is os.IsNotExist of the error of Stat, and `go_mod` has none where it cannot be
-- read. Whether a command succeeds may depend on those before it, the last one first.
pub record Shell : Type 0 where
  pub config : Configured
  pub lower : Text → Text
  pub misses_sum : Bool
  pub go_mod : Option Text
  pub runs : List Cmd → Cmd → Bool

-- `no_command` is the panic at parts[0] of an empty slice.
pub data End : Type 0 where
  unloaded : Text → End
  invalid : Invalid → End
  tidy_failed frontend_failed no_command backend_failed built : End

-- How the build ended, with the commands that have succeeded, the last one first.
pub record Build : Type 0 where
  pub done : List Cmd
  pub ended : End

abbrev is_nil : Text → Bool
is_nil [] = true
is_nil (c ∷ s) = false

abbrev with_word : Text × List Text → List Text
with_word ([], words) = words
with_word (c ∷ word, words) = (c ∷ word) ∷ words

-- The word that the text starts with, and the others.
unfoldable pub split_fields : Text → Text × List Text
unfolding is_space
split_fields [] = ([], [])
split_fields (c ∷ s) =
    let (word, words) = split_fields s in
    if is_space c then ([], with_word (word, words)) else (c ∷ word, words)

-- strings.Fields
unfoldable pub fields : Text → List Text
unfolding split_fields
fields s = with_word (split_fields s)

-- The test of go.sum and go.mod.
unfoldable pub needs_tidy : Bool → Option Text → Bool
unfolding contains
needs_tidy true go_mod = true
needs_tidy false none = false
needs_tidy false (some text) = not (contains (codes "github.com/abiiranathan/revelt") text)

abbrev pub tidy : Cmd
tidy = record { name = codes "go"; args = codes "mod" ∷ codes "tidy" ∷ []; dir = [] }

abbrev pub frontend : ProjectConfig → Cmd
frontend c = record { name = codes "node"; args = codes "build.mjs" ∷ []; dir = c.source_dir }

abbrev pub backend : List Text → Option Cmd
backend [] = none
backend (name ∷ args) = some (record { name = name; args = args; dir = [] })

-- cmd.Run, and what follows it or the exit.
abbrev pub run_then : Shell → Cmd → End → (List Cmd → Build) → List Cmd → Build
run_then sh cmd fault next done = elim (sh.runs done cmd) [
  | true ↦ next (cmd ∷ done)
  | false ↦ record { done = done; ended = fault }
]

module _ (sh : Shell) (c : ProjectConfig) where
  abbrev pub complete : List Cmd → Build
  complete done = record { done = done; ended = built }

  abbrev pub run_backend : List Cmd → Build
  run_backend done =
      if is_empty c.go_build_cmd then complete done else elim (backend (fields c.go_build_cmd)) [
        | none ↦ record { done = done; ended = no_command }
        | some cmd ↦ run_then sh cmd backend_failed complete done
      ]

  abbrev pub run_frontend : List Cmd → Build
  run_frontend done = run_then sh (frontend c) frontend_failed run_backend done

  -- From the tidy on.
  unfoldable pub build_project : Build
  unfolding needs_tidy fields
  build_project =
      if needs_tidy sh.misses_sum sh.go_mod
      then run_then sh tidy tidy_failed run_frontend []
      else run_frontend []

-- runBuildCmd
unfoldable pub build : Shell → Build
unfolding build_project validate_config
build sh = elim sh.config [
  | no_config e ↦ record { done = []; ended = unloaded e }
  | configured c ↦ elim (validate_config sh.lower c) [
    | some e ↦ record { done = []; ended = invalid e }
    | none ↦ build_project sh c
  ]
]

-- The folders that runDevCmd gives to runDev.
pub data Development : Type 0 where
  watches : Text → Text → Development
  dev_unloaded : Text → Development
  dev_invalid : Invalid → Development

-- runDevCmd up to runDev; `join` is filepath.Join.
unfoldable pub dev : (Text → Text → Text) → (Text → Text) → Configured → Development
unfolding validate_config
dev join lower config = elim config [
  | no_config e ↦ dev_unloaded e
  | configured c ↦ elim (validate_config lower c) [
    | some e ↦ dev_invalid e
    | none ↦ watches c.source_dir (join c.out_dir (codes "client"))
  ]
]

pub data Subcommand : Type 0 where
  init build_assets develop generate clean update print_version : Subcommand
  usage : Subcommand
  unknown : Text → Subcommand

abbrev named : Text → String → Bool
named t name = text_eq t (codes name)

-- The switch of main, given os.Args behind the program's name; `usage` and `unknown` exit with 1.
unfoldable pub main : List Text → Subcommand
main [] = usage
main (name ∷ args) =
    if named name "init"
    then init
    else if named name "build"
    then build_assets
    else if named name "dev"
    then develop
    else if named name "generate" || named name "g"
    then generate
    else if named name "clean"
    then clean
    else if named name "update"
    then update
    else if named name "version"
    then print_version
    else unknown name
