-- ===== src/Command/Build/Sequence.antt =====
-- cmd/revelt/main.go: the backend is built behind the frontend, and the frontend behind the tidy.
use revelt.Base.{◌≡◌, ◌⊎◌, Bool, true, false, List, [], ◌∷◌, none, some, not, ◌||◌, if◌then◌else◌}
use revelt.Text.{Text, codes, contains}
use revelt.Text.Laws.{Blank}
use revelt.Config.Project.{ProjectConfig}
use revelt.Command.{validate_config, is_empty}
use revelt.Command.Build.{
  Cmd, Shell, End, unloaded, invalid, tidy_failed, frontend_failed, no_command, backend_failed,
  built, Build, fields, tidy, frontend, backend,
}

module _ (sh : Shell) (c : ProjectConfig) where
  -- go.sum is missing, or go.mod can be read and does not mention the module.
  abbrev pub must_tidy : Bool
  must_tidy = sh.misses_sum || elim sh.go_mod [
    | none ↦ false
    | some text ↦ not (contains (codes "github.com/abiiranathan/revelt") text)
  ]

  abbrev pub tidied : List Cmd
  tidied = if must_tidy then tidy ∷ [] else []

  abbrev pub with_frontend : List Cmd
  with_frontend = frontend c ∷ tidied

  -- The tidy succeeded if it was due.
  abbrev pub IsTidied : Type 0
  IsTidied = (must_tidy ≡ false) ⊎ (sh.runs [] tidy ≡ true)

  abbrev pub HasFrontend : Type 0
  HasFrontend = IsTidied × (sh.runs tidied (frontend c) ≡ true)

  abbrev pub IsBuilt : List Cmd → Type 0
  IsBuilt done =
      ((is_empty c.go_build_cmd ≡ true) × (done ≡ with_frontend))
      ⊎ ((cmd : Cmd) × (backend (fields c.go_build_cmd) ≡ some cmd)
          × (sh.runs with_frontend cmd ≡ true)
          × (done ≡ cmd ∷ with_frontend))

  abbrev pub Outcome : End → List Cmd → Type 0
  Outcome (unloaded e) done = ⊥
  Outcome (invalid e) done = (validate_config sh.lower c ≡ some e) × (done ≡ [])
  Outcome tidy_failed done = (must_tidy ≡ true) × (sh.runs [] tidy ≡ false) × (done ≡ [])
  Outcome frontend_failed done = IsTidied × (sh.runs tidied (frontend c) ≡ false) × (done ≡ tidied)
  Outcome no_command done =
      HasFrontend
      × (is_empty c.go_build_cmd ≡ false)
      × Blank c.go_build_cmd
      × (done ≡ with_frontend)
  Outcome backend_failed done =
      HasFrontend
      × ((cmd : Cmd) × (backend (fields c.go_build_cmd) ≡ some cmd)
          × (sh.runs with_frontend cmd ≡ false))
      × (done ≡ with_frontend)
  Outcome built done = HasFrontend × IsBuilt done

  abbrev OutcomeOf : Build → Type 0
  OutcomeOf b = Outcome b.ended b.done
