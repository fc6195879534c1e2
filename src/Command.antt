-- ===== src/Command.antt =====
-- cmd/revelt/main.go: validateConfig, runGenerateCmd and runCleanCmd. The flag package, the file system and the
-- lowercasing of texts are parameters; a component's name starts with an ASCII character.
pub mod Build
pub mod Generated
pub mod Init
pub mod Templates
pub mod Update
use revelt.Base.{
  ℕ, ◌-◌, Bool, true, false, not, ◌&&◌, ◌||◌, ◌==◌, leb, ltb, List, [], ◌∷◌, ◌++◌, Option, none,
  some, if◌then◌else◌,
}
use revelt.Text.{Text, codes, text_eq}
use revelt.Config.{Mode, ssr, hydrate, client, lazy_client, mode_name}
use revelt.Config.Project.{ProjectConfig}

pub data Invalid : Type 0 where
  unsupported_framework : Text → Invalid
  empty_source_dir empty_component_dir : Invalid
  port_out_of_range : ℕ → Invalid

abbrev pub is_empty : Text → Bool
is_empty [] = true
is_empty (c ∷ s) = false

-- The error of validateConfig, if any.
unfoldable pub validate_config : (Text → Text) → ProjectConfig → Option Invalid
validate_config lower c =
    if not (text_eq (lower c.framework) (codes "react"))
      && not (text_eq (lower c.framework) (codes "svelte"))
    then some (unsupported_framework c.framework)
    else if is_empty c.source_dir
    then some empty_source_dir
    else if is_empty c.component_dir
    then some empty_component_dir
    else if c.port == 0 || ltb 65535 c.port
    then some (port_out_of_range c.port)
    else none

-- The mode of a lowercased option.
unfoldable pub mode_of : Text → Option Mode
mode_of t =
    if text_eq t (mode_name ssr)
    then some ssr
    else if text_eq t (mode_name hydrate)
    then some hydrate
    else if text_eq t (mode_name client)
    then some client
    else if text_eq t (mode_name lazy_client)
    then some lazy_client
    else none

-- ContainsAny with space, tab, carriage return and line feed.
unfoldable pub has_space : Text → Bool
has_space [] = false
has_space (c ∷ s) = let rest = has_space s in (c == 32 || c == 9 || c == 13 || c == 10) || rest

-- ToUpper of one ASCII character.
abbrev upper : ℕ → ℕ
upper c = if leb 97 c && leb c 122 then c - 32 else c

unfoldable pub capitalized : Text → Text
capitalized [] = []
capitalized (c ∷ s) = upper c ∷ s

unfoldable pub svelte_source : Mode → Text → Text
svelte_source mode name =
    codes "<!-- @mode "
    ++ (mode_name mode
        ++ (codes
              " -->\n<script lang=\"ts\">\n  interface Props {\n    title?: string;\n  }\n  let { title = \""
            ++ (name
                ++ (codes
                      " component\" }: Props = $props();\n</script>\n\n<div class=\"component-box\">\n  <h3>{title}</h3>\n  <p>Rendered in "
                    ++ (mode_name mode
                        ++ codes
                            " mode.</p>\n</div>\n\n<style>\n  .component-box {\n    border: 1px solid #e2e8f0;\n    border-radius: 8px;\n    padding: 1rem;\n    margin: 0.5rem 0;\n  }\n</style>\n")))))

unfoldable pub react_source : Mode → Text → Text
react_source mode name =
    codes "// @mode "
    ++ (mode_name mode
        ++ (codes "\n\ninterface "
            ++ (name
                ++ (codes "Props {\n  title?: string;\n}\n\nexport default function "
                    ++ (name
                        ++ (codes "({ title = \""
                            ++ (name
                                ++ (codes " component\" }: "
                                    ++ (name
                                        ++ (codes
                                              "Props) {\n  return (\n    <div style={{ border: \"1px solid #e2e8f0\", borderRadius: \"8px\", padding: \"1rem\", margin: \"0.5rem 0\" }}>\n      <h3>{title}</h3>\n      <p>Rendered in "
                                            ++ (mode_name mode
                                                ++ codes
                                                    " mode.</p>\n    </div>\n  );\n}\n")))))))))))

unfoldable pub source : Bool → Mode → Text → Text
unfolding svelte_source react_source
source svelte mode name = if svelte then svelte_source mode name else react_source mode name

-- What the command prints before it exits, or the file that it has written.
pub data Generation : Type 0 where
  usage empty_name spaced_name bad_flags already_exists cannot_make_folder cannot_write : Generation
  unknown_type : Text → Generation
  unloaded : Text → Generation
  invalid : Invalid → Generation
  invalid_mode : Text → Generation
  wrote : Text → Text → Generation

pub data Configured : Type 0 where
  configured : ProjectConfig → Configured
  no_config : Text → Configured

-- The file system and the flag package: `mode_flag` is the value of --mode, none where the flags do
-- not parse.
pub record Workspace : Type 0 where
  pub lower : Text → Text
  pub mode_flag : List Text → Option Text
  pub config : Configured
  pub join : Text → Text → Text → Text
  pub exists : Text → Bool
  pub makes_folder : Text → Bool
  pub writes : Text → Bool

module _ (ws : Workspace) where
  abbrev is_svelte : ProjectConfig → Bool
  is_svelte c = text_eq (ws.lower c.framework) (codes "svelte")

  abbrev target : ProjectConfig → Text → Text
  target c name =
      ws.join c.source_dir c.component_dir
        (name ++ (if is_svelte c then codes ".svelte" else codes ".tsx"))

  -- From the guard against an existing file on.
  unfoldable pub write_component : ProjectConfig → Mode → Text → Generation
  unfolding source
  write_component c mode name =
      if ws.exists (target c name)
      then already_exists
      else if not (ws.makes_folder (target c name))
      then cannot_make_folder
      else if not (ws.writes (target c name))
      then cannot_write
      else wrote (target c name) (source (is_svelte c) mode name)

  -- From the test of the mode on.
  unfoldable pub generate_mode : ProjectConfig → Text → Text → Generation
  unfolding write_component mode_of capitalized
  generate_mode c name mode = elim (mode_of (ws.lower mode)) [
    | none ↦ invalid_mode (ws.lower mode)
    | some m ↦ write_component c m (capitalized name)
  ]

  unfoldable pub generate_named : Text → List Text → Generation
  unfolding generate_mode has_space validate_config
  generate_named name flags =
      if is_empty name
      then empty_name
      else if has_space name
      then spaced_name
      else elim (ws.mode_flag flags) [
        | none ↦ bad_flags
        | some mode ↦ elim ws.config [
          | no_config e ↦ unloaded e
          | configured c ↦ elim (validate_config ws.lower c) [
            | some e ↦ invalid e
            | none ↦ generate_mode c name mode
          ]
        ]
      ]

  -- runGenerateCmd, given os.Args behind the command's name.
  unfoldable pub generate : List Text → Generation
  unfolding generate_named
  generate [] = usage
  generate (item ∷ []) = usage
  generate (item ∷ (name ∷ flags)) =
      if text_eq item (codes "component") then generate_named name flags else unknown_type item

-- What runCleanCmd removes, in order, or why it exits.
pub data Cleaning : Type 0 where
  removes : List Text → Cleaning
  clean_unloaded : Text → Cleaning
  clean_invalid : Invalid → Cleaning

-- The guard on the cleaned path.
unfoldable pub is_removable : Text → Bool
is_removable out =
    not (text_eq out (codes ".")) && not (text_eq out (codes "/")) && not (text_eq out (codes ".."))

-- `clean` is filepath.Clean.
unfoldable pub out_paths : (Text → Text) → Text → List Text
unfolding is_removable
out_paths clean [] = []
out_paths clean (c ∷ s) = if is_removable (clean (c ∷ s)) then clean (c ∷ s) ∷ [] else []

unfoldable pub clean_workspace : (Text → Text) → Workspace → Cleaning
unfolding out_paths validate_config
clean_workspace clean ws = elim ws.config [
  | no_config e ↦ clean_unloaded e
  | configured c ↦ elim (validate_config ws.lower c) [
    | some e ↦ clean_invalid e
    | none ↦ removes (
        codes "revelt_bin"
        ∷ codes "revelt_bin.exe"
        ∷ (out_paths clean c.out_dir
            ++ ws.join c.source_dir (codes "node_modules") (codes ".vite") ∷ []))
  ]
]
