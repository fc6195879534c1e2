-- ===== src/Config.antt =====
-- config.go: execution modes, the @mode annotation, component discovery, and defaults.
pub mod Annotation
pub mod Discovery
pub mod Project
use revelt.Base.{
  ℕ, zero, suc, String, Bool, true, false, ◌&&◌, ◌||◌, List, [], ◌∷◌, ◌++◌, map, Option, none, some,
  ◌==◌, if◌then◌else◌,
}
use revelt.Text.{Text, codes, has_prefix, strip_prefix, cut_after, trim_space, text_eq}

pub data Mode : Type 0 where
  ssr hydrate client lazy_client : Mode

abbrev pub mode_name : Mode → Text
mode_name ssr = codes "ssr"
mode_name hydrate = codes "hydrate"
mode_name client = codes "client"
mode_name lazy_client = codes "lazy-client"

-- The switch of extractMode.
unfoldable pub match_mode : Text → Option Mode
unfolding has_prefix
match_mode rest =
    if has_prefix (mode_name ssr) rest
    then some ssr
    else if has_prefix (mode_name hydrate) rest
    then some hydrate
    else if has_prefix (mode_name lazy_client) rest
    then some lazy_client
    else if has_prefix (mode_name client) rest
    then some client
    else none

unfoldable pub extract_mode : Text → Option Mode
unfolding match_mode cut_after trim_space
extract_mode line = elim (cut_after (codes "@mode") line) [
  | none ↦ none
  | some after ↦ match_mode (trim_space after)
]

abbrev pub search_lines : ℕ
search_lines = 5

-- The scanner's loop over the lines left, `n` of them at most.
unfoldable pub scan_modes : ℕ → List Text → Option Mode
unfolding extract_mode
scan_modes zero lines = none
scan_modes (suc n) [] = none
scan_modes (suc n) (line ∷ lines) = elim (extract_mode line) [
  | some m ↦ some m
  | none ↦ scan_modes n lines
]

pub data Fault : Type 0 where
  not_exist : Fault
  other : Text → Fault

pub data Result {ℓ} (A : Type ℓ) : Type ℓ where
  ok : A → Result A
  err : Fault → Result A

-- A source file: what sysFS.Open returns, the lines of the scanner, and scanner.Err.
pub record Source : Type 0 where
  pub open_fault : Option Fault
  pub lines : List Text
  pub scan_fault : Option Fault

abbrev or_fault : Option Fault → Result Mode
or_fault none = ok hydrate
or_fault (some e) = err e

unfoldable pub read_mode_annotation : Source → Result Mode
unfolding scan_modes
read_mode_annotation f = elim f.open_fault [
  | some e ↦ err e
  | none ↦ elim (scan_modes search_lines f.lines) [ some m ↦ ok m | none ↦ or_fault f.scan_fault ]
]

-- What fs.WalkDir calls back with: `name` is d.Name(), `fault` its err.
pub record Entry : Type 0 where
  pub path : Text
  pub name : Text
  pub is_dir : Bool
  pub fault : Option Fault
  pub source : Source

-- filepath.Ext: the text from the last dot on, if there is one behind the last separator.
unfoldable pub ext_loop : Option Text → Text → Option Text
ext_loop best [] = best
ext_loop best (c ∷ s) =
    ext_loop (if c == b'.' then some (c ∷ s) else if c == b'/' then none else best) s

abbrev or_empty : Option Text → Text
or_empty none = []
or_empty (some e) = e

unfoldable pub ext : Text → Text
unfolding ext_loop
ext name = or_empty (ext_loop none name)

abbrev any_eq : Text → List Text → Bool
any_eq t [] = false
any_eq t (u ∷ us) = text_eq t u || any_eq t us

-- The keys of the map componentExtensions.
unfoldable pub is_component_ext : Text → Bool
unfolding text_eq
is_component_ext e =
    any_eq e (codes ".tsx" ∷ codes ".ts" ∷ codes ".jsx" ∷ codes ".js" ∷ codes ".svelte" ∷ [])

-- strings.TrimSuffix(s, suffix).
unfoldable pub trim_suffix : Text → Text → Text
unfolding text_eq
trim_suffix suffix [] = []
trim_suffix suffix (c ∷ s) = if text_eq suffix (c ∷ s) then [] else c ∷ trim_suffix suffix s

-- A Go map with text keys: assignment and lookup.
unfoldable pub assign {ℓ} : {V : Type ℓ} → Text → V → List (Text × V) → List (Text × V)
unfolding text_eq
assign k v [] = (k, v) ∷ []
assign k v ((j, w) ∷ m) = if text_eq j k then (k, v) ∷ m else (j, w) ∷ assign k v m

unfoldable pub find {ℓ} : {V : Type ℓ} → Text → List (Text × V) → Option V
unfolding text_eq
find k [] = none
find k ((j, v) ∷ m) = if text_eq j k then some v else find k m

abbrev pub Modes : Type 0
Modes = List (Text × Mode)

-- A missing root folder is no error.
is_missing_root : Text → Entry → Fault → Bool
unfolding text_eq
is_missing_root dir e not_exist = text_eq e.path dir
is_missing_root dir e (other x) = false

-- filepath.Rel of the root of a walk and a path that the walk visits: the root itself, or below it.
unfoldable pub relative : Text → Text → Option Text
unfolding strip_prefix text_eq
relative dir path =
    if text_eq dir (codes ".") then some path else elim (strip_prefix (dir ++ b'/' ∷ []) path) [
      | some rel ↦ some rel
      | none ↦ if text_eq path dir then some (codes ".") else none
    ]

-- A component source that is visited: its path relative to the root without the extension, and its
-- mode.
visit_source : Text → Entry → Modes → Result Modes
unfolding relative read_mode_annotation trim_suffix ext assign
visit_source dir e modes = elim (relative dir e.path) [
  | none ↦ err (other (codes "Rel: can't make path relative"))
  | some rel ↦ elim (read_mode_annotation e.source) [
    | err x ↦ err x
    | ok m ↦ ok (assign (trim_suffix (ext e.name) rel) m modes)
  ]
]

visit_file : Text → Entry → Modes → Result Modes
unfolding visit_source is_component_ext ext
visit_file dir e modes =
    if e.is_dir
    then ok modes
    else if is_component_ext (ext e.name)
    then visit_source dir e modes
    else ok modes

unfoldable pub visit : Text → Entry → Modes → Result Modes
unfolding visit_file is_missing_root
visit dir e modes = elim e.fault [
  | none ↦ visit_file dir e modes
  | some x ↦ if is_missing_root dir e x then ok modes else err x
]

-- discoverComponentModes over the entries that the walk visits.
unfoldable pub discover : Text → List Entry → Modes → Result Modes
unfolding visit
discover dir [] modes = ok modes
discover dir (e ∷ es) modes = elim (visit dir e modes) [
  | ok modes' ↦ discover dir es modes'
  | err x ↦ err x
]
