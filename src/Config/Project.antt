-- ===== src/Config/Project.antt =====
-- config.go: ProjectConfig, LoadConfig, LoadConfigFromBytes and LoadConfigFromFS. json.Unmarshal, the reading of files,
-- the cleaning of the path and the walk are parameters. An integer that is not positive is 0.
use revelt.Base.{ℕ, ◌==◌, List, [], ◌∷◌, ◌++◌, String, if◌then◌else◌}
use revelt.Text.{Text, codes, trim_prefix}
use revelt.Config.{Entry, Modes, Fault, ok, err, discover}

pub record ProjectConfig : Type 0 where
  pub framework : Text
  pub source_dir : Text
  pub out_dir : Text
  pub workers : ℕ
  pub timeout_ms : ℕ
  pub port : ℕ
  pub static_prefix : Text
  pub component_dir : Text
  pub go_build_cmd : Text

abbrev or_else : Text → String → Text
or_else [] d = codes d
or_else (c ∷ s) d = c ∷ s

unfoldable pub with_defaults : ProjectConfig → ProjectConfig
with_defaults c = record c {
  source_dir = or_else c.source_dir "./frontend";
  out_dir = or_else c.out_dir "./dist";
  workers = if c.workers == 0 then 4 else c.workers;
  port = if c.port == 0 then 8080 else c.port;
  static_prefix = or_else c.static_prefix "/static/";
  component_dir = or_else c.component_dir "src/components";
}

pub data Unmarshalled : Type 0 where
  parsed : ProjectConfig → Unmarshalled
  malformed : Text → Unmarshalled

pub data Loaded : Type 0 where
  loaded : ProjectConfig → Modes → Loaded
  unparsable : Text → Loaded
  undiscovered : Fault → Loaded

-- `clean` is ToSlash of Clean of Join, and `walk` gives what WalkDir visits below a folder.
unfoldable pub load_config_from_fs :
    (Text → Text → Text) → (Text → List Entry) → Unmarshalled → Loaded
unfolding with_defaults
load_config_from_fs clean walk (malformed e) = unparsable (codes "parsing config JSON: " ++ e)
load_config_from_fs clean walk (parsed c) =
    let cfg = with_defaults c in
    let dir = trim_prefix (codes "./") (clean cfg.source_dir cfg.component_dir) in
    elim (discover dir (walk dir) []) [
      | ok modes ↦ loaded cfg modes
      | err fault ↦ undiscovered fault
    ]

-- os.ReadFile.
pub data ReadFile : Type 0 where
  contents cannot_read : Text → ReadFile

pub data FileLoaded : Type 0 where
  from_file : Loaded → FileLoaded
  no_file : Text → FileLoaded

-- LoadConfigFromBytes: the walk is over the working directory.
unfoldable pub load_config_from_bytes :
    (Text → Text → Text) → (Text → List Entry) → (Text → Unmarshalled) → Text → Loaded
unfolding load_config_from_fs
load_config_from_bytes clean walk unmarshal data' = load_config_from_fs clean walk (unmarshal data')

-- LoadConfig
unfoldable pub load_config :
    (Text → Text → Text)
    → (Text → List Entry)
    → (Text → Unmarshalled)
    → (Text → ReadFile)
    → Text
    → FileLoaded
unfolding load_config_from_bytes
load_config clean walk unmarshal read path = elim (read path) [
  | cannot_read e ↦ no_file (codes "reading config file: " ++ e)
  | contents data' ↦ from_file (load_config_from_bytes clean walk unmarshal data')
]
