-- ===== src/Renderer/Construction.antt =====
-- renderer.go: Config, the options and New. The start of the pool, the build and the environment are
-- parameters. Durations are in nanoseconds; an integer that is not positive is 0.
use revelt.Base.{
  ℕ, ◌≡◌, ◌≢◌, ◌⊎◌, inl, inr, refl, ap, ◌∙◌, ◌*◌, ◌==◌, List, [], ◌∷◌, ◌++◌, Option, none, some,
  arith, if◌then◌else◌,
}
use revelt.Text.{Text, codes, trim_prefix}
use revelt.Config.{Modes, Entry, Fault, Result, ok, err, discover}
use revelt.Config.Project.{
  ProjectConfig, with_defaults, Unmarshalled, parsed, malformed, loaded, load_config_from_fs,
}

pub record Config : Type 0 where
  pub workers : ℕ
  pub node_bin : Text
  pub render_timeout : ℕ
  pub read_buf_size : ℕ
  pub build_cmd : List Text
  pub build_dir : Text
  pub project_cfg : Option ProjectConfig

-- An option, which can panic.
pub data Optioned : Type 0 where
  config : Config → Optioned
  panics : Text → Optioned

abbrev pub Setting : Type 0
Setting = Config → Optioned

unfoldable pub with_workers : ℕ → Setting
with_workers n c =
    if n == 0
    then panics (codes "revelt: WithWorkers: n must be >= 1")
    else config (record c { workers = n })

unfoldable pub with_node_bin : Text → Setting
with_node_bin bin c = config (record c { node_bin = bin })

unfoldable pub with_render_timeout : ℕ → Setting
with_render_timeout d c = config (record c { render_timeout = d })

unfoldable pub with_read_buf_size : ℕ → Setting
with_read_buf_size n c = config (record c { read_buf_size = n })

unfoldable pub with_build_cmd : List Text → Setting
with_build_cmd [] c = panics (codes "revelt: WithBuildCmd: at least one argument required")
with_build_cmd (a ∷ args) c = config (record c { build_cmd = a ∷ args })

unfoldable pub with_build_dir : Text → Setting
with_build_dir dir c = config (record c { build_dir = dir })

unfoldable pub with_project_config : ProjectConfig → Setting
with_project_config p c = config (record c { project_cfg = some p })

-- `cpus` is runtime.NumCPU.
abbrev pub default_config : ℕ → Config
default_config cpus = record {
  workers = cpus;
  node_bin = codes "node";
  render_timeout = 0;
  read_buf_size = 65_536;
  build_cmd = [];
  build_dir = codes ".";
  project_cfg = none;
}

unfoldable pub apply_settings : List Setting → Config → Optioned
apply_settings [] c = config c
apply_settings (s ∷ settings) c = elim (s c) [
  | panics e ↦ panics e
  | config c' ↦ apply_settings settings c'
]

-- workerConfig
pub record WorkerConfig : Type 0 where
  pub node_bin : Text
  pub read_buf_size : ℕ
  pub env : List Text

-- What New asks of its surroundings: os.Stat, the build command, filepath.Abs joined with
-- node_modules, os.Environ, and newPool.
pub record Host (P : Type 0) : Type 0 where
  pub stat : Text → Option Text
  pub build : List Text → Text → Option Text
  pub node_modules : Text → Option Text
  pub environ : List Text
  pub new_pool : Text → ℕ → WorkerConfig → P × Option Text

pub record Renderer (P : Type 0) : Type 0 where
  pub pool : P
  pub cfg : Config

pub data NewRenderer (P : Type 0) : Type 0 where
  renderer : Renderer P → NewRenderer P
  failed panicked : Text → NewRenderer P

module _ {P : Type 0} (host : Host P) where
  abbrev source_dir : Config → Text
  source_dir c = elim c.project_cfg [ none ↦ codes "." | some p ↦ p.source_dir ]

  unfoldable pub environment : Config → List Text
  environment c = elim (host.node_modules (source_dir c)) [
    | none ↦ []
    | some path ↦ host.environ ++ (codes "NODE_PATH=" ++ path) ∷ []
  ]

  abbrev run_build : Config → Option Text
  run_build c = elim c.build_cmd [ [] ↦ none | a ∷ args ↦ host.build (a ∷ args) c.build_dir ]

  -- New from the build on.
  unfoldable pub start : Text → Config → NewRenderer P
  unfolding environment
  start script c = elim (run_build c) [
    | some e ↦ failed (codes "revelt.New: build step failed: " ++ e)
    | none ↦
        let made = host.new_pool script c.workers (record {
          node_bin = c.node_bin;
          read_buf_size = c.read_buf_size;
          env = environment c;
        }) in
        elim made.1 [
          | some e ↦ failed (codes "revelt.New: " ++ e)
          | none ↦ renderer (record { pool = made.0; cfg = c })
        ]
  ]

  unfoldable pub new : ℕ → Text → List Setting → NewRenderer P
  unfolding start apply_settings
  new cpus script settings = elim (host.stat script) [
    | some e ↦ failed (codes "stat failed for script: " ++ e)
    | none ↦ elim (apply_settings settings (default_config cpus)) [
      | panics e ↦ panicked e
      | config c ↦ start script c
    ]
  ]

-- The options of newAppWithConfig.
unfoldable pub app_settings : ProjectConfig → List Setting
unfolding with_workers with_render_timeout with_project_config
app_settings c =
    with_workers c.workers
    ∷ with_render_timeout (c.timeout_ms * 1_000_000)
    ∷ with_project_config c
    ∷ []

defaulted : (p : ProjectConfig) → (with_defaults p).workers ≢ 0
unfolding with_defaults
defaulted p h = ground arith

Result-cases : (r : Result Modes) → ((m : Modes) × (r ≡ ok m)) ⊎ ((f : Fault) × (r ≡ err f))
Result-cases (ok m) = inl (m, refl)
Result-cases (err f) = inr (f, refl)

workers_given :
    (clean : Text → Text → Text) (walk : Text → List Entry) (u : Unmarshalled) (c : ProjectConfig)
    (modes : Modes)
    → load_config_from_fs clean walk u ≡ loaded c modes
    → c.workers ≢ 0
unfolding load_config_from_fs
workers_given clean walk (malformed e) c modes h = absurd (ground arith)
workers_given clean walk (parsed p) c modes h =
    let cfg = with_defaults p in
    let dir = trim_prefix (codes "./") (clean cfg.source_dir cfg.component_dir) in
    elim (Result-cases (discover dir (walk dir) [])) [
      | inr (f, broken) ↦ absurd (ground arith)
      | inl (m, found) ↦
          let same : cfg ≡ c = ground arith in
          λ none_left. defaulted p (ap (λ q. q.workers) same ∙ none_left)
    ]

-- The options that an application passes for a configuration that has been loaded never panic, and
-- the renderer gets the number of workers and the timeout of that configuration.
loaded_settings :
    (clean : Text → Text → Text) (walk : Text → List Entry) (u : Unmarshalled) (c : ProjectConfig)
    (modes : Modes) (cpus : ℕ)
    → load_config_from_fs clean walk u ≡ loaded c modes
    → apply_settings (app_settings c) (default_config cpus)
      ≡ config (record (default_config cpus) {
        workers = c.workers;
        render_timeout = c.timeout_ms * 1_000_000;
        project_cfg = some c;
      })
unfolding apply_settings app_settings
loaded_settings clean walk u c modes cpus h =
    let given = workers_given clean walk u c modes h in ground arith
