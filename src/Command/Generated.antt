-- ===== src/Command/Generated.antt =====
-- cmd/revelt/main.go with config.go: a generated component has the mode that was asked for.
use revelt.Base.{◌≡◌, Bool, false, ◌==◌, List, [], ◌∷◌, ◌++◌, none, some, if◌then◌else◌}
use revelt.Text.{Text, codes, text_eq}
use revelt.Config.{Mode, Modes, mode_name, Source, Entry, ok, ext, trim_suffix, assign, discover}
use revelt.Config.Project.{ProjectConfig}
use revelt.Command.{source, Workspace, configured}

-- The lines of a text without carriage returns, as bufio.Scanner gives them.
abbrev split : Text → Text × List Text
split [] = ([], [])
split (c ∷ s) =
    let (line, lines) = split s in if c == 10 then ([], line ∷ lines) else (c ∷ line, lines)

abbrev pub as_file : Text → Source
as_file text = record {
  open_fault = none;
  lines = (split text).0 ∷ (split text).1;
  scan_fault = none;
}

-- What fs.WalkDir calls back with for a file that stands in the folder `dir`.
abbrev pub visited : Text → Text → Text → Entry
visited dir base content = record {
  path = if text_eq dir (codes ".") then base else dir ++ (b'/' ∷ base);
  name = base;
  is_dir = false;
  fault = none;
  source = as_file content;
}

abbrev pub extension : Bool → Text
extension svelte = if svelte then codes ".svelte" else codes ".tsx"

module _ (ws : Workspace) where
  -- The file, called `base`, was written below the component folder with the mode that was asked for,
  -- and the discovery of components in a folder `dir` that has it enters it with that mode.
  abbrev pub IsGenerated : List Text → Text → Text → Text → Modes → Type 0
  IsGenerated flags path content dir modes =
      (mode : Text) × (m : Mode) × (c : ProjectConfig) × (base : Text) × (ws.mode_flag flags
        ≡ some mode)
      × (ws.lower mode ≡ mode_name m)
      × (ws.config ≡ configured c)
      × (path ≡ ws.join c.source_dir c.component_dir base)
      × (discover dir (visited dir base content ∷ []) modes
          ≡ ok (assign (trim_suffix (ext base) base) m modes))
