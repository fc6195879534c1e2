-- ===== src/Examples/Config.antt =====
-- config.go and renderer.go at concrete inputs.
use mathlib.Core.List.{Memᴰ}
use revelt.Base.{◌≡◌, refl, true, false, List, [], ◌∷◌, none, some, All}
use revelt.Text.{Text, codes}
use revelt.Protocol.{Props, RenderRequest}
use revelt.Config.{Mode, client, Source, Entry, Modes, find, discover}
use revelt.Config.Discovery.{Describes, discover_exact}
use revelt.Renderer.{
  RenderInput, html, PoolResult, failed, Marshalled, json, escape_html, props_json, render,
}
use revelt.Renderer.Escape.{IsSafe, escape_html-IsSafe, escape_html_injective}
use revelt.Renderer.Modes.{container, client_only_local}

abbrev chart : Source
chart = record {
  open_fault = none;
  lines = codes "import x" ∷ codes "// @mode client" ∷ codes "// @mode ssr" ∷ [];
  scan_fault = none;
}

abbrev entries : List Entry
entries =
    record { path = codes "c"; name = codes "c"; is_dir = true; fault = none; source = chart }
    ∷ record {
      path = codes "c/Chart.tsx";
      name = codes "Chart.tsx";
      is_dir = false;
      fault = none;
      source = chart;
    }
    ∷ record {
      path = codes "c/x.css";
      name = codes "x.css";
      is_dir = false;
      fault = none;
      source = chart;
    }
    ∷ []

abbrev modes : Modes
modes = (codes "Chart", client) ∷ []

discover_exact_example :
    ((key : Text) (m : Mode)
      → find key modes ≡ some m
      → (e : Entry) × Memᴰ e entries × Describes (codes "c") e key m)
    × ((key : Text) (m : Mode) (e : Entry)
        → Memᴰ e entries
        → Describes (codes "c") e key m
        → (m' : Mode) × (find key modes ≡ some m'))
unfolding discover
discover_exact_example = discover_exact (codes "c") entries modes refl

abbrev input : RenderInput
input = record { component = codes "Chart"; props = none }

abbrev marshal : Props → Marshalled
marshal p = json (codes "{\"a\":1}")

abbrev down : RenderRequest → PoolResult
down r = failed (codes "worker exited")

abbrev up : RenderRequest → PoolResult
up r = PoolResult.ok (record { id = 1; html = codes "<p></p>"; head = []; error = [] })

escapes : escape_html (codes "<a>&") ≡ codes "&lt;a&gt;&amp;"
unfolding escape_html
escapes = refl

escape_html-IsSafe_example : All IsSafe (escape_html (codes "<a>&"))
escape_html-IsSafe_example = escape_html-IsSafe (codes "<a>&")

escape_html_injective_example : codes "<&" ≡ codes "<&"
escape_html_injective_example = escape_html_injective (codes "<&") (codes "<&") refl

client_only_local_example :
    (render marshal down (some modes) input ≡ render marshal up (some modes) input)
    × ((h : Text)
        → render marshal down (some modes) input ≡ html h
        → (text : Text) × (props_json marshal none ≡ json text)
          × (h ≡ container false (codes "Chart") (escape_html text)))
unfolding find
client_only_local_example = client_only_local marshal modes input false down up refl
