-- ===== src/Dev/Frontend.antt =====
-- cmd/revelt/dev.go: which files the two watchers match, and runNodeWatcher.
use revelt.Base.{ℕ, ◌+◌, ◌≡◌, Bool, true, false, ◌||◌, List, [], ◌∷◌, arith, if◌then◌else◌}
use revelt.Text.{Text, codes, text_eq}
use revelt.Config.{ext}

-- matchClientAsset
unfoldable pub match_client_asset : Text → Text → Bool
unfolding ext text_eq
match_client_asset path name =
    text_eq (ext path) (codes ".js")
    || text_eq (ext path) (codes ".css")
    || text_eq (ext path) (codes ".html")
    || text_eq (ext path) (codes ".map")

-- matchGoSource
unfoldable pub match_go_source : Text → Text → Bool
unfolding ext text_eq
match_go_source path name = text_eq (ext path) (codes ".go") || text_eq name (codes "revelt.json")

-- How a round of runNodeWatcher goes: the start fails, the case of the context is taken, or that of the
-- process, with whether the context is done.
pub data Round : Type 0 where
  not_started cancelled : Round
  exits : Bool → Round

-- The processes that were started and those that have been waited for.
pub record Watch : Type 0 where
  pub starts : ℕ
  pub waited : ℕ
  pub returned : Bool

-- A round, which starts one process and waits for it before the next.
unfoldable pub watch_round : Round → Watch → Watch
watch_round not_started w = record w { returned = true }
watch_round cancelled w = record { starts = w.starts + 1; waited = w.waited + 1; returned = true }
watch_round (exits done) w = record {
  starts = w.starts + 1;
  waited = w.waited + 1;
  returned = done;
}

-- runNodeWatcher over the rounds that it gets to.
unfoldable pub run_node_watcher : List Round → Watch → Watch
unfolding watch_round
run_node_watcher [] w = w
run_node_watcher (round ∷ rounds) w =
    let next = run_node_watcher rounds (watch_round round w) in if w.returned then w else next

abbrev pub first_watch : Watch
first_watch = record { starts = 0; waited = 0; returned = false }

watch_round-waits :
    (round : Round) (w : Watch)
    → w.starts ≡ w.waited
    → (watch_round round w).starts ≡ (watch_round round w).waited
unfolding watch_round
watch_round-waits not_started w h = h
watch_round-waits cancelled w h = ground arith
watch_round-waits (exits done) w h = ground arith

-- Between rounds, and when the watcher returns, no process that it started is left.
run_node_watcher-waits :
    (rounds : List Round) (w : Watch)
    → w.starts ≡ w.waited
    → (run_node_watcher rounds w).starts ≡ (run_node_watcher rounds w).waited
unfolding run_node_watcher
run_node_watcher-waits [] w h = h
run_node_watcher-waits (round ∷ rounds) w h =
    ground (arith, run_node_watcher-waits rounds (watch_round round w), watch_round-waits round w)
