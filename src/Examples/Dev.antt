-- ===== src/Examples/Dev.antt =====
-- The development server and the JWT middleware at concrete inputs.
use revelt.Base.{
  ◌++◌, ◌↔◌, ◌≢◌, suc, ℕ, inr, inl, Option-cases, str_eq, if◌then◌else◌, ◌+◌, ◌≤◌, ◌≡◌, ◌⊎◌, refl,
  true, false, List, [], ◌∷◌, Option, none, some, arith,
}
use revelt.Text.{has_prefix, Text, codes, strip_prefix, text_eq}
use revelt.Config.{ext, assign, find}
use revelt.Http.{Request, Handler, write, write_header, returned, no_headers}
use revelt.Dev.{
  is_skipped, all_same, Event, Runner, first_runner, run, started, build_failed, takes_restart,
  server_exits, watcher_sends, context_done, Nodes, file, folder, no_nodes, more, collect, Snapshot,
  Watcher, dropped, has_file_changed, all_same,
}
use revelt.Dev.Changes.{change_exact}
use revelt.Dev.Frontend.{match_go_source}
use revelt.Dev.Ending.{context_done_ends}
use revelt.Dev.Single.{IsSingle, one_server}
use revelt.Dev.Debounce.{Tick, sends, change_restarts_once}
use revelt.Middleware.Jwt.{Method, hmac, Parsed, token, unparsable, jwt}
use revelt.Middleware.Jwt.Guard.{ChecksSignature, IsSigned, jwt_guards}

-- The server is started, ends by itself, and is killed before its end has been received.
abbrev busy : List Event
busy =
    takes_restart started
    ∷ watcher_sends
    ∷ server_exits
    ∷ takes_restart started
    ∷ watcher_sends
    ∷ takes_restart build_failed
    ∷ context_done
    ∷ []

one_server_example :
    (r : Runner) × (run busy first_runner ≡ some r) × IsSingle r × (r.waiters + r.exited ≤ 1)
one_server_example = one_server busy

-- The context is done while a server runs, and a change comes later.
context_done_ends_example :
    (r : Runner) × (run
        ((takes_restart started ∷ watcher_sends ∷ []) ++ context_done ∷ takes_restart started ∷ [])
        first_runner
      ≡ some r)
    × (r.stopped ≡ true)
    × (r.waiters + r.exited ≡ 0)
    × (r.blocked ≡ 0)
context_done_ends_example =
    context_done_ends (takes_restart started ∷ watcher_sends ∷ []) (takes_restart started ∷ [])

-- A source file is written anew; an editor's file and a dependency are of no account.
abbrev tree : ℕ → Nodes
tree t = more (file (codes "main.go") (some t)) (
    more (file (codes "notes.txt") (some 4))
      (more (folder (codes "vendor") (more (file (codes "x.go") (some 5)) no_nodes)) no_nodes))

abbrev stamped : ℕ → Snapshot
stamped t = (codes "main.go", t) ∷ []

nonzero : (n : ℕ) → suc n ≢ 0
nonzero n e = omega (arith, e)

change_exact_example :
    (has_file_changed
        (collect match_go_source [] (tree 7) [])
        (collect match_go_source [] (tree 8) [])
      ≡ false)
    ↔ ((path : Text) → find path (stamped 7) ≡ find path (stamped 8))
unfolding collect match_go_source is_skipped assign ext text_eq has_prefix
change_exact_example =
    change_exact match_go_source [] (tree 7) (tree 8)
      (nonzero 6, (nonzero 3, ((nonzero 4, tt), tt)))
      (nonzero 7, (nonzero 3, ((nonzero 4, tt), tt)))

abbrev before_save : Watcher
before_save = record {
  snapshot = (codes "main.go", 7) ∷ [];
  pending_restart = false;
  last_change = 0;
}

abbrev saved : Snapshot
saved = (codes "main.go", 8) ∷ []

abbrev tick_at : ℕ → ℕ → Tick
tick_at now queued = record { now = now; queued = queued; current = saved }

-- A send that is dropped, as two restarts wait.
change_restarts_once_example :
    sends (tick_at 500 0 ∷ tick_at 700 1 ∷ tick_at 1000 2 ∷ tick_at 1500 0 ∷ []) before_save
    ≡ dropped ∷ []
unfolding has_file_changed all_same find text_eq
change_restarts_once_example =
    change_restarts_once (tick_at 500 0) (tick_at 700 1 ∷ tick_at 1000 2 ∷ tick_at 1500 0 ∷ [])
      before_save refl (refl, (refl, (refl, tt)))

-- A library whose tokens are a key and then the claims.
abbrev under : Text → Text → Parsed
under key text = elim (strip_prefix key text) [ none ↦ unparsable [] | some c ↦ token true c ]

abbrev parse : Text → (Method → Option Text) → Parsed
parse text keys = elim (keys hmac) [ none ↦ unparsable [] | some key ↦ under key text ]

abbrev Signed : Text → Method → Text → Text → Type 0
Signed text m key c = strip_prefix key text ≡ some c

parse-ChecksSignature : ChecksSignature parse Signed
parse-ChecksSignature text c keys valid = elim (Option-cases (keys hmac)) [
  | inl keyless ↦ absurd (ground arith)
  | inr (key, keyed) ↦ elim (Option-cases (strip_prefix key text)) [
    | inl broken ↦ absurd (ground arith)
    | inr (c', good) ↦ (hmac, key, keyed, ground arith)
  ]
]

abbrev with_bearer : Request
with_bearer = record {
  method = "GET";
  path = codes "/";
  headers = λ k. if str_eq k "Authorization" then codes "Bearer sann" else [];
  remote_addr = [];
  ctx = λ k. none;
}

abbrev hello : Handler
hello r h = (write (codes "hello") ∷ [], returned none)

jwt_guards_example :
    IsSigned parse Signed (codes "s") hello with_bearer no_headers
    ⊎ (jwt parse (codes "s") none hello with_bearer no_headers
        ≡ (write_header 401 ∷ [], returned none))
jwt_guards_example =
    jwt_guards parse Signed (codes "s") hello with_bearer no_headers parse-ChecksSignature
