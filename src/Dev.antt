-- ===== src/Dev.antt =====
-- cmd/revelt/dev.go: the development server. A tree of files stands for what WalkDir visits; a stamp is a
-- time of modification or a hash, never the zero value.
pub mod Single
pub mod Debounce
pub mod Ending
pub mod Changes
pub mod Frontend
pub mod Hashes
use revelt.Base.{
  ℕ, ◌+◌, ◌-◌, Bool, true, false, not, ◌||◌, ◌==◌, leb, ltb, List, [], ◌∷◌, ◌++◌, Option, none,
  some, length, if◌then◌else◌,
}
use revelt.Text.{Text, codes, has_prefix, text_eq}
use revelt.Config.{assign, find}

-- A file with its stamp, if that can be read.
mutual
  pub data Node : Type 0 where
    file : Text → Option ℕ → Node
    folder : Text → Nodes → Node

  pub data Nodes : Type 0 where
    no_nodes : Nodes
    more : Node → Nodes → Nodes

abbrev pub Snapshot : Type 0
Snapshot = List (Text × ℕ)

abbrev is_named : Text → List Text → Bool
is_named name [] = false
is_named name (n ∷ ns) = text_eq n name || is_named name ns

-- The folders that hold no source.
unfoldable pub is_skipped : Text → Bool
is_skipped name =
    has_prefix (codes ".") name
    || is_named name (
        codes "node_modules"
        ∷ codes "dist"
        ∷ codes "build"
        ∷ codes "bin"
        ∷ codes "tmp"
        ∷ codes "temp"
        ∷ codes "vendor"
        ∷ codes "coverage"
        ∷ [])

-- collectMtimes and collectHashes: below `path`, which ends in a separator or is empty for the
-- working directory, with the files that `matches` by path and name.
unfoldable pub collect : (Text → Text → Bool) → Text → Nodes → Snapshot → Snapshot
unfolding is_skipped
collect matches path no_nodes found = found
collect matches path (more (file name stamp) nodes) found =
    let rest = collect matches path nodes in
    if matches (path ++ name) name
    then elim stamp [ none ↦ rest found | some t ↦ rest (assign (path ++ name) t found) ]
    else rest found
collect matches path (more (folder name inner) nodes) found =
    let below = collect matches (path ++ name ++ codes "/") inner found in
    let rest = collect matches path nodes in if is_skipped name then rest found else rest below

-- `prev[path]`: the zero value where the path is missing.
abbrev pub stamp_of : Text → Snapshot → ℕ
stamp_of path prev = elim (find path prev) [ none ↦ 0 | some t ↦ t ]

unfoldable pub all_same : Snapshot → Snapshot → Bool
all_same prev [] = true
all_same prev ((path, t) ∷ current) =
    let rest = all_same prev current in if stamp_of path prev == t then rest else false

-- hasFileChanged and hasFileChangedByHash, given the current snapshot.
unfoldable pub has_file_changed : Snapshot → Snapshot → Bool
unfolding all_same
has_file_changed prev current =
    if length current == length prev then not (all_same prev current) else true

-- In milliseconds.
abbrev pub restart_debounce : ℕ
restart_debounce = 300

-- The variables of a watching loop.
pub record Watcher : Type 0 where
  pub snapshot : Snapshot
  pub pending_restart : Bool
  pub last_change : ℕ

-- if changed
unfoldable pub observe : ℕ → Snapshot → Watcher → Watcher
unfolding has_file_changed
observe now current w =
    if has_file_changed w.snapshot current
    then record { snapshot = current; pending_restart = true; last_change = now }
    else w

-- What a tick does on the channel restart, whose buffer holds two: no send, a send that goes
-- through, or one that the select's default drops because the buffer is full.
pub data Sending : Type 0 where
  not_due sent dropped : Sending

-- The select, where `queued` are in the buffer.
unfoldable pub try_send : ℕ → Sending
try_send queued = if ltb queued 2 then sent else dropped

-- The rest of the tick.
unfoldable pub settle : ℕ → ℕ → Watcher → Watcher × Sending
unfolding try_send
settle now queued w =
    if w.pending_restart
    then (if leb restart_debounce (now - w.last_change)
        then (record w { pending_restart = false }, try_send queued)
        else (w, not_due))
    else (w, not_due)

-- A tick at the time `now`, which is read once.
unfoldable pub tick : ℕ → ℕ → Snapshot → Watcher → Watcher × Sending
unfolding observe settle
tick now queued current w = settle now queued (observe now current w)

-- What `cmd` holds: nothing, a command whose start failed, or one that was started.
pub data Cmd : Type 0 where
  no_cmd unstarted running : Cmd

-- runGoWithRestart: `waiters` goroutines wait for a server process, `exited` is in the buffer of
-- processExited, `blocked` goroutines wait to send there, and `restarts` is in the buffer of restart.
pub record Runner : Type 0 where
  pub cmd : Cmd
  pub waiters : ℕ
  pub exited : ℕ
  pub blocked : ℕ
  pub restarts : ℕ
  pub stopped : Bool

-- At the first select, after the initial trigger.
abbrev pub first_runner : Runner
first_runner = record {
  cmd = no_cmd;
  waiters = 0;
  exited = 0;
  blocked = 0;
  restarts = 1;
  stopped = false;
}

-- A send on restart, of capacity 2, with a default.
unfoldable pub notify : Runner → Runner
notify r = if leb 2 r.restarts then r else record r { restarts = r.restarts + 1 }

-- A server process ends, and its goroutine sends on processExited, of capacity 1.
unfoldable pub process_exits : Runner → Runner
process_exits r =
    if r.waiters == 0
    then r
    else if r.exited == 0
    then record r { waiters = r.waiters - 1; exited = 1 }
    else record r { waiters = r.waiters - 1; blocked = r.blocked + 1 }

-- <-processExited; none where it waits for ever.
unfoldable pub receive : Runner → Option Runner
receive r =
    if r.exited == 0
    then (if r.waiters == 0 then none else some (record r { waiters = r.waiters - 1 }))
    else if r.blocked == 0
    then some (record r { exited = r.exited - 1 })
    else some (record r { blocked = r.blocked - 1 })

-- killProcess
unfoldable pub kill_process : Runner → Option Runner
unfolding receive
kill_process r = elim r.cmd [
  | running ↦ elim (receive r) [ none ↦ none | some r' ↦ some (record r' { cmd = no_cmd }) ]
  | _ ↦ some r
]

-- How a build and start end.
pub data Built : Type 0 where
  build_failed start_failed started : Built

unfoldable pub rebuild : Built → Runner → Runner
rebuild build_failed r = r
rebuild start_failed r = record r { cmd = unstarted }
rebuild started r = record r { cmd = running; waiters = r.waiters + 1 }

-- What happens next: a watcher sends, a process ends, or a case of the select is taken; for
-- processExited with whether the context is done.
pub data Event : Type 0 where
  watcher_sends server_exits context_done : Event
  takes_exit : Bool → Event
  takes_restart : Built → Event

abbrev then_rebuild : Built → Option Runner → Option Runner
then_rebuild b none = none
then_rebuild b (some r) = some (rebuild b r)

abbrev then_stop : Option Runner → Option Runner
then_stop none = none
then_stop (some r) = some (record r { stopped = true })

-- A case that is not ready changes nothing.
unfoldable pub step : Event → Runner → Option Runner
unfolding notify process_exits kill_process rebuild
step watcher_sends r = some (notify r)
step server_exits r = some (process_exits r)
step context_done r = then_stop (kill_process r)
step (takes_exit done) r =
    if r.exited == 0
    then some r
    else (let r' = record r { cmd = no_cmd; exited = r.exited - 1 } in
        some (if done then r' else notify r'))
step (takes_restart b) r =
    if r.restarts == 0
    then some r
    else then_rebuild b (kill_process (record r { restarts = r.restarts - 1 }))

-- The loop over some events, until it returns; none where killProcess blocks for ever.
unfoldable pub run : List Event → Runner → Option Runner
unfolding step
run [] r = some r
run (e ∷ events) r =
    if r.stopped then some r else elim (step e r) [ none ↦ none | some r' ↦ run events r' ]
