-- ===== src/Worker.antt =====
-- worker.go: one Node process, the calls in flight, and the reader goroutine.
pub mod Invariant
pub mod Delivery
pub mod Held
use mathlib.Core.Option.{some-injective}
use mathlib.Core.Path.{subst}
use revelt.Base.{
  arith, inl, inr, Option-cases, ℕ, ◌+◌, ◌%◌, ◌^◌, ◌≡◌, Bool, true, false, List, [], ◌∷◌, Option,
  none, some, ltb, if◌then◌else◌, lookup, insert, delete, update,
}
use revelt.Text.{Text, codes}
use revelt.Protocol.{RenderRequest, RenderResponse}

-- Why `render` returned an error.
pub data Failure : Type 0 where
  write_failed : Text → Failure
  process_exited : Option Text → Failure
  cancelled : Text → Failure

pub data Result : Type 0 where
  ok : RenderResponse → Result
  failed : Failure → Result

-- Where a goroutine stands in `render`. `leaving` has a result and still has to run the deferred
-- delete; `left` has run it.
pub data Stage : Type 0 where
  assigned registered waiting : Stage
  leaving left : Result → Stage

-- One call of `render`: its request with the id set, the reply channel of capacity one, its stage.
pub record Call : Type 0 where
  pub req : RenderRequest
  pub resp : Option RenderResponse
  pub stage : Stage

-- The reader goroutine: in the loop, past drainPending, or gone with `done` closed.
pub data Reader : Type 0 where
  reading drained exited : Reader

-- `calls` is the store of pendingCall objects; `count` of them have been made. `written` lists what
-- node's stdin received, the newest request first.
pub record Worker : Type 0 where
  pub next_id : ℕ
  pub count : ℕ
  pub calls : ℕ → Call
  pub pending : List (ℕ × ℕ)
  pub written : List RenderRequest
  pub reader : Reader
  pub read_err : Option Text

abbrev pub u64 : ℕ → ℕ
u64 n = n % 2 ^ 64

-- w.nextID.Add(1), and the new reply channel.
unfoldable pub begin : RenderRequest → Worker → Worker
begin r w = record w {
  next_id = u64 (next_id + 1);
  count = count + 1;
  calls =
      update calls count
        (record { req = record r { id = u64 (next_id + 1) }; resp = none; stage = assigned });
}
  where
    open w use {next_id, count, calls}

abbrev with_stage : Worker → ℕ → Stage → Worker
with_stage w c s = record w { calls = update w.calls c (record (w.calls c) { stage = s }) }

-- w.pending[req.ID] = call
register : ℕ → Worker → Worker
register c w =
    with_stage (record w { pending = insert (w.calls c).req.id c w.pending }) c registered

-- writeRequest: `fault` is the error of json.Marshal or of the write to stdin.
write_request : ℕ → Option Text → Worker → Worker
write_request c (some e) w = with_stage w c (leaving (failed (write_failed e)))
write_request c none w = with_stage (record w { written = (w.calls c).req ∷ w.written }) c waiting

-- The deferred delete(w.pending, req.ID), after which `render` returns.
leave : ℕ → Result → Worker → Worker
leave c r w = with_stage (record w { pending = delete (w.calls c).req.id w.pending }) c (left r)

-- A non-blocking send on a channel of capacity one.
abbrev pub send : RenderResponse → Call → Call
send r k = record k { resp = elim k.resp [ none ↦ some r | some old ↦ some old ] }

-- dispatch: the call registered for the id gets the response; a stale response is discarded.
unfoldable pub dispatch : RenderResponse → Worker → Worker
dispatch r w = elim (lookup r.id w.pending) [
  | none ↦ w
  | some c ↦ record w { calls = update w.calls c (send r (w.calls c)) }
]

abbrev pub terminal : Option Text → RenderResponse
terminal none = record { id = 0; html = []; head = []; error = codes "worker exited" }
terminal (some e) = record { id = 0; html = []; head = []; error = e }

-- The loop of drainPending over the map.
pub drain_calls : RenderResponse → List (ℕ × ℕ) → (ℕ → Call) → ℕ → Call
drain_calls r [] h = h
drain_calls r ((id, c) ∷ m) h = drain_calls r m (update h c (send r (h c)))

-- The reader after a failed read: `cause` is none at io.EOF.
unfoldable pub drain_pending : Option Text → Worker → Worker
drain_pending cause w = record w {
  calls = drain_calls (terminal cause) w.pending w.calls;
  pending = [];
  reader = drained;
  read_err = cause;
}

-- A goroutine inside `render`.
pub data CallerStep : Type 0 where
  registers : CallerStep
  writes : Option Text → CallerStep
  receives sees_done : CallerStep
  cancels : Text → CallerStep
  leaves : CallerStep

-- The reader goroutine: `reads none` is a line on which json.Unmarshal fails.
pub data ReaderStep : Type 0 where
  reads : Option RenderResponse → ReaderStep
  read_fails : Option Text → ReaderStep
  closes_done : ReaderStep

-- What the scheduler, the process and the callers' contexts may do next.
pub data Event : Type 0 where
  begins : RenderRequest → Event
  call_steps : ℕ → CallerStep → Event
  reader_steps : ReaderStep → Event

-- The cases of the caller's select.
select_resp : ℕ → Option RenderResponse → Worker → Option Worker
select_resp c none w = none
select_resp c (some r) w = some (record w {
  calls = update w.calls c (record (w.calls c) { resp = none; stage = leaving (ok r) });
})

select_done : ℕ → Reader → Worker → Option Worker
select_done c exited w = some (with_stage w c (leaving (failed (process_exited w.read_err))))
select_done c _ w = none

-- A goroutine's next step; none where it cannot take that step at its stage.
unfoldable pub caller_step : ℕ → Stage → CallerStep → Worker → Option Worker
unfolding register write_request select_resp select_done leave
caller_step c assigned registers w = some (register c w)
caller_step c registered (writes fault) w = some (write_request c fault w)
caller_step c waiting receives w = select_resp c (w.calls c).resp w
caller_step c waiting sees_done w = select_done c w.reader w
caller_step c waiting (cancels e) w = some (with_stage w c (leaving (failed (cancelled e))))
caller_step c (leaving r) leaves w = some (leave c r w)
caller_step _ _ _ w = none

-- readLoop, by what the next read gives.
unfoldable pub read_loop : Reader → ReaderStep → Worker → Option Worker
read_loop reading (reads none) w = some w
read_loop reading (reads (some r)) w = some (dispatch r w)
read_loop reading (read_fails cause) w = some (drain_pending cause w)
read_loop drained closes_done w = some (record w { reader = exited })
read_loop _ _ w = none

unfoldable pub step : Event → Worker → Option Worker
step (begins r) w = some (begin r w)
step (call_steps c s) w = if ltb c w.count then caller_step c (w.calls c).stage s w else none
step (reader_steps s) w = read_loop w.reader s w

abbrev blank : Call
blank = record {
  req = record { id = 0; component = []; props = none };
  resp = none;
  stage = assigned;
}

-- newWorker, once the process has started.
unfoldable pub new_worker : Worker
new_worker = record {
  next_id = 0;
  count = 0;
  calls = λ _. blank;
  pending = [];
  written = [];
  reader = reading;
  read_err = none;
}

-- alive: `done` is not closed.
unfoldable pub alive : Worker → Bool
alive w = elim w.reader [ exited ↦ false | _ ↦ true ]

pub data Reach : Worker → Type 0 where
  start : Reach new_worker
  next : {v w : Worker} (e : Event) → Reach v → step e v ≡ some w → Reach w

unfoldable pub run : List Event → Worker → Option Worker
run [] w = some w
run (e ∷ es) w = elim (step e w) [ none ↦ none | some v ↦ run es v ]

pub run-Reach : (es : List Event) (v : Worker) {w : Worker} → Reach v → run es v ≡ some w → Reach w
unfolding run
run-Reach [] v r e = subst Reach (some-injective _ _ e) r
run-Reach (x ∷ es) v r e = elim (Option-cases (step x v)) [
  | inl stuck ↦ absurd (ground arith)
  | inr (u, done) ↦ run-Reach es u (next x r done) (ground arith)
]
