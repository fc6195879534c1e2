-- ===== src/Examples/Worker.antt =====
-- worker.go at concrete inputs.
use revelt.Base.{
  ℕ, ◌≡◌, ◌≢◌, ◌⊎◌, refl, List, [], ◌∷◌, none, some, arith, lookup, insert, delete, get_or,
}
use revelt.Text.{codes}
use revelt.Protocol.{RenderRequest, RenderResponse}
use revelt.Worker.{
  Worker, Event, Reach, begins, call_steps, reader_steps, registers, writes, receives, leaves,
  reads, start, ok, reading, send, terminal, dispatch, drain_pending, step, run, run-Reach,
  new_worker, begin, caller_step, read_loop,
}
use revelt.Worker.Delivery.{
  render_own_response, pending_released, dispatch_delivers, drain_pending_unblocks,
}

abbrev counter : RenderRequest
counter = record { id = 0; component = codes "Counter"; props = none }

abbrev reply : RenderResponse
reply = record { id = 1; html = codes "<b>0</b>"; head = []; error = [] }

-- One call up to its select.
abbrev asked : List Event
asked = begins counter ∷ call_steps 0 registers ∷ call_steps 0 (writes none) ∷ []

-- The whole call.
abbrev served : List Event
served =
    begins counter
    ∷ call_steps 0 registers
    ∷ call_steps 0 (writes none)
    ∷ reader_steps (reads (some reply))
    ∷ call_steps 0 receives
    ∷ call_steps 0 leaves
    ∷ []

state_after : List Event → Worker
unfolding run step new_worker begin caller_step read_loop dispatch insert lookup delete
state_after es = get_or (run es new_worker) new_worker

asked-Reach : Reach (state_after asked)
unfolding state_after
asked-Reach = run-Reach asked new_worker start refl

served-Reach : Reach (state_after served)
unfolding state_after
served-Reach = run-Reach served new_worker start refl

render_own_response_example :
    (reply.id ≡ 1)
    ⊎ (((state_after served).reader ≢ reading) × (reply ≡ terminal (state_after served).read_err))
unfolding state_after
render_own_response_example = render_own_response (state_after served) 0 reply served-Reach refl

pending_released_example : lookup 1 (state_after served).pending ≢ some 0
unfolding state_after
pending_released_example = pending_released (state_after served) 0 1 (ok reply) served-Reach refl

dispatch_delivers_example :
    (((dispatch reply (state_after asked)).calls 0).resp ≡ some reply)
    × ((d : ℕ) → d ≢ 0 → (dispatch reply (state_after asked)).calls d ≡ (state_after asked).calls d)
unfolding state_after
dispatch_delivers_example =
    dispatch_delivers (state_after asked) 0 reply asked-Reach (omega arith) refl (omega arith) refl
      refl refl

drain_pending_unblocks_example :
    (drain_pending none (state_after asked)).calls 0
    ≡ send (terminal none) ((state_after asked).calls 0)
unfolding state_after
drain_pending_unblocks_example =
    drain_pending_unblocks (state_after asked) 0 none asked-Reach (omega arith) refl (omega arith)
      refl
