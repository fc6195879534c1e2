-- ===== src/Worker/Delivery.antt =====
-- worker.go: responses reach the call they answer.
use revelt.Base.{
  ℕ, ◌^◌, ◌<◌, ◌≡◌, ◌≢◌, ap, ◌⊎◌, List, [], ◌∷◌, Option, none, some, arith, lookup, update,
}
use revelt.Text.{Text}
use revelt.Protocol.{RenderResponse}
use revelt.Worker.{
  Worker, Call, Result, Reach, waiting, left, ok, reading, send, terminal, drain_calls, dispatch,
  drain_pending,
}
use revelt.Worker.Invariant.{Reach-Inv, is_live, drain_calls_lem}
use revelt.Worker.Held.{Reach-Held}

-- In every reachable state of a worker, a call of `render` that returned a response without an
-- error got one with its own request id, or the reader has left its loop and the response is the
-- terminal one of drainPending.
pub render_own_response :
    (w : Worker) (c : ℕ) (r : RenderResponse)
    → Reach w
    → (w.calls c).stage ≡ left (ok r)
    → (r.id ≡ (w.calls c).req.id) ⊎ ((w.reader ≢ reading) × (r ≡ terminal w.read_err))
render_own_response w c r reach st = ground (arith, (Reach-Inv reach).results c r)

-- In every reachable state, no entry of `pending` leads to a call that has returned.
pub pending_released :
    (w : Worker) (c id : ℕ) (res : Result)
    → Reach w
    → (w.calls c).stage ≡ left res
    → lookup id w.pending ≢ some c
pending_released w c id res reach st e = ground (arith, (Reach-Inv reach).owner id c e)

-- While fewer than 2^64 calls have been made and the reader is in its loop, dispatching a response
-- with the id of a call that waits with an empty channel puts the response into that channel and
-- changes no other call.
pub dispatch_delivers :
    (w : Worker) (c : ℕ) (r : RenderResponse)
    → Reach w
    → w.count < 2 ^ 64
    → w.reader ≡ reading
    → c < w.count
    → (w.calls c).stage ≡ waiting
    → (w.calls c).resp ≡ none
    → r.id ≡ (w.calls c).req.id
    → (((dispatch r w).calls c).resp ≡ some r)
      × ((d : ℕ) → d ≢ c → (dispatch r w).calls d ≡ w.calls d)
unfolding dispatch
dispatch_delivers w c r reach b rd lt st empty same =
    rw (found, dispatch) (ground arith, λ d ne. ground arith)
  where
    found : lookup r.id w.pending ≡ some c
    found = rw same (Reach-Held reach b rd c lt (ap is_live st))

-- A response of which the id belongs to no registered call changes nothing.
drained_stays :
    (r : RenderResponse) (m : List (ℕ × ℕ)) (h : ℕ → Call) (c : ℕ)
    → send r (h c) ≡ h c
    → drain_calls r m h c ≡ h c
drained_stays r m h c full = ground (arith, drain_calls_lem r m h c)

drain_calls-lookup :
    (r : RenderResponse) (id c : ℕ) (m : List (ℕ × ℕ)) (h : ℕ → Call)
    → lookup id m ≡ some c
    → drain_calls r m h c ≡ send r (h c)
unfolding drain_calls lookup
drain_calls-lookup r id c [] h e = ground arith
drain_calls-lookup r id c ((j, d) ∷ m) h e =
    let h' = update h d (send r (h d)) in
    ground (arith, drain_calls-lookup r id c m h', drained_stays r m h' c)

-- While fewer than 2^64 calls have been made, the reader that leaves its loop answers every call
-- that waits for a response: an empty channel gets the terminal response, a full one is kept.
pub drain_pending_unblocks :
    (w : Worker) (c : ℕ) (cause : Option Text)
    → Reach w
    → w.count < 2 ^ 64
    → w.reader ≡ reading
    → c < w.count
    → (w.calls c).stage ≡ waiting
    → (drain_pending cause w).calls c ≡ send (terminal cause) (w.calls c)
unfolding drain_pending
drain_pending_unblocks w c cause reach b rd lt st =
    drain_calls-lookup (terminal cause) (w.calls c).req.id c w.pending w.calls
      (Reach-Held reach b rd c lt (ap is_live st))
