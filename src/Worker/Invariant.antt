-- ===== src/Worker/Invariant.antt =====
-- worker.go: what holds of a worker after any interleaving of its goroutines.
use mathlib.Core.Option.{some-injective}
use mathlib.Core.Path.{subst}
use revelt.Base.{
  ℕ, ◌+◌, ◌<◌, ◌≡◌, ◌≢◌, refl, ◌⊎◌, inl, inr, Bool, true, false, List, [], ◌∷◌, Option, none, some,
  arith, ltb, lookup, insert, delete, update, Option-cases, Bool-cases, ltb→lt, lookup-nil,
  lookup-insert, lookup-delete,
}
use revelt.Text.{Text}
use revelt.Protocol.{RenderRequest, RenderResponse}
use revelt.Worker.{
  Worker, Call, Stage, Result, Failure, Reader, Event, CallerStep, ReaderStep, Reach, assigned,
  registered, waiting, leaving, left, ok, failed, reading, drained, exited, begins, call_steps,
  reader_steps, registers, writes, receives, sees_done, cancels, leaves, reads, read_fails,
  closes_done, start, next, u64, begin, send, dispatch, terminal, drain_calls, drain_pending,
  write_failed, with_stage, register, write_request, leave, select_resp, select_done, caller_step,
  read_loop, step, new_worker,
}

-- The response belongs to the call, or the reader has gone and it is the one of drainPending.
abbrev pub Answers : Worker → ℕ → RenderResponse → Type 0
Answers w c r = (r.id ≡ (w.calls c).req.id) ⊎ ((w.reader ≢ reading) × (r ≡ terminal w.read_err))

abbrev result_of : Stage → Option Result
result_of (leaving r) = some r
result_of (left r) = some r
result_of _ = none

-- Has a call been entered into the map, and not yet been taken out by its own `render`?
abbrev pub is_live : Stage → Bool
is_live assigned = false
is_live (left _) = false
is_live _ = true

pub record Inv (w : Worker) : Type 0 where
  pub next_id_counts : w.next_id ≡ u64 w.count
  pub ids : (c : ℕ) → c < w.count → (w.calls c).req.id ≡ u64 (c + 1)
  pub owner :
      (id c : ℕ)
      → lookup id w.pending ≡ some c
      → (c < w.count) × ((w.calls c).req.id ≡ id) × (is_live (w.calls c).stage ≡ true)
  pub buffered : (c : ℕ) (r : RenderResponse) → (w.calls c).resp ≡ some r → Answers w c r
  pub results :
      (c : ℕ) (r : RenderResponse) → result_of (w.calls c).stage ≡ some (ok r) → Answers w c r

new_worker-Inv : Inv new_worker
unfolding new_worker
new_worker-Inv = record {
  next_id_counts = refl;
  ids = λ c h. absurd (omega arith);
  owner = λ id c h. ground (arith, lookup-nil {V = ℕ} id);
  buffered = λ c r h. ground arith;
  results = λ c r h. ground arith;
}

begin-Inv : (r : RenderRequest) (w : Worker) → Inv w → Inv (begin r w)
unfolding begin
begin-Inv r w v = record {
  next_id_counts = ground (arith, v.next_id_counts);
  ids = λ c h. ground (arith, v.ids c, v.next_id_counts);
  owner = λ id c h. ground (arith, v.owner id c);
  buffered = λ c q h. ground (arith, v.buffered c q);
  results = λ c q h. ground (arith, v.results c q);
}

-- A step that sets one call and the map of those in flight.
module _ (c : ℕ) (k : Call) (m : List (ℕ × ℕ)) (l : List RenderRequest) (w : Worker)
    (v : Inv w) where
  abbrev put : Worker
  put = record w { calls = update w.calls c k; pending = m; written = l }

  put-Inv :
      k.req ≡ (w.calls c).req
      → ((id d : ℕ)
          → lookup id m ≡ some d
          → (d < w.count) × ((put.calls d).req.id ≡ id) × (is_live (put.calls d).stage ≡ true))
      → ((r : RenderResponse) → k.resp ≡ some r → Answers w c r)
      → ((r : RenderResponse) → result_of k.stage ≡ some (ok r) → Answers w c r)
      → Inv put
  put-Inv same owned buffer outcome = record {
    next_id_counts = v.next_id_counts;
    ids = λ d h. ground (arith, v.ids d);
    owner = owned;
    buffered = λ d r h. ground (arith, v.buffered d r, buffer r);
    results = λ d r h. ground (arith, v.results d r, outcome r);
  }

register-Inv :
    (c : ℕ) (w : Worker) → (w.calls c).stage ≡ assigned → c < w.count → Inv w → Inv (register c w)
unfolding register
register-Inv c w st lt v =
    put-Inv c (record (w.calls c) { stage = registered }) (insert (w.calls c).req.id c w.pending)
      w.written w v refl
      (λ id d h. ground (arith, v.owner id d, lookup-insert (w.calls c).req.id id c w.pending))
      (v.buffered c) (λ r h. ground arith)

-- A step of a call that is in the map, which leaves the map alone.
stay-Inv :
    (c : ℕ) (k : Call) (l : List RenderRequest) (w : Worker) (v : Inv w)
    → c < w.count
    → k.req ≡ (w.calls c).req
    → is_live k.stage ≡ true
    → ((r : RenderResponse) → k.resp ≡ some r → Answers w c r)
    → ((r : RenderResponse) → result_of k.stage ≡ some (ok r) → Answers w c r)
    → Inv (put c k w.pending l w v)
stay-Inv c k l w v lt same live buffer outcome =
    put-Inv c k w.pending l w v same (λ id d h. ground (arith, v.owner id d)) buffer outcome

write_request-Inv :
    (c : ℕ) (fault : Option Text) (w : Worker) → c < w.count → Inv w → Inv (write_request c fault w)
unfolding write_request
write_request-Inv c none w lt v =
    stay-Inv c (record (w.calls c) { stage = waiting }) ((w.calls c).req ∷ w.written) w v lt refl
      refl (v.buffered c) (λ r h. ground arith)
write_request-Inv c (some e) w lt v =
    stay-Inv c (record (w.calls c) { stage = leaving (failed (write_failed e)) }) w.written w v lt
      refl refl (v.buffered c) (λ r h. ground arith)

fail-Inv :
    (c : ℕ) (f : Failure) (w : Worker)
    → c < w.count
    → Inv w
    → Inv (with_stage w c (leaving (failed f)))
fail-Inv c f w lt v =
    stay-Inv c (record (w.calls c) { stage = leaving (failed f) }) w.written w v lt refl refl
      (v.buffered c) (λ r h. ground arith)

select_resp-Inv :
    (c : ℕ) (resp : Option RenderResponse) (w : Worker) {u : Worker}
    → (w.calls c).resp ≡ resp
    → c < w.count
    → Inv w
    → select_resp c resp w ≡ some u
    → Inv u
unfolding select_resp
select_resp-Inv c none w full lt v e = ground arith
select_resp-Inv c (some q) w full lt v e = subst Inv (some-injective _ _ e) (
    stay-Inv c (record (w.calls c) { resp = none; stage = leaving (ok q) }) w.written w v lt refl
      refl (λ r h. ground arith) (λ r h. ground (arith, v.buffered c r)))

select_done-Inv :
    (c : ℕ) (rd : Reader) (w : Worker) {u : Worker}
    → c < w.count
    → Inv w
    → select_done c rd w ≡ some u
    → Inv u
unfolding select_done
select_done-Inv c exited w lt v e = subst Inv (some-injective _ _ e) (fail-Inv c _ w lt v)
select_done-Inv c _ w lt v e = ground arith

leave-Inv :
    (c : ℕ) (res : Result) (w : Worker)
    → (w.calls c).stage ≡ leaving res
    → c < w.count
    → Inv w
    → Inv (leave c res w)
unfolding leave
leave-Inv c res w st lt v =
    put-Inv c (record (w.calls c) { stage = left res }) (delete (w.calls c).req.id w.pending)
      w.written w v refl
      (λ id d h. ground (arith, v.owner id d, lookup-delete (w.calls c).req.id id w.pending))
      (v.buffered c) (λ r h. ground (arith, v.results c r))

caller_step-Inv :
    (c : ℕ) (st : Stage) (s : CallerStep) (w : Worker) {u : Worker}
    → (w.calls c).stage ≡ st
    → c < w.count
    → Inv w
    → caller_step c st s w ≡ some u
    → Inv u
unfolding caller_step
caller_step-Inv c assigned registers w st lt v e =
    subst Inv (some-injective _ _ e) (register-Inv c w st lt v)
caller_step-Inv c registered (writes x) w st lt v e =
    subst Inv (some-injective _ _ e) (write_request-Inv c x w lt v)
caller_step-Inv c waiting receives w st lt v e = select_resp-Inv c _ w refl lt v e
caller_step-Inv c waiting sees_done w st lt v e = select_done-Inv c _ w lt v e
caller_step-Inv c waiting (cancels x) w st lt v e =
    subst Inv (some-injective _ _ e) (fail-Inv c _ w lt v)
caller_step-Inv c (leaving r) leaves w st lt v e =
    subst Inv (some-injective _ _ e) (leave-Inv c r w st lt v)
caller_step-Inv c _ _ w st lt v e = ground arith

-- drainPending: a call keeps its request and its stage, and gets at most the terminal response.
pub drain_calls_lem :
    (r : RenderResponse) (m : List (ℕ × ℕ)) (h : ℕ → Call) (c : ℕ)
    → (drain_calls r m h c ≡ h c) ⊎ (drain_calls r m h c ≡ send r (h c))
unfolding drain_calls
drain_calls_lem r [] h c = inl refl
drain_calls_lem r ((id, d) ∷ m) h c =
    ground (arith, drain_calls_lem r m (update h d (send r (h d))) c)

dispatch-Inv : (r : RenderResponse) (w : Worker) → Inv w → Inv (dispatch r w)
unfolding dispatch
dispatch-Inv r w v = elim (Option-cases (lookup r.id w.pending)) [
  | inl e ↦ rw (e, dispatch) v
  | inr (c, e) ↦
      rw (e, dispatch)
        (put-Inv c (send r (w.calls c)) w.pending w.written w v refl
          (λ id d h. ground (arith, v.owner id d))
          (λ q h. ground (arith, v.buffered c q, v.owner r.id c e)) (v.results c))
]

drain_pending-Inv :
    (cause : Option Text) (w : Worker) → w.reader ≡ reading → Inv w → Inv (drain_pending cause w)
unfolding drain_pending
drain_pending-Inv cause w live v = record {
  next_id_counts = v.next_id_counts;
  ids = λ c h. ground (arith, v.ids c, drained_call c);
  owner = λ id c h. ground (arith, lookup-nil {V = ℕ} id);
  buffered = λ c r h. ground (arith, v.buffered c r, drained_call c);
  results = λ c r h. ground (arith, v.results c r, drained_call c);
}
  where
    drained_call :
        (c : ℕ)
        → (drain_calls (terminal cause) w.pending w.calls c ≡ w.calls c)
          ⊎ (drain_calls (terminal cause) w.pending w.calls c ≡ send (terminal cause) (w.calls c))
    drained_call c = drain_calls_lem (terminal cause) w.pending w.calls c

exit-Inv : (w : Worker) → w.reader ≡ drained → Inv w → Inv (record w { reader = exited })
exit-Inv w rd v = record {
  next_id_counts = v.next_id_counts;
  ids = v.ids;
  owner = v.owner;
  buffered = λ c r h. ground (arith, v.buffered c r);
  results = λ c r h. ground (arith, v.results c r);
}

read_loop-Inv :
    (rd : Reader) (s : ReaderStep) (w : Worker) {u : Worker}
    → w.reader ≡ rd
    → Inv w
    → read_loop rd s w ≡ some u
    → Inv u
unfolding read_loop
read_loop-Inv reading (reads none) w rd v e = subst Inv (some-injective _ _ e) v
read_loop-Inv reading (reads (some r)) w rd v e =
    subst Inv (some-injective _ _ e) (dispatch-Inv r w v)
read_loop-Inv reading (read_fails cause) w rd v e =
    subst Inv (some-injective _ _ e) (drain_pending-Inv cause w rd v)
read_loop-Inv drained closes_done w rd v e = subst Inv (some-injective _ _ e) (exit-Inv w rd v)
read_loop-Inv _ _ w rd v e = ground arith

pub step-Inv : (e : Event) (w : Worker) {u : Worker} → Inv w → step e w ≡ some u → Inv u
unfolding step
step-Inv (begins r) w v e = subst Inv (some-injective _ _ e) (begin-Inv r w v)
step-Inv (call_steps c s) w v e = elim (Bool-cases (ltb c w.count)) [
  | inl lt ↦ caller_step-Inv c _ s w refl (ltb→lt _ _ lt) v (rw lt at e)
  | inr ge ↦ absurd (ground arith)
]
step-Inv (reader_steps s) w v e = read_loop-Inv _ s w refl v e

pub Reach-Inv : {w : Worker} → Reach w → Inv w
Reach-Inv start = new_worker-Inv
Reach-Inv (next e r p) = step-Inv e _ (Reach-Inv r) p
