-- ===== src/Worker/Held.antt =====
-- worker.go: while the reader runs, every call between its registration and its deferred delete is
-- found in the map under its own id. This needs the ids distinct: fewer than 2^64 calls.
use mathlib.Core.Option.{some-injective}
use mathlib.Core.Path.{subst}
use revelt.Base.{
  ℕ, ◌+◌, ◌^◌, ◌<◌, ◌≤◌, ◌≡◌, ◌≢◌, ◌∙◌, refl, sym, ap, inl, inr, true, List, ◌∷◌, Option, none,
  some, arith, ltb, update, Option-cases, Bool-cases, ltb→lt, lookup, lookup-insert, lookup-delete,
}
use revelt.Text.{Text}
use revelt.Protocol.{RenderRequest, RenderResponse}
use revelt.Worker.{
  Worker, Call, Stage, Result, Reader, Event, CallerStep, ReaderStep, Reach, assigned, registered,
  waiting, leaving, reading, drained, exited, begins, call_steps, reader_steps, registers, writes,
  receives, sees_done, cancels, leaves, reads, read_fails, closes_done, start, next, u64, begin,
  register, write_request, leave, select_resp, select_done, dispatch, drain_pending, caller_step,
  read_loop, step, new_worker,
}
use revelt.Worker.Invariant.{Inv, is_live, Reach-Inv}

abbrev pub Held : Worker → Type 0
Held w =
    w.reader ≡ reading
    → (c : ℕ) → c < w.count
    → is_live (w.calls c).stage ≡ true
    → lookup (w.calls c).req.id w.pending ≡ some c

id_mod : (c d n : ℕ) → n < 2 ^ 64 → c < n → d < n → u64 (c + 1) ≡ u64 (d + 1) → c ≡ d
id_mod c d n b lc ld e = omega arith

-- Ids of different calls differ.
pub ids_distinct :
    (w : Worker) (c d : ℕ)
    → Inv w
    → w.count < 2 ^ 64
    → c < w.count
    → d < w.count
    → (w.calls c).req.id ≡ (w.calls d).req.id
    → c ≡ d
ids_distinct w c d v b lc ld e = id_mod c d w.count b lc ld (sym (v.ids c lc) ∙ e ∙ v.ids d ld)

-- A step that sets call `c` to `k` and the map to `m`.
put-Held :
    (c : ℕ) (k : Call) (m : List (ℕ × ℕ)) (l : List RenderRequest) (w : Worker)
    → Held w
    → k.req ≡ (w.calls c).req
    → (is_live k.stage ≡ true → lookup (w.calls c).req.id m ≡ some c)
    → ((d : ℕ)
        → d < w.count
        → d ≢ c
        → lookup (w.calls d).req.id m ≡ lookup (w.calls d).req.id w.pending)
    → Held (record w { calls = update w.calls c k; pending = m; written = l })
put-Held c k m l w h same own others rd d ld live = ground (arith, h rd d ld, others d ld)

-- A step that leaves the map alone, of a call that stays in it.
stay-Held :
    (c : ℕ) (k : Call) (l : List RenderRequest) (w : Worker)
    → Held w
    → c < w.count
    → is_live (w.calls c).stage ≡ true
    → k.req ≡ (w.calls c).req
    → Held (record w { calls = update w.calls c k; written = l })
stay-Held c k l w h lt live same rd d ld = ground (arith, h rd d ld, h rd c lt live)

module _ (c : ℕ) (w : Worker) (b : w.count < 2 ^ 64) (lt : c < w.count) (v : Inv w)
    (h : Held w) where
  distinct : (d : ℕ) → d < w.count → d ≢ c → (w.calls c).req.id ≢ (w.calls d).req.id
  distinct d ld ne e = ne (sym (ids_distinct w c d v b lt ld e))

  register-Held : Held (register c w)
  unfolding register
  register-Held =
      put-Held c _ _ w.written w h refl
        (λ _. ground (arith, lookup-insert (w.calls c).req.id (w.calls c).req.id c w.pending))
        (λ d ld ne. ground (
          arith,
          distinct d ld ne,
          lookup-insert (w.calls c).req.id (w.calls d).req.id c w.pending,
        ))

  leave-Held : (r : Result) → Held (leave c r w)
  unfolding leave
  leave-Held r =
      put-Held c _ _ w.written w h refl (λ live. ground arith)
        (λ d ld ne.
          ground (
            arith,
            distinct d ld ne,
            lookup-delete (w.calls c).req.id (w.calls d).req.id w.pending,
          ))

  write_request-Held :
      (fault : Option Text) → is_live (w.calls c).stage ≡ true → Held (write_request c fault w)
  unfolding write_request
  write_request-Held none live = stay-Held c _ ((w.calls c).req ∷ w.written) w h lt live refl
  write_request-Held (some e) live = stay-Held c _ w.written w h lt live refl

  select_resp-Held :
      (resp : Option RenderResponse) {u : Worker}
      → is_live (w.calls c).stage ≡ true
      → select_resp c resp w ≡ some u
      → Held u
  unfolding select_resp
  select_resp-Held none live e = ground arith
  select_resp-Held (some r) live e =
      subst Held (some-injective _ _ e) (stay-Held c _ w.written w h lt live refl)

  select_done-Held :
      (rd : Reader) {u : Worker}
      → is_live (w.calls c).stage ≡ true
      → select_done c rd w ≡ some u
      → Held u
  unfolding select_done
  select_done-Held exited live e =
      subst Held (some-injective _ _ e) (stay-Held c _ w.written w h lt live refl)
  select_done-Held _ live e = ground arith

  caller_step-Held :
      (st : Stage) (s : CallerStep) {u : Worker}
      → (w.calls c).stage ≡ st
      → caller_step c st s w ≡ some u
      → Held u
  unfolding caller_step
  caller_step-Held assigned registers st e = subst Held (some-injective _ _ e) register-Held
  caller_step-Held registered (writes x) st e =
      subst Held (some-injective _ _ e) (write_request-Held x (ap is_live st))
  caller_step-Held waiting receives st e = select_resp-Held _ (ap is_live st) e
  caller_step-Held waiting sees_done st e = select_done-Held _ (ap is_live st) e
  caller_step-Held waiting (cancels x) st e =
      subst Held (some-injective _ _ e) (stay-Held c _ w.written w h lt (ap is_live st) refl)
  caller_step-Held (leaving r) leaves st e = subst Held (some-injective _ _ e) (leave-Held r)
  caller_step-Held _ _ st e = ground arith

begin-Held : (r : RenderRequest) (w : Worker) → Held w → Held (begin r w)
unfolding begin
begin-Held r w h rd c lt live = ground (arith, h rd c)

dispatch-Held : (r : RenderResponse) (w : Worker) → Held w → Held (dispatch r w)
unfolding dispatch
dispatch-Held r w h = elim (Option-cases (lookup r.id w.pending)) [
  | inl e ↦ rw (e, dispatch) h
  | inr (c, e) ↦ rw (e, dispatch) (λ rd d ld live. ground (arith, h rd d ld))
]

drain_pending-Held : (cause : Option Text) (w : Worker) → Held (drain_pending cause w)
unfolding drain_pending
drain_pending-Held cause w rd c lt live = absurd (ground arith)

read_loop-Held :
    (rd : Reader) (s : ReaderStep) (w : Worker) {u : Worker}
    → Held w
    → read_loop rd s w ≡ some u
    → Held u
unfolding read_loop
read_loop-Held reading (reads none) w h e = subst Held (some-injective _ _ e) h
read_loop-Held reading (reads (some r)) w h e =
    subst Held (some-injective _ _ e) (dispatch-Held r w h)
read_loop-Held reading (read_fails x) w h e =
    subst Held (some-injective _ _ e) (drain_pending-Held x w)
read_loop-Held drained closes_done w h e =
    subst Held (some-injective _ _ e) (λ rd c lt live. absurd (ground arith))
read_loop-Held _ _ w h e = ground arith

-- No step forgets a call.
count-step : (e : Event) (w : Worker) {u : Worker} → step e w ≡ some u → w.count ≤ u.count
unfolding step caller_step read_loop begin register write_request select_resp select_done leave
    dispatch drain_pending
count-step e w p = ground arith

step-Held :
    (e : Event) (w : Worker) {u : Worker}
    → u.count < 2 ^ 64
    → Inv w
    → Held w
    → step e w ≡ some u
    → Held u
unfolding step
step-Held (begins r) w b v h e = subst Held (some-injective _ _ e) (begin-Held r w h)
step-Held (call_steps c s) w b v h e = elim (Bool-cases (ltb c w.count)) [
  | inl lt ↦
      caller_step-Held c w (omega (arith, count-step (call_steps c s) w e)) (ltb→lt _ _ lt) v h _ s
        refl (rw lt at e)
  | inr ge ↦ ground arith
]
step-Held (reader_steps s) w b v h e = read_loop-Held _ s w h e

pub Reach-Held : {w : Worker} → Reach w → w.count < 2 ^ 64 → Held w
unfolding new_worker
Reach-Held start b = λ rd c lt live. absurd (omega arith)
Reach-Held (next {v = v} e r p) b =
    step-Held e v b (Reach-Inv r) (Reach-Held r (omega (arith, count-step e v p))) p
