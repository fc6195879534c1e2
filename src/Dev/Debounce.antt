-- ===== src/Dev/Debounce.antt =====
-- cmd/revelt/dev.go: the debounce of the watching loops.
use revelt.Base.{
  inr, inl, ℕ, ◌-◌, ◌≡◌, refl, ap, ◌∙◌, true, false, leb, List, [], ◌∷◌, All, arith, if◌then◌else◌,
  Bool-cases,
}
use revelt.Dev.{
  Snapshot, Watcher, Sending, not_due, sent, dropped, try_send, restart_debounce, has_file_changed,
  observe, settle, tick,
}

-- A tick: its time, how many restarts are in the channel's buffer then, and what is found.
pub record Tick : Type 0 where
  pub now : ℕ
  pub queued : ℕ
  pub current : Snapshot

-- The sends that some ticks attempt, each as it went.
abbrev note : Sending → List Sending → List Sending
note not_due rest = rest
note sent rest = sent ∷ rest
note dropped rest = dropped ∷ rest

unfoldable pub sends : List Tick → Watcher → List Sending
sends [] w = []
sends (t ∷ ticks) w = let (w', s) = tick t.now t.queued t.current w in note s (sends ticks w')

-- A tick that finds what was found before.
abbrev pub IsQuiet : Snapshot → Tick → Type 0
IsQuiet found t = has_file_changed found t.current ≡ false

-- At the first of the ticks that comes late enough after a change, if there is one: a send, which goes
-- through unless two restarts wait in the buffer already.
abbrev pub expected : ℕ → List Tick → List Sending
expected change [] = []
expected change (t ∷ ticks) =
    if leb restart_debounce (t.now - change)
    then (if leb 2 t.queued then dropped ∷ [] else sent ∷ [])
    else expected change ticks

tick-IsQuiet :
    (t : Tick) (w : Watcher)
    → IsQuiet w.snapshot t
    → tick t.now t.queued t.current w ≡ settle t.now t.queued w
unfolding tick observe
tick-IsQuiet t w quiet = rw (quiet) refl

settle_idle :
    (now queued : ℕ) (w : Watcher) → w.pending_restart ≡ false → settle now queued w ≡ (w, not_due)
unfolding settle
settle_idle now queued w idle = ground arith

settle_late :
    (now queued : ℕ) (w : Watcher)
    → w.pending_restart ≡ true
    → leb restart_debounce (now - w.last_change) ≡ true
    → settle now queued w ≡ (record w { pending_restart = false }, try_send queued)
unfolding settle
settle_late now queued w pending late = ground arith

settle_early :
    (now queued : ℕ) (w : Watcher)
    → leb restart_debounce (now - w.last_change) ≡ false
    → settle now queued w ≡ (w, not_due)
unfolding settle
settle_early now queued w early = ground arith

note-try_send :
    (queued : ℕ) → note (try_send queued) [] ≡ (if leb 2 queued then dropped ∷ [] else sent ∷ [])
unfolding try_send
note-try_send queued = ground arith

tick-changed :
    (t : Tick) (w : Watcher)
    → has_file_changed w.snapshot t.current ≡ true
    → tick t.now t.queued t.current w
      ≡ (record { snapshot = t.current; pending_restart = true; last_change = t.now }, not_due)
unfolding tick observe settle
tick-changed t w changed = ground arith

sends-idle :
    (ticks : List Tick) (w : Watcher)
    → w.pending_restart ≡ false
    → All (IsQuiet w.snapshot) ticks
    → sends ticks w ≡ []
unfolding sends
sends-idle [] w idle quiet = refl
sends-idle (t ∷ ticks) w idle quiet =
    let still = tick-IsQuiet t w quiet.0 ∙ settle_idle t.now t.queued w idle in
    ap (λ out. note out.1 (sends ticks out.0)) still ∙ sends-idle ticks w idle quiet.1

sends-pending :
    (ticks : List Tick) (w : Watcher)
    → w.pending_restart ≡ true
    → All (IsQuiet w.snapshot) ticks
    → sends ticks w ≡ expected w.last_change ticks
unfolding sends
sends-pending [] w pending quiet = refl
sends-pending (t ∷ ticks) w pending quiet =
    elim (Bool-cases (leb restart_debounce (t.now - w.last_change))) [
      | inl late ↦ rw (late) (
          ap (λ out. note out.1 (sends ticks out.0))
            (tick-IsQuiet t w quiet.0 ∙ settle_late t.now t.queued w pending late)
          ∙ ap (note (try_send t.queued))
              (sends-idle ticks (record w { pending_restart = false }) refl quiet.1)
          ∙ note-try_send t.queued)
      | inr early ↦ rw (early) (
          ap (λ out. note out.1 (sends ticks out.0))
            (tick-IsQuiet t w quiet.0 ∙ settle_early t.now t.queued w early)
          ∙ sends-pending ticks w pending quiet.1)
    ]

-- After a tick that finds a change, as long as the next ticks find no other, one restart is attempted,
-- at the first of them that comes at least the debounce time after the change; none is attempted
-- before, at the change itself, or later. The restart is sent unless the channel's buffer of two is
-- full then, in which case it is dropped, behind two that wait.
pub change_restarts_once :
    (t : Tick) (ticks : List Tick) (w : Watcher)
    → has_file_changed w.snapshot t.current ≡ true
    → All (IsQuiet t.current) ticks
    → sends (t ∷ ticks) w ≡ expected t.now ticks
unfolding sends
change_restarts_once t ticks w changed quiet =
    ap (λ out. note out.1 (sends ticks out.0)) (tick-changed t w changed)
    ∙ sends-pending ticks
        (record { snapshot = t.current; pending_restart = true; last_change = t.now }) refl quiet
