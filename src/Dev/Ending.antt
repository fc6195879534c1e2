-- ===== src/Dev/Ending.antt =====
-- cmd/revelt/dev.go: runGoWithRestart returns when the context is done, and leaves no server behind.
use revelt.Base.{
  inl, inr, ◌∙◌, ap, ◌+◌, ◌≡◌, refl, true, List, [], ◌∷◌, ◌++◌, some, arith, Bool-cases,
}
use revelt.Dev.{then_stop, Runner, first_runner, Event, context_done, step, run}
use revelt.Dev.Single.{IsSingle, kill_process-IsSingle, step-IsSingle, run-step, first-IsSingle}

run_stopped : (events : List Event) (r : Runner) → r.stopped ≡ true → run events r ≡ some r
unfolding run
run_stopped [] r over = refl
run_stopped (e ∷ events) r over = ground arith

-- What is left when the loop has returned.
IsLeft : Runner → Type 0
IsLeft r = (r.stopped ≡ true) × (r.waiters + r.exited ≡ 0) × (r.blocked ≡ 0)

IsLeft-over : (r : Runner) → IsSingle r → r.stopped ≡ true → IsLeft r
unfolding IsLeft
IsLeft-over r s over = (over, s.one ∙ s.over over, s.unblocked)

-- The case of the context, in a loop that has not returned.
context_done-stops :
    (r : Runner)
    → IsSingle r
    → (r' : Runner) × (step context_done r ≡ some r') × IsSingle r' × (r'.stopped ≡ true)
unfolding step
context_done-stops r s =
    let (r', kills, s', idle, same) = kill_process-IsSingle r s in
    (
      record r' { stopped = true },
      ap then_stop kills,
      record { one = s'.one; unblocked = s'.unblocked; buffered = s'.buffered; over = λ h. idle },
      refl,
    )

ends-IsLeft :
    (events later : List Event) (r : Runner)
    → IsSingle r
    → (r' : Runner) × (run (events ++ context_done ∷ later) r ≡ some r') × IsLeft r'
ends-IsLeft [] later r s = elim (Bool-cases r.stopped) [
  | inl over ↦ (r, run_stopped (context_done ∷ later) r over, IsLeft-over r s over)
  | inr live ↦
      let (r', steps, s', over) = context_done-stops r s in
      (
        r',
        run-step context_done later r r' live steps ∙ run_stopped later r' over,
        IsLeft-over r' s' over,
      )
]
ends-IsLeft (e ∷ events) later r s = elim (Bool-cases r.stopped) [
  | inl over ↦ (r, run_stopped (e ∷ (events ++ context_done ∷ later)) r over, IsLeft-over r s over)
  | inr live ↦
      let (r', steps, s') = step-IsSingle e r s live in
      let (r'', runs, left) = ends-IsLeft events later r' s' in
      (r'', run-step e (events ++ context_done ∷ later) r r' live steps ∙ runs, left)
]

-- Once the context is done and its case is taken, the loop has returned, whatever happened before
-- and whatever comes later, and no server process is left, nor a goroutine that waits for one.
pub context_done_ends :
    (events later : List Event)
    → (r : Runner) × (run (events ++ context_done ∷ later) first_runner ≡ some r)
      × (r.stopped ≡ true)
      × (r.waiters + r.exited ≡ 0)
      × (r.blocked ≡ 0)
unfolding IsLeft
context_done_ends events later =
    let (r, runs, left) = ends-IsLeft events later first_runner first-IsSingle in
    (r, runs, left.0, left.1, left.2)
