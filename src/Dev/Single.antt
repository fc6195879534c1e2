-- ===== src/Dev/Single.antt =====
-- cmd/revelt/dev.go: the runner has at most one server process and never blocks in killProcess.
use revelt.Base.{
  dec_lt, ℕ_discrete, inl, inr, ◌⊎◌, ◌∙◌, ◌≢◌, ap, ℕ, ◌+◌, ◌-◌, ◌≤◌, ◌≡◌, refl, true, false, List,
  [], ◌∷◌, some, arith, Bool-cases,
}
use revelt.Dev.{
  then_rebuild, then_stop, Cmd, no_cmd, unstarted, running, Runner, first_runner, Built,
  build_failed, start_failed, started, Event, watcher_sends, server_exits, context_done, takes_exit,
  takes_restart, notify, process_exits, receive, kill_process, rebuild, step, run,
}

-- The number of servers that `cmd` stands for.
abbrev pub held : Cmd → ℕ
held running = 1
held _ = 0

held_le : (c : Cmd) → held c ≤ 1
held_le running = omega arith
held_le no_cmd = omega arith
held_le unstarted = omega arith

-- `cmd` stands for the one server whose end has not been received, if there is one; no goroutine
-- is blocked, restart is within its buffer, and no server is left when the loop has returned.
pub record IsSingle (r : Runner) : Type 0 where
  pub one : r.waiters + r.exited ≡ held r.cmd
  pub unblocked : r.blocked ≡ 0
  pub buffered : r.restarts ≤ 2
  pub over : r.stopped ≡ true → held r.cmd ≡ 0

Cmd-cases :
    (c : Cmd)
    → (c ≡ running) ⊎ ((held c ≡ 0) × ((r : Runner) → r.cmd ≡ c → kill_process r ≡ some r))
unfolding kill_process
Cmd-cases running = inl refl
Cmd-cases no_cmd = inr (refl, λ r h. ground arith)
Cmd-cases unstarted = inr (refl, λ r h. ground arith)

receive_waiting :
    (r : Runner)
    → r.exited ≡ 0
    → r.waiters ≡ 1
    → receive r ≡ some (record r { waiters = r.waiters - 1 })
unfolding receive
receive_waiting r none_out one_waits = ground arith

receive_buffered :
    (r : Runner)
    → r.exited ≡ 1
    → r.blocked ≡ 0
    → receive r ≡ some (record r { exited = r.exited - 1 })
unfolding receive
receive_buffered r one_out none_blocked = ground arith

kill_running :
    (r r' : Runner)
    → r.cmd ≡ running
    → receive r ≡ some r'
    → kill_process r ≡ some (record r' { cmd = no_cmd })
unfolding kill_process
kill_running r r' runs receives = rw (kill_process, runs, receives) refl

pub kill_process-IsSingle :
    (r : Runner)
    → IsSingle r
    → (r' : Runner) × (kill_process r ≡ some r')
      × IsSingle r'
      × (held r'.cmd ≡ 0)
      × (r'.stopped ≡ r.stopped)
kill_process-IsSingle r s = elim (Cmd-cases r.cmd) [
  | inr (idle, stays) ↦ (r, stays r refl, s, idle, refl)
  | inl runs ↦
      let one : r.waiters + r.exited ≡ 1 = s.one ∙ ap held runs in
      elim (dec_lt 0 r.exited) [
        | yes out ↦ (
          record r { exited = r.exited - 1; cmd = no_cmd },
          kill_running r (record r { exited = r.exited - 1 }) runs
              (receive_buffered r (omega arith) s.unblocked),
          record {
            one = omega arith;
            unblocked = s.unblocked;
            buffered = s.buffered;
            over = λ h. refl;
          },
          refl,
          refl,
        )
        | no waiting ↦ (
          record r { waiters = r.waiters - 1; cmd = no_cmd },
          kill_running r (record r { waiters = r.waiters - 1 }) runs
              (receive_waiting r (omega arith) (omega arith)),
          record {
            one = omega arith;
            unblocked = s.unblocked;
            buffered = s.buffered;
            over = λ h. refl;
          },
          refl,
          refl,
        )
      ]
]

notify-IsSingle : (r : Runner) → IsSingle r → IsSingle (notify r)
unfolding notify
notify-IsSingle r s = record {
  one = ground arith;
  unblocked = ground arith;
  buffered = ground arith;
  over = ground (arith, s.over);
}

process_exits-IsSingle : (r : Runner) → IsSingle r → IsSingle (process_exits r)
unfolding process_exits
process_exits-IsSingle r s =
    let most : held r.cmd ≤ 1 = held_le r.cmd in
    record {
      one = ground arith;
      unblocked = ground arith;
      buffered = ground arith;
      over = ground (arith, s.over);
    }

rebuild-IsSingle :
    (b : Built) (r : Runner)
    → IsSingle r
    → held r.cmd ≡ 0
    → r.stopped ≡ false
    → IsSingle (rebuild b r)
unfolding rebuild
rebuild-IsSingle build_failed r s idle live = s
rebuild-IsSingle start_failed r s idle live = record {
  one = s.one ∙ idle;
  unblocked = s.unblocked;
  buffered = s.buffered;
  over = λ h. refl;
}
rebuild-IsSingle started r s idle live = record {
  one = omega (arith, s.one, idle);
  unblocked = s.unblocked;
  buffered = s.buffered;
  over = λ h. absurd (ground arith);
}

taken-IsSingle :
    (r : Runner)
    → IsSingle r
    → r.exited ≢ 0
    → IsSingle (record r { cmd = no_cmd; exited = r.exited - 1 })
taken-IsSingle r s out =
    let most : held r.cmd ≤ 1 = held_le r.cmd in
    record {
      one = omega (arith, s.one);
      unblocked = s.unblocked;
      buffered = s.buffered;
      over = λ h. refl;
    }

takes_restart_ready :
    (b : Built) (r : Runner)
    → r.restarts ≢ 0
    → step (takes_restart b) r
      ≡ then_rebuild b (kill_process (record r { restarts = r.restarts - 1 }))
unfolding step
takes_restart_ready b r sent = ground arith

pub step-IsSingle :
    (e : Event) (r : Runner)
    → IsSingle r
    → r.stopped ≡ false
    → (r' : Runner) × (step e r ≡ some r') × IsSingle r'
unfolding step
step-IsSingle watcher_sends r s live = (notify r, refl, notify-IsSingle r s)
step-IsSingle server_exits r s live = (process_exits r, refl, process_exits-IsSingle r s)
step-IsSingle context_done r s live =
    let (r', kills, s', idle, same) = kill_process-IsSingle r s in
    (
      record r' { stopped = true },
      ap then_stop kills,
      record { one = s'.one; unblocked = s'.unblocked; buffered = s'.buffered; over = λ h. idle },
    )
step-IsSingle (takes_exit done) r s live = elim (ℕ_discrete r.exited 0) [
  | yes none_out ↦ (r, ground arith, s)
  | no out ↦
      let taken = record r { cmd = no_cmd; exited = r.exited - 1 } in
      let s' = taken-IsSingle r s out in
      elim (Bool-cases done) [
        | inl finished ↦ (taken, ground arith, s')
        | inr restarts ↦ (notify taken, ground arith, notify-IsSingle taken s')
      ]
]
step-IsSingle (takes_restart b) r s live = elim (ℕ_discrete r.restarts 0) [
  | yes none_sent ↦ (r, ground arith, s)
  | no sent ↦
      let q = record r { restarts = r.restarts - 1 } in
      let (r', kills, s', idle, same) =
        kill_process-IsSingle q (record {
          one = s.one;
          unblocked = s.unblocked;
          buffered = omega arith;
          over = s.over;
        }) in
      (
        rebuild b r',
        takes_restart_ready b r sent ∙ ap (then_rebuild b) kills,
        rebuild-IsSingle b r' s' idle (same ∙ live),
      )
]

pub run-step :
    (e : Event) (events : List Event) (r r' : Runner)
    → r.stopped ≡ false
    → step e r ≡ some r'
    → run (e ∷ events) r ≡ run events r'
unfolding run
run-step e events r r' goes_on steps = ground arith

run-IsSingle :
    (events : List Event) (r : Runner)
    → IsSingle r
    → (r' : Runner) × (run events r ≡ some r') × IsSingle r'
unfolding run
run-IsSingle [] r s = (r, refl, s)
run-IsSingle (e ∷ events) r s = elim (Bool-cases r.stopped) [
  | inl over ↦ (r, ground arith, s)
  | inr goes_on ↦
      let (r', steps, s') = step-IsSingle e r s goes_on in
      let (r'', runs, s'') = run-IsSingle events r' s' in
      (r'', run-step e events r r' goes_on steps ∙ runs, s'')
]

pub first-IsSingle : IsSingle first_runner
first-IsSingle = record { one = refl; unblocked = refl; buffered = omega arith; over = λ h. refl }

-- Whatever happens in whatever order, killProcess does not block for ever, so that the loop goes on
-- until the context is done; and `cmd` always stands for the one server process whose end has not
-- been received, if there is one: there are never two.
pub one_server :
    (events : List Event)
    → (r : Runner) × (run events first_runner ≡ some r) × IsSingle r × (r.waiters + r.exited ≤ 1)
one_server events =
    let (r, runs, s) = run-IsSingle events first_runner first-IsSingle in
    (r, runs, s, omega (arith, s.one, held_le r.cmd))
