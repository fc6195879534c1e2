-- ===== src/Examples/Pool.antt =====
-- pool.go at concrete inputs: workers are numbers, the even ones alive.
use revelt.Base.{ℕ, ◌+◌, ◌%◌, ◌≡◌, ◌<◌, refl, [], ◌∷◌, none, some, arith, ◌==◌, if◌then◌else◌}
use revelt.Pool.{
  Pool, pos, Workers, Spawn, started, not_started, IsValid, NewPool, new_pool, pick, replace,
}
use revelt.Pool.Lifecycle.{Outcome, new_pool-Outcome}
use revelt.Pool.Replace.{Effect, replace-Effect}
use revelt.Pool.RoundRobin.{pick_times, round_robin}

abbrev api : Workers ℕ
api = record {
  alive = λ w. w % 2 == 0;
  close = λ w. if w == 7 then some "signal: killed" else none;
  stderr = λ w. "";
}

-- The starts give 10, 12, 14, … , and the start with number 5 fails.
abbrev spawn : ℕ → Spawn ℕ
spawn n = if n == 5 then not_started "exec: node not found" else started (10 + n + n)

abbrev ring : Pool ℕ
ring = record { workers = 10 ∷ 7 ∷ 14 ∷ []; cursor = 4; size = 3; spawns = 3 }

ring-IsValid : IsValid ring
ring-IsValid = record { sized = refl; nonempty = omega arith; wide = omega arith }

new_pool-Outcome_example : Outcome api spawn (pos 6) (new_pool api spawn (pos 6))
new_pool-Outcome_example = new_pool-Outcome api spawn (pos 6)

-- The sixth worker does not start, and the five before it are closed.
new_pool_fails :
    new_pool api spawn (pos 6)
    ≡ NewPool.start_failed 5 "exec: node not found" (10 ∷ 12 ∷ 14 ∷ 16 ∷ 18 ∷ [])
unfolding new_pool
new_pool_fails = refl

round_robin_example :
    (k : ℕ) × (k < 3)
    × ((pick (pick_times k ring)).0 ≡ 1)
    × ((j : ℕ) → j < 3 → (pick (pick_times j ring)).0 ≡ 1 → j ≡ k)
round_robin_example = round_robin ring 1 (omega arith) (omega arith)

replace-Effect_example :
    Effect api spawn 1 ring (replace api spawn 1 ring).0 (replace api spawn 1 ring).1
replace-Effect_example = replace-Effect api spawn 1 ring ring-IsValid (omega arith)
