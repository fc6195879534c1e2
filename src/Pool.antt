-- ===== src/Pool.antt =====
-- pool.go: the ring of workers, over whatever a worker is.
pub mod Lifecycle
pub mod Replace
pub mod RoundRobin
use revelt.Base.{
  ℕ, zero, suc, ◌+◌, ◌%◌, ◌^◌, ◌≡◌, ◌<◌, String, Bool, List, [], ◌∷◌, ◌++◌, Option, none, some,
  length, get_elem?, set, if◌then◌else◌, ◌==◌, leb,
}

-- An int: `negsuc n` is -(n + 1).
pub data ℤ : Type 0 where
  pos negsuc : ℕ → ℤ

-- What the pool asks of a worker at one moment (worker.go: alive, close, stderr).
pub record Workers (W : Type 0) : Type 0 where
  pub alive : W → Bool
  pub close : W → Option String
  pub stderr : W → String

-- newWorker, which starts a process or fails to.
pub data Spawn (W : Type 0) : Type 0 where
  started : W → Spawn W
  not_started : String → Spawn W

-- `spawns` counts the calls of newWorker; `size` is len(workers).
pub record Pool (W : Type 0) : Type 0 where
  pub workers : List W
  pub cursor : ℕ
  pub size : ℕ
  pub spawns : ℕ

pub record IsValid {W : Type 0} (p : Pool W) : Type 0 where
  pub sized : length p.workers ≡ p.size
  pub nonempty : 0 < p.size
  pub wide : p.size < 2 ^ 63

-- renderer.go: WorkerStat.
pub record WorkerStat : Type 0 where
  pub index : ℕ
  pub is_alive : Bool
  pub stderr : String

-- firstErr, with the index of the worker that gave it.
abbrev pub note : ℕ → Option String → Option (ℕ × String) → Option (ℕ × String)
note i err (some first) = some first
note i none none = none
note i (some e) none = some (i, e)

pub data NewPool (W : Type 0) : Type 0 where
  made : Pool W → NewPool W
  bad_size : NewPool W
  -- The index and error of the worker that did not start, and the workers that were closed.
  start_failed : ℕ → String → List W → NewPool W

pub data Acquired (W : Type 0) : Type 0 where
  got : W → Acquired W
  not_replaced : ℕ → String → Acquired W
  -- An index out of range, which panics.
  out_of_range : Acquired W

module _ {W : Type 0} (api : Workers W) where
  -- The loop of closeRange from index `i`: the first error, and the workers closed so far.
  unfoldable pub close_loop :
      ℕ → List W → Option (ℕ × String) → List W → Option (ℕ × String) × List W
  close_loop i [] first log = (first, log)
  close_loop i (w ∷ ws) first log =
      close_loop (i + 1) ws (note i (api.close w) first) (log ++ w ∷ [])

  -- closeRange(0, len(ws)).
  unfoldable pub close_range : List W → Option (ℕ × String) × List W
  unfolding close_loop
  close_range ws = close_loop 0 ws none []

  unfoldable pub close : Pool W → Option (ℕ × String) × List W
  unfolding close_range
  close p = close_range p.workers

  unfoldable pub stats_loop : ℕ → List W → List WorkerStat
  stats_loop i [] = []
  stats_loop i (w ∷ ws) =
      record { index = i; is_alive = api.alive w; stderr = api.stderr w } ∷ stats_loop (i + 1) ws

  unfoldable pub stats : Pool W → List WorkerStat
  unfolding stats_loop
  stats p = stats_loop 0 p.workers

  module _ (spawn : ℕ → Spawn W) where
    -- The loop of newPool: `n` workers are still to start, the next one being worker `i`.
    unfoldable pub start_loop : ℕ → ℕ → List W → NewPool W
    unfolding close_range
    start_loop zero i ws = made (record { workers = ws; cursor = 0; size = i; spawns = i })
    start_loop (suc n) i ws = elim (spawn i) [
      | started w ↦ start_loop n (i + 1) (ws ++ w ∷ [])
      | not_started e ↦ start_failed i e (close_range ws).1
    ]

    unfoldable pub new_pool : ℤ → NewPool W
    unfolding start_loop
    new_pool (negsuc n) = bad_size
    new_pool (pos zero) = bad_size
    new_pool (pos (suc n)) = start_loop (suc n) 0 []

    -- The slow path of workerAt, under the write lock: look again, then replace.
    unfoldable pub replace : ℕ → Pool W → Pool W × Acquired W
    replace idx p = elim (get_elem? p.workers idx) [
      | none ↦ (p, out_of_range)
      | some w ↦ if api.alive w then (p, got w) else elim (spawn p.spawns) [
        | started v ↦ (record p { workers = set p.workers idx v; spawns = p.spawns + 1 }, got v)
        | not_started e ↦ (record p { spawns = p.spawns + 1 }, not_replaced idx e)
      ]
    ]

-- The fast path of workerAt, under the read lock.
unfoldable pub fast : {W : Type 0} → Workers W → ℕ → Pool W → Option (Acquired W)
fast api idx p = elim (get_elem? p.workers idx) [
  | none ↦ some out_of_range
  | some w ↦ if api.alive w then some (got w) else none
]

abbrev pub u64 : ℕ → ℕ
u64 n = n % 2 ^ 64

-- p.cursor.Add(1) % p.size
unfoldable pub pick : {W : Type 0} → Pool W → ℕ × Pool W
pick p = (u64 (p.cursor + 1) % p.size, record p { cursor = u64 (p.cursor + 1) })
