-- ===== src/Middleware/Ratelimit/Concurrent.antt =====
-- middleware/ratelimit/limiter.go: Manager.Allow by goroutines, one step for each of its critical sections. The buckets
-- stand in a store, behind pointers; the cleanup is left out.
pub mod Shared
use revelt.Base.{
  ℕ, ◌+◌, Bool, true, false, List, [], ◌∷◌, Option, none, some, update, if◌then◌else◌,
}
use revelt.Text.{Text}
use revelt.Config.{assign, find}
use revelt.Middleware.Ratelimit.{Bucket, new_bucket, allow}

-- Where a goroutine is in a call of Allow: before it or behind it, behind the first look that found
-- no bucket, or before bucket.allow.
pub data Stage : Type 0 where
  idle : Stage
  missed : Text → Stage
  holding : Text → ℕ → Stage
  answered : Bool → Stage

pub record State : Type 0 where
  pub buckets : List (Text × ℕ)
  pub store : ℕ → Bucket
  pub next : ℕ
  pub stage : ℕ → Stage

pub data Event : Type 0 where
  looks : ℕ → Text → Event
  creates takes : ℕ → ℕ → Event

module _ (rate capacity : ℕ) where
  abbrev pub initial : State
  initial = record {
    buckets = [];
    store = λ p. new_bucket rate capacity 0;
    next = 0;
    stage = λ g. idle;
  }

  abbrev pub looked : Text → Option ℕ → Stage
  looked key none = missed key
  looked key (some p) = holding key p

  abbrev pub begin : State → ℕ → Text → State
  begin s g key = record s { stage = update s.stage g (looked key (find key s.buckets)) }

  -- The part under RLock, where the goroutine is in no call.
  unfoldable pub look : State → ℕ → Text → State
  unfolding find
  look s g key = elim (s.stage g) [
    | idle ↦ begin s g key
    | answered b ↦ begin s g key
    | missed k ↦ s
    | holding k p ↦ s
  ]

  -- A new bucket at the next pointer.
  abbrev pub created : State → ℕ → Text → ℕ → State
  created s g key now = record {
    buckets = assign key s.next s.buckets;
    store = update s.store s.next (new_bucket rate capacity now);
    next = s.next + 1;
    stage = update s.stage g (holding key s.next);
  }

  -- The part under Lock, with the second look.
  unfoldable pub create : State → ℕ → ℕ → State
  unfolding find assign new_bucket
  create s g now = elim (s.stage g) [
    | missed key ↦ elim (find key s.buckets) [
      | some p ↦ record s { stage = update s.stage g (holding key p) }
      | none ↦ created s g key now
    ]
    | _ ↦ s
  ]

  -- bucket.allow(), under the lock of the bucket.
  unfoldable pub take_token : State → ℕ → ℕ → State
  unfolding allow
  take_token s g now = elim (s.stage g) [
    | holding key p ↦ record s {
      store = update s.store p (allow now (s.store p)).0;
      stage = update s.stage g (answered (allow now (s.store p)).1);
    }
    | _ ↦ s
  ]

  unfoldable pub step : Event → State → State
  unfolding look create take_token
  step (looks g key) s = look s g key
  step (creates g now) s = create s g now
  step (takes g now) s = take_token s g now

  unfoldable pub run : List Event → State → State
  unfolding step
  run [] s = s
  run (e ∷ events) s = run events (step e s)
