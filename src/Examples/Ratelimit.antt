-- ===== src/Examples/Ratelimit.antt =====
-- The rate limiter at concrete inputs: times are in nanoseconds, tokens in billionths.
use revelt.Base.{◌↔◌, ℕ, ◌*◌, ◌≡◌, refl, List, [], ◌∷◌, arith}
use revelt.Config.{find, assign}
use revelt.Text.{text_eq, Text, codes}
use revelt.Middleware.Ratelimit.{
  evict, manager_allow, new_manager, Bucket, Manager, new_bucket, allow, bucket_of, cleanup, unit,
}
use revelt.Middleware.Ratelimit.Bounds.{calls}
use revelt.Middleware.Ratelimit.Credit.{Event, asks, cleans, permitted_of}
use revelt.Middleware.Ratelimit.Concurrent.{
  Event as Interleaved, looks, creates, run, step, look, create,
}
use revelt.Middleware.Ratelimit.Concurrent.Shared.{shared_bucket}
use revelt.Middleware.Ratelimit.Cleanup.{cleanup_unobserved}

abbrev second : ℕ
second = 1_000_000_000

-- Two requests a second, three at once.
abbrev three : Bucket
three = new_bucket 2 (3 * unit) second

abbrev times : List ℕ
times = second ∷ second ∷ second ∷ second ∷ 2 * second ∷ []

abbrev used : Bucket
used = record { rate = 2; capacity = 3 * unit; tokens = unit; last_refill = second }

abbrev manager : Manager
manager = record {
  buckets = (codes "10.0.0.1", used) ∷ [];
  rate = 2;
  capacity = 3 * unit;
  expiration = 60 * second;
}

-- Four of the five calls are allowed.
times_allowed : (calls three times).1 ≡ 4
unfolding calls allow new_bucket
times_allowed = refl

cleanup_unobserved_example :
    allow
      (100 * second)
      (bucket_of (100 * second) (codes "10.0.0.1") (cleanup (90 * second) manager))
    ≡ allow (100 * second) (bucket_of (100 * second) (codes "10.0.0.1") manager)
cleanup_unobserved_example =
    cleanup_unobserved (90 * second) (100 * second) (codes "10.0.0.1") manager (tt, refl, refl, tt)
      (ground arith) (ground arith)

abbrev client : Text
client = codes "10.0.0.1"

abbrev visits : List (ℕ × Event)
visits =
    (0, asks client)
    ∷ (0, asks client)
    ∷ (0, asks (codes "10.0.0.2"))
    ∷ (0, asks client)
    ∷ (0, asks client)
    ∷ (2 * second, cleans)
    ∷ (2 * second, asks client)
    ∷ (2 * second, asks client)
    ∷ (2 * second, asks client)
    ∷ []

-- Five of the seven calls are permitted, and six where the expiration is too short for a bucket to
-- fill up: one more than the capacity and the two seconds allow.
visits_permitted : permitted_of client (new_manager 1 (3 * unit) (3 * second)) visits ≡ 5
unfolding permitted_of manager_allow cleanup evict bucket_of allow new_bucket find assign text_eq
visits_permitted = refl

visits_after_eviction : permitted_of client (new_manager 1 (3 * unit) second) visits ≡ 6
unfolding permitted_of manager_allow cleanup evict bucket_of allow new_bucket find assign text_eq
visits_after_eviction = refl

-- Two goroutines look for the same key before either has made its bucket.
abbrev race : List Interleaved
race = looks 0 client ∷ looks 1 client ∷ creates 1 5 ∷ creates 0 6 ∷ []

shared_bucket_example : (client ≡ client) ↔ (◌≡◌ {A = ℕ} 0 0)
unfolding run step look create find assign text_eq
shared_bucket_example = shared_bucket 1 (3 * unit) race 0 1 client client 0 0 refl refl
