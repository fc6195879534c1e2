-- ===== src/Middleware/Ratelimit.antt =====
-- middleware/ratelimit: limiter.go and ratelimit.go. The float64 amounts of tokens are counted in
-- billionths, the times in nanoseconds, and the rate is a whole number of tokens a second: then
-- elapsed * rate is exact.
pub mod Bounds
pub mod Keys
pub mod Cleanup
pub mod Construction
pub mod Concurrent
pub mod Quota
pub mod Credit
use revelt.Base.{
  ℕ, ◌+◌, ◌-◌, ◌*◌, Bool, true, false, List, [], ◌∷◌, Option, none, some, ltb, leb, if◌then◌else◌,
}
use revelt.Text.{Text, codes, text_eq}
use revelt.Config.{assign, find}
use revelt.Http.{Request, Headers, Handler, Action, write_header, write, Outcome, returned}

pub record Bucket : Type 0 where
  pub rate : ℕ
  pub capacity : ℕ
  pub tokens : ℕ
  pub last_refill : ℕ

-- One token.
abbrev pub unit : ℕ
unit = 1_000_000_000

unfoldable pub new_bucket : ℕ → ℕ → ℕ → Bucket
new_bucket rate capacity now = record {
  rate = rate;
  capacity = capacity;
  tokens = capacity;
  last_refill = now;
}

-- The refill of allow, capped, in exact arithmetic: the source multiplies and adds in float64.
unfoldable pub refill : ℕ → Bucket → Bucket
refill now b =
    let total = b.tokens + (now - b.last_refill) * b.rate in
    record b { tokens = if ltb b.capacity total then b.capacity else total; last_refill = now }

take_one : Bucket → Bucket × Bool
take_one b = if leb unit b.tokens then (record b { tokens = b.tokens - unit }, true) else (b, false)

unfoldable pub allow : ℕ → Bucket → Bucket × Bool
unfolding refill take_one
allow now b = take_one (refill now b)

pub record Manager : Type 0 where
  pub buckets : List (Text × Bucket)
  pub rate : ℕ
  pub capacity : ℕ
  pub expiration : ℕ

-- NewManager, without its goroutine.
abbrev pub new_manager : ℕ → ℕ → ℕ → Manager
new_manager rate capacity expiration = record {
  buckets = [];
  rate = rate;
  capacity = capacity;
  expiration = expiration;
}

-- The bucket of a key, a new one where there is none.
unfoldable pub bucket_of : ℕ → Text → Manager → Bucket
unfolding find new_bucket
bucket_of now key m = elim (find key m.buckets) [
  | some b ↦ b
  | none ↦ new_bucket m.rate m.capacity now
]

-- Manager.Allow, with no other goroutine between its parts.
unfoldable pub manager_allow : ℕ → Text → Manager → Manager × Bool
unfolding bucket_of allow assign
manager_allow now key m =
    let (b, permitted) = allow now (bucket_of now key m) in
    (record m { buckets = assign key b m.buckets }, permitted)

-- The loop of cleanup: an idle bucket is deleted.
unfoldable pub evict : ℕ → ℕ → List (Text × Bucket) → List (Text × Bucket)
evict now expiration [] = []
evict now expiration ((key, b) ∷ bs) =
    let rest = evict now expiration bs in
    if ltb expiration (now - b.last_refill) then rest else (key, b) ∷ rest

unfoldable pub cleanup : ℕ → Manager → Manager
unfolding evict
cleanup now m = record m { buckets = evict now m.expiration m.buckets }

abbrev pub too_many : List Action
too_many = write_header 429 ∷ write (codes "Too Many Requests") ∷ []

-- The middleware of New with the default error handler; `key` is KeyFunc.
unfoldable pub rate_limit :
    (Request → Text) → Handler → ℕ → Manager → Request → Headers → Manager × (List Action × Outcome)
unfolding manager_allow
rate_limit key next now m r h =
    let (m', permitted) = manager_allow now (key r) m in
    (m', if permitted then next r h else (too_many, returned none))
