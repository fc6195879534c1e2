-- ===== src/Middleware/Ratelimit/Bounds.antt =====
-- middleware/ratelimit/limiter.go: how many calls a bucket allows.
use revelt.Base.{
  ℕ, suc, ◌+◌, ◌-◌, ◌*◌, ◌≤◌, ◌≡◌, Bool, true, false, List, [], ◌∷◌, arith, if◌then◌else◌,
}
use mathlib.Core.Path.{subst}
use revelt.Middleware.Ratelimit.{Bucket, new_bucket, allow, unit}

-- The calls of allow at these times: the bucket after them, and how many were allowed.
unfoldable pub calls : Bucket → List ℕ → Bucket × ℕ
calls b [] = (b, 0)
calls b (now ∷ times) =
    let (b', permitted) = allow now b in
    let (b'', n) = calls b' times in (b'', if permitted then suc n else n)

-- Times that do not go back, from `start` on.
abbrev pub Ordered : ℕ → List ℕ → Type 0
Ordered start [] = Unit {0}
Ordered start (t ∷ times) = (start ≤ t) × Ordered t times

pub mul_elapsed : (last now rate : ℕ) → last ≤ now → (now - last) * rate + last * rate ≡ now * rate
mul_elapsed last now rate h = grind arith

-- What one call spends and keeps is within what was there and what the time added.
pub allow_budget :
    (now : ℕ) (b : Bucket)
    → b.last_refill ≤ now
    → let (b', permitted) = allow now b in
      ((if permitted then unit else 0) + b'.tokens + b.last_refill * b.rate
        ≤ b.tokens + b'.last_refill * b.rate)
      × (b'.rate ≡ b.rate)
      × (b'.last_refill ≡ now)
unfolding allow
allow_budget now b h = ground (arith, mul_elapsed b.last_refill now b.rate h)

pub chain_budgets :
    (permitted : Bool) (n before between after start mid end : ℕ)
    → ((if permitted then unit else 0) + between + start ≤ before + mid)
    → n * unit + after + mid ≤ between + end
    → (if permitted then suc n else n) * unit + after + start ≤ before + end
chain_budgets true n before between after start mid end p q = omega arith
chain_budgets false n before between after start mid end p q = omega arith

calls_budget :
    (b : Bucket) (times : List ℕ)
    → Ordered b.last_refill times
    → ((calls b times).1 * unit + (calls b times).0.tokens + b.last_refill * b.rate
        ≤ b.tokens + (calls b times).0.last_refill * b.rate)
unfolding calls
calls_budget b [] h = omega arith
calls_budget b (now ∷ times) h =
    let b' = (allow now b).0 in
    let (one, same_rate, refilled) = allow_budget now b h.0 in
    let rest = calls_budget b' times (rw (refilled) h.1) in
    chain_budgets (allow now b).1 (calls b' times).1 _ _ _ _ _ _ one (
      subst
        (λ r.
          (calls b' times).1 * unit + (calls b' times).0.tokens + b'.last_refill * r
          ≤ b'.tokens + (calls b' times).0.last_refill * r)
        same_rate rest)

-- From a full bucket, the calls allowed by time t spend at most the capacity and what the rate
-- adds until then, however the calls fall.
burst_bound :
    (rate capacity start : ℕ) (times : List ℕ)
    → Ordered start times
    → let (b, allowed) = calls (new_bucket rate capacity start) times in
      allowed * unit + start * rate ≤ capacity + b.last_refill * rate
unfolding new_bucket calls
burst_bound rate capacity start times h =
    let bound = calls_budget (new_bucket rate capacity start) times h in omega arith
