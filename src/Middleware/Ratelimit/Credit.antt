-- ===== src/Middleware/Ratelimit/Credit.antt =====
-- middleware/ratelimit/limiter.go: events at a manager, and what one of them does to the tokens of a key.
use revelt.Base.{
  ℕ, suc, ◌+◌, ◌-◌, ◌*◌, ◌≤◌, ◌<◌, ◌≡◌, inl, inr, refl, ◌∙◌, ◌&&◌, List, [], ◌∷◌, Option, none,
  some, Option-cases, arith, if◌then◌else◌,
}
use revelt.Text.{Text, text_eq}
use revelt.Text.Laws.{text_eq_refl}
use revelt.Config.{find}
use revelt.Middleware.Ratelimit.{
  Bucket, Manager, new_bucket, allow, unit, bucket_of, manager_allow, cleanup,
}
use revelt.Middleware.Ratelimit.Bounds.{mul_elapsed, allow_budget, chain_budgets}
use revelt.Middleware.Ratelimit.Keys.{
  WellFormed, bucket_of_found, bucket_of_missing, bucket_of_fits, manager_allow-Effect,
}
use revelt.Middleware.Ratelimit.Cleanup.{idle_long}

-- A call of Allow on a key, or a tick of the cleanup.
pub data Event : Type 0 where
  asks : Text → Event
  cleans : Event

-- How many calls on the key are permitted, over events at their times.
unfoldable pub permitted_of : Text → Manager → List (ℕ × Event) → ℕ
unfolding manager_allow cleanup
permitted_of k m [] = 0
permitted_of k m ((now, cleans) ∷ events) = permitted_of k (cleanup now m) events
permitted_of k m ((now, asks key) ∷ events) =
    let n = permitted_of k (manager_allow now key m).0 events in
    if (manager_allow now key m).1 && text_eq key k then suc n else n

abbrev pub IsOrdered : ℕ → List (ℕ × Event) → Type 0
IsOrdered start [] = Unit {0}
IsOrdered start ((now, e) ∷ events) = (start ≤ now) × IsOrdered now events

abbrev pub last_time : ℕ → List (ℕ × Event) → ℕ
last_time start [] = start
last_time start ((now, e) ∷ events) = last_time now events

-- The tokens at hand, a full bucket where there is none, and the time up to which they count.
abbrev pub tokens_of : Manager → Option Bucket → ℕ
tokens_of m none = m.capacity
tokens_of m (some b) = b.tokens

abbrev pub since_of : ℕ → Option Bucket → ℕ
since_of now none = now
since_of now (some b) = b.last_refill

pub mul_le : (a b r : ℕ) → a ≤ b → a * r ≤ b * r
mul_le a b r h = grind arith

since_le : (start now : ℕ) (o : Option Bucket) → start ≤ now → since_of start o ≤ since_of now o
since_le start now none h = h
since_le start now (some b) h = omega arith

module _ (k : Text) where
  abbrev pub bucket : Manager → Option Bucket
  bucket m = find k m.buckets

  -- What is permitted from `start` on is within the tokens and what the time adds.
  abbrev pub Within : Manager → ℕ → List (ℕ × Event) → Type 0
  Within m start events =
      permitted_of k m events * unit + since_of start (bucket m) * m.rate
      ≤ tokens_of m (bucket m) + last_time start events * m.rate

  module _ (m : Manager) (start now : ℕ) (later : start ≤ now)
      (behind : since_of start (bucket m) ≤ start) where
    -- The time passes without a call on the key.
    pub waits :
        (n end : ℕ)
        → n * unit + since_of now (bucket m) * m.rate ≤ tokens_of m (bucket m) + end * m.rate
        → n * unit + since_of start (bucket m) * m.rate ≤ tokens_of m (bucket m) + end * m.rate
    waits n end h = omega (
      arith,
      h,
      mul_le (since_of start (bucket m)) (since_of now (bucket m)) m.rate
          (since_le start now (bucket m) later),
    )

    bucket_tokens : (bucket_of now k m).tokens ≡ tokens_of m (bucket m)
    unfolding new_bucket
    bucket_tokens = elim (Option-cases (bucket m)) [
      | inl gone ↦ rw (bucket_of_missing now k m gone, gone) refl
      | inr (b, here) ↦ rw (bucket_of_found now k m b here, here) refl
    ]

    pub bucket_since : (bucket_of now k m).last_refill ≡ since_of now (bucket m)
    unfolding new_bucket
    bucket_since = elim (Option-cases (bucket m)) [
      | inl gone ↦ rw (bucket_of_missing now k m gone, gone) refl
      | inr (b, here) ↦ rw (bucket_of_found now k m b here, here) refl
    ]

    pub since_now : since_of now (bucket m) ≤ now
    since_now = elim (Option-cases (bucket m)) [
      | inl gone ↦ rw gone (omega arith)
      | inr (b, here) ↦ ground arith
    ]

    unfoldable pub asked : Manager
    asked = (manager_allow now k m).0

    pub bucket_asked : find k asked.buckets ≡ some (allow now (bucket_of now k m)).0
    unfolding asked
    bucket_asked = (manager_allow-Effect now k k m).1 ∙ rw (text_eq_refl k) refl

    -- A call on the key itself.
    pub within-asked :
        (n end : ℕ)
        → WellFormed m.rate m.capacity m.buckets
        → n * unit + now * m.rate ≤ (allow now (bucket_of now k m)).0.tokens + end * m.rate
        → (if (allow now (bucket_of now k m)).1 then suc n else n) * unit
            + since_of start (bucket m) * m.rate
          ≤ tokens_of m (bucket m) + end * m.rate
    unfolding bucket_of
    within-asked n end fits rest =
        let b = bucket_of now k m in
        let (one, same_rate, refilled) =
          allow_budget now b (omega (arith, bucket_since, since_now)) in
        let one' =
          rw (refilled, (bucket_of_fits now k m fits).0, bucket_tokens, bucket_since) at one in
        let total =
          chain_budgets (allow now b).1 n (tokens_of m (bucket m)) (allow now b).0.tokens 0
            (since_of now (bucket m) * m.rate) (now * m.rate) (end * m.rate) one'
            (omega (arith, rest)) in
        waits (if (allow now b).1 then suc n else n) end (omega (arith, total))

    -- A bucket of the key is deleted.
    pub within-cleaned :
        (n end : ℕ) (b : Bucket)
        → bucket m ≡ some b
        → m.expiration < now - b.last_refill
        → m.capacity ≤ m.expiration * m.rate
        → n * unit + now * m.rate ≤ m.capacity + end * m.rate
        → n * unit + since_of start (bucket m) * m.rate ≤ tokens_of m (bucket m) + end * m.rate
    within-cleaned n end b here idle long rest = rw here (
        omega (
          arith,
          rest,
          mul_elapsed b.last_refill now m.rate (omega (arith, idle)),
          idle_long now now b.last_refill m.expiration m.rate m.capacity (omega arith) idle long,
        ))
