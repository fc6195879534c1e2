-- ===== src/Middleware/Ratelimit/Cleanup.antt =====
-- middleware/ratelimit/limiter.go: cleanup deletes no bucket that a later call could tell from a
-- new one.
use revelt.Base.{
  ℕ, ◌+◌, ◌-◌, ◌*◌, ◌≤◌, ◌<◌, ◌≡◌, ◌⊎◌, inl, inr, refl, List, [], ◌∷◌, none, some, arith, ltb,
  if◌then◌else◌, Bool-cases, ap, sym, ◌∙◌,
}
use mathlib.Core.Path.{subst}
use revelt.Text.{Text, text_eq}
use revelt.Text.Laws.{text_eq→eq}
use revelt.Text.Maps.{Absent, find-Absent}
use revelt.Config.{find}
use revelt.Middleware.Ratelimit.{
  Bucket, Manager, new_bucket, refill, take_one, allow, bucket_of, evict, cleanup,
}
use revelt.Middleware.Ratelimit.Keys.{WellFormed, evict-Absent, bucket_of_found, bucket_of_missing}

-- What a lookup after the eviction can differ in.
pub find-evict :
    (now expiration rate capacity : ℕ) (key : Text) (bs : List (Text × Bucket))
    → WellFormed rate capacity bs
    → (find key (evict now expiration bs) ≡ find key bs)
      ⊎ ((b : Bucket) × (find key bs ≡ some b)
          × (find key (evict now expiration bs) ≡ none)
          × (expiration < now - b.last_refill)
          × (b.rate ≡ rate)
          × (b.capacity ≡ capacity))
unfolding evict find
find-evict now expiration rate capacity key [] h = inl refl
find-evict now expiration rate capacity key ((k, b) ∷ bs) (absent, same_rate, same_cap, h) =
    let rest = find-evict now expiration rate capacity key bs h in
    elim (Bool-cases (text_eq k key)) [
      | inr miss ↦ elim (Bool-cases (ltb expiration (now - b.last_refill))) [
        | inl idle ↦ rw (idle, miss) rest
        | inr busy ↦ rw (busy, miss) rest
      ]
      | inl hit ↦ elim (Bool-cases (ltb expiration (now - b.last_refill))) [
        | inl idle ↦
            rw (idle, hit)
              (inr (
                b,
                refl,
                find-Absent key _ (
                    evict-Absent now expiration key bs
                      (subst (λ j. Absent j bs) (text_eq→eq k key hit) absent)),
                ground (arith, idle),
                same_rate,
                same_cap,
              ))
        | inr busy ↦ rw (busy, hit) (inl refl)
      ]
    ]

cap_at :
    (capacity total : ℕ)
    → capacity ≤ total
    → (if ltb capacity total then capacity else total) ≡ capacity
cap_at capacity total h = ground arith

-- A bucket idle for long enough is refilled to a new one.
refill_idle :
    (later : ℕ) (b : Bucket)
    → b.capacity ≤ (later - b.last_refill) * b.rate
    → refill later b ≡ refill later (new_bucket b.rate b.capacity later)
unfolding refill new_bucket
refill_idle later b long =
    rw
      (
        cap_at b.capacity (b.tokens + (later - b.last_refill) * b.rate) (omega arith),
        cap_at b.capacity (b.capacity + (later - later) * b.rate) (omega arith),
      )
      refl

pub idle_long :
    (now later last expiration rate capacity : ℕ)
    → now ≤ later
    → expiration < now - last
    → capacity ≤ expiration * rate
    → capacity ≤ (later - last) * rate
idle_long now later last expiration rate capacity le idle long = grind arith

idle_full :
    (now later : ℕ) (b : Bucket) (m : Manager)
    → now ≤ later
    → m.expiration < now - b.last_refill
    → m.capacity ≤ m.expiration * m.rate
    → b.rate ≡ m.rate
    → b.capacity ≡ m.capacity
    → b.capacity ≤ (later - b.last_refill) * b.rate
idle_full now later b m le idle long same_rate same_cap =
    rw (same_rate, same_cap)
      (idle_long now later b.last_refill m.expiration m.rate m.capacity le idle long)

-- When the expiration is long enough for a bucket to fill up, cleanup changes no later answer: a
-- call on any key goes as if no bucket had been deleted, and leaves the same bucket.
pub cleanup_unobserved :
    (now later : ℕ) (key : Text) (m : Manager)
    → WellFormed m.rate m.capacity m.buckets
    → now ≤ later
    → m.capacity ≤ m.expiration * m.rate
    → allow later (bucket_of later key (cleanup now m)) ≡ allow later (bucket_of later key m)
unfolding cleanup bucket_of allow
cleanup_unobserved now later key m h le long =
    elim (find-evict now m.expiration m.rate m.capacity key m.buckets h) [
      | inl same ↦ rw (same, bucket_of) refl
      | inr (b, here, gone, idle, same_rate, same_cap) ↦
          ap (allow later) (bucket_of_missing later key (cleanup now m) gone)
          ∙ sym (
              ap take_one (
                refill_idle later b (idle_full now later b m le idle long same_rate same_cap)
                ∙ rw (same_rate, same_cap) refl))
          ∙ sym (ap (allow later) (bucket_of_found later key m b here))
    ]
