-- ===== src/Middleware/Ratelimit/Quota.antt =====
-- middleware/ratelimit/limiter.go: what a manager permits to one key, over all keys and the cleanup.
use mathlib.Core.Path.{subst}
use revelt.Base.{
  ℕ, suc, ◌+◌, ◌*◌, ◌≤◌, ◌≡◌, inl, inr, refl, sym, ◌∙◌, false, List, [], ◌∷◌, Bool-cases, arith,
  if◌then◌else◌,
}
use revelt.Text.{Text, text_eq}
use revelt.Text.Laws.{text_eq→eq, text_eq_refl}
use revelt.Config.{find}
use revelt.Middleware.Ratelimit.{Manager, new_manager, unit, bucket_of, manager_allow, cleanup}
use revelt.Middleware.Ratelimit.Bounds.{allow_budget}
use revelt.Middleware.Ratelimit.Keys.{
  WellFormed, manager_allow-WellFormed, manager_allow-Effect, cleanup-WellFormed,
}
use revelt.Middleware.Ratelimit.Cleanup.{find-evict}
use revelt.Middleware.Ratelimit.Credit.{
  Event, asks, cleans, permitted_of, IsOrdered, last_time, since_of, bucket, Within, mul_le, asked,
  bucket_asked, within-asked, within-cleaned, waits, bucket_since, since_now,
}

module _ (k : Text) where
  permitted_other :
      (m : Manager) (now : ℕ) (key : Text) (events : List (ℕ × Event))
      → text_eq key k ≡ false
      → permitted_of k m ((now, asks key) ∷ events)
        ≡ permitted_of k (manager_allow now key m).0 events
  unfolding permitted_of
  permitted_other m now key events ne = ground arith

  permitted_self :
      (m : Manager) (now : ℕ) (events : List (ℕ × Event))
      → permitted_of k m ((now, asks k) ∷ events) ≡ (
          if (manager_allow now k m).1
          then suc (permitted_of k (manager_allow now k m).0 events)
          else permitted_of k (manager_allow now k m).0 events)
  unfolding permitted_of
  permitted_self m now events = ground (arith, text_eq_refl k)

  -- What the manager is after a call on the key.
  kept :
      (m : Manager) (now : ℕ) (key : Text)
      → ((manager_allow now key m).0.rate ≡ m.rate)
        × ((manager_allow now key m).0.capacity ≡ m.capacity)
        × ((manager_allow now key m).0.expiration ≡ m.expiration)
  unfolding manager_allow
  kept m now key = (refl, refl, refl)

  Within-self :
      (m : Manager) (start now : ℕ) (events : List (ℕ × Event))
      → start ≤ now
      → since_of start (bucket k m) ≤ start
      → WellFormed m.rate m.capacity m.buckets
      → Within k (manager_allow now k m).0 now events
      → Within k m start ((now, asks k) ∷ events)
  unfolding manager_allow asked
  Within-self m start now events later behind fits h =
      let b = bucket_of now k m in
      let since = bucket_since k m start now later behind in
      let (one, same_rate, refilled) =
        allow_budget now b (omega (arith, since, since_now k m start now later behind)) in
      let h' = rw (bucket_asked k m start now later behind, refilled) at h in
      rw (permitted_self m now events, (manager_allow-Effect now k k m).0)
        (within-asked k m start now later behind (permitted_of k (manager_allow now k m).0 events)
          (last_time now events) fits h')

  asked_self :
      (m : Manager) (start now : ℕ)
      → start ≤ now
      → since_of start (bucket k m) ≤ start
      → since_of now (bucket k (manager_allow now k m).0) ≤ now
  unfolding asked
  asked_self m start now later behind =
      let (one, same_rate, refilled) = allow_budget now (bucket_of now k m) (
        omega
          (arith, bucket_since k m start now later behind, since_now k m start now later behind)) in
      rw (bucket_asked k m start now later behind, refilled) (omega arith)

  bucket_other :
      (m : Manager) (now : ℕ) (key : Text)
      → text_eq key k ≡ false
      → bucket k (manager_allow now key m).0 ≡ bucket k m
  bucket_other m now key other = (manager_allow-Effect now key k m).1 ∙ rw other refl

  Within-cleanup :
      (m : Manager) (start now : ℕ) (events : List (ℕ × Event))
      → start ≤ now
      → since_of start (bucket k m) ≤ start
      → WellFormed m.rate m.capacity m.buckets
      → m.capacity ≤ m.expiration * m.rate
      → (since_of now (bucket k (cleanup now m)) ≤ now → Within k (cleanup now m) now events)
      → Within k m start ((now, cleans) ∷ events)
  unfolding permitted_of cleanup
  Within-cleanup m start now events later behind fits long rest =
      elim (find-evict now m.expiration m.rate m.capacity k m.buckets fits) [
        | inl same ↦
            waits k m start now later behind (permitted_of k (cleanup now m) events)
              (last_time now events)
              (rw same at (rest (rw same (since_now k m start now later behind))))
        | inr (b, here, gone, idle, same_rate, same_cap) ↦
            within-cleaned k m start now later behind (permitted_of k (cleanup now m) events)
              (last_time now events) b here idle long (rw gone at (rest (rw gone (omega arith))))
      ]

  quota :
      (m : Manager) (start : ℕ) (events : List (ℕ × Event))
      → WellFormed m.rate m.capacity m.buckets
      → m.capacity ≤ m.expiration * m.rate
      → IsOrdered start events
      → since_of start (bucket k m) ≤ start
      → Within k m start events
  unfolding permitted_of
  quota m start [] fits long ordered behind =
      omega (arith, mul_le (since_of start (bucket k m)) start m.rate behind)
  quota m start ((now, cleans) ∷ events) fits long ordered behind =
      Within-cleanup m start now events ordered.0 behind fits long (λ behind'.
        quota (cleanup now m) now events (cleanup-WellFormed now m fits) long ordered.1 behind')
  quota m start ((now, asks key) ∷ events) fits long ordered behind =
      elim (Bool-cases (text_eq key k)) [
        | inl same ↦
            let fits' = manager_allow-WellFormed now k m fits in
            subst (λ j. Within k m start ((now, asks j) ∷ events)) (sym (text_eq→eq key k same))
              (Within-self m start now events ordered.0 behind fits (
                quota (manager_allow now k m).0 now events fits' long ordered.1
                  (asked_self m start now ordered.0 behind)))
        | inr other ↦
            let rest =
              quota (manager_allow now key m).0 now events (manager_allow-WellFormed now key m fits)
                long ordered.1
                (rw (bucket_other m now key other) (since_now k m start now ordered.0 behind)) in
            rw (permitted_other m now key events other) (
              waits k m start now ordered.0 behind
                (permitted_of k (manager_allow now key m).0 events) (last_time now events)
                (rw (bucket_other m now key other) at rest))
      ]

-- In exact arithmetic, where the source's float64 may round, a manager that starts without buckets permits, to any one key, at most the capacity and what the
-- rate adds from the start to the last event, whatever is asked for other keys and however often
-- the cleanup runs, if its expiration is long enough for a bucket to fill up.
quota_bound :
    (k : Text) (rate capacity expiration start : ℕ) (events : List (ℕ × Event))
    → capacity ≤ expiration * rate
    → IsOrdered start events
    → let m = new_manager rate capacity expiration in
      permitted_of k m events * unit + start * rate ≤ capacity + last_time start events * rate
unfolding find
quota_bound k rate capacity expiration start events long ordered =
    quota k (new_manager rate capacity expiration) start events tt long ordered (omega arith)
