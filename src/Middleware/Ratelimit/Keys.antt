-- ===== src/Middleware/Ratelimit/Keys.antt =====
-- middleware/ratelimit: the buckets of a manager, and the middleware.
use revelt.Base.{
  ℕ, ◌-◌, ◌*◌, ◌≤◌, ◌≡◌, inl, inr, refl, true, List, [], ◌∷◌, none, some, Option-cases, arith, ltb,
  if◌then◌else◌, Bool-cases, ◌∙◌,
}
use mathlib.Core.Path.{subst}
use revelt.Text.{Text, text_eq}
use revelt.Text.Laws.{text_eq→eq}
use revelt.Text.Maps.{Absent, assign-Absent, text_ne_flip}
use revelt.Config.{find, assign}
use revelt.Config.Discovery.{find-assign}
use revelt.Middleware.Ratelimit.{
  Bucket, Manager, new_bucket, allow, unit, bucket_of, manager_allow, evict, cleanup,
}

-- Allow on one key is a call of allow on the bucket of that key, a full one where there was none;
-- the bucket of every other key stays as it was.
pub manager_allow-Effect :
    (now : ℕ) (key other : Text) (m : Manager)
    → let b = bucket_of now key m in
      let (m', permitted) = manager_allow now key m in
      (permitted ≡ (allow now b).1)
      × (find other m'.buckets
          ≡ (if text_eq key other then some (allow now b).0 else find other m.buckets))
unfolding manager_allow
manager_allow-Effect now key other m = (refl, find-assign key other _ m.buckets)

-- A bucket of at least one token lets a call through when the time since the last call is worth
-- one token at its rate.
allow_after_refill :
    (now : ℕ) (b : Bucket)
    → unit ≤ b.capacity
    → unit ≤ (now - b.last_refill) * b.rate
    → (allow now b).1 ≡ true
unfolding allow
allow_after_refill now b room waited = ground arith

-- Buckets of one rate and capacity, no key twice, as in the Go map of one manager.
abbrev pub WellFormed : ℕ → ℕ → List (Text × Bucket) → Type 0
WellFormed rate capacity [] = Unit {0}
WellFormed rate capacity ((k, b) ∷ bs) =
    Absent k bs × (b.rate ≡ rate) × (b.capacity ≡ capacity) × WellFormed rate capacity bs

pub evict-Absent :
    (now expiration : ℕ) (key : Text) (bs : List (Text × Bucket))
    → Absent key bs
    → Absent key (evict now expiration bs)
unfolding evict
evict-Absent now expiration key [] h = h
evict-Absent now expiration key ((k, b) ∷ bs) h =
    elim (Bool-cases (ltb expiration (now - b.last_refill))) [
      | inl idle ↦ rw (idle) (evict-Absent now expiration key bs h.1)
      | inr busy ↦ rw (busy) (h.0, evict-Absent now expiration key bs h.1)
    ]

evict-WellFormed :
    (now expiration rate capacity : ℕ) (bs : List (Text × Bucket))
    → WellFormed rate capacity bs
    → WellFormed rate capacity (evict now expiration bs)
unfolding evict
evict-WellFormed now expiration rate capacity [] h = h
evict-WellFormed now expiration rate capacity ((k, b) ∷ bs) (absent, same_rate, same_cap, h) =
    let rest = evict-WellFormed now expiration rate capacity bs h in
    elim (Bool-cases (ltb expiration (now - b.last_refill))) [
      | inl idle ↦ rw (idle) rest
      | inr busy ↦ rw (busy) (evict-Absent now expiration k bs absent, same_rate, same_cap, rest)
    ]

assign-WellFormed :
    (rate capacity : ℕ) (key : Text) (b : Bucket) (bs : List (Text × Bucket))
    → b.rate ≡ rate
    → b.capacity ≡ capacity
    → WellFormed rate capacity bs
    → WellFormed rate capacity (assign key b bs)
unfolding assign
assign-WellFormed rate capacity key b [] r c h = (tt, r, c, h)
assign-WellFormed rate capacity key b ((k, d) ∷ bs) r c (absent, dr, dc, h) =
    elim (Bool-cases (text_eq k key)) [
      | inl hit ↦ rw (hit) (subst (λ j. Absent j bs) (text_eq→eq k key hit) absent, r, c, h)
      | inr miss ↦ rw (miss) (
        assign-Absent key k b bs (text_ne_flip k key miss) absent,
        dr,
        dc,
        assign-WellFormed rate capacity key b bs r c h,
      )
    ]

pub bucket_of_found :
    (now : ℕ) (key : Text) (m : Manager) (b : Bucket)
    → find key m.buckets ≡ some b
    → bucket_of now key m ≡ b
unfolding bucket_of
bucket_of_found now key m b here = rw (bucket_of, here) refl

pub bucket_of_missing :
    (now : ℕ) (key : Text) (m : Manager)
    → find key m.buckets ≡ none
    → bucket_of now key m ≡ new_bucket m.rate m.capacity now
unfolding bucket_of
bucket_of_missing now key m gone = rw (bucket_of, gone) refl

find-WellFormed :
    (rate capacity : ℕ) (key : Text) (b : Bucket) (bs : List (Text × Bucket))
    → WellFormed rate capacity bs
    → find key bs ≡ some b
    → (b.rate ≡ rate) × (b.capacity ≡ capacity)
unfolding find
find-WellFormed rate capacity key b [] h here = ground arith
find-WellFormed rate capacity key b ((k, d) ∷ bs) (absent, r, c, h) here =
    ground (arith, find-WellFormed rate capacity key b bs h)

pub bucket_of_fits :
    (now : ℕ) (key : Text) (m : Manager)
    → WellFormed m.rate m.capacity m.buckets
    → ((bucket_of now key m).rate ≡ m.rate) × ((bucket_of now key m).capacity ≡ m.capacity)
unfolding bucket_of new_bucket
bucket_of_fits now key m h = elim (Option-cases (find key m.buckets)) [
  | inl gone ↦ rw (bucket_of_missing now key m gone) (refl, refl)
  | inr (b, here) ↦
      rw (bucket_of_found now key m b here)
        (find-WellFormed m.rate m.capacity key b m.buckets h here)
]

allow_keeps :
    (now : ℕ) (b : Bucket)
    → ((allow now b).0.rate ≡ b.rate) × ((allow now b).0.capacity ≡ b.capacity)
unfolding allow
allow_keeps now b = ground arith

-- What a manager's operations keep.
pub manager_allow-WellFormed :
    (now : ℕ) (key : Text) (m : Manager)
    → WellFormed m.rate m.capacity m.buckets
    → let m' = (manager_allow now key m).0 in WellFormed m'.rate m'.capacity m'.buckets
unfolding manager_allow
manager_allow-WellFormed now key m h =
    let b = bucket_of now key m in
    let (r, c) = bucket_of_fits now key m h in
    let (r', c') = allow_keeps now b in
    assign-WellFormed m.rate m.capacity key (allow now b).0 m.buckets (r' ∙ r) (c' ∙ c) h

pub cleanup-WellFormed :
    (now : ℕ) (m : Manager)
    → WellFormed m.rate m.capacity m.buckets
    → WellFormed m.rate m.capacity (cleanup now m).buckets
unfolding cleanup
cleanup-WellFormed now m h = evict-WellFormed now m.expiration m.rate m.capacity m.buckets h
