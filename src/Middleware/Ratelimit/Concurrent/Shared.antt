-- ===== src/Middleware/Ratelimit/Concurrent/Shared.antt =====
-- middleware/ratelimit/limiter.go: concurrent calls of Allow share one bucket for each key.
use mathlib.Core.Path.{subst}
use mathlib.Core.Option.{some-injective}
use revelt.Base.{
  ◌↔◌, ℕ, ◌<◌, ◌≡◌, ◌⊎◌, inl, inr, refl, sym, ap, ◌∙◌, Bool, ◌==◌, List, [], ◌∷◌, Option, none,
  some, update, Bool-cases, Option-cases, arith,
}
use revelt.Text.{Text, text_eq}
use revelt.Text.Laws.{text_eq_refl, text_eq→eq}
use revelt.Config.{assign, find}
use revelt.Config.Discovery.{find-assign}
use revelt.Middleware.Ratelimit.{Bucket, allow}
use revelt.Middleware.Ratelimit.Concurrent.{
  Stage, idle, missed, holding, answered, State, Event, looks, creates, takes, initial, looked,
  begin, look, created, create, take_token, step, run,
}

-- A goroutine before bucket.allow holds the bucket that the map has for its key; and no two keys
-- have one bucket.
record IsShared (s : State) : Type 0 where
  held : (g : ℕ) (key : Text) (p : ℕ) → s.stage g ≡ holding key p → find key s.buckets ≡ some p
  fresh : (key : Text) (p : ℕ) → find key s.buckets ≡ some p → p < s.next
  apart :
      (key key' : Text) (p : ℕ)
      → find key s.buckets ≡ some p
      → find key' s.buckets ≡ some p
      → key ≡ key'

data StageCases : Stage → Type 0 where
  at_idle : {x : Stage} → x ≡ idle → StageCases x
  at_missed : {x : Stage} (key : Text) → x ≡ missed key → StageCases x
  at_holding : {x : Stage} (key : Text) (p : ℕ) → x ≡ holding key p → StageCases x
  at_answered : {x : Stage} (b : Bool) → x ≡ answered b → StageCases x

Stage-cases : (x : Stage) → StageCases x
Stage-cases idle = at_idle refl
Stage-cases (missed key) = at_missed key refl
Stage-cases (holding key p) = at_holding key p refl
Stage-cases (answered b) = at_answered b refl

update-cases :
    {A : Type 0} (f : ℕ → A) (g : ℕ) (v : A) (h : ℕ) (w : A)
    → update f g v h ≡ w
    → (v ≡ w) ⊎ (f h ≡ w)
update-cases f g v h w e = elim (Bool-cases (g == h)) [
  | inl here ↦ inl (sym (rw here refl) ∙ e)
  | inr there ↦ inr (sym (rw there refl) ∙ e)
]

holding-key : (key key' : Text) (p p' : ℕ) → holding key p ≡ holding key' p' → key ≡ key'
holding-key key key' p p' e = ground arith

holding-bucket : (key key' : Text) (p p' : ℕ) → holding key p ≡ holding key' p' → p ≡ p'
holding-bucket key key' p p' e = ground arith

module _ (rate capacity : ℕ) where
  looked-holding :
      (key key' : Text) (o : Option ℕ) (p : ℕ)
      → looked rate capacity key o ≡ holding key' p
      → (key ≡ key') × (o ≡ some p)
  looked-holding key key' none p e = absurd (ground arith)
  looked-holding key key' (some q) p e =
      (holding-key key key' q p e, ap some (holding-bucket key key' q p e))

  begin-IsShared :
      (s : State) (g : ℕ) (key : Text) → IsShared s → IsShared (begin rate capacity s g key)
  begin-IsShared s g key i = record {
    held = λ h key' p e.
        elim (update-cases s.stage g (looked rate capacity key (find key s.buckets)) h
          (holding key' p) e) [
            | inr before ↦ i.held h key' p before
            | inl now ↦
                let (same, found) = looked-holding key key' (find key s.buckets) p now in
                subst (λ k. find k s.buckets ≡ some p) same found
          ];
    fresh = i.fresh;
    apart = i.apart;
  }

  -- The second look has found a bucket.
  found-IsShared :
      (s : State) (g : ℕ) (key : Text) (p : ℕ)
      → find key s.buckets ≡ some p
      → IsShared s
      → IsShared (record s { stage = update s.stage g (holding key p) })
  found-IsShared s g key p here i = record {
    held = λ h key' p' e. elim (update-cases s.stage g (holding key p) h (holding key' p') e) [
      | inr before ↦ i.held h key' p' before
      | inl now ↦
          subst (λ k. find k s.buckets ≡ some p') (holding-key key key' p p' now)
            (here ∙ ap some (holding-bucket key key' p p' now))
    ];
    fresh = i.fresh;
    apart = i.apart;
  }

  -- What the map has for a key behind the creation of a bucket.
  found_after :
      (s : State) (key key' : Text) (p : ℕ)
      → find key' (assign key s.next s.buckets) ≡ some p
      → ((key ≡ key') × (p ≡ s.next)) ⊎ (find key' s.buckets ≡ some p)
  found_after s key key' p e = elim (Bool-cases (text_eq key key')) [
    | inl same ↦
        let new : some s.next ≡ some p =
          sym (find-assign key key' s.next s.buckets ∙ rw same refl) ∙ e in
        inl (text_eq→eq key key' same, sym (some-injective s.next p new))
    | inr other ↦ inr (sym (find-assign key key' s.next s.buckets ∙ rw other refl) ∙ e)
  ]

  find_new : (s : State) (key : Text) → find key (assign key s.next s.buckets) ≡ some s.next
  find_new s key = find-assign key key s.next s.buckets ∙ rw (text_eq_refl key) refl

  find_old :
      (s : State) (key key' : Text) (p : ℕ)
      → find key s.buckets ≡ none
      → find key' s.buckets ≡ some p
      → find key' (assign key s.next s.buckets) ≡ some p
  find_old s key key' p gone here = elim (Bool-cases (text_eq key key')) [
    | inl same ↦
        let lost = sym (ap (λ k. find k s.buckets) (text_eq→eq key key' same)) ∙ gone in
        absurd (ground arith)
    | inr other ↦ find-assign key key' s.next s.buckets ∙ (rw other refl ∙ here)
  ]

  created-IsShared :
      (s : State) (g : ℕ) (key : Text) (now : ℕ)
      → find key s.buckets ≡ none
      → IsShared s
      → IsShared (created rate capacity s g key now)
  created-IsShared s g key now gone i = record {
    held = λ h key' p e. elim (update-cases s.stage g (holding key s.next) h (holding key' p) e) [
      | inr before ↦ find_old s key key' p gone (i.held h key' p before)
      | inl here ↦
          subst (λ k. find k (assign key s.next s.buckets) ≡ some p)
            (holding-key key key' s.next p here)
            (find_new s key ∙ ap some (holding-bucket key key' s.next p here))
    ];
    fresh = λ key' p e. elim (found_after s key key' p e) [
      | inl (same, new) ↦ omega (arith, new)
      | inr old ↦ omega (arith, i.fresh key' p old)
    ];
    apart = λ k k' p e e'. elim (found_after s key k p e) [
      | inl (same, new) ↦ elim (found_after s key k' p e') [
        | inl (same', new') ↦ sym same ∙ same'
        | inr old' ↦ absurd (omega (arith, new, i.fresh k' p old'))
      ]
      | inr old ↦ elim (found_after s key k' p e') [
        | inl (same', new') ↦ absurd (omega (arith, new', i.fresh k p old))
        | inr old' ↦ i.apart k k' p old old'
      ]
    ];
  }

  taken-IsShared :
      (s : State) (g : ℕ) (b : Bool) (store : ℕ → Bucket)
      → IsShared s
      → IsShared (record s { store = store; stage = update s.stage g (answered b) })
  taken-IsShared s g b store i = record {
    held = λ h key p e. elim (update-cases s.stage g (answered b) h (holding key p) e) [
      | inr before ↦ i.held h key p before
      | inl now ↦ absurd (ground arith)
    ];
    fresh = i.fresh;
    apart = i.apart;
  }

  initial-IsShared : IsShared (initial rate capacity)
  unfolding find
  initial-IsShared = record {
    held = λ g key p e. absurd (ground arith);
    fresh = λ key p e. absurd (ground arith);
    apart = λ key key' p e e'. absurd (ground arith);
  }

  missing-IsShared :
      (s : State) (g now : ℕ) (key : Text)
      → s.stage g ≡ missed key
      → IsShared s
      → IsShared (create rate capacity s g now)
  unfolding create
  missing-IsShared s g now key here i = elim (Option-cases (find key s.buckets)) [
    | inl gone ↦ rw (create, here, gone) (created-IsShared s g key now gone i)
    | inr (p, found) ↦ rw (create, here, found) (found-IsShared s g key p found i)
  ]

  step-IsShared : (e : Event) (s : State) → IsShared s → IsShared (step rate capacity e s)
  unfolding step look create take_token
  step-IsShared (looks g key) s i = elim (Stage-cases (s.stage g)) [
    | at_idle here ↦ rw (look, here) (begin-IsShared s g key i)
    | at_missed k here ↦ rw (look, here) i
    | at_holding k p here ↦ rw (look, here) i
    | at_answered b here ↦ rw (look, here) (begin-IsShared s g key i)
  ]
  step-IsShared (creates g now) s i = elim (Stage-cases (s.stage g)) [
    | at_idle here ↦ rw (create, here) i
    | at_missed key here ↦ missing-IsShared s g now key here i
    | at_holding k p here ↦ rw (create, here) i
    | at_answered b here ↦ rw (create, here) i
  ]
  step-IsShared (takes g now) s i = elim (Stage-cases (s.stage g)) [
    | at_idle here ↦ rw (take_token, here) i
    | at_missed k here ↦ rw (take_token, here) i
    | at_holding k p here ↦ rw (take_token, here) (taken-IsShared s g (allow now (s.store p)).1 _ i)
    | at_answered b here ↦ rw (take_token, here) i
  ]

  run-IsShared :
      (events : List Event) (s : State) → IsShared s → IsShared (run rate capacity events s)
  unfolding run
  run-IsShared [] s i = i
  run-IsShared (e ∷ events) s i = run-IsShared events (step rate capacity e s) (step-IsShared e s i)

  -- However the critical sections of concurrent calls of Allow fall, with no cleanup between them,
  -- two goroutines that are about to take a token have the same bucket exactly if they have the same
  -- key.
  pub shared_bucket :
      (events : List Event) (g g' : ℕ) (key key' : Text) (p p' : ℕ)
      → (run rate capacity events (initial rate capacity)).stage g ≡ holding key p
      → (run rate capacity events (initial rate capacity)).stage g' ≡ holding key' p'
      → (key ≡ key') ↔ (p ≡ p')
  shared_bucket events g g' key key' p p' here there =
      let i = run-IsShared events (initial rate capacity) initial-IsShared in
      let found = i.held g key p here in
      let found' = i.held g' key' p' there in
      (
        (λ same. some-injective p p' (
            sym found
            ∙ (ap (λ k. find k (run rate capacity events (initial rate capacity)).buckets) same
                ∙ found'))),
        (λ same. i.apart key key' p found (found' ∙ ap some (sym same))),
      )
