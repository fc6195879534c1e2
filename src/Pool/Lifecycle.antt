-- ===== src/Pool/Lifecycle.antt =====
-- pool.go: newPool and closeRange.
use revelt.Base.{
  ℕ, zero, suc, ◌+◌, ◌≡◌, ◌<◌, ◌⊎◌, inl, inr, refl, sym, ap, ◌∙◌, String, List, [], ◌∷◌, ◌++◌,
  Option, none, some, length, arith, length-append, Option-cases,
}
use mathlib.Core.Path.{subst}
use mathlib.Core.List.{append_assoc, append-nil}
use revelt.Pool.{
  Pool, Workers, Spawn, started, not_started, NewPool, made, bad_size, start_failed, note,
  close_loop, close_range, close, start_loop, new_pool, ℤ, pos, negsuc,
}

-- What a close of the workers, numbered from `i`, reports: the error of the first one that fails.
abbrev pub FirstError :
    {W : Type 0} → (W → Option String) → ℕ → List W → Option (ℕ × String) → Type 0
FirstError f i [] r = r ≡ none
FirstError f i (w ∷ ws) r =
    ((e : String) × (f w ≡ some e) × (r ≡ some (i, e))) ⊎ ((f w ≡ none) × FirstError f (i + 1) ws r)

pub Spawn-cases :
    {W : Type 0} (s : Spawn W) → ((w : W) × (s ≡ started w)) ⊎ ((e : String) × (s ≡ not_started e))
Spawn-cases (started w) = inl (w, refl)
Spawn-cases (not_started e) = inr (e, refl)

module _ {W : Type 0} (api : Workers W) where
  close_loop_log :
      (i : ℕ) (ws : List W) (first : Option (ℕ × String)) (log : List W)
      → (close_loop api i ws first log).1 ≡ log ++ ws
  unfolding close_loop
  close_loop_log i [] first log = sym (append-nil log)
  close_loop_log i (w ∷ ws) first log =
      close_loop_log (i + 1) ws (note i (api.close w) first) (log ++ w ∷ [])
      ∙ append_assoc log (w ∷ []) ws

  close_loop_keeps :
      (i : ℕ) (ws : List W) (e : ℕ × String) (log : List W)
      → (close_loop api i ws (some e) log).0 ≡ some e
  unfolding close_loop
  close_loop_keeps i [] e log = refl
  close_loop_keeps i (w ∷ ws) e log = close_loop_keeps (i + 1) ws e (log ++ w ∷ [])

  close_loop-FirstError :
      (i : ℕ) (ws : List W) (log : List W)
      → FirstError api.close i ws (close_loop api i ws none log).0
  unfolding close_loop
  close_loop-FirstError i [] log = refl
  close_loop-FirstError i (w ∷ ws) log = elim (Option-cases (api.close w)) [
    | inl fine ↦
        inr (fine, rw (fine, close_loop) (close_loop-FirstError (i + 1) ws (log ++ w ∷ [])))
    | inr (e, fails) ↦
        inl (e, fails, rw (fails, close_loop) (close_loop_keeps (i + 1) ws (i, e) (log ++ w ∷ [])))
  ]

  -- close closes every worker of the ring once, in order, also after one of them fails to close,
  -- and reports the error of the first that failed, with its index, or no error if none did.
  close_all :
      (p : Pool W)
      → ((close api p).1 ≡ p.workers) × FirstError api.close 0 p.workers (close api p).0
  unfolding close
  close_all p = (close_loop_log 0 p.workers none [], close_loop-FirstError 0 p.workers [])

  module _ (spawn : ℕ → Spawn W) where
    -- The workers `ws` are those of the first calls of newWorker, from call `i` on.
    abbrev pub Started : ℕ → List W → Type 0
    Started i [] = Unit {0}
    Started i (w ∷ ws) = (spawn i ≡ started w) × Started (i + 1) ws

    Started-append :
        (i : ℕ) (ws : List W) (w : W)
        → Started i ws
        → spawn (i + length ws) ≡ started w
        → Started i (ws ++ w ∷ [])
    Started-append i [] w h e = ground arith
    Started-append i (v ∷ ws) w h e = (h.0, Started-append (i + 1) ws w h.1 (ground arith))

    -- What the loop of newPool promises for a ring of `size` workers.
    abbrev pub Loop : ℕ → NewPool W → Type 0
    Loop size (made p) =
        (length p.workers ≡ size) × (p.size ≡ size) × (p.cursor ≡ 0) × Started 0 p.workers
    Loop size bad_size = ⊥
    Loop size (start_failed i e closed) =
        (i < size) × (spawn i ≡ not_started e) × (length closed ≡ i) × Started 0 closed

    -- A refusal of the size, and nothing else.
    abbrev pub IsRefused : NewPool W → Type 0
    IsRefused bad_size = Unit {0}
    IsRefused (made p) = ⊥
    IsRefused (start_failed i e closed) = ⊥

    -- What newPool promises.
    abbrev pub Outcome : ℤ → NewPool W → Type 0
    Outcome (negsuc n) r = IsRefused r
    Outcome (pos size) r = ((size ≡ 0) × IsRefused r) ⊎ ((0 < size) × Loop size r)

    closed_log : (ws : List W) → (close_range api ws).1 ≡ ws
    unfolding close_range
    closed_log ws = close_loop_log 0 ws none []

    start_loop-Loop :
        (n i : ℕ) (ws : List W)
        → length ws ≡ i
        → Started 0 ws
        → Loop (n + i) (start_loop api spawn n i ws)
    unfolding start_loop
    start_loop-Loop zero i ws l h = ground arith
    start_loop-Loop (suc n) i ws l h = elim (Spawn-cases (spawn i)) [
      | inl (w, e) ↦
          rw (e, start_loop)
            (subst (λ k. Loop k (start_loop api spawn n (i + 1) (ws ++ w ∷ []))) (omega arith)
              (start_loop-Loop n (i + 1) (ws ++ w ∷ []) (omega (arith, length-append ws (w ∷ [])))
                (Started-append 0 ws w h (ground arith))))
      | inr (x, e) ↦
          rw (e, start_loop)
            (
              omega arith,
              e,
              ap length (closed_log ws) ∙ l,
              subst (Started 0) (sym (closed_log ws)) h,
            )
    ]

    -- newPool refuses a size that is not positive, and starts nothing then. For any other it makes a
    -- ring of `size` workers, all started, in the order in which they were started, with the cursor
    -- at zero; or the start of some worker failed, and then just the workers that had been started
    -- before it have been closed.
    pub new_pool-Outcome : (size : ℤ) → Outcome size (new_pool api spawn size)
    unfolding new_pool
    new_pool-Outcome (negsuc n) = tt
    new_pool-Outcome (pos zero) = inl (refl, tt)
    new_pool-Outcome (pos (suc n)) = inr (
      omega arith,
      subst (λ k. Loop k (start_loop api spawn (suc n) 0 [])) (omega arith)
          (start_loop-Loop (suc n) 0 [] refl tt),
    )
