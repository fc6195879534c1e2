-- ===== src/Pool/Replace.antt =====
-- pool.go: workerAt, whose slow path looks again under the write lock.
use revelt.Base.{
  ℕ, zero, suc, ◌+◌, ◌≡◌, ◌≢◌, ◌<◌, ◌⊎◌, inl, inr, refl, String, true, false, List, [], ◌∷◌, some,
  length, get_elem?, set, arith, Bool-cases, length-set, get_elem?-set_self, get_elem?-set_ne,
}
use revelt.Pool.Lifecycle.{Spawn-cases}
use revelt.Pool.{
  Pool, Workers, Spawn, started, not_started, Acquired, got, not_replaced, IsValid, replace,
}

get_elem?-lt :
    {A : Type 0} (xs : List A) (i : ℕ) → i < length xs → (a : A) × (get_elem? xs i ≡ some a)
get_elem?-lt [] i h = absurd (omega arith)
get_elem?-lt (x ∷ xs) zero h = (x, refl)
get_elem?-lt (x ∷ xs) (suc i) h = get_elem?-lt xs i (omega arith)

lt_of_get_elem? :
    {A : Type 0} (xs : List A) (i : ℕ) {a : A} → get_elem? xs i ≡ some a → i < length xs
lt_of_get_elem? [] i h = absurd (ground arith)
lt_of_get_elem? (x ∷ xs) zero h = omega arith
lt_of_get_elem? (x ∷ xs) (suc i) h = omega (arith, lt_of_get_elem? xs i h)

module _ {W : Type 0} (api : Workers W) (spawn : ℕ → Spawn W) (idx : ℕ) (p : Pool W) where
  -- One pass over the slow path, by the worker that it finds in the slot.
  replace_alive :
      (w : W)
      → get_elem? p.workers idx ≡ some w
      → api.alive w ≡ true
      → replace api spawn idx p ≡ (p, got w)
  unfolding replace
  replace_alive w e up = rw (e, replace) (rw up)

  replace_started :
      (w v : W)
      → get_elem? p.workers idx ≡ some w
      → api.alive w ≡ false
      → spawn p.spawns ≡ started v
      → replace api spawn idx p
        ≡ (record p { workers = set p.workers idx v; spawns = p.spawns + 1 }, got v)
  unfolding replace
  replace_started w v e down s = rw (e, replace) (rw down (rw (s, replace)))

  replace_failed :
      (w : W) (x : String)
      → get_elem? p.workers idx ≡ some w
      → api.alive w ≡ false
      → spawn p.spawns ≡ not_started x
      → replace api spawn idx p ≡ (record p { spawns = p.spawns + 1 }, not_replaced idx x)
  unfolding replace
  replace_failed w x e down s = rw (e, replace) (rw down (rw (s, replace)))

  -- The worker was found alive, and nothing changes.
  abbrev Kept : Pool W → Acquired W → Type 0
  Kept q a =
      (w : W) × (get_elem? p.workers idx ≡ some w) × (api.alive w ≡ true) × (q ≡ p) × (a ≡ got w)

  -- It was dead: one new worker takes the slot, or the ring stays and the error is reported.
  abbrev Renewed : Pool W → Acquired W → Type 0
  Renewed q a =
      (w : W) × (get_elem? p.workers idx ≡ some w)
      × (api.alive w ≡ false)
      × (q.spawns ≡ p.spawns + 1)
      × (((v : W) × (spawn p.spawns ≡ started v) × (get_elem? q.workers idx ≡ some v) × (a ≡ got v))
          ⊎ ((x : String) × (spawn p.spawns ≡ not_started x)
              × (q.workers ≡ p.workers)
              × (a ≡ not_replaced idx x)))

  abbrev pub Effect : Pool W → Acquired W → Type 0
  Effect q a =
      IsValid q
      × ((j : ℕ) → idx ≢ j → get_elem? q.workers j ≡ get_elem? p.workers j)
      × (Kept q a ⊎ Renewed q a)

  module _ (valid : IsValid p) (lt : idx < p.size) (w : W) (e : get_elem? p.workers idx ≡ some w)
      (down : api.alive w ≡ false) where
    renew_started :
        (v : W)
        → spawn p.spawns ≡ started v
        → Effect (record p { workers = set p.workers idx v; spawns = p.spawns + 1 }) (got v)
    renew_started v s = (
      record {
        sized = omega (arith, length-set p.workers idx v, valid.sized);
        nonempty = valid.nonempty;
        wide = valid.wide;
      },
      λ j ne. get_elem?-set_ne p.workers idx j v ne,
      inr (
        w,
        e,
        down,
        refl,
        inl (v, s, get_elem?-set_self p.workers idx v (omega (arith, valid.sized)), refl),
      ),
    )

    renew_failed :
        (x : String)
        → spawn p.spawns ≡ not_started x
        → Effect (record p { spawns = p.spawns + 1 }) (not_replaced idx x)
    renew_failed x s = (
      record { sized = valid.sized; nonempty = valid.nonempty; wide = valid.wide },
      λ j ne. refl,
      inr (w, e, down, refl, inr (x, s, refl, refl)),
    )

  -- On a valid ring and an index within it, the slow path of workerAt never panics, keeps the ring
  -- valid and every other slot, and either finds the worker alive and changes nothing, or calls
  -- newWorker once: the new worker is returned and stands in the slot, or the start's error is
  -- returned and the workers stay.
  pub replace-Effect :
      IsValid p → idx < p.size → Effect (replace api spawn idx p).0 (replace api spawn idx p).1
  replace-Effect valid lt =
      let (w, e) = get_elem?-lt p.workers idx (omega (arith, valid.sized)) in
      elim (Bool-cases (api.alive w)) [
        | inl up ↦ rw (replace_alive w e up) (valid, λ j ne. refl, inl (w, e, up, refl, refl))
        | inr down ↦ elim (Spawn-cases (spawn p.spawns)) [
          | inl (v, s) ↦ rw (replace_started w v e down s) (renew_started valid lt w e down v s)
          | inr (x, s) ↦ rw (replace_failed w x e down s) (renew_failed valid lt w e down x s)
        ]
      ]

-- Of two goroutines that both found the worker of a slot dead, the second to take the write lock
-- returns the replacement of the first, if that started and is alive, and starts no other.
replace_once :
    {W : Type 0} (api : Workers W) (spawn : ℕ → Spawn W) (idx : ℕ) (p : Pool W) (w v : W)
    → get_elem? p.workers idx ≡ some w
    → api.alive w ≡ false
    → spawn p.spawns ≡ started v
    → api.alive v ≡ true
    → let q = (replace api spawn idx p).0 in
      ((replace api spawn idx p).1 ≡ got v) × (replace api spawn idx q ≡ (q, got v))
replace_once api spawn idx p w v e down s up = rw (replace_started api spawn idx p w v e down s) (
  refl,
  replace_alive api spawn idx _ v
      (get_elem?-set_self p.workers idx v (lt_of_get_elem? p.workers idx e)) up,
)
