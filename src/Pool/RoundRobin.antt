-- ===== src/Pool/RoundRobin.antt =====
-- pool.go: the round-robin choice of a slot in render.
use native.Mathlib.Nat.{
  mul-le-mul_right, mod-lt, mod-eq_of_lt, add-mul-mod_self_right, div-add-mod',
}
use revelt.Base.{
  ℕ, zero, suc, ◌+◌, ◌-◌, ◌*◌, ◌/◌, ◌%◌, ◌^◌, ◌≡◌, ◌≢◌, ◌<◌, refl, sym, ap, ◌∙◌, length, arith,
  dec_lt,
}
use revelt.Pool.{Pool, IsValid, pick, u64}

-- The pool after `k` renders have chosen their slots.
unfoldable pub pick_times : {W : Type 0} → ℕ → Pool W → Pool W
pick_times zero p = p
pick_times (suc k) p = pick_times k (pick p).1

pick_times_lem :
    {W : Type 0} (k : ℕ) (p : Pool W)
    → p.cursor + k < 2 ^ 64
    → ((pick_times k p).cursor ≡ p.cursor + k) × ((pick_times k p).size ≡ p.size)
unfolding pick_times pick
pick_times_lem zero p h = (omega arith, refl)
pick_times_lem (suc k) p h = omega (arith, pick_times_lem k (pick p).1)

slot_lem :
    {W : Type 0} (k : ℕ) (p : Pool W)
    → p.cursor + k + 1 < 2 ^ 64
    → (pick (pick_times k p)).0 ≡ (p.cursor + 1 + k) % p.size
unfolding pick
slot_lem k p h =
    rw ((pick_times_lem k p (omega arith)).0, (pick_times_lem k p (omega arith)).1)
      (ap (λ n. n % p.size) (omega arith))

mod_unique : (n q i : ℕ) → i < n → (i + q * n) % n ≡ i
mod_unique n q i h = add-mul-mod_self_right i q n ∙ mod-eq_of_lt h

-- Some of `n` consecutive numbers leaves the remainder `i`.
hit : (a n i : ℕ) → i < n → (k : ℕ) × (k < n) × ((a + k) % n ≡ i)
hit a n i h = elim (dec_lt i (a % n)) [
  | yes before ↦ (
    i + n - a % n,
    omega (arith, mod-lt a pos),
    ap (λ t. t % n) (grind (arith, div-add-mod' a n, mod-lt a pos)) ∙ mod_unique n (a / n + 1) i h,
  )
  | no after ↦ (
    i - a % n,
    omega arith,
    ap (λ t. t % n) (grind (arith, div-add-mod' a n)) ∙ mod_unique n (a / n) i h,
  )
]
  where
    pos : 0 < n
    pos = omega arith

multiples_apart : (q r n d : ℕ) → q * n + d ≡ r * n → 0 < d → d < n → ⊥
multiples_apart q r n d e pos lt = elim (dec_lt q r) [
  | yes less ↦ grind (arith, mul-le-mul_right n less)
  | no more ↦ omega (arith, mul-le-mul_right {m = r} {n = q} n (omega arith))
]

apart : (a n j k : ℕ) → j < k → k < n → (a + j) % n ≢ (a + k) % n
apart a n j k lt kn e =
    multiples_apart ((a + j) / n) ((a + k) / n) n (k - j)
      (omega (arith, div-add-mod' (a + j) n, div-add-mod' (a + k) n, e)) (omega arith) (omega arith)

same_turn : (a n j k : ℕ) → j < n → k < n → (a + j) % n ≡ (a + k) % n → j ≡ k
same_turn a n j k jn kn e = elim (dec_lt j k) [
  | yes less ↦ absurd (apart a n j k less kn e)
  | no more ↦ elim (dec_lt k j) [
    | yes less ↦ absurd (apart a n k j less jn (sym e))
    | no other ↦ omega arith
  ]
]

-- The slot that render chooses is within the ring, at any cursor, one that wraps included.
pick_in_range : {W : Type 0} (p : Pool W) → IsValid p → (pick p).0 < length p.workers
unfolding pick
pick_in_range p v = omega (arith, v.sized, mod-lt (u64 (p.cursor + 1)) v.nonempty)

-- While the cursor does not wrap, any `size` renders in a row choose each slot of the ring exactly
-- once.
pub round_robin :
    {W : Type 0} (p : Pool W) (idx : ℕ)
    → p.cursor + p.size < 2 ^ 64
    → idx < p.size
    → (k : ℕ) × (k < p.size)
      × ((pick (pick_times k p)).0 ≡ idx)
      × ((j : ℕ) → j < p.size → (pick (pick_times j p)).0 ≡ idx → j ≡ k)
round_robin p idx wide h =
    let (k, kn, e) = hit (p.cursor + 1) p.size idx h in
    (
      k,
      kn,
      slot_lem k p (omega arith) ∙ e,
      λ j jn f.
          same_turn (p.cursor + 1) p.size j k jn kn (sym (slot_lem j p (omega arith)) ∙ f ∙ sym e),
    )
