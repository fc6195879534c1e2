-- ===== src/Health.antt =====
-- health/health.go. encoding/json is a parameter. The stats are those of the pool.
use revelt.Base.{
  ℕ, suc, ◌≡◌, ◌≢◌, ◌⊎◌, inl, inr, refl, true, false, List, [], ◌∷◌, ◌==◌, length, arith,
  Bool-cases, All, ◌+◌, if◌then◌else◌,
}
use mathlib.Core.List.{Memᴰ}
use revelt.Text.{Text, codes}
use revelt.Pool.{WorkerStat, Pool, Workers, stats, stats_loop}
use revelt.Http.{Action, set_header, write_header, write, exec, act, blank}

pub record LivenessResponse : Type 0 where
  pub status : Text
  pub workers : List WorkerStat

pub record ReadinessResponse : Type 0 where
  pub status : Text
  pub alive_workers : ℕ
  pub total_workers : ℕ
  pub workers : List WorkerStat

-- The loop of Readiness.
unfoldable pub count_alive : List WorkerStat → ℕ
count_alive [] = 0
count_alive (s ∷ ss) = let rest = count_alive ss in if s.is_alive then suc rest else rest

abbrev pub readiness_body : List WorkerStat → ReadinessResponse
readiness_body ss = record {
  status = if count_alive ss == 0 then codes "degraded" else codes "ok";
  alive_workers = count_alive ss;
  total_workers = length ss;
  workers = ss;
}

-- writeJSON, given the encoding of its value.
abbrev pub write_json : ℕ → Text → List Action
write_json code body =
    set_header "Content-Type" (codes "application/json; charset=utf-8")
    ∷ write_header code
    ∷ write body
    ∷ []

module _ (encode_live : LivenessResponse → Text) (encode_ready : ReadinessResponse → Text) where
  unfoldable pub liveness : List WorkerStat → List Action
  liveness ss = write_json 200 (encode_live (record { status = codes "ok"; workers = ss }))

  unfoldable pub readiness : List WorkerStat → List Action
  readiness ss =
      write_json (if count_alive ss == 0 then 503 else 200) (encode_ready (readiness_body ss))

module _ {W : Type 0} (api : Workers W) where
  count-Outcome :
      (i : ℕ) (ws : List W)
      → ((count_alive (stats_loop api i ws) ≢ 0) × (w : W) × Memᴰ w ws × (api.alive w ≡ true))
        ⊎ ((count_alive (stats_loop api i ws) ≡ 0) × All (λ w. api.alive w ≡ false) ws)
  unfolding count_alive stats_loop
  count-Outcome i [] = inr (refl, tt)
  count-Outcome i (w ∷ ws) = elim (Bool-cases (api.alive w)) [
    | inl here ↦ inl (ground arith, w, Memᴰ.head refl, here)
    | inr gone ↦ elim (count-Outcome (i + 1) ws) [
      | inl (some_up, v, mem, up) ↦ inl (rw (gone) some_up, v, Memᴰ.tail mem, up)
      | inr (none_up, dead) ↦ inr (rw (gone) none_up, (gone, dead))
    ]
  ]

  -- The readiness probe of a pool is answered with 200 where one of its workers is alive, and with
  -- 503 where all of them are dead.
  readiness-Outcome :
      (encode_live : LivenessResponse → Text) (encode_ready : ReadinessResponse → Text) (p : Pool W)
      → let code = (exec (readiness encode_live encode_ready (stats api p)) blank).status in
        ((code ≡ 200) × (w : W) × Memᴰ w p.workers × (api.alive w ≡ true))
        ⊎ ((code ≡ 503) × All (λ w. api.alive w ≡ false) p.workers)
  unfolding readiness stats exec act
  readiness-Outcome encode_live encode_ready p = elim (count-Outcome 0 p.workers) [
    | inl (some_up, w, mem, up) ↦ inl (ground (arith, some_up), w, mem, up)
    | inr (none_up, dead) ↦ inr (rw (none_up) refl, dead)
  ]
