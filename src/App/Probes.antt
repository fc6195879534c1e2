-- ===== src/App/Probes.antt =====
-- app.go: RegisterHealthEndpoints and writeJSONResponse, which repeat health/health.go.
use revelt.Base.{
  inr, inl, Bool-cases, ◌+◌, ◌∙◌, ℕ, suc, ◌≡◌, refl, List, [], ◌∷◌, ◌==◌, length, arith,
  if◌then◌else◌,
}
use revelt.Text.{Text, codes}
use revelt.Pool.{WorkerStat}
use revelt.Http.{Action, set_header, write_header, write}
use revelt.Json.{Encoded, encoded, unencodable}
use revelt.Health.{LivenessResponse, ReadinessResponse, count_alive, liveness, readiness}

unfoldable pub write_json_response : ℕ → Encoded → List Action
write_json_response code (encoded text) =
    set_header "Content-Type" (codes "application/json; charset=utf-8")
    ∷ write_header code
    ∷ write text
    ∷ []
write_json_response code (unencodable e) =
    set_header "Content-Type" (codes "application/json; charset=utf-8") ∷ write_header code ∷ []

-- The loop of the readiness handler, with what it has counted so far.
unfoldable pub alive_loop : ℕ → List WorkerStat → ℕ
alive_loop alive [] = alive
alive_loop alive (s ∷ ss) = alive_loop (if s.is_alive then suc alive else alive) ss

module _ (encode_live : LivenessResponse → Encoded)
    (encode_ready : ReadinessResponse → Encoded) where
  unfoldable pub healthz : List WorkerStat → List Action
  unfolding write_json_response
  healthz ss = write_json_response 200 (encode_live (record { status = codes "ok"; workers = ss }))

  unfoldable pub readyz : List WorkerStat → List Action
  unfolding write_json_response alive_loop
  readyz ss =
      let alive = alive_loop 0 ss in
      write_json_response (if alive == 0 then 503 else 200) (
        encode_ready (record {
          status = if alive == 0 then codes "degraded" else codes "ok";
          alive_workers = alive;
          total_workers = length ss;
          workers = ss;
        }))

alive_loop_lem : (alive : ℕ) (ss : List WorkerStat) → alive_loop alive ss ≡ alive + count_alive ss
unfolding alive_loop count_alive
alive_loop_lem alive [] = omega arith
alive_loop_lem alive (s ∷ ss) = elim (Bool-cases s.is_alive) [
  | inl up ↦ rw (up) (alive_loop_lem (suc alive) ss ∙ omega arith)
  | inr down ↦ rw (down) (alive_loop_lem alive ss)
]

-- The endpoints of the application answer as the handlers of the health package do, for values that
-- can be encoded.
probes_agree :
    (live : LivenessResponse → Text) (ready : ReadinessResponse → Text) (ss : List WorkerStat)
    → (healthz (λ v. encoded (live v)) (λ v. encoded (ready v)) ss ≡ liveness live ready ss)
      × (readyz (λ v. encoded (live v)) (λ v. encoded (ready v)) ss ≡ readiness live ready ss)
unfolding healthz readyz write_json_response liveness readiness
probes_agree live ready ss =
    let same : alive_loop 0 ss ≡ count_alive ss = alive_loop_lem 0 ss ∙ omega arith in
    (refl, rw (same) refl)
