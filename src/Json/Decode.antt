-- ===== src/Json/Decode.antt =====
-- http.go: what DecodeJSON accepts.
use revelt.Base.{
  ℕ, ◌+◌, ◌≤◌, ◌<◌, ◌≡◌, ◌⊎◌, inl, inr, refl, sym, ap, ◌∙◌, Option, none, some, length, arith,
  Option-cases,
}
use mathlib.Core.Path.{subst}
use revelt.Text.{Text}
use revelt.Reader.{Source, limit_reader, max_int64, one_beyond_lem, limit_reader_lem}
use revelt.Json.{
  Step, value, eof, bad, decoded, max_memory, only_value, parse_body, check_body, decode_json,
}

module _ {V : Type 0} (decode : Text → ℕ → Step V) where
  -- The body is one JSON value, and nothing behind it.
  pub record IsOneValue (body : Text) (v : V) : Type 0 where
    pub after : ℕ
    pub stop : ℕ
    pub first : decode body 0 ≡ value v after
    pub rest : decode body after ≡ eof stop

  Step-cases :
      (s : Step V)
      → ((v : V) × (n : ℕ) × (s ≡ value v n))
        ⊎ ((n : ℕ) × (s ≡ eof n))
        ⊎ ((n : ℕ) × (e : Text) × (s ≡ bad n e))
  Step-cases (value v n) = inl (v, n, refl)
  Step-cases (eof n) = inr (inl (n, refl))
  Step-cases (bad n e) = inr (inr (n, e, refl))

  only_value-decoded :
      (body : Text) (w v : V) (after : ℕ)
      → only_value decode body w after ≡ decoded v
      → (w ≡ v) × (stop : ℕ) × (decode body after ≡ eof stop)
  unfolding only_value
  only_value-decoded body w v after h = elim (Step-cases (decode body after)) [
    | inl (u, n, e) ↦ absurd (ground (arith, e))
    | inr (inl (n, e)) ↦ (ground (arith, e), n, e)
    | inr (inr (n, x, e)) ↦ absurd (ground (arith, e))
  ]

  parse_body-decoded :
      (body : Text) (v : V) → parse_body decode body ≡ decoded v → IsOneValue body v
  unfolding parse_body
  parse_body-decoded body v h = elim (Step-cases (decode body 0)) [
    | inl (w, after, e) ↦
        let inside : only_value decode body w after ≡ decoded v = ground (arith, e) in
        let (same, stop, rest) = only_value-decoded body w v after inside in
        record { after = after; stop = stop; first = e ∙ ap (λ u. value u after) same; rest = rest }
    | inr (inl (n, e)) ↦ absurd (ground (arith, e))
    | inr (inr (n, x, e)) ↦ absurd (ground (arith, e))
  ]

  check_body-decoded :
      (max : ℕ) (read : Source) (v : V)
      → check_body decode max read ≡ decoded v
      → (read.fault ≡ none)
        × (0 < length read.bytes)
        × (length read.bytes ≤ max)
        × IsOneValue read.bytes v
  unfolding check_body
  check_body-decoded max read v h = elim (Option-cases read.fault) [
    | inr (x, failed) ↦ absurd (ground arith)
    | inl fine ↦
        let parsed : parse_body decode read.bytes ≡ decoded v = ground arith in
        (fine, ground arith, ground arith, parse_body-decoded read.bytes v parsed)
  ]

  -- DecodeJSON at a limit below the largest int64 succeeds only on a body that was read without an
  -- error, is not empty, is not longer than the limit, and is one JSON value, which it returns.
  pub decode_json-accepts :
      (body : Source) (max_bytes : Option ℕ) (v : V)
      → max_memory max_bytes < max_int64
      → decode_json decode (some body) max_bytes ≡ decoded v
      → (body.fault ≡ none)
        × (0 < length body.bytes)
        × (length body.bytes ≤ max_memory max_bytes)
        × IsOneValue body.bytes v
  unfolding decode_json
  decode_json-accepts body max_bytes v below h =
      let max = max_memory max_bytes in
      let beyond = one_beyond_lem max below in
      let read : check_body decode max (limit_reader (max + 1) body) ≡ decoded v =
        ap (λ n. check_body decode max (limit_reader n body)) (sym beyond) ∙ h in
      let (fine, full, within, one) = check_body-decoded max (limit_reader (max + 1) body) v read in
      elim (limit_reader_lem max body) [
        | inl (short, same) ↦
            subst
              (λ s.
                (s.fault ≡ none)
                × (0 < length s.bytes)
                × (length s.bytes ≤ max)
                × IsOneValue s.bytes v)
              same (fine, full, within, one)
        | inr (long, beyond_max, _) ↦ absurd (omega arith)
      ]
