-- ===== src/Reader.antt =====
-- What http.go uses of package io: a source of bytes, io.LimitReader, io.ReadAll and io.Copy.
use revelt.Base.{
  ℕ, zero, suc, ◌+◌, ◌-◌, ◌^◌, ◌≤◌, ◌<◌, ◌≡◌, ◌⊎◌, inl, inr, refl, [], ◌∷◌, Option, none, some,
  length, take, ltb, leb, arith, if◌then◌else◌, Bool-cases, ◌==◌,
}
use revelt.Text.{Text}

-- A source gives its bytes, and then io.EOF, or an error where it has one.
pub record Source : Type 0 where
  pub bytes : Text
  pub fault : Option Text

abbrev pub max_int64 : ℕ
max_int64 = 2 ^ 63 - 1

-- max + 1 as an int64, for max from 0 to max_int64, where LimitReader takes a negative number for 0.
unfoldable pub one_beyond : ℕ → ℕ
one_beyond max = if max == max_int64 then 0 else max + 1

-- io.LimitReader: an error behind the limit is not met.
unfoldable pub limit_reader : ℕ → Source → Source
limit_reader n s =
    if leb n (length s.bytes) then record { bytes = take n s.bytes; fault = none } else s

-- Writing some bytes to a file: `accepts` is none where all of them are written, else how many are
-- before the error.
abbrev pub Sink : Type 0
Sink = Option (ℕ × Text)

-- io.Copy: what is written, and the first error.
unfoldable pub copy : Sink → Source → Text × Option Text
copy none s = (s.bytes, s.fault)
copy (some (k, e)) s =
    if ltb k (length s.bytes) then (take k s.bytes, some e) else (s.bytes, s.fault)

pub length-take : (n : ℕ) (s : Text) → n ≤ length s → length (take n s) ≡ n
length-take zero s h = refl
length-take (suc n) [] h = absurd (omega arith)
length-take (suc n) (c ∷ s) h = ground (arith, length-take n s)

pub one_beyond_lem : (max : ℕ) → max < max_int64 → one_beyond max ≡ max + 1
unfolding one_beyond
one_beyond_lem max h = ground arith

-- A source within the limit is read whole; a longer one gives one byte more than the limit.
pub limit_reader_lem :
    (max : ℕ) (s : Source)
    → ((length s.bytes ≤ max) × (limit_reader (max + 1) s ≡ s))
      ⊎ ((max < length s.bytes)
          × (length (limit_reader (max + 1) s).bytes ≡ max + 1)
          × ((limit_reader (max + 1) s).fault ≡ none))
unfolding limit_reader
limit_reader_lem max s = elim (Bool-cases (leb (max + 1) (length s.bytes))) [
  | inl long ↦
      inr (ground arith, rw (long) (length-take (max + 1) s.bytes (ground arith)), rw (long) refl)
  | inr short ↦ inl (ground arith, rw (short) refl)
]

pub limit_reader_zero : (s : Source) → limit_reader 0 s ≡ record { bytes = []; fault = none }
unfolding limit_reader
limit_reader_zero s = ground arith
