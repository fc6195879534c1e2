-- ===== src/Upload/Save.antt =====
-- http.go: SaveUploadedFile keeps a whole file, or none where it can be removed.
use mathlib.Core.Path.{subst}
use revelt.Base.{
  ℕ, ◌+◌, ◌≤◌, ◌<◌, ◌≡◌, inl, inr, refl, sym, ap, ◌∙◌, false, ◌&&◌, [], ◌∷◌, Option, none, some,
  length, ltb, arith, Bool-cases, Option-cases,
}
use revelt.Text.{Text, text_eq}
use revelt.Text.Laws.{text_eq_refl, text_eq→eq}
use revelt.Config.{assign, find}
use revelt.Config.Discovery.{find-assign}
use revelt.Reader.{
  Source, Sink, one_beyond, limit_reader, copy, max_int64, one_beyond_lem, limit_reader_lem,
  limit_reader_zero,
}
use revelt.Upload.{
  Header, UploadedFile, held, SaveError, body_too_large, writing, closing, Result, ok, failed, Disk,
  sound_disk, Files, remove, try_remove, limited, describe, form_file, finish_save, write_file,
  save_uploaded_file,
}

-- The file is gone.
find-remove_self : (path : Text) (fs : Files) → find path (remove path fs) ≡ none
unfolding find remove
find-remove_self path [] = refl
find-remove_self path ((p, t) ∷ fs) = ground (arith, find-remove_self path fs)

find-remove_ne :
    (path other : Text) (fs : Files)
    → text_eq path other ≡ false
    → find other (remove path fs) ≡ find other fs
unfolding find remove
find-remove_ne path other [] ne = refl
find-remove_ne path other ((p, t) ∷ fs) ne =
    ground (arith, text_eq→eq p path, find-remove_ne path other fs ne)

-- Nothing but the destination changes.
abbrev pub Untouched : Text → Files → Files → Type 0
Untouched dest fs fs' = (other : Text) → text_eq dest other ≡ false → find other fs' ≡ find other fs

-- How a save ends: the whole upload is in the destination; or nothing has been done; or the
-- destination is gone; or it could not be removed and holds what was `written`.
pub data Ended (dest : Text) (max_bytes : ℕ) (removal : Option Text) (written : Text) (src : Source)
    (fs : Files) : Files → Result UploadedFile → Type 0 where
  kept :
      {fs' : Files} {meta : UploadedFile}
      → find dest fs' ≡ some src.bytes
      → meta.size ≡ length src.bytes
      → (0 < max_bytes → length src.bytes ≤ max_bytes)
      → Ended dest max_bytes removal written src fs fs' (ok meta)
  refused : {e : SaveError} → Ended dest max_bytes removal written src fs fs (failed e)
  removed :
      {fs' : Files} {e : SaveError}
      → removal ≡ none
      → find dest fs' ≡ none
      → Ended dest max_bytes removal written src fs fs' (failed e)
  left_behind :
      {fs' : Files} {e : SaveError} {r : Text}
      → removal ≡ some r
      → find dest fs' ≡ some written
      → Ended dest max_bytes removal written src fs fs' (failed e)

copy_lem :
    (sink : Sink) (s : Source)
    → (copy sink s).1 ≡ none
    → ((copy sink s).0 ≡ s.bytes) × (s.fault ≡ none)
unfolding copy
copy_lem none s h = (refl, h)
copy_lem (some (k, e)) s h = ground arith

-- A limit that has not been passed has changed nothing.
limited_lem :
    (max_bytes : ℕ) (src : Source)
    → max_bytes < max_int64
    → (ltb 0 max_bytes && ltb max_bytes (length (limited max_bytes src).bytes)) ≡ false
    → (limited max_bytes src ≡ src) × (0 < max_bytes → length src.bytes ≤ max_bytes)
limited_lem max_bytes src below within = elim (Bool-cases (ltb 0 max_bytes)) [
  | inr off ↦ (rw (off) refl, λ p. absurd (ground arith))
  | inl on ↦
      let reads : limited max_bytes src ≡ limit_reader (max_bytes + 1) src =
        rw (on, one_beyond_lem max_bytes below) refl in
      elim (limit_reader_lem max_bytes src) [
        | inl (short, same) ↦ (reads ∙ same, λ _. short)
        | inr (long, beyond, _) ↦
            absurd (ground (arith, within, on, ap (λ s. length s.bytes) reads, beyond))
      ]
]

assigned :
    (dest t : Text) (fs : Files)
    → (find dest (assign dest t fs) ≡ some t) × Untouched dest fs (assign dest t fs)
assigned dest t fs = (
  find-assign dest dest t fs ∙ rw (text_eq_refl dest) refl,
  λ other ne. find-assign dest other t fs ∙ rw (ne) refl,
)

-- The branches that try to remove the destination.
undone :
    (dest : Text) (disk : Disk) (written : Text) (max_bytes : ℕ) (src : Source) (fs : Files)
    (e : SaveError)
    → let fs' = try_remove disk dest (assign dest written fs) in
      Ended dest max_bytes disk.remove_fault written src fs fs' (failed e) × Untouched dest fs fs'
unfolding try_remove
undone dest disk written max_bytes src fs e = elim (Option-cases disk.remove_fault) [
  | inl works ↦
      rw (try_remove, works)
        (
          removed refl (find-remove_self dest (assign dest written fs)),
          λ other ne.
              find-remove_ne dest other (assign dest written fs) ne
              ∙ (assigned dest written fs).1 other ne,
        )
  | inr (r, fails) ↦
      rw (try_remove, fails)
        (left_behind refl (assigned dest written fs).0, (assigned dest written fs).1)
]

module _ (base lower_ext : Text → Text) where
  finish_save-Ended :
      (dest : Text) (max_bytes : ℕ) (disk : Disk) (meta : UploadedFile) (src : Source)
      (written : Text) (copy_fault : Option Text) (fs : Files)
      → (copy_fault ≡ none
          → (ltb 0 max_bytes && ltb max_bytes (length written)) ≡ false
          → (written ≡ src.bytes) × (0 < max_bytes → length src.bytes ≤ max_bytes))
      → let (fs', res) =
          finish_save base lower_ext dest max_bytes disk meta written copy_fault
            (assign dest written fs) in
        Ended dest max_bytes disk.remove_fault written src fs fs' res × Untouched dest fs fs'
  unfolding finish_save
  finish_save-Ended dest max_bytes disk meta src written copy_fault fs whole =
      elim (Bool-cases (ltb 0 max_bytes && ltb max_bytes (length written))) [
        | inl over ↦ rw (over) (undone dest disk written max_bytes src fs body_too_large)
        | inr within ↦ elim (Option-cases copy_fault) [
          | inr (e, broke) ↦
              rw (within, broke) (undone dest disk written max_bytes src fs (writing e))
          | inl copied ↦ elim (Option-cases disk.close_fault) [
            | inr (e, broke) ↦
                rw (within, copied, broke) (undone dest disk written max_bytes src fs (closing e))
            | inl closed ↦
                let (all, fits) = whole copied within in
                rw (within, copied, closed)
                  (
                    kept ((assigned dest written fs).0 ∙ ap some all) (ap length all) fits,
                    (assigned dest written fs).1,
                  )
          ]
        ]
      ]

  -- A save of an uploaded file, with a limit below the largest int64 or none, ends in one of four
  -- ways: the destination holds the whole upload, within the limit, and its length is returned; or an
  -- error is returned and no file has changed; or an error is returned and the destination is gone;
  -- or an error is returned and the destination, which could not be removed, still holds what
  -- io.Copy had written to it. No other file changes.
  pub save-Ended :
      (dest : Text) (max_bytes : ℕ) (disk : Disk) (h : Header) (src : Source) (fs : Files)
      → max_bytes < max_int64
      → let (fs', res) = save_uploaded_file base lower_ext (held h src) dest max_bytes disk fs in
        let written = (copy disk.sink (limited max_bytes src)).0 in
        Ended dest max_bytes disk.remove_fault written src fs fs' res × Untouched dest fs fs'
  unfolding save_uploaded_file form_file write_file
  save-Ended dest max_bytes disk h src fs below = elim (Option-cases disk.mkdir_fault) [
    | inr (e, broke) ↦ rw (broke) (refused, λ other ne. refl)
    | inl made ↦ elim (Option-cases disk.open_fault) [
      | inr (e, broke) ↦ rw (made, broke) (refused, λ other ne. refl)
      | inl opened ↦
          let (written, fault) = copy disk.sink (limited max_bytes src) in
          rw (made, opened)
            (finish_save-Ended dest max_bytes disk (describe base lower_ext h) src written fault fs
              (λ copied within.
                let (all, _) = copy_lem disk.sink (limited max_bytes src) copied in
                let (same, fits) =
                  limited_lem max_bytes src below
                    (ap (λ t. ltb 0 max_bytes && ltb max_bytes (length t)) (sym all) ∙ within) in
                (all ∙ ap (λ s. s.bytes) same, fits)))
    ]
  ]

  -- With the largest int64 as the limit, on a disk without faults, every upload is saved as an empty
  -- file, and the save succeeds.
  largest_limit_saves_nothing :
      (dest : Text) (h : Header) (src : Source) (fs : Files)
      → let (fs', res) =
          save_uploaded_file base lower_ext (held h src) dest max_int64 sound_disk fs in
        (find dest fs' ≡ some []) × (res ≡ ok (record (describe base lower_ext h) { size = 0 }))
  unfolding save_uploaded_file form_file write_file finish_save copy one_beyond
  largest_limit_saves_nothing dest h src fs =
      subst
        (λ s.
          let (written, fault) = copy none s in
          let (fs', res) =
            finish_save base lower_ext dest max_int64 sound_disk (describe base lower_ext h) written
              fault (assign dest written fs) in
          (find dest fs' ≡ some []) × (res ≡ ok (record (describe base lower_ext h) { size = 0 })))
        (sym (limit_reader_zero src)) ((assigned dest [] fs).0, refl)
