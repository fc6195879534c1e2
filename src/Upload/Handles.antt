-- ===== src/Upload/Handles.antt =====
-- http.go: FormFiles leaks no handle.
use revelt.Base.{
  ℕ, ◌+◌, ◌≡◌, ◌⊎◌, inl, inr, refl, sym, ap, ◌∙◌, List, [], ◌∷◌, ◌++◌, Option, none, some, arith,
}
use mathlib.Core.List.{append_assoc, append-nil}
use revelt.Text.{Text}
use revelt.Upload.{
  Header, UploadedFile, SaveError, Result, ok, failed, describe, open_loop, close_each,
  close_handle, form_files, form_fault,
}

-- The positions from `i` on of so many files.
abbrev pub positions : ℕ → List (Header × Option Text) → List ℕ
positions i [] = []
positions i (h ∷ hs) = i ∷ positions (i + 1) hs

abbrev pub described : (Header → UploadedFile) → List (Header × Option Text) → List UploadedFile
described f [] = []
described f ((h, fault) ∷ hs) = f h ∷ described f hs

close_each_lem : (files : List ℕ) → close_each files files ≡ []
unfolding close_each close_handle
close_each_lem [] = refl
close_each_lem (i ∷ files) = ground (arith, close_each_lem files)

module _ (base lower_ext : Text → Text) where
  -- What a call that found these files leaves: each of them described and open, in order, or an
  -- error and no open handle.
  pub Opened : List (Header × Option Text) → Result (List UploadedFile) × List ℕ → Type 0
  Opened hs (res, handles) =
      ((res ≡ ok (described (describe base lower_ext) hs)) × (handles ≡ positions 0 hs))
      ⊎ ((e : SaveError) × (res ≡ failed e) × (handles ≡ []))

  loop-Opened :
      (i : ℕ) (hs : List (Header × Option Text)) (metas : List UploadedFile) (files : List ℕ)
      → let (res, live) = open_loop base lower_ext i hs metas files files in
        ((res ≡ ok (metas ++ described (describe base lower_ext) hs))
          × (live ≡ files ++ positions i hs))
        ⊎ ((e : SaveError) × (res ≡ failed e) × (live ≡ []))
  unfolding open_loop
  loop-Opened i [] metas files = inl (ap ok (sym (append-nil metas)), sym (append-nil files))
  loop-Opened i ((h, some e) ∷ hs) metas files = inr (form_fault e, refl, close_each_lem files)
  loop-Opened i ((h, none) ∷ hs) metas files =
      elim (loop-Opened (i + 1) hs (metas ++ describe base lower_ext h ∷ []) (files ++ i ∷ [])) [
        | inl (res, live) ↦ inl (
          res ∙ ap ok (append_assoc metas (describe base lower_ext h ∷ []) _),
          live ∙ append_assoc files (i ∷ []) _,
        )
        | inr broke ↦ inr broke
      ]

  -- FormFiles returns every file of the field, described and open, in the order of the form; or it
  -- returns an error and has closed all that it opened.
  pub form_files-Opened :
      (hs : List (Header × Option Text)) → Opened hs (form_files base lower_ext none (some hs))
  unfolding Opened form_files
  form_files-Opened [] = inr (_, refl, refl)
  form_files-Opened (h ∷ hs) = loop-Opened 0 (h ∷ hs) [] []
