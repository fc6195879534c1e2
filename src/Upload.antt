-- ===== src/Upload.antt =====
-- http.go: UploadedFile, FormFile, FormFiles and SaveUploadedFile. The multipart form, filepath and the
-- file system's answers are parameters; a handle is the position of its file in the form.
pub mod Save
pub mod Handles
use revelt.Base.{
  ◌*◌, ℕ, ◌+◌, ◌<◌, Bool, true, false, ◌||◌, ◌&&◌, List, [], ◌∷◌, ◌++◌, Option, none, some, length,
  ltb, ◌==◌, if◌then◌else◌,
}
use revelt.Text.{Text, codes, text_eq}
use revelt.Config.{assign, find}
use revelt.Reader.{Source, Sink, one_beyond, limit_reader, copy}

-- multipart.FileHeader: the name and size that the client declared.
pub record Header : Type 0 where
  pub filename : Text
  pub size : ℕ

pub record UploadedFile : Type 0 where
  pub header : Header
  pub filename : Text
  pub ext : Text
  pub size : ℕ

-- http.Request.FormFile.
pub data Field : Type 0 where
  held : Header → Source → Field
  missing : Field
  unreadable : Text → Field

pub data SaveError : Type 0 where
  no_multipart_file body_too_large : SaveError
  form_fault no_directory no_destination writing closing : Text → SaveError

pub data Result {ℓ} (A : Type ℓ) : Type ℓ where
  ok : A → Result A
  failed : SaveError → Result A

-- A name that Base can give for no file becomes "upload".
unfoldable pub safe_name : Text → Text
safe_name name =
    if text_eq name (codes ".") || text_eq name (codes "..") || text_eq name (codes "/")
    then codes "upload"
    else name

-- The answers of the file system: `sink` says how writing goes.
pub record Disk : Type 0 where
  pub mkdir_fault : Option Text
  pub open_fault : Option Text
  pub sink : Sink
  pub close_fault : Option Text
  pub remove_fault : Option Text

abbrev pub sound_disk : Disk
sound_disk = record {
  mkdir_fault = none;
  open_fault = none;
  sink = none;
  close_fault = none;
  remove_fault = none;
}

-- The contents of the files, by their paths.
abbrev pub Files : Type 0
Files = List (Text × Text)

-- os.Remove where it succeeds.
unfoldable pub remove : Text → Files → Files
remove path [] = []
remove path ((p, data') ∷ fs) =
    let rest = remove path fs in if text_eq p path then rest else (p, data') ∷ rest

-- `_ = os.Remove(path)`: a removal that fails leaves the file.
unfoldable pub try_remove : Disk → Text → Files → Files
unfolding remove
try_remove disk path fs = elim disk.remove_fault [ none ↦ remove path fs | some e ↦ fs ]

abbrev pub limited : ℕ → Source → Source
limited max_bytes src = if ltb 0 max_bytes then limit_reader (one_beyond max_bytes) src else src

-- Closing a handle, and each handle of a slice.
close_handle : ℕ → List ℕ → List ℕ
close_handle i [] = []
close_handle i (j ∷ live) = let rest = close_handle i live in if i == j then live else j ∷ rest

unfoldable pub close_each : List ℕ → List ℕ → List ℕ
unfolding close_handle
close_each [] live = live
close_each (i ∷ files) live = close_each files (close_handle i live)

-- `base` is filepath.Base of filepath.Clean, `lower_ext` the lowercased filepath.Ext.
module _ (base lower_ext : Text → Text) where
  abbrev pub describe : Header → UploadedFile
  describe h = record {
    header = h;
    filename = safe_name (base h.filename);
    ext = lower_ext (safe_name (base h.filename));
    size = h.size;
  }

  unfoldable pub form_file : Field → Result (UploadedFile × Source)
  form_file (held h src) = ok (describe h, src)
  form_file missing = failed no_multipart_file
  form_file (unreadable e) = failed (form_fault e)

  -- SaveUploadedFile from the copy on: `written` and the error are those of io.Copy.
  unfoldable pub finish_save :
      Text → ℕ → Disk → UploadedFile → Text → Option Text → Files → Files × Result UploadedFile
  unfolding try_remove
  finish_save dest max_bytes disk meta written copy_fault fs =
      if ltb 0 max_bytes && ltb max_bytes (length written)
      then (try_remove disk dest fs, failed body_too_large)
      else elim copy_fault [
        | some e ↦ (try_remove disk dest fs, failed (writing e))
        | none ↦ elim disk.close_fault [
          | some e ↦ (try_remove disk dest fs, failed (closing e))
          | none ↦ (fs, ok (record meta { size = length written }))
        ]
      ]

  -- os.OpenFile truncates the file; then the bytes are copied.
  unfoldable pub write_file :
      Text → ℕ → Disk → UploadedFile × Source → Files → Files × Result UploadedFile
  unfolding finish_save
  write_file dest max_bytes disk (meta, src) fs =
      let (written, copy_fault) = copy disk.sink (limited max_bytes src) in
      finish_save dest max_bytes disk meta written copy_fault (assign dest written fs)

  -- SaveUploadedFile.
  unfoldable pub save_uploaded_file : Field → Text → ℕ → Disk → Files → Files × Result UploadedFile
  unfolding form_file write_file
  save_uploaded_file field dest max_bytes disk fs = elim (form_file field) [
    | failed e ↦ (fs, failed e)
    | ok file ↦ elim disk.mkdir_fault [
      | some e ↦ (fs, failed (no_directory e))
      | none ↦ elim disk.open_fault [
        | some e ↦ (fs, failed (no_destination e))
        | none ↦ write_file dest max_bytes disk file fs
      ]
    ]
  ]

  -- The loop of FormFiles: the files with the error of Open, if any; `files` are the handles in the
  -- slice and `live` those that are open.
  unfoldable pub open_loop :
      ℕ
      → List (Header × Option Text)
      → List UploadedFile
      → List ℕ
      → List ℕ
      → Result (List UploadedFile) × List ℕ
  unfolding close_each
  open_loop i [] metas files live = (ok metas, live)
  open_loop i ((h, none) ∷ hs) metas files live =
      open_loop (i + 1) hs (metas ++ describe h ∷ []) (files ++ i ∷ []) (live ++ i ∷ [])
  open_loop i ((h, some e) ∷ hs) metas files live = (failed (form_fault e), close_each files live)

  -- FormFiles: `parsed` is the error of the form's parsing, where that is still to be done.
  unfoldable pub form_files :
      Option Text → Option (List (Header × Option Text)) → Result (List UploadedFile) × List ℕ
  unfolding open_loop
  form_files (some e) field = (failed (form_fault e), [])
  form_files none none = (failed no_multipart_file, [])
  form_files none (some []) = (failed no_multipart_file, [])
  form_files none (some (h ∷ hs)) = open_loop 0 (h ∷ hs) [] [] []

-- defaultMaxMultipartMemory: 32 MiB.
abbrev pub default_max_multipart_memory : ℕ
default_max_multipart_memory = 32 * 1_048_576

-- ParseMultipartForm: `parse` is the request's own, with the error that it returns at a limit. A limit that
-- is not positive is 0.
unfoldable pub parse_multipart_form : (ℕ → Option Text) → ℕ → Option Text
parse_multipart_form parse max_memory =
    elim (parse (if max_memory == 0 then default_max_multipart_memory else max_memory)) [
      | none ↦ none
      | some e ↦ some (codes "revelt: parsing multipart form: " ++ e)
    ]
