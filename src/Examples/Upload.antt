-- ===== src/Examples/Upload.antt =====
-- The helpers of http.go at concrete inputs.
use revelt.Base.{ℕ, ◌<◌, ◌≤◌, ◌≡◌, refl, [], ◌∷◌, none, some, arith, length}
use revelt.Text.{Text, codes}
use revelt.Http.{Request, no_headers}
use revelt.Reader.{Source, limit_reader, one_beyond}
use revelt.Upload.{Header, held, sound_disk, save_uploaded_file, form_files}
use revelt.Upload.Save.{Ended, Untouched, save-Ended}
use revelt.Upload.Handles.{Opened, form_files-Opened}
use revelt.Json.{
  max_memory, Encoded, unencodable, Step, value, eof, decode_json, check_body, parse_body,
  only_value,
}
use revelt.Json.Decode.{IsOneValue, decode_json-accepts}

abbrev same : Text → Text
same s = s

abbrev photo : Header
photo = record { filename = codes "a.png"; size = 3 }

abbrev pixels : Source
pixels = record { bytes = codes "abc"; fault = none }

save-Ended_example :
    let (fs', res) =
      save_uploaded_file same same (held photo pixels) (codes "/up/a.png") 3 sound_disk [] in
    Ended (codes "/up/a.png") 3 none (codes "abc") pixels [] fs' res
    × Untouched (codes "/up/a.png") [] fs'
unfolding revelt.Reader.copy limit_reader one_beyond
save-Ended_example =
    save-Ended same same (codes "/up/a.png") 3 sound_disk photo pixels [] (omega arith)

form_files-Opened_example :
    Opened same same
      ((photo, none) ∷ (photo, some (codes "gone")) ∷ [])
      (form_files same same none (some ((photo, none) ∷ (photo, some (codes "gone")) ∷ [])))
form_files-Opened_example =
    form_files-Opened same same ((photo, none) ∷ (photo, some (codes "gone")) ∷ [])

-- A decoder of bodies of one character.
abbrev one_character : Text → ℕ → Step ℕ
one_character (c ∷ []) ℕ.zero = value c 1
one_character s n = eof n

decode_json-accepts_example :
    let body : Source = record { bytes = codes "7"; fault = none } in
    (body.fault ≡ none)
    × (0 < length body.bytes)
    × (length body.bytes ≤ max_memory none)
    × IsOneValue one_character body.bytes 55
unfolding max_memory decode_json check_body parse_body only_value limit_reader one_beyond
decode_json-accepts_example =
    decode_json-accepts one_character (record { bytes = codes "7"; fault = none }) none 55
      (omega arith) refl

abbrev encode_nothing : ℕ → Encoded
encode_nothing v = unencodable (codes "unsupported")

abbrev get_it : Request
get_it = record {
  method = "GET";
  path = codes "/";
  headers = no_headers;
  remote_addr = [];
  ctx = λ k. none;
}
