-- ===== src/Middleware/Flash/Once.antt =====
-- middleware/flash/flash.go: a message is shown once.
use revelt.Base.{ℕ, ◌≡◌, List, ◌∷◌, Option}
use revelt.Text.{Text}
use revelt.Http.{Outcome, Request, Headers, Action, Handler, before}
use revelt.Http.Jar.{jar_after, with_jar}
use revelt.Middleware.Flash.{
  Flash, Values, Saved, encoded, session_name, flash_message_key, get_flash_message, shown,
}

-- Values can be saved, and the message of what was saved is read back.
abbrev pub ReadsBack : (Text → Values) → (Values → Saved) → Type 0
ReadsBack load save =
    (v : Values)
    → (c : ℕ) × (s : Text) × (save v ≡ encoded (c ∷ s))
      × (load (c ∷ s) flash_message_key ≡ v flash_message_key)

module _ (load : Text → Values) (save : Values → Saved) (next : Option Flash → Handler)
    (r : Request) (h : Headers) where
  -- The handler queues no message of its own.
  abbrev pub Apart : Type 0
  Apart =
      (fm : Option Flash) (r' : Request) (h' : Headers) (jar : Text)
      → jar_after session_name (next fm r' h').0 jar ≡ jar

  abbrev retrieved : Text → Option Flash × List Action
  retrieved jar = get_flash_message save (load jar) jar flash_message_key

  abbrev passed_on : Text → Option Flash × List Action → List Action × Outcome
  passed_on jar (found, calls) = before calls (next (shown save found)) (with_jar r jar) h
