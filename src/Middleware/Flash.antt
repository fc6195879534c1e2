-- ===== src/Middleware/Flash.antt =====
-- middleware/flash/flash.go. The gorilla store is two parameters: the values of the session that Get
-- makes of the request's cookie, empty where it cannot, and the text that Save puts into the cookie.
pub mod Once
use revelt.Base.{
  ◌==◌, ℕ, String, Bool, true, false, not, ◌||◌, ◌&&◌, str_eq, List, [], ◌∷◌, ◌++◌, Option, none,
  some, if◌then◌else◌,
}
use revelt.Text.{Text, codes, has_prefix}
use revelt.Http.{Request, Headers, Action, set_cookie, Outcome, Handler, before}

-- `class` is the field Type.
pub record Flash : Type 0 where
  pub message : Text
  pub class : Text

abbrev pub Values : Type 0
Values = String → Option Flash

abbrev pub no_values : Values
no_values k = none

abbrev pub put : Values → String → Flash → Values
put v k fm j = if str_eq k j then some fm else v j

pub data Saved : Type 0 where
  encoded unencodable : Text → Saved

abbrev pub session_name : String
session_name = "flash_messages_session"

abbrev pub flash_message_key : String
flash_message_key = "flash_message"

abbrev pub message_success : ℕ
message_success = 0

abbrev pub message_info : ℕ
message_info = 1

abbrev pub message_warning : ℕ
message_warning = 2

-- The switch of FlashMessage.
unfoldable pub class_name : List ℕ → Text
class_name [] = codes "danger"
class_name (n ∷ _) =
    if n == message_info
    then codes "info"
    else if n == message_success
    then codes "success"
    else if n == message_warning
    then codes "warning"
    else codes "danger"

-- The cookie of sess.Save, with the options of the store.
abbrev pub session_cookie : Text → Action
session_cookie value = set_cookie (record {
  name = session_name;
  value = value;
  max_age_negative = false;
  http_only = true;
  secure = false;
})

-- The cookie of the request, expired.
abbrev pub expired_cookie : Text → Action
expired_cookie value = set_cookie (record {
  name = session_name;
  value = value;
  max_age_negative = true;
  http_only = false;
  secure = false;
})

-- What an operation does to the session's values, its calls, and its error.
pub record Change : Type 0 where
  pub values : Values
  pub calls : List Action
  pub fault : Option Text

module _ (save : Values → Saved) where
  unfoldable pub set_flash_message : Values → String → Flash → Change
  set_flash_message values key fm = elim (save (put values key fm)) [
    | unencodable e ↦ record {
      values = put values key fm;
      calls = [];
      fault = some (codes "flash: saving session: " ++ e);
    }
    | encoded t ↦ record { values = put values key fm; calls = session_cookie t ∷ []; fault = none }
  ]

  -- Given the request's cookie, which is empty where there is none.
  unfoldable pub clear_cookie : Text → Change
  clear_cookie [] = record { values = no_values; calls = []; fault = none }
  clear_cookie (c ∷ s) = elim (save no_values) [
    | unencodable e ↦ record {
      values = no_values;
      calls = expired_cookie (c ∷ s) ∷ [];
      fault = some (codes "flash: saving cleared session: " ++ e);
    }
    | encoded t ↦ record {
      values = no_values;
      calls = expired_cookie (c ∷ s) ∷ session_cookie t ∷ [];
      fault = none;
    }
  ]

  -- The message, and the calls that delete it.
  unfoldable pub get_flash_message : Values → Text → String → Option Flash × List Action
  unfolding clear_cookie
  get_flash_message values cookie key = elim (values key) [
    | none ↦ (none, [])
    | some fm ↦ (some fm, (clear_cookie cookie).calls)
  ]

  unfoldable pub flash_message : Values → Text → List ℕ → Change
  unfolding set_flash_message class_name
  flash_message values message message_type =
      let c =
        set_flash_message values flash_message_key
          (record { message = message; class = class_name message_type }) in
      elim c.fault [
        | none ↦ c
        | some e ↦ record c { fault = some (codes "flash: setting flash message: " ++ e) }
      ]

  abbrev pub accepts_html : Request → Bool
  accepts_html r =
      has_prefix (codes "text/html") (r.headers "Accept")
      || has_prefix (codes "*/*") (r.headers "Accept")

  -- The value for the context.
  unfoldable pub shown : Option Flash → Option Flash
  shown none = none
  shown (some fm) = elim fm.message [ [] ↦ none | _ ∷ _ ↦ some fm ]

  -- FlashMessageMiddleware; the handler is given the message on its context.
  unfoldable pub flash_messages : (Text → Values) → (Option Flash → Handler) → Handler
  unfolding get_flash_message shown
  flash_messages load next r h =
      if accepts_html r
      then (let (found, calls) =
            get_flash_message (load (r.headers "Cookie")) (r.headers "Cookie") flash_message_key in
          before calls (next (shown found)) r h)
      else next none r h

-- Message, given the value on the context.
unfoldable pub message : Option Flash → Flash
message none = record { message = []; class = [] }
message (some fm) = fm
