-- ===== src/Examples/Sessions.antt =====
-- The cookie, flash and logger middleware at concrete inputs.
use revelt.Base.{
  take, length, ◌*◌, ℕ, suc, ◌≡◌, ◌⊎◌, refl, Bool, true, false, [], ◌∷◌, ◌++◌, Option, none, some,
  arith, leb, ◌+◌, str_eq, ◌==◌, if◌then◌else◌,
}
use revelt.Text.{Text, codes}
use revelt.Http.{Request, Handler, write, write_header, returned, no_headers}
use revelt.Http.Jar.{jar_after, with_jar}
use revelt.Middleware.CookieAuth.{
  normalize_options, CookieConfig, build, Session, Got, session, undecodable, Saved, encoded,
  set_state,
}
use revelt.Middleware.CookieAuth.Window.{ReadsBack, LetThrough}
use revelt.Middleware.CookieAuth.Login.{login_lasts}
use revelt.Middleware.CookieAuth.Guard.{Enforced, IsAuthentic, IsRefused, cookie_guards}
use revelt.Middleware.Flash as Flash
use revelt.Middleware.Flash.Once as Once

abbrev hour : ℕ
hour = 3_600_000_000_000

abbrev bit : Bool → ℕ
bit true = 1
bit false = 0

abbrev last_codes : Option ℕ → Text → Text
last_codes none s = 0 ∷ s
last_codes (some n) s = 1 ∷ n ∷ s

abbrev state_codes : Option Text → Text
state_codes none = []
state_codes (some v) = 1 ∷ v

abbrev state_of : Text → Option Text
state_of [] = none
state_of (c ∷ v) = some v

-- A store that keeps a session in the open.
abbrev save : Session → Saved
save s = encoded (bit s.authenticated ∷ last_codes s.last_access (state_codes s.state))

abbrev get : Text → Got
get [] = undecodable []
get (a ∷ []) = undecodable []
get (a ∷ (ℕ.zero ∷ s)) =
    session (record { authenticated = a == 1; state = state_of s; last_access = none })
get (a ∷ (suc x ∷ [])) = undecodable []
get (a ∷ (suc x ∷ (n ∷ s))) =
    session (record { authenticated = a == 1; state = state_of s; last_access = some n })

reads :
    (b : Bool) (v : Option Text) (last : Option ℕ)
    → get (bit b ∷ last_codes last (state_codes v))
      ≡ session (record { authenticated = b; state = v; last_access = last })
reads true none none = refl
reads true none (some n) = refl
reads true (some v) none = refl
reads true (some v) (some n) = refl
reads false none none = refl
reads false none (some n) = refl
reads false (some v) none = refl
reads false (some v) (some n) = refl

-- A store whose codec refuses what is older than thirty days, here by the time of the last access.
abbrev get_at : ℕ → Text → Got
get_at now t = elim (get t) [
  | session s ↦ elim s.last_access [
    | none ↦ session s
    | some last ↦ if leb now (last + 720 * hour) then session s else undecodable []
  ]
  | undecodable e ↦ undecodable e
]

abbrev save_at : ℕ → Session → Saved
save_at now s = save s

save-ReadsBack : ReadsBack get_at save_at (720 * hour) (codes "ann")
save-ReadsBack at = (_, refl, λ now from to. ground arith)

abbrev config : CookieConfig
config = record { options = none; skip_auth = none; error_handler = none }

abbrev new_session : Request
new_session = record {
  method = "GET";
  path = codes "/";
  headers = λ k.
      if str_eq k "Cookie"
      then codes "abc"
      else if str_eq k "Accept"
      then codes "text/html"
      else [];
  remote_addr = codes "10.0.0.1:4000";
  ctx = λ k. none;
}

abbrev hello : Handler
hello r h = (write (codes "hello") ∷ [], returned none)

login_lasts_example :
    let (calls, fault) =
      set_state
        (get_at 0)
        (save_at 0)
        (some (build "session" config))
        0
        new_session
        (codes "ann") in
    (fault ≡ none)
    × LetThrough get_at save_at
        (720 * hour)
        (codes "ann")
        (build "session" config)
        hello
        new_session
        no_headers
        (jar_after "session" calls [])
        (hour ∷ 12 * hour ∷ 23 * hour ∷ [])
unfolding build normalize_options
login_lasts_example =
    login_lasts get_at save_at "session" config hello new_session no_headers
      (record { authenticated = false; state = none; last_access = some 99 }) 0 (720 * hour)
      (codes "ann") (hour ∷ 12 * hour ∷ 23 * hour ∷ []) refl save-ReadsBack (omega arith)
      (λ r' h' jar. refl)
      (omega arith, omega arith, (omega arith, omega arith, (omega arith, omega arith, tt)))

-- Three days after the last access.
cookie_guards_example :
    IsAuthentic get save
      (build "session" config)
      (72 * hour)
      hello
      (with_jar new_session (1 ∷ 1 ∷ 0 ∷ []))
      no_headers
    ⊎ IsRefused get save
        (build "session" config)
        (72 * hour)
        hello
        (with_jar new_session (1 ∷ 1 ∷ 0 ∷ []))
        no_headers
unfolding build
cookie_guards_example =
    cookie_guards get save (build "session" config) (72 * hour) hello
      (with_jar new_session (1 ∷ 1 ∷ 0 ∷ [])) no_headers never
  where
    never : Enforced (build "session" config) (with_jar new_session (1 ∷ 1 ∷ 0 ∷ []))
    never skips h = absurd (ground arith)

-- A store that keeps the message and its class in the open.
abbrev packed : Option Flash.Flash → ℕ × Text
packed none = (0, [])
packed (some fm) = (1, length fm.message ∷ (fm.message ++ fm.class))

abbrev keep : Flash.Values → Flash.Saved
keep v = let (c, s) = packed (v Flash.flash_message_key) in Flash.encoded (c ∷ s)

abbrev drop : ℕ → Text → Text
drop ℕ.zero s = s
drop (suc n) [] = []
drop (suc n) (c ∷ s) = drop n s

abbrev look : Text → Flash.Values
look (suc x ∷ (n ∷ s)) k = some (record { message = take n s; class = drop n s })
look _ k = none

abbrev greet : Option Flash.Flash → Handler
greet fm r h = (write (Flash.message fm).message ∷ [], returned none)

abbrev decimal : ℕ → Text
decimal n = n ∷ []

abbrev no_host : Text → Option Text
no_host s = none

abbrev created : Handler
created r h = (write_header 201 ∷ write (codes "made") ∷ [], returned none)

abbrev fails : Handler
fails r h = ([], returned (some (codes "no rows")))
