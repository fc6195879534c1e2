-- ===== src/Http/Jar.antt =====
-- A client of the middleware: it sends back the cookie it was given last.
use revelt.Base.{String, str_eq, eq_iff, ◌≡◌, refl, true, List, [], ◌∷◌, if◌then◌else◌}
use revelt.Text.{Text}
use revelt.Http.{Request, Action, set_cookie, set_key}

-- The cookie of that name that the client holds after some calls.
abbrev pub jar_after : String → List Action → Text → Text
jar_after name [] jar = jar
jar_after name (set_cookie c ∷ as') jar =
    jar_after name as'
      (if str_eq c.name name then (if c.max_age_negative then [] else c.value) else jar)
jar_after name (_ ∷ as') jar = jar_after name as' jar

abbrev pub with_jar : Request → Text → Request
with_jar r jar = record r { headers = set_key r.headers "Cookie" jar }

pub str_eq_refl : (k : String) → str_eq k k ≡ true
str_eq_refl k = (eq_iff k k).1 refl
