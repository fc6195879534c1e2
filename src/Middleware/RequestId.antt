-- ===== src/Middleware/RequestId.antt =====
-- middleware/requestid/requestid.go. The identifier that the generator would give is a parameter.
use text.Mathlib.TextPositions.{eq_refl as str_eq_refl}
use revelt.Base.{
  String, ◌≡◌, refl, ◌∙◌, true, List, [], ◌∷◌, Option, none, some, if◌then◌else◌, sym, Bool-cases,
  inl, inr,
}
use revelt.Text.{Text, text_eq}
use revelt.Http.{
  Request, set_key, Action, set_given, returned, Handler, before, adapt, commit, no_headers,
  headers_after,
}
use revelt.Http.Exec.{Spares}
use revelt.Http.Handlers.{set_before}

abbrev header_key : String
header_key = "X-Request-ID"

abbrev pub or_key : Option String → String
or_key none = header_key
or_key (some k) = k

abbrev pub request_id : Text → String → Request → Text
request_id generated header r =
    if text_eq (r.headers header) [] then generated else r.headers header

-- r.Header.Set on the request that the handler sees.
abbrev pub identified : String → Text → Request → Request
identified header rid r = record r { headers = set_key r.headers header rid }

-- The request that the handler sees.
abbrev pub seen : Text → String → Request → Request
seen generated k r =
    if text_eq (r.headers k) [] then identified k (request_id generated k r) r else r

-- The middleware of WithConfig; `header` is none where Config.Header is empty.
unfoldable pub with_config : Text → Option String → Handler → Handler
with_config generated header next r h =
    let k = or_key header in
    let rid = request_id generated k r in
    before (set_given ((true, (k, rid)) ∷ [])) next (seen generated k r) h

set_alone :
    (k : String) (rid : Text) → headers_after no_headers (set_given ((true, (k, rid)) ∷ [])) k ≡ rid
unfolding headers_after set_given
set_alone k rid = rw (str_eq_refl k) refl

seen_id :
    (generated : Text) (k : String) (r : Request)
    → (seen generated k r).headers k ≡ request_id generated k r
seen_id generated k r = elim (Bool-cases (text_eq (r.headers k) [])) [
  | inl absent ↦ rw (absent, str_eq_refl k) refl
  | inr given ↦ rw (given) refl
]

-- Where the handler returns without an error and leaves the header alone, the response is sent with
-- the identifier that the handler sees on its request, under the configured header or the default one.
request_id_agrees :
    (generated : Text) (header : Option String) (next : Handler) (r : Request)
    (err_handler : Text → List Action)
    → let k = or_key header in
      let rid = request_id generated k r in
      let inner =
        next (seen generated k r) (headers_after no_headers (set_given ((true, (k, rid)) ∷ []))) in
      inner.1 ≡ returned none
      → Spares k inner.0
      → (commit 200 (adapt err_handler (with_config generated header next) r)).sent k
        ≡ (seen generated k r).headers k
unfolding with_config adapt
request_id_agrees generated header next r err_handler fine spares =
    let k = or_key header in
    let rid = request_id generated k r in
    set_before ((true, (k, rid)) ∷ []) next (seen generated k r) err_handler k fine spares
    ∙ set_alone k rid
    ∙ sym (seen_id generated k r)
