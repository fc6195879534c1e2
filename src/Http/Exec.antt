-- ===== src/Http/Exec.antt =====
-- Laws of the response writer.
use revelt.Base.{
  ℕ, String, ◌≡◌, ◌≢◌, ◌≤◌, inl, inr, refl, ◌∙◌, Bool, true, false, List, [], ◌∷◌, ◌++◌, All,
  Bool-cases, ◌==◌, arith, str_eq, if◌then◌else◌,
}
use revelt.Text.{Text}
use revelt.Http.{
  Action, set_header, del_header, set_cookie, write_header, write, flush, Response, Headers,
  set_key, act, exec, headers_after, set_if, set_given, commit, is_bodyless, is_informational,
}

pub exec-append : (xs ys : List Action) (w : Response) → exec (xs ++ ys) w ≡ exec ys (exec xs w)
unfolding exec
exec-append [] ys w = refl
exec-append (x ∷ xs) ys w = exec-append xs ys (act x w)

-- A second WriteHeader changes nothing.
pub commit_again : (code : ℕ) (w : Response) → w.status ≢ 0 → commit code w ≡ w
commit_again code w sent = ground arith

pub is_informational_final : (code : ℕ) → 200 ≤ code → is_informational code ≡ false
is_informational_final code final = ground arith

-- The first WriteHeader of a final status.
pub commit_final :
    (code : ℕ) (w : Response)
    → 200 ≤ code
    → w.status ≡ 0
    → commit code w ≡ record w { status = code; sent = w.headers; sent_cookies = w.cookies }
commit_final code w final unsent = rw (is_informational_final code final, unsent) refl

-- The sent status and header do not change once they are sent.
act_sent :
    (a : Action) (w : Response)
    → w.status ≢ 0
    → ((act a w).status ≡ w.status) × ((act a w).sent ≡ w.sent)
unfolding act
act_sent a w h = ground arith

pub exec_sent :
    (xs : List Action) (w : Response)
    → w.status ≢ 0
    → ((exec xs w).status ≡ w.status) × ((exec xs w).sent ≡ w.sent)
unfolding exec
exec_sent [] w h = (refl, refl)
exec_sent (x ∷ xs) w h = ground (arith, act_sent x w h, exec_sent xs (act x w))

-- Before the header is sent there is no body.
act_unsent :
    (a : Action) (w : Response)
    → (w.status ≡ 0 → w.body ≡ [])
    → (act a w).status ≡ 0
    → (act a w).body ≡ []
unfolding act
act_unsent a w h e = ground arith

pub exec_unsent :
    (xs : List Action) (w : Response)
    → (w.status ≡ 0 → w.body ≡ [])
    → (exec xs w).status ≡ 0
    → (exec xs w).body ≡ []
unfolding exec
exec_unsent [] w h e = h e
exec_unsent (x ∷ xs) w h e = exec_unsent xs (act x w) (act_unsent x w h) e

pub headers_after-append :
    (h : Headers) (xs ys : List Action)
    → headers_after h (xs ++ ys) ≡ headers_after (headers_after h xs) ys
unfolding headers_after
headers_after-append h [] ys = refl
headers_after-append h (set_header k v ∷ xs) ys = headers_after-append (set_key h k v) xs ys
headers_after-append h (del_header k ∷ xs) ys = headers_after-append (set_key h k []) xs ys
headers_after-append h (set_cookie c ∷ xs) ys = headers_after-append h xs ys
headers_after-append h (write_header code ∷ xs) ys = headers_after-append h xs ys
headers_after-append h (write p ∷ xs) ys = headers_after-append h xs ys
headers_after-append h (flush ∷ xs) ys = headers_after-append h xs ys

-- The calls set other headers only.
abbrev pub Spares : String → List Action → Type 0
Spares k [] = Unit {0}
Spares k (set_header j v ∷ as') = (str_eq j k ≡ false) × Spares k as'
Spares k (del_header j ∷ as') = (str_eq j k ≡ false) × Spares k as'
Spares k (_ ∷ as') = Spares k as'

pub headers_after-Spares :
    (k : String) (h : Headers) (as' : List Action) → Spares k as' → headers_after h as' k ≡ h k
unfolding headers_after
headers_after-Spares k h [] s = refl
headers_after-Spares k h (set_header j v ∷ as') s =
    headers_after-Spares k (set_key h j v) as' s.1 ∙ rw (s.0) refl
headers_after-Spares k h (del_header j ∷ as') s =
    headers_after-Spares k (set_key h j []) as' s.1 ∙ rw (s.0) refl
headers_after-Spares k h (set_cookie c ∷ as') s = headers_after-Spares k h as' s
headers_after-Spares k h (write_header code ∷ as') s = headers_after-Spares k h as' s
headers_after-Spares k h (write p ∷ as') s = headers_after-Spares k h as' s
headers_after-Spares k h (flush ∷ as') s = headers_after-Spares k h as' s

pub Spares-append :
    (k : String) (xs ys : List Action) → Spares k xs → Spares k ys → Spares k (xs ++ ys)
Spares-append k [] ys s t = t
Spares-append k (set_header j v ∷ xs) ys s t = (s.0, Spares-append k xs ys s.1 t)
Spares-append k (del_header j ∷ xs) ys s t = (s.0, Spares-append k xs ys s.1 t)
Spares-append k (set_cookie c ∷ xs) ys s t = Spares-append k xs ys s t
Spares-append k (write_header code ∷ xs) ys s t = Spares-append k xs ys s t
Spares-append k (write p ∷ xs) ys s t = Spares-append k xs ys s t
Spares-append k (flush ∷ xs) ys s t = Spares-append k xs ys s t

pub headers_after-set_if :
    (h : Headers) (c : Bool) (k : String) (v : Text)
    → headers_after h (set_if c k v) ≡ (if c then set_key h k v else h)
unfolding headers_after
headers_after-set_if h true k v = refl
headers_after-set_if h false k v = refl

set_if-Spares :
    (k : String) (c : Bool) (j : String) (v : Text) → str_eq j k ≡ false → Spares k (set_if c j v)
set_if-Spares k true j v s = (s, tt)
set_if-Spares k false j v s = tt

abbrev pub Other : String → Bool × (String × Text) → Type 0
Other k (c, (j, v)) = str_eq j k ≡ false

pub set_given-Spares :
    (k : String) (rows : List (Bool × (String × Text)))
    → All (Other k) rows
    → Spares k (set_given rows)
unfolding set_given
set_given-Spares k [] h = tt
set_given-Spares k ((c, (j, v)) ∷ rows) h =
    Spares-append k (set_if c j v) (set_given rows) (set_if-Spares k c j v h.0)
      (set_given-Spares k rows h.1)

-- Setting headers does nothing else to a response.
pub exec-set_given :
    (rows : List (Bool × (String × Text))) (w : Response)
    → exec (set_given rows) w ≡ record w { headers = headers_after w.headers (set_given rows) }
unfolding set_given exec act headers_after
exec-set_given [] w = refl
exec-set_given ((true, (j, v)) ∷ rows) w =
    exec-set_given rows (record w { headers = set_key w.headers j v })
exec-set_given ((false, (j, v)) ∷ rows) w = exec-set_given rows w

-- The header `k` is, or has been sent as, `v`.
abbrev pub Shows : String → Text → Response → Type 0
Shows k v w = (w.status ≡ 0 → w.headers k ≡ v) × (w.status ≢ 0 → w.sent k ≡ v)

commit-Shows :
    (k : String) (v : Text) (code : ℕ) (w : Response) → Shows k v w → Shows k v (commit code w)
commit-Shows k v code w h = elim (Bool-cases (is_informational code)) [
  | inl ahead ↦ rw (ahead) h
  | inr final ↦ elim (Bool-cases (w.status == 0)) [
    | inl unsent ↦ rw (final, unsent) ((λ z. h.0 (ground arith)), (λ ne. h.0 (ground arith)))
    | inr sent ↦ rw (final, sent) h
  ]
]

act-Shows :
    (k : String) (v : Text) (a : Action) (w : Response)
    → Spares k (a ∷ [])
    → Shows k v w
    → Shows k v (act a w)
unfolding act
act-Shows k v (set_header j t) w s h = ((λ z. rw (s.0) (h.0 z)), h.1)
act-Shows k v (del_header j) w s h = ((λ z. rw (s.0) (h.0 z)), h.1)
act-Shows k v (set_cookie c) w s h = h
act-Shows k v (write_header code) w s h = commit-Shows k v code w h
act-Shows k v (write p) w s h = elim (Bool-cases (is_bodyless (commit 200 w).status)) [
  | inl no_body ↦ rw (no_body) (commit-Shows k v 200 w h)
  | inr body ↦ rw (body) (commit-Shows k v 200 w h)
]
act-Shows k v flush w s h = commit-Shows k v 200 w h

-- Calls that set other headers only.
exec-Shows :
    (k : String) (v : Text) (as' : List Action) (w : Response)
    → Spares k as'
    → Shows k v w
    → Shows k v (exec as' w)
unfolding exec
exec-Shows k v [] w s h = h
exec-Shows k v (set_header j t ∷ as') w s h =
    exec-Shows k v as' _ s.1 (act-Shows k v (set_header j t) w (s.0, tt) h)
exec-Shows k v (del_header j ∷ as') w s h =
    exec-Shows k v as' _ s.1 (act-Shows k v (del_header j) w (s.0, tt) h)
exec-Shows k v (set_cookie c ∷ as') w s h =
    exec-Shows k v as' _ s (act-Shows k v (set_cookie c) w tt h)
exec-Shows k v (write_header code ∷ as') w s h =
    exec-Shows k v as' _ s (act-Shows k v (write_header code) w tt h)
exec-Shows k v (write p ∷ as') w s h = exec-Shows k v as' _ s (act-Shows k v (write p) w tt h)
exec-Shows k v (flush ∷ as') w s h = exec-Shows k v as' _ s (act-Shows k v flush w tt h)

committed : (w : Response) → (commit 200 w).status ≢ 0
committed w = ground arith

-- A header that stands before the calls of a handler is sent with its response.
pub header_sent :
    (k : String) (v : Text) (as' : List Action) (w : Response)
    → Spares k as'
    → w.status ≡ 0
    → w.headers k ≡ v
    → (commit 200 (exec as' w)).sent k ≡ v
header_sent k v as' w s z e =
    let shown = exec-Shows k v as' w s ((λ _. e), (λ ne. absurd (ne z))) in
    (commit-Shows k v 200 (exec as' w) shown).1 (committed (exec as' w))
