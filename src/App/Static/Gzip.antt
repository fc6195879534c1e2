-- ===== src/App/Static/Gzip.antt =====
-- app.go: what a client that accepts gzip gets of a static file.
use mathlib.Core.List.{append_assoc, append-nil}
use revelt.Base.{
  inr, inl, Bool-cases, ℕ, ◌≡◌, ◌≤◌, ◌≢◌, refl, sym, ap, ◌∙◌, true, false, List, [], ◌∷◌, ◌++◌,
  Option, some, arith, All, map,
}
use revelt.Text.{Text, codes}
use revelt.Http.{
  set_key, Action, set_header, del_header, set_cookie, write_header, write, flush, Response,
  Request, Headers, Handler, returned, act, exec, blank, is_bodyless,
}
use revelt.Http.Exec.{exec-append, commit_again, commit_final}
use revelt.Middleware.Gzip.{Compressor}
use revelt.Middleware.Gzip.Stream.{concat, feed}
use revelt.App.Static.{none, Buffered, empty_buffer, hold_all, copied, flush_buffer, buffered}

-- The call changes only the header map.
abbrev pub IsHeader : Action → Type 0
IsHeader (set_header k v) = Unit {0}
IsHeader (del_header k) = Unit {0}
IsHeader _ = ⊥

hold_all-headers :
    (hs rest : List Action) (g : Buffered)
    → All IsHeader hs
    → hold_all (hs ++ rest) g ≡ ((hold_all rest g).0, hs ++ (hold_all rest g).1)
unfolding hold_all
hold_all-headers [] rest g ok = refl
hold_all-headers (set_header k v ∷ hs) rest g ok = rw (hold_all-headers hs rest g ok.1) refl
hold_all-headers (del_header k ∷ hs) rest g ok = rw (hold_all-headers hs rest g ok.1) refl
hold_all-headers (set_cookie c ∷ hs) rest g ok = absurd ok.0
hold_all-headers (write_header code ∷ hs) rest g ok = absurd ok.0
hold_all-headers (write p ∷ hs) rest g ok = absurd ok.0
hold_all-headers (flush ∷ hs) rest g ok = absurd ok.0

hold_all-writes :
    (ps : List Text) (g : Buffered)
    → hold_all (map write ps) g ≡ (record g { buf = g.buf ++ concat ps }, [])
unfolding hold_all
hold_all-writes [] g = rw (append-nil g.buf) refl
hold_all-writes (p ∷ ps) g =
    rw (hold_all-writes ps (record g { buf = g.buf ++ p }), append_assoc g.buf p (concat ps)) refl

-- Nothing has been sent and nothing has been written.
abbrev pub IsFresh : Response → Type 0
IsFresh w = (w.status ≡ 0) × (w.body ≡ [])

exec-headers-IsFresh :
    (hs : List Action) (w : Response) → All IsHeader hs → IsFresh w → IsFresh (exec hs w)
unfolding exec act
exec-headers-IsFresh [] w ok f = f
exec-headers-IsFresh (set_header k v ∷ hs) w ok f =
    exec-headers-IsFresh hs (act (set_header k v) w) ok.1 f
exec-headers-IsFresh (del_header k ∷ hs) w ok f =
    exec-headers-IsFresh hs (act (del_header k) w) ok.1 f
exec-headers-IsFresh (set_cookie c ∷ hs) w ok f = absurd ok.0
exec-headers-IsFresh (write_header code ∷ hs) w ok f = absurd ok.0
exec-headers-IsFresh (write p ∷ hs) w ok f = absurd ok.0
exec-headers-IsFresh (flush ∷ hs) w ok f = absurd ok.0

act-write_full :
    (p : Text) (w : Response)
    → w.status ≢ 0
    → is_bodyless w.status ≡ false
    → act (write p) w ≡ record w { body = w.body ++ p }
unfolding act
act-write_full p w sent full = rw (commit_again 200 w sent, full) refl

act-write_none :
    (p : Text) (w : Response) → w.status ≢ 0 → is_bodyless w.status ≡ true → act (write p) w ≡ w
unfolding act
act-write_none p w sent none_allowed = rw (commit_again 200 w sent, none_allowed) refl

exec-writes_full :
    (ps : List Text) (w : Response)
    → w.status ≢ 0
    → is_bodyless w.status ≡ false
    → exec (map write ps) w ≡ record w { body = w.body ++ concat ps }
unfolding exec act
exec-writes_full [] w sent full = rw (append-nil w.body) refl
exec-writes_full (p ∷ ps) w sent full =
    ap (exec (map write ps)) (act-write_full p w sent full)
    ∙ exec-writes_full ps (record w { body = w.body ++ p }) sent full
    ∙ ap (λ t. record w { body = t }) (append_assoc w.body p (concat ps))

exec-writes_none :
    (ps : List Text) (w : Response)
    → w.status ≢ 0
    → is_bodyless w.status ≡ true
    → exec (map write ps) w ≡ w
unfolding exec act
exec-writes_none [] w sent none_allowed = refl
exec-writes_none (p ∷ ps) w sent none_allowed =
    ap (exec (map write ps)) (act-write_none p w sent none_allowed)
    ∙ exec-writes_none ps w sent none_allowed

module _ (z : Compressor) where
  open z use {State, start, push, finish}

  -- What a decoder must undo: any number of writes to the compressor.
  abbrev pub Inverts : (Text → Option Text) → Type 0
  Inverts decode =
      (ps : List Text)
      → decode ((feed z start [] ps).1 ++ finish (feed z start [] ps).0) ≡ some (concat ps)

  copied-decodes :
      (decode : Text → Option Text) (s : Text)
      → Inverts decode
      → decode ((copied z s).1 ++ finish (copied z s).0) ≡ some s
  copied-decodes decode [] inverts = inverts []
  copied-decodes decode (c ∷ s) inverts = inverts ((c ∷ s) ∷ []) ∙ ap some (append-nil (c ∷ s))

  -- What FileServer calls: some header lines, the status and the pieces of the body.
  abbrev pub file_calls : List Action → ℕ → List Text → List Action
  file_calls hs code ps = hs ++ write_header code ∷ map write ps

  buffered-calls :
      (base : Handler) (r : Request) (h : Headers) (hs : List Action) (code : ℕ) (ps : List Text)
      → All IsHeader hs
      → base r h ≡ (file_calls hs code ps, returned none)
      → buffered z base r h
        ≡ (hs ++ flush_buffer z (record { buf = concat ps; status_code = code }), returned none)
  unfolding buffered hold_all
  buffered-calls base r h hs code ps ok calls =
      rw
        (
          calls,
          hold_all-headers hs (write_header code ∷ map write ps) empty_buffer ok,
          hold_all-writes ps (record empty_buffer { status_code = code }),
          append-nil hs,
        )
        refl

  -- What FileServer sends without the buffer, after some header lines.
  sent_plain :
      (code : ℕ) (ps : List Text) (w : Response)
      → IsFresh w
      → 200 ≤ code
      → let u = exec (write_header code ∷ map write ps) w in
        (u.status ≡ code)
        × (u.sent ≡ w.headers)
        × (is_bodyless code ≡ false → u.body ≡ concat ps)
        × (is_bodyless code ≡ true → u.body ≡ [])
  unfolding exec act
  sent_plain code ps w fresh_w real =
      let begun = record w { status = code; sent = w.headers; sent_cookies = w.cookies } in
      let begins = ap (exec (map write ps)) (commit_final code w real fresh_w.0) in
      elim (Bool-cases (is_bodyless code)) [
        | inl none_allowed ↦
            let all = begins ∙ exec-writes_none ps begun (omega arith) none_allowed in
            (
              ap (λ u. u.status) all,
              ap (λ u. u.sent) all,
              λ b. absurd (ground arith),
              λ b. ap (λ u. u.body) all ∙ fresh_w.1,
            )
        | inr full ↦
            let all = begins ∙ exec-writes_full ps begun (omega arith) full in
            (
              ap (λ u. u.status) all,
              ap (λ u. u.sent) all,
              λ b. ap (λ u. u.body) all ∙ ap (λ t. t ++ concat ps) fresh_w.1,
              λ b. absurd (ground arith),
            )
      ]

  sent_buffered :
      (code : ℕ) (s : Text) (w : Response)
      → IsFresh w
      → 200 ≤ code
      → let u = exec (flush_buffer z (record { buf = s; status_code = code })) w in
        (u.status ≡ code)
        × (u.sent
            ≡ set_key (set_key w.headers "Content-Encoding" (codes "gzip")) "Content-Length" [])
        × (is_bodyless code ≡ false → u.body ≡ (copied z s).1 ++ finish (copied z s).0)
        × (is_bodyless code ≡ true → u.body ≡ [])
  unfolding exec act flush_buffer
  sent_buffered code s w (unsent, empty) real =
      (ground arith, ground arith, λ b. ground arith, λ b. ground arith)

  -- A client that accepts gzip gets the file that FileServer serves with a status of 200 or above: the same status, every header
  -- line the same but for the encoding and the length, and, where `decode` inverts the compressor, a
  -- body that decodes to the plain one, or none where the status allows none.
  pub static_gzip :
      (decode : Text → Option Text) (base : Handler) (r : Request) (h : Headers) (hs : List Action)
      (code : ℕ) (ps : List Text)
      → Inverts decode
      → 200 ≤ code
      → All IsHeader hs
      → base r h ≡ (file_calls hs code ps, returned none)
      → let w = exec (base r h).0 blank in
        let u = exec (buffered z base r h).0 blank in
        (u.status ≡ w.status)
        × (u.sent ≡ set_key (set_key w.sent "Content-Encoding" (codes "gzip")) "Content-Length" [])
        × (is_bodyless code ≡ false → decode u.body ≡ some w.body)
        × (is_bodyless code ≡ true → u.body ≡ w.body)
  static_gzip decode base r h hs code ps inverts real ok calls =
      let fresh_w = exec-headers-IsFresh hs blank ok (refl, refl) in
      let (s1, h1, b1, n1) = sent_plain code ps (exec hs blank) fresh_w real in
      let (s2, h2, b2, n2) = sent_buffered code (concat ps) (exec hs blank) fresh_w real in
      rw
        (
          buffered-calls base r h hs code ps ok calls,
          calls,
          exec-append hs (write_header code ∷ map write ps) blank,
          exec-append hs (flush_buffer z (record { buf = concat ps; status_code = code })) blank,
        )
        (
          s2 ∙ sym s1,
          rw h1 h2,
          λ b. ap decode (b2 b) ∙ copied-decodes decode (concat ps) inverts ∙ ap some (sym (b1 b)),
          λ b. n2 b ∙ sym (n1 b),
        )
