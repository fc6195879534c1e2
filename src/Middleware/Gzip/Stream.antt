-- ===== src/Middleware/Gzip/Stream.antt =====
-- middleware/gzip/gzip.go: the compressed response stands for the plain one.
use mathlib.Core.Path.{subst}
use mathlib.Core.List.{append_assoc, append-nil}
use revelt.Base.{
  ◌≡◌, ◌≢◌, ◌≤◌, refl, sym, ap, ◌∙◌, true, false, not, List, [], ◌∷◌, ◌++◌, Option, some, All,
  arith, ◌==◌,
}
use revelt.Text.{Text, codes}
use revelt.Http.{
  Action, set_header, del_header, set_cookie, write_header, write, flush, Response, Request,
  Handler, Headers, act, exec, blank, is_bodyless,
}
use revelt.Http.Exec.{exec-append}
use revelt.Middleware.Gzip.{Compressor, Writer, fresh, wrap, wrap_all, close, compressed}

-- A status is a final one, and nothing is flushed half-way.
abbrev pub IsPlain : Action → Type 0
IsPlain (write_header code) = 200 ≤ code
IsPlain flush = ⊥
IsPlain _ = Unit {0}

-- The texts that the handler writes.
abbrev pub written : List Action → List Text
written [] = []
written (write p ∷ as') = p ∷ written as'
written (_ ∷ as') = written as'

abbrev pub concat : List Text → Text
concat [] = []
concat (p ∷ ps) = p ++ concat ps

concat-snoc : (ps : List Text) (p : Text) → concat (ps ++ p ∷ []) ≡ concat ps ++ p
concat-snoc [] p = append-nil p
concat-snoc (q ∷ ps) p = ap (◌++◌ q) (concat-snoc ps p) ∙ sym (append_assoc q (concat ps) p)

written-cons :
    (a : Action) (as' : List Action) → written (a ∷ []) ++ written as' ≡ written (a ∷ as')
written-cons (write p) as' = refl
written-cons (set_header k v) as' = refl
written-cons (del_header k) as' = refl
written-cons (set_cookie c) as' = refl
written-cons (write_header n) as' = refl
written-cons flush as' = refl

module _ (z : Compressor) where
  open z use {State, start, push, finish}

  -- The compressor after some pushes, and what it has sent on.
  abbrev pub feed : State → Text → List Text → State × Text
  feed st out [] = (st, out)
  feed st out (p ∷ ps) = feed (push st p).0 (out ++ (push st p).1) ps

  feed-snoc :
      (st : State) (out : Text) (ps : List Text) (p : Text)
      → let (st', out') = feed st out ps in
        feed st out (ps ++ p ∷ []) ≡ ((push st' p).0, out' ++ (push st' p).1)
  feed-snoc st out [] p = refl
  feed-snoc st out (q ∷ ps) p = feed-snoc (push st q).0 (out ++ (push st q).1) ps p

  -- The plain response `w` beside the wrapper `g` and the response `u` under it, after the texts
  -- `ps` were written.
  record Sim (ps : List Text) (w u : Response) (g : Writer z) : Type 0 where
    same_status : u.status ≡ w.status
    tracked : g.status ≡ w.status
    has_written : g.header_written ≡ not (w.status == 0)
    fed : g.gw ≡ (feed start [] ps).0
    unsent : w.status ≡ 0 → u.body ≡ []
    sent_on : is_bodyless w.status ≡ false → u.body ≡ (feed start [] ps).1
    plain : is_bodyless w.status ≡ false → w.body ≡ concat ps
    no_body : is_bodyless w.status ≡ true → u.body ≡ []
    encoding :
        w.status ≢ 0 → is_bodyless w.status ≡ false → u.sent "Content-Encoding" ≡ codes "gzip"
    no_length : w.status ≢ 0 → is_bodyless w.status ≡ false → u.sent "Content-Length" ≡ []

  Sim-write :
      (p : Text) (ps : List Text) (w u : Response) (g : Writer z)
      → Sim ps w u g
      → Sim (ps ++ p ∷ []) (act (write p) w) (exec (wrap z (write p) g).1 u) (wrap z (write p) g).0
  unfolding wrap exec act
  Sim-write p ps w u g s = record {
    same_status = ground arith;
    tracked = ground arith;
    has_written = ground arith;
    fed = ground (arith, feed-snoc start [] ps p);
    unsent = ground arith;
    sent_on = ground (arith, feed-snoc start [] ps p);
    plain = ground (arith, concat-snoc ps p);
    no_body = ground arith;
    encoding = ground arith;
    no_length = ground arith;
  }

  Sim-act :
      (a : Action) (ps : List Text) (w u : Response) (g : Writer z)
      → IsPlain a
      → Sim ps w u g
      → Sim (ps ++ written (a ∷ [])) (act a w) (exec (wrap z a g).1 u) (wrap z a g).0
  unfolding wrap exec act
  Sim-act (write p) ps w u g ok s = Sim-write p ps w u g s
  Sim-act flush ps w u g ok s = absurd ok
  Sim-act _ ps w u g ok s = rw append-nil (record {
    same_status = ground arith;
    tracked = ground arith;
    has_written = ground arith;
    fed = ground arith;
    unsent = ground arith;
    sent_on = ground arith;
    plain = ground arith;
    no_body = ground arith;
    encoding = ground arith;
    no_length = ground arith;
  })

  Sim-All :
      (as' : List Action) (ps : List Text) (w u : Response) (g : Writer z)
      → All IsPlain as'
      → Sim ps w u g
      → Sim (ps ++ written as') (exec as' w) (exec (wrap_all z as' g).1 u) (wrap_all z as' g).0
  unfolding wrap_all exec
  Sim-All [] ps w u g ok s = rw append-nil s
  Sim-All (a ∷ as') ps w u g ok s =
      rw (exec-append (wrap z a g).1 (wrap_all z as' (wrap z a g).0).1 u) (
        subst
          (λ qs.
            Sim qs (exec as' (act a w))
              (exec (wrap_all z as' (wrap z a g).0).1 (exec (wrap z a g).1 u))
              (wrap_all z as' (wrap z a g).0).0)
          (append_assoc ps (written (a ∷ [])) (written as') ∙ ap (◌++◌ ps) (written-cons a as'))
          (Sim-All as' (ps ++ written (a ∷ [])) (act a w) (exec (wrap z a g).1 u) (wrap z a g).0
            ok.1 (Sim-act a ps w u g ok.0 s)))

  Sim-blank : Sim [] blank blank (fresh z)
  Sim-blank = record {
    same_status = refl;
    tracked = refl;
    has_written = refl;
    fed = refl;
    unsent = λ _. refl;
    sent_on = λ _. refl;
    plain = λ _. refl;
    no_body = λ _. refl;
    encoding = λ h. absurd (h refl);
    no_length = λ h. absurd (h refl);
  }

  -- The deferred close.
  Sim-close :
      (decode : Text → Option Text)
      → ((ps : List Text)
          → decode ((feed start [] ps).1 ++ finish (feed start [] ps).0) ≡ some (concat ps))
      → (ps : List Text) (w u : Response) (g : Writer z) → w.status ≢ 0
      → Sim ps w u g
      → ((exec (close z g) u).status ≡ w.status)
        × (is_bodyless w.status ≡ false
            → ((exec (close z g) u).sent "Content-Encoding" ≡ codes "gzip")
              × ((exec (close z g) u).sent "Content-Length" ≡ [])
              × (decode (exec (close z g) u).body ≡ some w.body))
        × (is_bodyless w.status ≡ true → (exec (close z g) u).body ≡ [])
  unfolding close exec act
  Sim-close decode inverts ps w u g sent s = (
    ground arith,
    λ b. (ground arith, ground arith, ground (arith, inverts ps)),
    λ b. ground arith,
  )

  -- What a client gets of a handler's calls through the compressing wrapper, where `decode` inverts
  -- the compressor, if the handler does not flush, sends a status of 200 or above (or writes, which
  -- sends one), and no status below 200: the same status; and if that allows a body, an encoding
  -- header, no length, and a body that decodes to the plain one; if not, no body.
  pub compressed_stream :
      (decode : Text → Option Text)
      → ((ps : List Text)
          → decode ((feed start [] ps).1 ++ finish (feed start [] ps).0) ≡ some (concat ps))
      → (next : Handler) (r : Request) (h : Headers) → All IsPlain (next r h).0
      → (exec (next r h).0 blank).status ≢ 0
      → let w = exec (next r h).0 blank in
        let u = exec (compressed z next r h).0 blank in
        (u.status ≡ w.status)
        × (is_bodyless w.status ≡ false
            → (u.sent "Content-Encoding" ≡ codes "gzip")
              × (u.sent "Content-Length" ≡ [])
              × (decode u.body ≡ some w.body))
        × (is_bodyless w.status ≡ true → u.body ≡ [])
  unfolding compressed close
  compressed_stream decode inverts next r h ok sent =
      let s = Sim-All (next r h).0 [] blank blank (fresh z) ok Sim-blank in
      rw
        (exec-append (wrap_all z (next r h).0 (fresh z)).1
          (close z (wrap_all z (next r h).0 (fresh z)).0) blank)
        (Sim-close decode inverts (written (next r h).0) _ _ _ sent s)
